-- ===== src/Containers/LimitedMap.antt =====
-- The bounded map (src/limitedmap.h): a map, and the same pairs by value, the lowest first. Keys and
-- values are numbers; an iterator into the map is its key.
pub mod Insert
use mathlib.Core.Option
use tetra.Prelude.{
  ℕ, zero, suc, Bool, not, ◌&&◌, List, [], ◌∷◌, Option, none, some, ◌>>=◌, ◌==◌, leb, ltb,
  if◌then◌else◌, length,
}

pub record LimitedMap : Type 0 where
  pub map : List (ℕ × ℕ)
  pub rmap : List (ℕ × ℕ)
  pub max_size : ℕ

unfoldable pub find : ℕ → List (ℕ × ℕ) → Option ℕ
find k [] = none
find k ((j, v) ∷ m) = if j == k then some v else find k m

unfoldable pub erase_key : ℕ → List (ℕ × ℕ) → List (ℕ × ℕ)
erase_key k [] = []
erase_key k ((j, v) ∷ m) = let rest = erase_key k m in if j == k then m else (j, v) ∷ rest

-- A std::multimap keeps equal values in the order of their arrival.
unfoldable pub insert_pair : ℕ → ℕ → List (ℕ × ℕ) → List (ℕ × ℕ)
insert_pair v k [] = (v, k) ∷ []
insert_pair v k ((w, j) ∷ r) =
    let rest = insert_pair v k r in if leb w v then (w, j) ∷ rest else (v, k) ∷ (w, j) ∷ r

-- `none` is the assertion behind the search.
unfoldable pub erase_pair : ℕ → ℕ → List (ℕ × ℕ) → Option (List (ℕ × ℕ))
erase_pair v k [] = none
erase_pair v k ((w, j) ∷ r) =
    let rest = erase_pair v k r in
    if w == v && j == k then some r else Option.map (λ l. (w, j) ∷ l) rest

-- `none` is `rmap.begin()` of an empty map.
unfoldable pub insert : ℕ → ℕ → LimitedMap → Option LimitedMap
insert k v m = elim (find k m.map) [
  | some w ↦ some m
  | none ↦
      if not (m.max_size == 0) && suc (length m.map) == m.max_size
      then (elim m.rmap [
        | [] ↦ none
        | (w, j) ∷ r ↦
            some (record m { map = erase_key j ((k, v) ∷ m.map); rmap = insert_pair v k r })
      ])
      else some (record m { map = (k, v) ∷ m.map; rmap = insert_pair v k m.rmap })
]

unfoldable pub erase : ℕ → LimitedMap → Option LimitedMap
erase k m = elim (find k m.map) [
  | none ↦ some m
  | some v ↦
      Option.map (λ r. record m { map = erase_key k m.map; rmap = r }) (erase_pair v k m.rmap)
]

unfoldable pub replace : ℕ → ℕ → List (ℕ × ℕ) → List (ℕ × ℕ)
replace k v [] = []
replace k v ((j, w) ∷ m) = let rest = replace k v m in if j == k then (k, v) ∷ m else (j, w) ∷ rest

unfoldable pub update : ℕ → ℕ → LimitedMap → Option LimitedMap
update k v m = elim (find k m.map) [
  | none ↦ some m
  | some w ↦
      Option.map (λ r. record m { map = replace k v m.map; rmap = insert_pair v k r })
        (erase_pair w k m.rmap)
]

-- The loop of `max_size(s)`.
unfoldable pub shrink : ℕ → ℕ → LimitedMap → Option LimitedMap
shrink zero s m = some m
shrink (suc fuel) s m =
    if ltb s (length m.map)
    then (elim m.rmap [
      | [] ↦ none
      | (w, j) ∷ r ↦ shrink fuel s (record m { map = erase_key j m.map; rmap = r })
    ])
    else some m

unfoldable pub set_limit : ℕ → LimitedMap → Option LimitedMap
set_limit s m = do
  m' ← if s == 0 then some m else shrink (length m.map) s m
  some (record m' { max_size = s })
