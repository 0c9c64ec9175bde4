-- ===== src/Containers/LimitedMap/Insert.antt =====
-- What `insert` keeps of the bounded map (src/limitedmap.h).
use tetra.Prelude.{
  ℕ, suc, ◌+◌, ◌≤◌, ◌<◌, ◌≡◌, ◌≢◌, refl, sym, subst, Bool-cases, ◌&&◌, List, [], ◌∷◌, none, some,
  arith, ◌==◌, if◌then◌else◌, length, All, inl, inr, ◌⊎◌,
}
use tetra.Containers.LimitedMap.{LimitedMap, find, erase_key, insert_pair, insert}

-- How often a pair is in the map by values, and in the map.
unfoldable pub copies : ℕ → ℕ → List (ℕ × ℕ) → ℕ
copies v k [] = 0
copies v k ((w, j) ∷ r) = (if w == v && j == k then 1 else 0) + copies v k r

unfoldable pub once : ℕ → ℕ → List (ℕ × ℕ) → ℕ
once k v m = elim (find k m) [ none ↦ 0 | some w ↦ if w == v then 1 else 0 ]

abbrev pub IsMap : List (ℕ × ℕ) → Type 0
IsMap [] = Unit {0}
IsMap ((k, v) ∷ m) = (find k m ≡ none) × IsMap m

-- The lowest first.
abbrev pub IsSorted : List (ℕ × ℕ) → Type 0
IsSorted [] = Unit {0}
IsSorted ((v, k) ∷ r) = All (λ p. v ≤ p.0) r × IsSorted r

-- One entry for a key, and the same pairs by value.
pub record Inv (m : LimitedMap) : Type 0 where
  pub keys : IsMap m.map
  pub sorted : IsSorted m.rmap
  pub sizes : length m.map ≡ length m.rmap
  pub same : (k v : ℕ) → copies v k m.rmap ≡ once k v m.map

copies-insert_pair :
    (v k w j : ℕ) (r : List (ℕ × ℕ))
    → copies w j (insert_pair v k r) ≡ (if v == w && k == j then 1 else 0) + copies w j r
unfolding copies insert_pair
copies-insert_pair v k w j [] = refl
copies-insert_pair v k w j ((u, i) ∷ r) = ground (arith, copies-insert_pair v k w j r)

length-insert_pair : (v k : ℕ) (r : List (ℕ × ℕ)) → length (insert_pair v k r) ≡ suc (length r)
unfolding insert_pair
length-insert_pair v k [] = refl
length-insert_pair v k ((u, i) ∷ r) = ground (arith, length-insert_pair v k r)

All-above :
    (u v k : ℕ) (r : List (ℕ × ℕ))
    → u ≤ v
    → All (λ p. u ≤ p.0) r
    → All (λ p. u ≤ p.0) (insert_pair v k r)
unfolding insert_pair
All-above u v k [] h a = (h, tt)
All-above u v k ((w, j) ∷ r) h a = ground (arith, All-above u v k r h a.1)

All-weaker : (v w : ℕ) (r : List (ℕ × ℕ)) → v ≤ w → All (λ p. w ≤ p.0) r → All (λ p. v ≤ p.0) r
All-weaker v w [] h a = tt
All-weaker v w (p ∷ r) h a = (omega arith, All-weaker v w r h a.1)

insert_pair-IsSorted : (v k : ℕ) (r : List (ℕ × ℕ)) → IsSorted r → IsSorted (insert_pair v k r)
unfolding insert_pair
insert_pair-IsSorted v k [] h = (tt, tt)
insert_pair-IsSorted v k ((w, j) ∷ r) h =
    ground (arith, All-above w v k r, insert_pair-IsSorted v k r h.1, All-weaker v w r)

find-erase_key :
    (j k : ℕ) (m : List (ℕ × ℕ))
    → IsMap m
    → find k (erase_key j m) ≡ (if j == k then none else find k m)
unfolding find erase_key
find-erase_key j k [] h = ground arith
find-erase_key j k ((i, v) ∷ m) h = ground (arith, find-erase_key j k m h.1)

erase_key-IsMap : (j : ℕ) (m : List (ℕ × ℕ)) → IsMap m → IsMap (erase_key j m)
unfolding find erase_key
erase_key-IsMap j [] h = tt
erase_key-IsMap j ((i, v) ∷ m) h = ground (arith, erase_key-IsMap j m h.1, find-erase_key j i m h.1)

length-erase_key :
    (j v : ℕ) (m : List (ℕ × ℕ)) → find j m ≡ some v → suc (length (erase_key j m)) ≡ length m
unfolding find erase_key
length-erase_key j v [] e = cc
length-erase_key j v ((i, w) ∷ m) e = ground (arith, length-erase_key j v m)

front :
    (r : List (ℕ × ℕ))
    → 0 < length r
    → (w : ℕ) × (j : ℕ) × (rest : List (ℕ × ℕ)) × (r ≡ (w, j) ∷ rest)
front [] h = absurd (omega arith)
front ((w, j) ∷ r) h = (w, j, r, refl)

-- The pair in front is in the map, by its key.
front_found :
    (w j : ℕ) (r : List (ℕ × ℕ)) (m : List (ℕ × ℕ))
    → copies w j ((w, j) ∷ r) ≡ once j w m
    → find j m ≡ some w
unfolding copies once
front_found w j r m h = ground arith

-- A key with a value that no key has a lower one of.
abbrev pub IsLowest : ℕ → LimitedMap → Type 0
IsLowest j m = (w : ℕ) × (find j m.map ≡ some w) × All (λ p. w ≤ p.0) m.rmap

-- What is there of other keys than `k`: all of it, while there is room; with the last place taken, all but one
-- key, of the lowest value.
abbrev pub Others : ℕ → LimitedMap → LimitedMap → Type 0
Others k m m' =
    ((suc (length m.map) < m.max_size)
      × (length m'.map ≡ suc (length m.map))
      × ((i : ℕ) → i ≢ k → find i m'.map ≡ find i m.map))
    ⊎ ((suc (length m.map) ≡ m.max_size)
        × (length m'.map ≡ length m.map)
        × ((j : ℕ) × IsLowest j m
            × (find j m'.map ≡ none)
            × ((i : ℕ) → i ≢ k → i ≢ j → find i m'.map ≡ find i m.map)))

-- What a new key makes of the map.
abbrev pub HasNew : ℕ → ℕ → LimitedMap → LimitedMap → Type 0
HasNew k v m m' =
    Inv m'
    × (length m'.map < m'.max_size)
    × (m'.max_size ≡ m.max_size)
    × (find k m'.map ≡ some v)
    × Others k m m'

module _ (k v : ℕ) (m : LimitedMap) (inv : Inv m) (new : find k m.map ≡ none) where
  insert_free :
      suc (length m.map) < m.max_size
      → HasNew k v m (record m { map = (k, v) ∷ m.map; rmap = insert_pair v k m.rmap })
  unfolding find once
  insert_free room = (
    record {
      keys = (new, inv.keys);
      sorted = insert_pair-IsSorted v k m.rmap inv.sorted;
      sizes = ground (arith, length-insert_pair v k m.rmap, inv.sizes);
      same = λ j w. ground (arith, copies-insert_pair v k w j m.rmap, inv.same j w);
    },
    room,
    refl,
    ground arith,
    inl (room, refl, λ i other. ground arith),
  )

  insert_full :
      (w j : ℕ) (r : List (ℕ × ℕ))
      → m.rmap ≡ (w, j) ∷ r
      → suc (length m.map) ≡ m.max_size
      → HasNew k v m (record m { map = erase_key j ((k, v) ∷ m.map); rmap = insert_pair v k r })
  unfolding find once copies
  insert_full w j r e room =
      let grown : IsMap ((k, v) ∷ m.map) = (new, inv.keys) in
      let found : find j m.map ≡ some w =
        front_found w j r m.map (subst (λ l. copies w j l ≡ once j w m.map) e (inv.same j w)) in
      let sorted : IsSorted ((w, j) ∷ r) = subst IsSorted e inv.sorted in
      let there : find j ((k, v) ∷ m.map) ≡ some w = ground arith in
      let size = length-erase_key j w ((k, v) ∷ m.map) there in
      let all : length m.map ≡ suc (length r) = ground (arith, inv.sizes) in
      (
        record {
          keys = erase_key-IsMap j ((k, v) ∷ m.map) grown;
          sorted = insert_pair-IsSorted v k r sorted.1;
          sizes = omega (arith, length-insert_pair v k r);
          same = λ i u.
              let counted : copies u i ((w, j) ∷ r) ≡ once i u m.map =
                subst (λ l. copies u i l ≡ once i u m.map) e (inv.same i u) in
              ground
                (arith, copies-insert_pair v k u i r, find-erase_key j i ((k, v) ∷ m.map) grown);
        },
        omega arith,
        refl,
        ground (arith, find-erase_key j k ((k, v) ∷ m.map) grown),
        inr (
          room,
          omega arith,
          (
            j,
            (w, found, subst (All (λ p. w ≤ p.0)) (sym e) (omega arith, sorted.0)),
            ground (arith, find-erase_key j j ((k, v) ∷ m.map) grown),
            λ i other apart. ground (arith, find-erase_key j i ((k, v) ∷ m.map) grown),
          ),
        ),
      )

-- On a consistent map with fewer elements than its bound, which is at least 2, `insert` of a new key
-- leaves it consistent, with fewer elements than the bound and with the new key. While the new element
-- is not the last below the bound, all other keys are as before, and there is one element more; and
-- otherwise one key is gone, which no key had a lower value than, all others are as before, and there are
-- as many elements.
pub insert-HasNew :
    (k v : ℕ) (m : LimitedMap)
    → Inv m
    → 2 ≤ m.max_size
    → length m.map < m.max_size
    → find k m.map ≡ none
    → (m' : LimitedMap) × (insert k v m ≡ some m') × HasNew k v m m'
unfolding insert
insert-HasNew k v m inv many room new = elim (Bool-cases (suc (length m.map) == m.max_size)) [
  | inr free ↦ (
    record m { map = (k, v) ∷ m.map; rmap = insert_pair v k m.rmap },
    ground arith,
    insert_free k v m inv new (ground arith),
  )
  | inl full ↦
      (let (w, j, r, e) = front m.rmap (ground (arith, inv.sizes)) in
        (
          record m { map = erase_key j ((k, v) ∷ m.map); rmap = insert_pair v k r },
          ground arith,
          insert_full k v m inv new w j r e (ground arith),
        ))
]
