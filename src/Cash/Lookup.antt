-- ===== src/Cash/Lookup.antt =====
-- The amount that each circuit has after a sum or a difference.
use Prim.Native.String.{String}
use text.Mathlib.Text.{◌==◌ as str_eq}
use text.Mathlib.TextEquality.{eq_iff}
use tetra.Prelude.{◌≡◌, refl, ◌∙◌, ap, sym, [], ◌∷◌, Option, none, some, arith, if◌then◌else◌}
use tetra.Prelude.Int.{ℤ, pos, ◌-ℤ◌, +ℤ_comm}
use tetra.Prelude.Word.{add64, sub64, neg64, wrap, IsInt64, sub64-add64}
use mathlib.Core.Option.{get_or}
use tetra.Cash.{
  Cash, Entries, find, set, plus_entries, minus_entries, plus_assign, minus_assign, plus, minus,
}

-- A std::map has one entry for a name.
abbrev pub IsMap : Entries → Type 0
IsMap [] = Unit {0}
IsMap ((k, v) ∷ xs) = (find k xs ≡ none) × IsMap xs

find-set :
    (k j : String) (v : ℤ) (m : Entries)
    → find j (set k v m) ≡ (if str_eq k j then some v else find j m)
unfolding find set
find-set k j v [] = refl
find-set k j v ((i, w) ∷ m) = ground (arith, eq_iff k j, eq_iff i k, eq_iff i j, find-set k j v m)

-- What two optional amounts make together; a missing one leaves the other.
abbrev pub sum : Option ℤ → Option ℤ → Option ℤ
sum none b = b
sum (some a) none = some a
sum (some a) (some b) = some (add64 a b)

abbrev pub difference : Option ℤ → Option ℤ → Option ℤ
difference none none = none
difference none (some b) = some (neg64 b)
difference (some a) none = some a
difference (some a) (some b) = some (sub64 a b)

pub find-plus_entries :
    (j : String) (xs l : Entries)
    → IsMap xs
    → find j (plus_entries xs l) ≡ sum (find j l) (find j xs)
unfolding find plus_entries
find-plus_entries j [] l h = ground arith
find-plus_entries j ((k, v) ∷ xs) l h =
    let l' = set k (elim (find k l) [ some a ↦ add64 a v | none ↦ v ]) l in
    ground (
      arith,
      eq_iff k j,
      find-plus_entries j xs l' h.1,
      find-set k j (elim (find k l) [ some a ↦ add64 a v | none ↦ v ]) l,
    )

find-minus_entries :
    (j : String) (xs l : Entries)
    → IsMap xs
    → find j (minus_entries xs l) ≡ difference (find j l) (find j xs)
unfolding find minus_entries
find-minus_entries j [] l h = ground arith
find-minus_entries j ((k, v) ∷ xs) l h =
    let l' = set k (elim (find k l) [ some a ↦ sub64 a v | none ↦ neg64 v ]) l in
    ground (
      arith,
      eq_iff k j,
      find-minus_entries j xs l' h.1,
      find-set k j (elim (find k l) [ some a ↦ sub64 a v | none ↦ neg64 v ]) l,
    )

-- A predicate on the value, if there is one.
abbrev pub Each : (ℤ → Type 0) → Option ℤ → Type 0
Each P none = Unit {0}
Each P (some a) = P a

-- A sum of two maps, each with one entry for a name, has, for every circuit, the sum of the two
-- amounts, or the one that is there.
pub find-plus :
    (x y : Cash) (j : String)
    → IsMap x.local
    → IsMap y.local
    → find j (plus x y).local ≡ sum (find j y.local) (find j x.local)
unfolding plus plus_assign find
find-plus x y j hx hy = ground (
  arith,
  find-plus_entries j y.local [] hy,
  find-plus_entries j x.local (plus_entries y.local []) hx,
)

add64_comm : (a b : ℤ) → add64 a b ≡ add64 b a
unfolding add64
add64_comm a b = ap wrap (+ℤ_comm a b)

sum_comm : (a b : Option ℤ) → sum a b ≡ sum b a
sum_comm none none = refl
sum_comm none (some b) = refl
sum_comm (some a) none = refl
sum_comm (some a) (some b) = ap some (add64_comm a b)

-- The order of the two sides makes no difference for any circuit.
pub find-plus_comm :
    (x y : Cash) (j : String)
    → IsMap x.local
    → IsMap y.local
    → find j (plus x y).local ≡ find j (plus y x).local
find-plus_comm x y j hx hy =
    find-plus x y j hx hy ∙ sum_comm (find j y.local) (find j x.local) ∙ sym (find-plus y x j hy hx)

-- A difference of two maps, each with one entry for a name, has, for every circuit, the difference
-- of the two amounts, the one on the left where there is none on the right, and the negated one on
-- the right where there is none on the left.
pub find-minus :
    (x y : Cash) (j : String)
    → IsMap x.local
    → IsMap y.local
    → find j (minus x y).local ≡ difference (find j x.local) (find j y.local)
unfolding minus minus_assign plus_assign find
find-minus x y j hx hy = ground (
  arith,
  find-plus_entries j x.local [] hx,
  find-minus_entries j y.local (plus_entries x.local []) hy,
)

IsMap-set : (k : String) (v : ℤ) (m : Entries) → IsMap m → IsMap (set k v m)
unfolding set find
IsMap-set k v [] h = (refl, tt)
IsMap-set k v ((j, w) ∷ m) h =
    ground (arith, eq_iff j k, eq_iff k j, IsMap-set k v m h.1, find-set k j v m)

-- The sum keeps one entry for a name.
pub IsMap-plus_entries : (xs l : Entries) → IsMap l → IsMap (plus_entries xs l)
unfolding plus_entries
IsMap-plus_entries [] l h = h
IsMap-plus_entries ((k, v) ∷ xs) l h = IsMap-plus_entries xs _ (IsMap-set k _ l h)

sub64_self : (b : ℤ) → sub64 b b ≡ pos 0
unfolding sub64 wrap ◌-ℤ◌
sub64_self b = ground arith

back :
    (a b : Option ℤ) (v : ℤ)
    → a ≡ some v
    → IsInt64 v
    → Each IsInt64 b
    → difference (sum a b) a ≡ some (get_or b (pos 0))
back a none v e h hb = rw e (ap some (sub64_self v))
back a (some w) v e h hb = rw e (ap some (rw (add64_comm v w) (sub64-add64 w v hb h)))

IsMap-plus : (x y : Cash) → IsMap (plus x y).local
unfolding plus plus_assign
IsMap-plus x y = IsMap-plus_entries x.local _ (IsMap-plus_entries y.local [] tt)

-- For a circuit that the money added has, taking it away again gives the amount back that was
-- there before, or zero where there was none; the amounts are of 64 bits, and each map has one
-- entry for a name.
find-minus-plus :
    (x y : Cash) (j : String) (b : ℤ)
    → IsMap x.local
    → IsMap y.local
    → find j y.local ≡ some b
    → IsInt64 b
    → Each IsInt64 (find j x.local)
    → find j (minus (plus x y) y).local ≡ some (get_or (find j x.local) (pos 0))
find-minus-plus x y j b hx hy e hb ha =
    find-minus (plus x y) y j (IsMap-plus x y) hy
    ∙ ap (λ s. difference s (find j y.local)) (find-plus x y j hx hy)
    ∙ back (find j y.local) (find j x.local) b e hb ha
