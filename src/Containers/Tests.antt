-- ===== src/Containers/Tests.antt =====
-- A set of at most three numbers and a map with a bound of three, and the theorems at concrete inputs.
use tetra.Prelude.{ℕ, some, ◌≡◌, refl, true, [], ◌∷◌, ◌==◌, ==_iff, inr, arith}
use tetra.Containers.LimitedMap.{LimitedMap, find, insert as limited_insert}
use tetra.Containers.LimitedMap.Insert.{Inv, copies, once, HasNew, insert-HasNew}
use tetra.Containers.MruSet.{MruSet, member, erase, insert, pop_oldest, IsConsistent, insert-latest}

abbrev three : MruSet ℕ
three = record { elements = 7 ∷ 5 ∷ 9 ∷ []; queue = 5 ∷ 9 ∷ 7 ∷ []; max_size = 3 }

insert_new :
    insert ◌==◌ 4 three
    ≡ (record { elements = 4 ∷ 7 ∷ 9 ∷ []; queue = 9 ∷ 7 ∷ 4 ∷ []; max_size = 3 }, true)
unfolding insert member erase pop_oldest
insert_new = refl

three-IsConsistent : IsConsistent ◌==◌ three
unfolding member
three-IsConsistent =
    ((refl, (refl, (refl, tt))), (refl, (refl, (refl, tt))), λ x. ground arith, inr (omega arith))

insert-latest_example :
    IsConsistent ◌==◌ (insert ◌==◌ 4 three).0
    × (member ◌==◌ 4 (insert ◌==◌ 4 three).0.elements ≡ true)
    × ((insert ◌==◌ 4 three).1 ≡ true)
    × ((insert ◌==◌ 4 three).0.queue ≡ 9 ∷ 7 ∷ 4 ∷ [])
unfolding member
insert-latest_example = insert-latest ◌==◌ ==_iff 4 three three-IsConsistent

abbrev two : LimitedMap
two = record { map = (1, 5) ∷ (2, 9) ∷ []; rmap = (5, 1) ∷ (9, 2) ∷ []; max_size = 3 }

two-Inv : Inv two
unfolding find copies once
two-Inv = record {
  keys = (refl, (refl, tt));
  sorted = ((omega arith, tt), (tt, tt));
  sizes = refl;
  same = λ k v. ground arith;
}

-- The new key has the lowest value of all, and stays.
insert-HasNew_example : (m' : LimitedMap) × (limited_insert 3 1 two ≡ some m') × HasNew 3 1 two m'
unfolding find
insert-HasNew_example = insert-HasNew 3 1 two two-Inv (omega arith) (omega arith) refl
