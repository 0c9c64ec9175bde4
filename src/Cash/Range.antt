-- ===== src/Cash/Range.antt =====
-- MoneyRange of src/main.h, the test on the money of outputs and sums of outputs.
use Prim.Native.String.{String}
use text.Mathlib.TextEquality.{eq_iff}
use tetra.Prelude.{◌*◌, ◌≡◌, Bool, true, ◌&&◌, [], ◌∷◌, some, arith, if◌then◌else◌}
use tetra.Prelude.Int.{ℤ, pos, ◌≤ℤ◌, ltb_ℤ}
use tetra.Cash.{Cash, Entries, find, ge_int, le_int, min_value, min_entries, min_loop}
use tetra.Cash.Order.{max_value-above}

-- COIN is 100.
abbrev pub max_money : ℤ
max_money = pos (18400000000 * 100)

unfoldable pub money_range : Cash → Bool
money_range x = ge_int x (pos 0) && le_int x max_money

min_loop-below : (xs : Entries) (m : ℤ) → min_loop xs m ≤ℤ m
unfolding min_loop
min_loop-below [] m = omega arith
min_loop-below ((j, v) ∷ xs) m = ground (arith, min_loop-below xs (if ltb_ℤ v m then v else m))

min_loop-find :
    (k : String) (a : ℤ) (xs : Entries) (m : ℤ) → find k xs ≡ some a → min_loop xs m ≤ℤ a
unfolding min_loop find
min_loop-find k a [] m e = cc
min_loop-find k a ((j, v) ∷ xs) m e = ground (
  arith,
  eq_iff j k,
  min_loop-below xs (if ltb_ℤ v m then v else m),
  min_loop-find k a xs (if ltb_ℤ v m then v else m),
)

-- Min is at most every circuit's amount.
min_entries-find :
    (k : String) (a : ℤ) (xs : Entries) (fixed : ℤ) → find k xs ≡ some a → min_entries xs fixed ≤ℤ a
unfolding min_entries find
min_entries-find k a [] fixed e = cc
min_entries-find k a ((j, v) ∷ []) fixed e = ground (arith, eq_iff j k)
min_entries-find k a ((j, v) ∷ (i, w) ∷ xs) fixed e =
    ground (arith, eq_iff j k, min_loop-below ((i, w) ∷ xs) v, min_loop-find k a ((i, w) ∷ xs) v)

-- Money is in the range as soon as one circuit's amount is at most MAX_MONEY, be it negative, and
-- whatever the other circuits hold: the lower bound asks for the greatest amount, which starts from
-- 0, and the upper one for the least.
pub money_range_of_one :
    (x : Cash) (k : String) (a : ℤ)
    → find k x.local ≡ some a
    → a ≤ℤ max_money
    → money_range x ≡ true
unfolding money_range ge_int le_int min_value
money_range_of_one x k a e h =
    ground (arith, max_value-above x, min_entries-find k a x.local x.fixed e)
