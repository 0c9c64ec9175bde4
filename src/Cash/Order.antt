-- ===== src/Cash/Order.antt =====
-- The comparisons of Cash, and the two extremes that the comparisons with an int64 look at.
use Prim.Native.String.{String}
use text.Mathlib.TextEquality.{eq_iff}
use tetra.Prelude.{zero, suc, ◌≡◌, true, false, not, ◌&&◌, [], ◌∷◌, some, arith, if◌then◌else◌}
use tetra.Prelude.Int.{ℤ, pos, negsuc, ltb_ℤ, ◌≤ℤ◌}
use tetra.Prelude.Word.{is_zero}
use tetra.Cash.{
  Cash, Entries, find, gt_entries, lt_entries, gt, lt, le, ge, eq, max_loop, max_value,
}

gt_entries-fails :
    (k : String) (a b : ℤ) (y xs : Entries)
    → find k xs ≡ some a
    → find k y ≡ some b
    → ltb_ℤ b a ≡ false
    → gt_entries y xs ≡ false
unfolding find gt_entries
gt_entries-fails k a b y [] e f h = cc
gt_entries-fails k a b y ((j, v) ∷ xs) e f h =
    ground (arith, eq_iff j k, gt_entries-fails k a b y xs)

lt_entries-fails :
    (k : String) (a b : ℤ) (y xs : Entries)
    → find k xs ≡ some a
    → find k y ≡ some b
    → ltb_ℤ a b ≡ false
    → lt_entries y xs ≡ false
unfolding find lt_entries
lt_entries-fails k a b y [] e f h = cc
lt_entries-fails k a b y ((j, v) ∷ xs) e f h =
    ground (arith, eq_iff j k, lt_entries-fails k a b y xs)

-- `==` takes two amounts of money for equal where one has less of one circuit and the other less of
-- another, since it asks only that neither be smaller in all.
pub eq_of_mixed :
    (x y : Cash) (k j : String) (a b c d : ℤ)
    → x.fixed ≡ y.fixed
    → find k x.local ≡ some a
    → find k y.local ≡ some b
    → ltb_ℤ a b ≡ true
    → find j x.local ≡ some c
    → find j y.local ≡ some d
    → ltb_ℤ d c ≡ true
    → eq x y ≡ true
unfolding eq gt lt
eq_of_mixed x y k j a b c d same xk yk less xj yj more = ground (
  arith,
  gt_entries-fails k a b y.local x.local xk yk (ground arith),
  lt_entries-fails j c d y.local x.local xj yj (ground arith),
)

-- A circuit that both hold in the same amount makes neither smaller nor greater: both `<=` and
-- `>=` hold, whatever the other circuits hold.
le-ge_of_shared :
    (x y : Cash) (k : String) (a : ℤ)
    → find k x.local ≡ some a
    → find k y.local ≡ some a
    → (le x y ≡ true) × (ge x y ≡ true)
unfolding le ge gt lt
le-ge_of_shared x y k a e f = ground (
  arith,
  gt_entries-fails k a a y.local x.local e f (ground arith),
  lt_entries-fails k a a y.local x.local e f (ground arith),
)

max_loop-above : (xs : Entries) (m : ℤ) → m ≤ℤ max_loop xs m
unfolding max_loop
max_loop-above [] m = omega arith
max_loop-above ((j, v) ∷ xs) m = ground (arith, max_loop-above xs (if ltb_ℤ m v then v else m))

max_loop-find :
    (k : String) (a : ℤ) (xs : Entries) (m : ℤ) → find k xs ≡ some a → a ≤ℤ max_loop xs m
unfolding max_loop find
max_loop-find k a [] m e = cc
max_loop-find k a ((j, v) ∷ xs) m e = ground (
  arith,
  eq_iff j k,
  max_loop-above xs (if ltb_ℤ m v then v else m),
  max_loop-find k a xs (if ltb_ℤ m v then v else m),
)

-- `fixed` counts where it is not zero.
unfoldable pick_fixed : (f m : ℤ) → ℤ
pick_fixed f m = if not (is_zero f) && ltb_ℤ m f then f else m

pick_fixed_lem : (f m : ℤ) → pos 0 ≤ℤ m → (m ≤ℤ pick_fixed f m) × (f ≤ℤ pick_fixed f m)
unfolding pick_fixed
pick_fixed_lem (pos zero) m h = (omega arith, h)
pick_fixed_lem (pos (suc n)) m h = ground arith
pick_fixed_lem (negsuc n) m h = ground arith

pub max_value-above : (x : Cash) → pos 0 ≤ℤ max_value x
unfolding max_value pick_fixed
max_value-above x =
    let above : pos 0 ≤ℤ max_loop x.local (pos 0) = max_loop-above x.local (pos 0) in
    let both = pick_fixed_lem x.fixed (max_loop x.local (pos 0)) above in omega arith

-- Max is never negative, and no circuit's amount and neither `fixed` is above it.
max_value_bounds :
    (x : Cash) (k : String) (a : ℤ)
    → find k x.local ≡ some a
    → (pos 0 ≤ℤ max_value x) × (a ≤ℤ max_value x) × (x.fixed ≤ℤ max_value x)
unfolding max_value pick_fixed
max_value_bounds x k a e =
    let m = max_loop x.local (pos 0) in
    let above : pos 0 ≤ℤ m = max_loop-above x.local (pos 0) in
    let both = pick_fixed_lem x.fixed m above in
    let found : a ≤ℤ m = max_loop-find k a x.local (pos 0) e in (omega arith, omega arith, both.1)
