-- ===== src/Cash.antt =====
-- Money of several circuits (src/cash.h, src/cash.cpp): an amount for each circuit, and `fixed`, an
-- amount that goes with any of them. Amounts are int64. A CashStruct is a std::map; here it is a list of
-- entries with distinct names, and no operation below depends on their order.
pub mod Lookup
pub mod Order
pub mod Amount
pub mod Range
pub mod Fees
mod Tests
use Prim.Native.String.{String}
use text.Mathlib.Text.{◌==◌ as str_eq}
use tetra.Prelude.{
  ℕ, zero, suc, ◌+◌, Bool, true, false, not, ◌&&◌, ◌||◌, List, [], ◌∷◌, Option, none, some, ◌==◌,
  if◌then◌else◌, length, map,
}
use tetra.Prelude.Int.{ℤ, pos, negsuc, ltb_ℤ}
use tetra.Prelude.Word.{add64, sub64, neg64, mul64, div64, is_zero}

abbrev pub Entries : Type 0
Entries = List (String × ℤ)

pub record Cash : Type 0 where
  pub local : Entries
  pub fixed : ℤ

unfoldable pub find : String → Entries → Option ℤ
find k [] = none
find k ((j, v) ∷ m) = if str_eq j k then some v else find k m

-- `local[k] = v`
unfoldable pub set : String → ℤ → Entries → Entries
set k v [] = (k, v) ∷ []
set k v ((j, w) ∷ m) = if str_eq j k then (k, v) ∷ m else (j, w) ∷ set k v m

-- The loops of `operator+=` and `operator-=` over the entries on the right.
unfoldable pub plus_entries : Entries → Entries → Entries
plus_entries [] l = l
plus_entries ((k, v) ∷ xs) l =
    plus_entries xs (set k (elim (find k l) [ some a ↦ add64 a v | none ↦ v ]) l)

unfoldable pub minus_entries : Entries → Entries → Entries
minus_entries [] l = l
minus_entries ((k, v) ∷ xs) l =
    minus_entries xs (set k (elim (find k l) [ some a ↦ sub64 a v | none ↦ neg64 v ]) l)

abbrev pub empty : Cash
empty = record { local = []; fixed = pos 0 }

-- operator+=(const Cash&), operator-=(const Cash&)
unfoldable pub plus_assign : Cash → Cash → Cash
plus_assign x y = record {
  local = plus_entries y.local x.local;
  fixed = if not (is_zero x.fixed) || not (is_zero y.fixed) then add64 x.fixed y.fixed else x.fixed;
}

unfoldable pub minus_assign : Cash → Cash → Cash
minus_assign x y = record {
  local = minus_entries y.local x.local;
  fixed = if not (is_zero x.fixed) || not (is_zero y.fixed) then sub64 x.fixed y.fixed else x.fixed;
}

-- operator+(const Cash&): the argument is added to nothing first.
unfoldable pub plus : Cash → Cash → Cash
plus x y = plus_assign (plus_assign empty y) x

unfoldable pub minus : Cash → Cash → Cash
minus x y = minus_assign (plus_assign empty x) y

abbrev pub map_values : (ℤ → ℤ) → Entries → Entries
map_values f = map λ e. (e.0, f e.1)

-- operator+, -, *, / with an int64, and the unary minus. `tmp[name] += value` starts from 0.
unfoldable pub plus_int : Cash → ℤ → Cash
plus_int x n = record {
  local = map_values (λ v. add64 (add64 (pos 0) v) n) x.local;
  fixed = if not (is_zero x.fixed) then add64 x.fixed n else x.fixed;
}

unfoldable pub minus_int : Cash → ℤ → Cash
minus_int x n = record {
  local = map_values (λ v. sub64 (add64 (pos 0) v) n) x.local;
  fixed = if not (is_zero x.fixed) then sub64 x.fixed n else x.fixed;
}

unfoldable pub times_int : Cash → ℤ → Cash
times_int x n = record {
  local = map_values (λ v. mul64 (add64 (pos 0) v) n) x.local;
  fixed = mul64 x.fixed n;
}

unfoldable pub over_int : Cash → ℤ → Cash
over_int x n = if is_zero n then x else record {
  local = map_values (λ v. div64 (add64 (pos 0) v) n) x.local;
  fixed = div64 x.fixed n;
}

unfoldable pub negate : Cash → Cash
negate x = record { local = map_values neg64 x.local; fixed = neg64 x.fixed }

abbrev is_empty : Entries → Bool
is_empty l = length l == 0

-- operator>(const Cash&) and operator<(const Cash&): the loops over the entries on the left.
unfoldable pub gt_entries : Entries → Entries → Bool
gt_entries y [] = true
gt_entries y ((k, v) ∷ xs) =
    (elim (find k y) [ some w ↦ ltb_ℤ w v | none ↦ ltb_ℤ (pos 0) v ]) && gt_entries y xs

unfoldable pub lt_entries : Entries → Entries → Bool
lt_entries y [] = true
lt_entries y ((k, v) ∷ xs) =
    (elim (find k y) [ some w ↦ ltb_ℤ v w | none ↦ ltb_ℤ v (pos 0) ]) && lt_entries y xs

unfoldable pub gt : Cash → Cash → Bool
gt x y = not (is_empty x.local && is_empty y.local) && gt_entries y.local x.local

unfoldable pub lt : Cash → Cash → Bool
lt x y = not (is_empty x.local && is_empty y.local) && lt_entries y.local x.local

-- operator<=, >=, ==, != with a Cash.
unfoldable pub le : Cash → Cash → Bool
le x y = not (gt x y)

unfoldable pub ge : Cash → Cash → Bool
ge x y = not (lt x y)

abbrev pub eq_int : ℤ → ℤ → Bool
eq_int a b = not (ltb_ℤ a b || ltb_ℤ b a)

unfoldable pub eq : Cash → Cash → Bool
eq x y = eq_int x.fixed y.fixed && not (lt x y || gt x y)

unfoldable pub ne : Cash → Cash → Bool
ne x y = not (eq x y)

-- operator!=(const int64&) compares with an empty Cash, whatever the number.
unfoldable pub ne_int : Cash → ℤ → Bool
ne_int x n = not (eq x empty)

-- `Cash::Max` and `Cash::Min`
unfoldable pub max_loop : Entries → ℤ → ℤ
max_loop [] m = m
max_loop ((k, v) ∷ xs) m = max_loop xs (if ltb_ℤ m v then v else m)

unfoldable pub max_value : Cash → ℤ
max_value x =
    let m = max_loop x.local (pos 0) in
    if not (is_zero x.fixed) && ltb_ℤ m x.fixed then x.fixed else m

unfoldable pub min_loop : Entries → ℤ → ℤ
min_loop [] m = m
min_loop ((k, v) ∷ xs) m = min_loop xs (if ltb_ℤ v m then v else m)

unfoldable pub min_entries : Entries → ℤ → ℤ
min_entries [] fixed = fixed
min_entries ((k, v) ∷ []) fixed = if is_zero fixed then v else (if ltb_ℤ fixed v then fixed else v)
min_entries ((k, v) ∷ e ∷ xs) fixed = min_loop (e ∷ xs) v

unfoldable pub min_value : Cash → ℤ
min_value x = min_entries x.local x.fixed

-- operator<=, <, >=, > with an int64.
unfoldable pub le_int : Cash → ℤ → Bool
le_int x n = not (ltb_ℤ n (min_value x))

unfoldable pub lt_int : Cash → ℤ → Bool
lt_int x n = ltb_ℤ (min_value x) n

unfoldable pub ge_int : Cash → ℤ → Bool
ge_int x n = not (ltb_ℤ (max_value x) n)

unfoldable pub gt_int : Cash → ℤ → Bool
gt_int x n = ltb_ℤ n (max_value x)
