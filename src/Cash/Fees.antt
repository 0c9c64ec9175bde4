-- ===== src/Cash/Fees.antt =====
-- Fees (src/cash.h, src/fees.cpp): money whose `fixed` stands for every circuit that it does not name.
use Prim.Native.String.{String}
use text.Mathlib.TextEquality.{eq_iff}
use tetra.Prelude.{◌≡◌, refl, ap, ◌∙◌, Bool, ◌||◌, [], ◌∷◌, Option, none, some, arith, map}
use tetra.Prelude.Int.{ℤ, pos, ltb_ℤ, ◌+ℤ◌, ◌-ℤ◌}
use tetra.Prelude.Word.{add64, sub64, neg64, mul64, wrap, IsInt64}
use tetra.Cash.{Cash, Entries, find, map_values, negate, lt, gt}
use tetra.Cash.Lookup.{Each}

-- The fee for a circuit: its own, or `fixed`.
unfoldable pub fee_of : Cash → String → ℤ
fee_of f k = elim (find k f.local) [ some a ↦ a | none ↦ f.fixed ]

-- Fees + Cash and Fees - Cash go over the circuits of the money; what they make has no `fixed`.
unfoldable pub fees_plus : Cash → Cash → Cash
fees_plus f x = record { local = map (λ e. (e.0, add64 e.1 (fee_of f e.0))) x.local; fixed = pos 0 }

unfoldable pub fees_minus : Cash → Cash → Cash
fees_minus f x = record {
  local = map (λ e. (e.0, sub64 e.1 (fee_of f e.0))) x.local;
  fixed = pos 0;
}

-- Cash + Fees and Cash - Fees.
unfoldable pub plus_fees : Cash → Cash → Cash
plus_fees x f = fees_plus f x

unfoldable pub minus_fees : Cash → Cash → Cash
minus_fees x f = fees_plus (negate f) x

-- Fees * int64.
unfoldable pub times : Cash → ℤ → Cash
times f n = record { local = map_values (λ v. mul64 v n) f.local; fixed = mul64 f.fixed n }

-- `operator/=` multiplies.
unfoldable pub over_assign : Cash → ℤ → Cash
over_assign f n = times f n

-- Fees < Fees and Fees > Fees.
unfoldable pub fees_lt : Cash → Cash → Bool
fees_lt f g = ltb_ℤ f.fixed g.fixed || lt f g

unfoldable pub fees_gt : Cash → Cash → Bool
fees_gt f g = ltb_ℤ g.fixed f.fixed || gt f g

find-map :
    (j : String) (g : String → ℤ → ℤ) (l : Entries)
    → find j (map (λ e. (e.0, g e.0 e.1)) l)
      ≡ elim (find j l) [ some v ↦ some (g j v) | none ↦ none ]
unfolding find
find-map j g [] = refl
find-map j g ((k, v) ∷ l) = ground (arith, eq_iff k j, find-map j g l)

fee_of-negate : (f : Cash) (k : String) → fee_of (negate f) k ≡ neg64 (fee_of f k)
unfolding fee_of negate
fee_of-negate f k = ground (arith, find-map k (λ i. neg64) f.local)

add64-neg64 : (v f : ℤ) → IsInt64 v → IsInt64 f → add64 (add64 v (neg64 f)) f ≡ v
unfolding add64 neg64 wrap ◌+ℤ◌ ◌-ℤ◌
add64-neg64 v f hv hf = ground arith

-- A fee for an amount, if there is one.
abbrev pub add_fee : ℤ → Option ℤ → Option ℤ
add_fee f none = none
add_fee f (some v) = some (add64 v f)

add_fee-negated :
    (f : ℤ) (o : Option ℤ) → IsInt64 f → Each IsInt64 o → add_fee f (add_fee (neg64 f) o) ≡ o
add_fee-negated f none hf ho = refl
add_fee-negated f (some v) hf ho = ap some (add64-neg64 v f ho hf)

neg64-add64 : (v f : ℤ) → IsInt64 v → IsInt64 f → add64 (add64 v f) (neg64 f) ≡ v
unfolding add64 neg64 wrap ◌+ℤ◌ ◌-ℤ◌
neg64-add64 v f hv hf = ground arith

add_fee-added :
    (f : ℤ) (o : Option ℤ) → IsInt64 f → Each IsInt64 o → add_fee (neg64 f) (add_fee f o) ≡ o
add_fee-added f none hf ho = refl
add_fee-added f (some v) hf ho = ap some (neg64-add64 v f ho hf)

find-fees_plus :
    (f x : Cash) (j : String) → find j (fees_plus f x).local ≡ add_fee (fee_of f j) (find j x.local)
unfolding fees_plus
find-fees_plus f x j = ground (arith, find-map j (λ k v. add64 v (fee_of f k)) x.local)

find-negated :
    (f x : Cash) (j : String)
    → find j (fees_plus (negate f) x).local ≡ add_fee (neg64 (fee_of f j)) (find j x.local)
find-negated f x j =
    find-fees_plus (negate f) x j ∙ ap (λ n. add_fee n (find j x.local)) (fee_of-negate f j)

-- Money less fees, and the same fees again, has every circuit's amount back; the amounts and the fee
-- for the circuit are of 64 bits.
pub find-plus_fees-minus_fees :
    (x f : Cash) (j : String)
    → IsInt64 (fee_of f j)
    → Each IsInt64 (find j x.local)
    → find j (plus_fees (minus_fees x f) f).local ≡ find j x.local
unfolding plus_fees minus_fees
find-plus_fees-minus_fees x f j hf hx =
    find-fees_plus f (fees_plus (negate f) x) j
    ∙ ap (add_fee (fee_of f j)) (find-negated f x j)
    ∙ add_fee-negated (fee_of f j) (find j x.local) hf hx

-- Money with fees, and without them again, has every circuit's amount back; the amounts and the fee
-- for the circuit are of 64 bits.
find-minus_fees-plus_fees :
    (x f : Cash) (j : String)
    → IsInt64 (fee_of f j)
    → Each IsInt64 (find j x.local)
    → find j (minus_fees (plus_fees x f) f).local ≡ find j x.local
unfolding plus_fees minus_fees
find-minus_fees-plus_fees x f j hf hx =
    find-negated f (fees_plus f x) j
    ∙ ap (add_fee (neg64 (fee_of f j))) (find-fees_plus f x j)
    ∙ add_fee-added (fee_of f j) (find j x.local) hf hx
