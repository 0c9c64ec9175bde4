-- ===== src/Cash/Tests.antt =====
-- Sums, comparisons and compressed amounts of money, and the theorems at concrete inputs.
use tetra.Prelude.{◌≡◌, refl, true, [], ◌∷◌, some, arith, ◌>>=◌}
use tetra.Prelude.Word.{add64, sub64, wrap}
use tetra.Prelude.Int.{◌+ℤ◌, ◌-ℤ◌, pos, negsuc}
use tetra.Cash.{
  Cash, find, set, plus, minus, plus_assign, plus_entries, minus_assign, minus_entries, min_entries,
  min_loop, eq, min_value,
}
use tetra.Cash.Lookup.{find-plus}
use tetra.Cash.Order.{eq_of_mixed}
use tetra.Cash.Range.{money_range, money_range_of_one}
use tetra.Cash.Fees.{fee_of, plus_fees, minus_fees, find-plus_fees-minus_fees}
use tetra.Cash.Amount.{strip, compress_amount, decompress_amount, decompress_amount-compress_amount}

abbrev wallet : Cash
wallet = record { local = ("eur", pos 500) ∷ ("usd", pos 3) ∷ []; fixed = pos 0 }

abbrev price : Cash
price = record { local = ("usd", pos 20) ∷ ("eur", pos 7) ∷ []; fixed = pos 0 }

plus_eur : find "eur" (plus wallet price).local ≡ some (pos 507)
unfolding find plus plus_assign plus_entries set add64 wrap ◌+ℤ◌
plus_eur = refl

compress_50 : compress_amount 5000 ≡ some 44
unfolding compress_amount strip
compress_50 = refl

min_of_wallet : min_value wallet ≡ pos 3
unfolding min_value min_entries min_loop
min_of_wallet = refl

find-plus_example : find "usd" (plus wallet price).local ≡ some (pos 23)
unfolding find plus plus_assign plus_entries minus minus_assign minus_entries set add64 sub64 wrap
    ◌+ℤ◌ ◌-ℤ◌
find-plus_example = find-plus wallet price "usd" (refl, (refl, tt)) (refl, (refl, tt))

eq_of_mixed_example : eq wallet price ≡ true
unfolding find
eq_of_mixed_example =
    eq_of_mixed wallet price "usd" "eur" (pos 3) (pos 20) (pos 500) (pos 7) refl refl refl refl refl
      refl refl

decompress_amount-compress_amount_example :
    (compress_amount 5000 >>= λ x. some (decompress_amount x)) ≡ some 5000
decompress_amount-compress_amount_example = decompress_amount-compress_amount 5000 (omega arith)

abbrev debt : Cash
debt = record { local = ("eur", negsuc 499) ∷ ("usd", pos 99999999999999) ∷ []; fixed = pos 0 }

money_range_of_one_example : money_range debt ≡ true
unfolding find
money_range_of_one_example = money_range_of_one debt "eur" (negsuc 499) refl (omega arith)

-- One for every circuit, and 5 for dollars.
abbrev fees : Cash
fees = record { local = ("usd", pos 5) ∷ []; fixed = pos 1 }

find-plus_fees-minus_fees_example :
    find "usd" (plus_fees (minus_fees wallet fees) fees).local ≡ some (pos 3)
unfolding find fee_of
find-plus_fees-minus_fees_example =
    find-plus_fees-minus_fees wallet fees "usd" (omega arith) (omega arith)
