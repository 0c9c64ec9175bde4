-- ===== src/Transaction/Sound.antt =====
-- What holds of a transaction that CheckTransaction accepts.
use tetra.Prelude.{
  inl, inr, Bool-cases, ℕ, ◌≡◌, ◌≢◌, ◌≤◌, ◌<◌, refl, false, List, [], ◌∷◌, arith, if◌then◌else◌,
  length, All, All-map, All-both,
}
use tetra.Prelude.Int.{ℤ, pos, ◌≤ℤ◌, ltb_ℤ}
use tetra.Cash.{
  Cash, Entries, empty, min_entries, min_loop, max_loop, plus_assign, lt_int, gt_int, min_value,
  max_value,
}
use tetra.Cash.Range.{max_money}
use tetra.Transaction.{
  OutPoint, TxIn, TxOut, Transaction, Verdict, is_null, same_out_point, is_coin_base, check_outputs,
  count, check_duplicates, check_prevouts, check_inputs, and_then, check_transaction,
}

-- Every circuit's amount is between 0 and MAX_MONEY.
abbrev pub IsBounded : TxOut → Type 0
IsBounded o = All (λ e. (pos 0 ≤ℤ e.1) × (e.1 ≤ℤ max_money)) o.value.local

-- No two inputs spend the same output.
abbrev pub AreDistinct : List TxIn → Type 0
AreDistinct [] = Unit {0}
AreDistinct (i ∷ is) = All (λ j. i.prevout ≢ j.prevout) is × AreDistinct is

-- A coin base has a script of 2 to 100 bytes; any other transaction spends no null outpoint.
abbrev pub HasGoodInputs : List TxIn → Type 0
HasGoodInputs [] = Unit {0}
HasGoodInputs (i ∷ is) =
    if is_coin_base (i ∷ is)
    then (2 ≤ length i.script_sig) × (length i.script_sig ≤ 100)
    else All (λ j. is_null j.prevout ≡ false) (i ∷ is)

-- A bound on the least amount bounds all from below, and one on the greatest from above.
min_loop-All : (xs : Entries) (m n : ℤ) → n ≤ℤ min_loop xs m → (n ≤ℤ m) × All (λ e. n ≤ℤ e.1) xs
unfolding min_loop
min_loop-All [] m n h = (h, tt)
min_loop-All ((k, v) ∷ xs) m n h =
    let rest = min_loop-All xs (if ltb_ℤ v m then v else m) n h in
    (ground (arith, rest.0), (ground (arith, rest.0), rest.1))

pub min_entries-All :
    (xs : Entries) (fixed n : ℤ) → n ≤ℤ min_entries xs fixed → All (λ e. n ≤ℤ e.1) xs
unfolding min_entries
min_entries-All [] fixed n h = tt
min_entries-All ((k, v) ∷ []) fixed n h = (ground arith, tt)
min_entries-All ((k, v) ∷ e ∷ xs) fixed n h = min_loop-All (e ∷ xs) v n h

max_loop-All : (xs : Entries) (m n : ℤ) → max_loop xs m ≤ℤ n → (m ≤ℤ n) × All (λ e. e.1 ≤ℤ n) xs
unfolding max_loop
max_loop-All [] m n h = (h, tt)
max_loop-All ((k, v) ∷ xs) m n h =
    let rest = max_loop-All xs (if ltb_ℤ m v then v else m) n h in
    (ground (arith, rest.0), (ground (arith, rest.0), rest.1))

output-IsBounded :
    (o : TxOut) → lt_int o.value (pos 0) ≡ false → gt_int o.value max_money ≡ false → IsBounded o
unfolding lt_int gt_int min_value max_value
output-IsBounded o low high =
    All-both (λ e. pos 0 ≤ℤ e.1) (λ e. e.1 ≤ℤ max_money) o.value.local
      (min_entries-All o.value.local o.value.fixed (pos 0) (ground arith))
      (max_loop-All o.value.local (pos 0) max_money (ground arith)).1

check_outputs-IsBounded :
    (os : List TxOut) (total : Cash) → check_outputs os total ≡ Verdict.valid → All IsBounded os
unfolding check_outputs
check_outputs-IsBounded [] total h = tt
check_outputs-IsBounded (o ∷ os) total h = (
  output-IsBounded o (ground arith) (ground arith),
  check_outputs-IsBounded os (plus_assign total o.value) (ground arith),
)

not_same : (p q : OutPoint) → same_out_point q p ≡ false → p ≢ q
unfolding same_out_point
not_same p q h e = ground arith

check_duplicates_lem :
    (is : List TxIn) (seen : List OutPoint)
    → check_duplicates is seen ≡ Verdict.valid
    → AreDistinct is × All (λ j. count j.prevout seen ≡ false) is
unfolding check_duplicates count
check_duplicates_lem [] seen h = (tt, tt)
check_duplicates_lem (i ∷ is) seen h =
    let rest = check_duplicates_lem is (i.prevout ∷ seen) (ground arith) in
    (
      (
        All-map (λ j. count j.prevout (i.prevout ∷ seen) ≡ false) (λ j. i.prevout ≢ j.prevout) is
            (λ j fresh. not_same i.prevout j.prevout (ground arith)) rest.1,
        rest.0,
      ),
      (
        ground arith,
        All-map (λ j. count j.prevout (i.prevout ∷ seen) ≡ false)
            (λ j. count j.prevout seen ≡ false) is (λ j fresh. ground arith) rest.1,
      ),
    )

check_prevouts_lem :
    (is : List TxIn) → check_prevouts is ≡ Verdict.valid → All (λ j. is_null j.prevout ≡ false) is
unfolding check_prevouts
check_prevouts_lem [] h = tt
check_prevouts_lem (i ∷ is) h = (ground arith, check_prevouts_lem is (ground arith))

check_inputs_lem : (is : List TxIn) → check_inputs is ≡ Verdict.valid → HasGoodInputs is
unfolding check_inputs
check_inputs_lem [] h = tt
check_inputs_lem (i ∷ is) h = elim (Bool-cases (is_coin_base (i ∷ is))) [
  | inl coin_base ↦ rw coin_base (ground arith)
  | inr ordinary ↦ rw ordinary (check_prevouts_lem (i ∷ is) (ground arith))
]

and_then_valid :
    (v w : Verdict) → and_then v w ≡ Verdict.valid → (v ≡ Verdict.valid) × (w ≡ Verdict.valid)
and_then_valid Verdict.valid w h = (refl, h)
and_then_valid (Verdict.dos level) w h = cc

module _ (serialize_size : Transaction → ℕ) where
  -- A transaction that CheckTransaction accepts has inputs and outputs and at most 1,000,000 bytes;
  -- every amount of every output is between 0 and MAX_MONEY; no two inputs spend the same output;
  -- and a coin base has a script of 2 to 100 bytes, while any other spends no null outpoint.
  pub check_transaction_sound :
      (tx : Transaction)
      → check_transaction serialize_size tx ≡ Verdict.valid
      → (0 < length tx.vin)
        × (0 < length tx.vout)
        × (serialize_size tx ≤ 1000000)
        × All IsBounded tx.vout
        × AreDistinct tx.vin
        × HasGoodInputs tx.vin
  unfolding check_transaction
  check_transaction_sound tx h =
      let (outputs, inputs) =
        and_then_valid (check_outputs tx.vout empty)
          (and_then (check_duplicates tx.vin []) (check_inputs tx.vin)) (ground arith) in
      let (distinct, good) =
        and_then_valid (check_duplicates tx.vin []) (check_inputs tx.vin) inputs in
      (
        ground arith,
        ground arith,
        ground arith,
        check_outputs-IsBounded tx.vout empty outputs,
        (check_duplicates_lem tx.vin [] distinct).0,
        check_inputs_lem tx.vin good,
      )
