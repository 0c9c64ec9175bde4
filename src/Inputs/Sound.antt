-- ===== src/Inputs/Sound.antt =====
-- What holds of a transaction that CheckInputs accepts (src/main.cpp).
use Prim.Native.String.{String}
use tetra.Prelude.{
  ℕ, suc, ◌≤◌, ◌≡◌, refl, subst, Bool, false, List, [], ◌∷◌, some, arith, All, length, Option-cases,
  Bool-cases, inl, inr, ◌⊎◌,
}
use tetra.Prelude.Int.{pos}
use tetra.Cash.{Cash, empty, plus_assign, minus, lt_int, find}
use tetra.Transaction.{TxOut, Transaction, is_coin_base}
use tetra.Script.Machine.{Context, Item}
use tetra.Coins.Cache.{Entries, View, through}
use tetra.Inputs.{
  CheckResult, Flags, value_out_loop, get_value_out, check_fees, sum_inputs, check_inputs,
}
use tetra.Inputs.Totals.{IsGood, total, plus_all, read-plus_all, total_le}
use tetra.Inputs.Reads.{
  IsThere, IsMature, IsSum, spent, length-spent, have_inputs_lem, sum_inputs_lem,
}

value_out_loop_lem :
    (os : List TxOut) (t r : Cash) → value_out_loop os t ≡ some r → r ≡ plus_all os t
unfolding value_out_loop
value_out_loop_lem [] t r e = ground arith
value_out_loop_lem (o ∷ os) t r e = value_out_loop_lem os (plus_assign t o.value) r (ground arith)

check_fees_lem :
    (value_in : Cash) (tx : Transaction)
    → check_fees value_in tx ≡ CheckResult.passed
    → lt_int (minus value_in (plus_all tx.vout empty)) (pos 0) ≡ false
unfolding check_fees get_value_out
check_fees_lem value_in tx e = elim (Option-cases (value_out_loop tx.vout empty)) [
  | inl thrown ↦ absurd (ground arith)
  | inr (r, is_r) ↦
      subst (λ s. lt_int (minus value_in s) (pos 0) ≡ false)
        (value_out_loop_lem tx.vout empty r is_r) (ground arith)
]

-- No circuit has more going out than coming in.
conserved :
    (j : String) (v : View) (tx : Transaction)
    → All IsGood (spent v tx.vin)
    → All IsGood tx.vout
    → length tx.vin ≤ 1000000
    → length tx.vout ≤ 1000000
    → check_fees (plus_all (spent v tx.vin) empty) tx ≡ CheckResult.passed
    → total j tx.vout ≤ total j (spent v tx.vin)
unfolding find
conserved j v tx good_in good_out few_in few_out e =
    let few = length-spent v tx.vin in
    let (sum_in, map_in, bound_in) =
      read-plus_all j (spent v tx.vin) empty 0 0 good_in tt refl (omega arith) (omega arith) in
    let (sum_out, map_out, bound_out) =
      read-plus_all j tx.vout empty 0 0 good_out tt refl (omega arith) (omega arith) in
    let least =
      total_le j (plus_all (spent v tx.vin) empty) (plus_all tx.vout empty) _ _ map_in map_out
        sum_in sum_out bound_in bound_out (check_fees_lem (plus_all (spent v tx.vin) empty) tx e) in
    omega arith

pub ⊎-cases {ℓ κ} :
    {A : Type ℓ} {B : Type κ} (r : A ⊎ B) → ((a : A) × (r ≡ inl a)) ⊎ ((b : B) × (r ≡ inr b))
⊎-cases (inl a) = inl (a, refl)
⊎-cases (inr b) = inr (b, refl)

module _ (cx : Context) (check_sig : Transaction → ℕ → Item → Item → List ℕ → Bool)
    (base : View) where
  -- What the tests before the scripts come to.
  pub check_inputs_lem :
      (queued script_checks : Bool) (flags : Flags) (tip_height : ℕ) (tx : Transaction)
      (m : Entries)
      → is_coin_base tx.vin ≡ false
      → (check_inputs cx check_sig base queued script_checks flags tip_height tx m).0
        ≡ CheckResult.passed
      → All (IsThere (through base m)) tx.vin
        × All (IsMature (through base m) (suc tip_height)) tx.vin
        × (check_fees (plus_all (spent (through base m) tx.vin) empty) tx ≡ CheckResult.passed)
  unfolding check_inputs
  check_inputs_lem queued script_checks flags tip_height tx m ordinary h =
      let v = through base m in
      let (b, m1, is_b, reads, there) = have_inputs_lem base v tx m ordinary (λ k. refl) in
      elim (Bool-cases b) [
        | inr gone ↦ absurd (ground arith)
        | inl all ↦
            (let (after, sum) =
                sum_inputs_lem base v (suc tip_height) tx.vin empty m1 reads (there all) in
              let r = (sum_inputs base (suc tip_height) tx.vin empty m1).0 in
              elim (⊎-cases r) [
                | inl (k, is_k) ↦
                    absurd (
                      (subst (IsSum base v (suc tip_height) tx.vin empty) is_k sum).1
                        (ground arith))
                | inr (t, is_t) ↦
                    (let (same, mature) =
                        subst (IsSum base v (suc tip_height) tx.vin empty) is_t sum in
                      (
                        there all,
                        mature,
                        subst (λ t. check_fees t tx ≡ CheckResult.passed) same (ground arith),
                      ))
              ])
      ]

  -- A transaction that is no coin base and that CheckInputs accepts spends outputs that are there, none of a
  -- coin base that is too young, and has no more of any circuit going out than coming in. Each output has,
  -- for each circuit, one amount between 0 and MAX_MONEY, as those of an accepted transaction have, and at
  -- most a million come in and go out.
  pub check_inputs_sound :
      (queued script_checks : Bool) (flags : Flags) (tip_height : ℕ) (tx : Transaction)
      (m : Entries)
      → is_coin_base tx.vin ≡ false
      → All IsGood (spent (through base m) tx.vin)
      → All IsGood tx.vout
      → length tx.vin ≤ 1000000
      → length tx.vout ≤ 1000000
      → (check_inputs cx check_sig base queued script_checks flags tip_height tx m).0
        ≡ CheckResult.passed
      → All (IsThere (through base m)) tx.vin
        × All (IsMature (through base m) (suc tip_height)) tx.vin
        × ((circuit : String)
            → total circuit tx.vout ≤ total circuit (spent (through base m) tx.vin))
  check_inputs_sound queued script_checks flags tip_height tx m ordinary good_in good_out few_in
        few_out h =
      let (there, mature, fine) =
        check_inputs_lem queued script_checks flags tip_height tx m ordinary h in
      (
        there,
        mature,
        λ circuit. conserved circuit (through base m) tx good_in good_out few_in few_out fine,
      )
