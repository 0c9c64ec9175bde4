-- ===== src/Inputs.antt =====
-- The checks of a transaction against the coins that it spends (src/main.cpp): HaveInputs, GetValueIn,
-- GetP2SHSigOpCount, CheckInputs, and the script checks that it runs or hands to the check queue.
-- What a signature check says of a transaction's input is a parameter. Heights are numbers of 31 bits.
pub mod Totals
pub mod Reads
pub mod Sound
pub mod Queued
pub mod Value
mod Tests
use tetra.Prelude.{
  ℕ, suc, ◌+◌, ◌≡◌, Bool, true, false, not, ◌&&◌, ◌||◌, List, [], ◌∷◌, Option, none, some, ◌>>=◌,
  ◌⊎◌, inl, inr, if◌then◌else◌, get_elem?,
}
use tetra.Prelude.Int.{ℤ, pos, ◌-ℤ◌, ltb_ℤ}
use tetra.Cash.{Cash, empty, plus_assign, minus, lt, lt_int}
use tetra.Cash.Range.{money_range}
use tetra.Transaction.{TxIn, TxOut, Transaction, is_coin_base}
use tetra.Coins.{Coins, available, is_available}
use tetra.Coins.Cache.{Entries, View, get_coins, have_coins}
use tetra.Script.Machine.{Context, Item}
use tetra.Script.Eval.{Outcome, verify_script}
use tetra.Script.Parse.{is_pay_to_script_hash}
use tetra.Script.Walk.{get_p2sh_sig_op_count}

-- `true`, `state.Invalid`, `state.DoS(level, ...)`, an exception, or an assertion that fails or an
-- index out of bounds.
pub data CheckResult : Type 0 where
  passed : CheckResult
  invalid : CheckResult
  dos : ℕ → CheckResult
  thrown : CheckResult
  aborted : CheckResult

abbrev pub coinbase_maturity : ℤ
coinbase_maturity = pos 0

-- `none` is the exception.
unfoldable pub value_out_loop : List TxOut → Cash → Option Cash
value_out_loop [] total = some total
value_out_loop (o ∷ os) total =
    let sum = plus_assign total o.value in
    let rest = value_out_loop os sum in if money_range sum then rest else none

unfoldable pub get_value_out : Transaction → Option Cash
get_value_out tx = value_out_loop tx.vout empty

-- SCRIPT_VERIFY_P2SH and SCRIPT_VERIFY_STRICTENC.
pub record Flags : Type 0 where
  pub p2sh : Bool
  pub strict : Bool

-- CScriptCheck
pub record ScriptCheck : Type 0 where
  pub script_pub_key : List ℕ
  pub tx_to : Transaction
  pub n_in : ℕ
  pub flags : Flags

-- What the two tests of the amounts say: `nValueIn < GetValueOut()` and what follows.
unfoldable pub check_fees : Cash → Transaction → CheckResult
check_fees value_in tx = elim (get_value_out tx) [
  | none ↦ CheckResult.thrown
  | some value_out ↦
      (let fee = minus value_in value_out in
        if lt value_in value_out
        then CheckResult.dos 100
        else if lt_int fee (pos 0)
        then CheckResult.dos 100
        else if not (money_range (plus_assign empty fee))
        then CheckResult.dos 100
        else CheckResult.passed)
]

unfoldable pub is_immature : ℕ → Coins → Bool
is_immature spend_height c =
    c.coin_base && ltb_ℤ (pos spend_height -ℤ pos c.height) coinbase_maturity

module _ (base : View) where
  -- `none` is an assertion that fails, here and below.
  unfoldable pub get_output_for : TxIn → Entries → Option (TxOut × Entries)
  get_output_for i m = do
    let (found, m') = get_coins base i.prevout.hash m
    c ← found
    o ← available i.prevout.n c.vout
    some (o, m')

  unfoldable pub value_in_loop : List TxIn → Cash → Entries → Option (Cash × Entries)
  value_in_loop [] total m = some (total, m)
  value_in_loop (i ∷ is) total m = do
    (o, m') ← get_output_for i m
    value_in_loop is (plus_assign total o.value) m'

  unfoldable pub get_value_in : Transaction → Entries → Option (Cash × Entries)
  get_value_in tx m = if is_coin_base tx.vin then some (empty, m) else value_in_loop tx.vin empty m

  unfoldable pub p2sh_sig_op_loop : List TxIn → Entries → Option (ℕ × Entries)
  p2sh_sig_op_loop [] m = some (0, m)
  p2sh_sig_op_loop (i ∷ is) m = do
    (o, m') ← get_output_for i m
    (n, m'') ← p2sh_sig_op_loop is m'
    some (
      (if is_pay_to_script_hash o.script_pub_key
            then get_p2sh_sig_op_count o.script_pub_key i.script_sig
            else 0)
          + n,
      m'',
    )

  unfoldable pub get_tx_p2sh_sig_op_count : Transaction → Entries → Option (ℕ × Entries)
  get_tx_p2sh_sig_op_count tx m =
      if is_coin_base tx.vin then some (0, m) else p2sh_sig_op_loop tx.vin m

  -- The two loops of HaveInputs.
  unfoldable pub have_all_coins : List TxIn → Entries → Bool × Entries
  have_all_coins [] m = (true, m)
  have_all_coins (i ∷ is) m =
      let (there, m') = have_coins base i.prevout.hash m in
      let rest = have_all_coins is m' in if there then rest else (false, m')

  unfoldable pub are_available : List TxIn → Entries → Option (Bool × Entries)
  are_available [] m = some (true, m)
  are_available (i ∷ is) m =
      let (found, m') = get_coins base i.prevout.hash m in
      let rest = are_available is m' in
      elim found [
        | none ↦ none
        | some c ↦ if is_available i.prevout.n c.vout then rest else some (false, m')
      ]

  unfoldable pub have_inputs : Transaction → Entries → Option (Bool × Entries)
  have_inputs tx m =
      let (there, m') = have_all_coins tx.vin m in
      if is_coin_base tx.vin
      then some (true, m)
      else if there
      then are_available tx.vin m'
      else some (false, m')

  -- The loop over the inputs' amounts: a result that ends the call, or the sum.
  unfoldable pub sum_inputs : ℕ → List TxIn → Cash → Entries → (CheckResult ⊎ Cash) × Entries
  sum_inputs spend_height [] total m = (inr total, m)
  sum_inputs spend_height (i ∷ is) total m =
      let (found, m') = get_coins base i.prevout.hash m in
      elim found [
        | none ↦ (inl CheckResult.aborted, m')
        | some c ↦ elim (get_elem? c.vout i.prevout.n) [
          | none ↦ (inl CheckResult.aborted, m')
          | some o ↦
              (let sum = plus_assign total o.value in
                let rest = sum_inputs spend_height is sum m' in
                if is_immature spend_height c
                then (inl CheckResult.invalid, m')
                else if not (money_range o.value) || not (money_range sum)
                then (inl (CheckResult.dos 100), m')
                else rest)
        ]
      ]

module _ (cx : Context) (check_sig : Transaction → ℕ → Item → Item → List ℕ → Bool) where
  -- `CScriptCheck::operator()`; `rejected` is an assertion that fails, or an index out of bounds.
  unfoldable pub run_check : ScriptCheck → Outcome Bool
  run_check k =
      let cx' = record cx { check_sig = check_sig k.tx_to k.n_in; strict = k.flags.strict } in
      elim (get_elem? k.tx_to.vin k.n_in) [
        | none ↦ Outcome.rejected
        | some i ↦ verify_script cx' k.flags.p2sh i.script_sig k.script_pub_key
      ]

  -- What a failed check gives: encodings alone are no reason for DoS protection.
  unfoldable pub on_failure : ScriptCheck → CheckResult
  on_failure k =
      if not k.flags.strict
      then CheckResult.dos 100
      else elim (run_check (record k { flags = record k.flags { strict = false } })) [
        | Outcome.accepted ok ↦ if ok then CheckResult.invalid else CheckResult.dos 100
        | Outcome.rejected ↦ CheckResult.aborted
        | Outcome.out_of_fuel ↦ CheckResult.aborted
      ]

  module _ (base : View) where
    -- The loop over the scripts, which are run at once or, with `queued`, given back to be run.
    unfoldable pub check_scripts :
        Bool
        → Flags
        → Transaction
        → List TxIn
        → ℕ
        → Entries
        → CheckResult × List ScriptCheck × Entries
    check_scripts queued flags tx [] n m = (CheckResult.passed, [], m)
    check_scripts queued flags tx (i ∷ is) n m =
        let (found, m') = get_coins base i.prevout.hash m in
        elim found [
          | none ↦ (CheckResult.aborted, [], m')
          | some c ↦ elim (get_elem? c.vout i.prevout.n) [
            | none ↦ (CheckResult.aborted, [], m')
            | some o ↦
                (let check : ScriptCheck = record {
                  script_pub_key = o.script_pub_key;
                  tx_to = tx;
                  n_in = n;
                  flags = flags;
                } in
                  let (result, checks, m'') = check_scripts queued flags tx is (suc n) m' in
                  if queued then (result, check ∷ checks, m'') else elim (run_check check) [
                    | Outcome.accepted ok ↦
                        if ok then (result, checks, m'') else (on_failure check, [], m')
                    | Outcome.rejected ↦ (CheckResult.aborted, [], m')
                    | Outcome.out_of_fuel ↦ (CheckResult.aborted, [], m')
                  ])
          ]
        ]

    -- CheckInputs, with the height of the view's best block.
    unfoldable pub check_inputs :
        Bool → Bool → Flags → ℕ → Transaction → Entries → CheckResult × List ScriptCheck × Entries
    check_inputs queued script_checks flags tip_height tx m =
        if is_coin_base tx.vin then (CheckResult.passed, [], m) else elim (have_inputs base tx m) [
          | none ↦ (CheckResult.aborted, [], m)
          | some (there, m1) ↦
              (let (sum, m2) = sum_inputs base (suc tip_height) tx.vin empty m1 in
                if not there then (CheckResult.invalid, [], m1) else elim sum [
                  | inl r ↦ (r, [], m2)
                  | inr value_in ↦ elim (check_fees value_in tx) [
                    | CheckResult.passed ↦
                        if script_checks
                        then check_scripts queued flags tx tx.vin 0 m2
                        else (CheckResult.passed, [], m2)
                    | r ↦ (r, [], m2)
                  ]
                ])
        ]
