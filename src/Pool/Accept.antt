-- ===== src/Pool/Accept.antt =====
-- `CTxMemPool::accept` (src/main.cpp). What the wallets are told is left out, and so is the replacement of
-- transactions, which stands behind a `return` and is never reached.
pub mod Sound
pub mod Reads
pub mod Stages
mod Tests
use tetra.Prelude.{
  ℕ, ◌+◌, ◌-◌, ◌^◌, Bool, true, false, not, ◌&&◌, ◌||◌, List, [], ◌∷◌, Option, none, some, leb, ltb,
  ◌==◌, if◌then◌else◌,
}
use tetra.Prelude.Int.{ℤ, pos}
use tetra.Cash.{Cash, minus, lt, gt, times_int}
use tetra.Coins.{coins_of}
use tetra.Coins.Cache.{Entries, View, have_coins}
use tetra.Inputs.{CheckResult, Flags, have_inputs, get_value_in, get_value_out, check_inputs}
use tetra.Policy.{is_standard_tx, are_inputs_standard, get_min_fee}
use tetra.Script.Machine.{Context, Item}
use tetra.Transaction.{Transaction, TxIn, Verdict, is_coin_base, check_transaction}
use tetra.Pool.{TxMemPool, tx_at, spender, add_unchecked}

-- Why a transaction is not stored: `return false`, the same with fMissingInputs set, or what is noted in the state, an
-- exception or an assertion that fails.
pub data Refusal : Type 0 where
  refused missing : Refusal
  failed : CheckResult → Refusal

pub data AcceptResult : Type 0 where
  stored : TxMemPool → AcceptResult
  not_stored : Refusal → AcceptResult

-- `CCoinsViewMemPool::GetCoins`, over the chain's coins.
unfoldable pub pool_view : View → TxMemPool → View
pool_view tip pool h = elim (tip h) [
  | some c ↦ some c
  | none ↦ elim (tx_at h pool) [ none ↦ none | some tx ↦ some (coins_of tx 0x7fffffff) ]
]

-- The loop that looks for conflicts.
unfoldable pub has_conflict : List TxIn → TxMemPool → Bool
has_conflict [] pool = false
has_conflict (i ∷ vin) pool = elim (spender i.prevout pool) [
  | none ↦ has_conflict vin pool
  | some q ↦ true
]

-- The loop over the coins of the inputs: whether all are there.
unfoldable pub inputs_exist : View → List TxIn → Entries → Bool × Entries
inputs_exist base [] m = (true, m)
inputs_exist base (i ∷ vin) m =
    let (there, m') = have_coins base i.prevout.hash m in
    let rest = inputs_exist base vin m' in if there then rest else (false, m')

-- What `accept` is given from outside: the hash and the size of a transaction, the scripts' context and the checks
-- of signatures; the state of the node; and what is asked for. `rate_ok` is the answer of the limiter of
-- free transactions, which counts with floating point.
pub record Node : Type 1 where
  pub get_hash : Transaction → ℕ
  pub serialize_size : Transaction → ℕ
  pub cx : Context
  pub check_sig : Transaction → ℕ → Item → Item → List ℕ → Bool
  pub tip : View
  pub best_height : ℕ
  pub now : ℤ
  pub test_net : Bool
  pub min_relay_fee : Cash
  pub rate_ok : Bool

pub record Asked : Type 0 where
  pub check_inputs : Bool
  pub limit_free : Bool
  pub reject_insane_fee : Bool

module _ (node : Node) (asked : Asked) where
  open node use {
    get_hash, serialize_size, cx, check_sig, tip, best_height, now, test_net, min_relay_fee,
    rate_ok,
  }

  -- The tests of the fee; true where none refuses.
  unfoldable pub fees_ok : Transaction → Cash → Bool
  fees_ok tx fees =
      not
        (asked.limit_free && lt fees (get_min_fee serialize_size min_relay_fee 16000 tx 1000 true))
      && (not (asked.limit_free && (lt fees min_relay_fee && not rate_ok))
          && not (asked.reject_insane_fee && gt fees (times_int min_relay_fee (pos 1000))))

  -- The last check, of the scripts, with SCRIPT_VERIFY_P2SH and SCRIPT_VERIFY_STRICTENC; `none` is to go on, here and
  -- below.
  unfoldable pub scripts_result : View → Transaction → Entries → Option Refusal
  scripts_result base tx m =
      elim (check_inputs cx check_sig base false true (record { p2sh = true; strict = true })
        best_height tx m).0 [ CheckResult.passed ↦ none | r ↦ some (Refusal.failed r) ]

  -- From the standard inputs on.
  unfoldable pub fees_result : View → Transaction → Entries → Option Refusal
  fees_result base tx m = elim (get_value_in base tx m) [
    | none ↦ some (Refusal.failed CheckResult.aborted)
    | some (value_in, m') ↦ elim (get_value_out tx) [
      | none ↦ some (Refusal.failed CheckResult.thrown)
      | some value_out ↦
          if fees_ok tx (minus value_in value_out)
          then scripts_result base tx m'
          else some Refusal.refused
    ]
  ]

  unfoldable pub standard_result : View → Transaction → Entries → Option Refusal
  standard_result base tx m = elim (are_inputs_standard cx (check_sig tx) base tx m) [
    | none ↦ some (Refusal.failed CheckResult.aborted)
    | some (standard, m') ↦
        if not standard && not test_net then some Refusal.refused else fees_result base tx m'
  ]

  -- The block under `if (fCheckInputs)`.
  unfoldable pub inputs_result : Transaction → TxMemPool → Option Refusal
  inputs_result tx pool =
      let base = pool_view tip pool in
      let (known, m1) = have_coins base (get_hash tx) [] in
      let (there, m2) = inputs_exist base tx.vin m1 in
      if known
      then some Refusal.refused
      else if not there
      then some Refusal.missing
      else elim (have_inputs base tx m2) [
        | none ↦ some (Refusal.failed CheckResult.aborted)
        | some (unspent, m3) ↦
            if not unspent
            then some (Refusal.failed CheckResult.invalid)
            else standard_result base tx m3
      ]

  -- The tests on the transaction by itself and against the pool.
  unfoldable pub early_result : Transaction → TxMemPool → Option Refusal
  early_result tx pool = elim (check_transaction serialize_size tx) [
    | Verdict.dos level ↦ some (Refusal.failed (CheckResult.dos level))
    | Verdict.valid ↦
        if is_coin_base tx.vin
        then some (Refusal.failed (CheckResult.dos 100))
        else if ltb (2 ^ 31 - 1) tx.lock_time
        then some Refusal.refused
        else if not test_net && not (is_standard_tx serialize_size best_height now tx)
        then some Refusal.refused
        else elim (tx_at (get_hash tx) pool) [
          | some old ↦ some Refusal.refused
          | none ↦ if has_conflict tx.vin pool then some Refusal.refused else none
        ]
  ]

  unfoldable pub accept : Transaction → TxMemPool → AcceptResult
  accept tx pool = elim (early_result tx pool) [
    | some r ↦ AcceptResult.not_stored r
    | none ↦ elim (if asked.check_inputs then inputs_result tx pool else none) [
      | some r ↦ AcceptResult.not_stored r
      | none ↦ AcceptResult.stored (add_unchecked (get_hash tx) tx pool)
    ]
  ]
