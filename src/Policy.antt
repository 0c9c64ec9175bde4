-- ===== src/Policy.antt =====
-- What the node relays: IsFinal, IsStandard, AreInputsStandard and GetMinFee of a transaction (src/main.h,
-- src/main.cpp). The size of a serialized transaction, the best height and the adjusted time are parameters.
mod Tests
use tetra.Prelude.{
  ℕ, zero, suc, ◌+◌, ◌-◌, ◌*◌, ◌/◌, ◌%◌, ◌^◌, Bool, true, false, not, ◌&&◌, ◌||◌, List, [], ◌∷◌,
  Option, none, some, leb, ltb, ◌==◌, if◌then◌else◌, length,
}
use tetra.Prelude.Int.{ℤ, pos, negsuc, ◌+ℤ◌, ltb_ℤ}
use tetra.Cash.{Cash, empty, eq_int, plus_assign, times_int, lt_int}
use tetra.Cash.Range.{max_money, money_range}
use tetra.Script.Machine.{Context, Item}
use tetra.Script.Eval.{Outcome, eval_script}
use tetra.Script.Walk.{is_push_only, has_canonical_pushes}
use tetra.Transaction.{Transaction, TxIn, TxOut, is_coin_base}
use tetra.Solver.{TxnOutType, Solved, solver}
use tetra.Solver.Destination.{is_standard, script_sig_args_expected}
use tetra.Signing.{is_scripthash}
use tetra.Coins.Cache.{Entries, View}
use tetra.Inputs.{get_output_for}
pub mod Standard

abbrev pub locktime_threshold : ℕ
locktime_threshold = 500000000

abbrev pub sequence_final : ℕ
sequence_final = 0xffffffff

unfoldable pub all_final : List TxIn → Bool
all_final [] = true
all_final (i ∷ vin) = i.sequence == sequence_final && all_final vin

-- `IsFinal`, with the height and the time for the calls that give none.
unfoldable pub is_final : ℕ → ℤ → Transaction → ℕ → ℤ → Bool
is_final best_height now tx height time =
    let block_height = if height == 0 then best_height else height in
    let block_time = if eq_int time (pos 0) then now else time in
    if tx.lock_time == 0
    then true
    else if ltb_ℤ (pos tx.lock_time)
        (if ltb tx.lock_time locktime_threshold then pos block_height else block_time)
    then true
    else all_final tx.vin

unfoldable pub standard_inputs : List TxIn → Bool
standard_inputs [] = true
standard_inputs (i ∷ vin) =
    if ltb 500 (length i.script_sig)
    then false
    else if not (is_push_only i.script_sig)
    then false
    else if not (has_canonical_pushes i.script_sig)
    then false
    else standard_inputs vin

-- No output is dust: `IsDust` returns false.
unfoldable pub standard_outputs : List TxOut → Bool
standard_outputs [] = true
standard_outputs (o ∷ vout) = is_standard o.script_pub_key && standard_outputs vout

-- The test of the attachments compares `sizeof` of the vector, three pointers of 8 bytes, and never fails.
abbrev pub max_tx_attachments_len : ℕ
max_tx_attachments_len = 75 * 1024

abbrev pub sizeof_vector : ℕ
sizeof_vector = 24

abbrev pub max_standard_tx_size : ℕ
max_standard_tx_size = 100000

abbrev pub max_block_size_gen : ℕ
max_block_size_gen = 1000000 / 4

-- The loop that adds to the fee for each output below DUST_SOFT_LIMIT, which is 0.
unfoldable pub add_dust : Cash → List TxOut → Cash → Cash
add_dust base_fee [] fee = fee
add_dust base_fee (o ∷ vout) fee =
    add_dust base_fee vout (if lt_int o.value (pos 0) then plus_assign fee base_fee else fee)

-- `return MAX_MONEY` makes a Cash of an int64, whose constructor drops the amount.
unfoldable pub cash_of_int : ℤ → Cash
cash_of_int x = empty

-- `nMinFee = MAX_MONEY`
abbrev pub assign_int : ℤ → Cash
assign_int x = record { local = []; fixed = x }

unfoldable pub in_range : Cash → Cash
in_range fee = if not (money_range fee) then assign_int max_money else fee

module _ (serialize_size : Transaction → ℕ) where
  -- `CTransaction::IsStandard`
  unfoldable pub is_standard_tx : ℕ → ℤ → Transaction → Bool
  is_standard_tx best_height now tx =
      if ltb_ℤ (pos 2) tx.version || ltb_ℤ tx.version (pos 1)
      then false
      else if ltb max_tx_attachments_len sizeof_vector
      then false
      else if not (is_final best_height now tx 0 (pos 0))
      then false
      else if leb max_standard_tx_size (serialize_size tx)
      then false
      else standard_inputs tx.vin && standard_outputs tx.vout

  -- `GetMinFee` with the base fee of the mode, and the size below which it is free.
  unfoldable pub get_min_fee : Cash → ℕ → Transaction → ℕ → Bool → Cash
  get_min_fee base_fee free_size tx block_size allow_free =
      let bytes = serialize_size tx in
      let new_size = (block_size + bytes) % 2 ^ 32 in
      let fee = times_int base_fee (pos (1 + bytes / 1000)) in
      let fee1 = if allow_free && ltb bytes free_size then assign_int (pos 0) else fee in
      let fee2 = add_dust base_fee tx.vout fee1 in
      if not (block_size == 1) && leb (max_block_size_gen / 2) new_size
      then (if leb max_block_size_gen new_size
          then cash_of_int max_money
          else in_range
              (times_int fee2 (pos (max_block_size_gen / (max_block_size_gen - new_size)))))
      else in_range fee2

-- The number of items that the script of an input should leave, for the type of the output and, where that is a
-- script's hash, for the script on top of the stack; `none` is `return false`.
unfoldable pub args_expected : ℤ → Option ℕ
args_expected (pos n) = some n
args_expected (negsuc n) = none

unfoldable pub subscript_args : List Item → Option ℕ
subscript_args [] = none
subscript_args (subscript ∷ s) =
    let r = solver subscript in
    if not r.ok
    then none
    else if is_scripthash r.type_ret
    then none
    else args_expected (script_sig_args_expected r.type_ret r.solutions)

-- The test on the stack that the script left.
unfoldable pub standard_stack : Solved → List Item → Bool
standard_stack r stack = elim (args_expected (script_sig_args_expected r.type_ret r.solutions)) [
  | none ↦ false
  | some n ↦
      if is_scripthash r.type_ret
      then (elim (subscript_args stack) [ none ↦ false | some m ↦ length stack == n + m ])
      else length stack == n
]

-- The context of the script: no flags, and the signatures of the transaction's `n`th input.
abbrev pub input_context : Context → (ℕ → Item → Item → List ℕ → Bool) → ℕ → Context
input_context cx check_sig n = record cx { check_sig = check_sig n; strict = false }

module _ (cx : Context) (check_sig : ℕ → Item → Item → List ℕ → Bool) (base : View) where
  unfoldable pub standard_input : ℕ → TxIn → List ℕ → Bool
  standard_input n i prev_script =
      let r = solver prev_script in
      if not r.ok
      then false
      else elim (eval_script (input_context cx check_sig n) [] i.script_sig) [
        | Outcome.accepted stack ↦ standard_stack r stack
        | Outcome.rejected ↦ false
        | Outcome.out_of_fuel ↦ false
      ]

  -- The loop of `AreInputsStandard`; `none` is a failed assertion of GetOutputFor.
  unfoldable pub standard_prevouts : ℕ → List TxIn → Entries → Option (Bool × Entries)
  standard_prevouts n [] m = some (true, m)
  standard_prevouts n (i ∷ vin) m = elim (get_output_for base i m) [
    | none ↦ none
    | some (o, m') ↦ elim (standard_input n i o.script_pub_key) [
      | false ↦ some (false, m')
      | true ↦ standard_prevouts (suc n) vin m'
    ]
  ]

  unfoldable pub are_inputs_standard : Transaction → Entries → Option (Bool × Entries)
  are_inputs_standard tx m =
      if is_coin_base tx.vin then some (true, m) else standard_prevouts 0 tx.vin m
