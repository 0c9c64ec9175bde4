-- ===== src/Pool/Accept/Tests.antt =====
-- A standard transaction that spends a coin of the chain, with its script, taken into the pool.
use tetra.Prelude.{
  ℕ, ◌-◌, ◌^◌, ◌≤◌, ◌≡◌, refl, ap, Bool, true, false, ◌||◌, ◌==◌, if◌then◌else◌, [], ◌∷◌, Option,
  none, some, arith, replicate,
}
use tetra.Prelude.Int.{pos, ◌+ℤ◌, ◌-ℤ◌}
use tetra.Prelude.Word.{add64, sub64, neg64, wrap}
use tetra.Cash.{
  empty, find, set, plus_assign, plus_entries, minus, minus_assign, minus_entries, times_int, lt,
  lt_entries, gt, lt_int, gt_int, ge_int, le_int, min_value, min_entries, min_loop, max_value,
  max_loop,
}
use tetra.Cash.Range.{money_range}
use tetra.Coins.{Coins, available, is_available, is_null_out}
use tetra.Coins.Cache.{Entries, View, get_coins, have_coins, insert, lookup}
use tetra.Inputs.{
  CheckResult, Flags, check_inputs, have_all_coins, are_available, have_inputs, get_output_for,
  value_in_loop, get_value_in, get_value_out, value_out_loop, sum_inputs, is_immature, check_fees,
  run_check, check_scripts,
}
use tetra.Inputs.Queued.{check_inputs-queued}
use tetra.Script.Samples.{sample}
use tetra.Script.Machine.{Item, same}
use tetra.Script.Opcode.{opcode_of, value}
use tetra.Script.Parse.{
  get_op, get_operand, operand_size, split_operand, push_all, push_data, push_prefix,
  script_for_key_id,
}
use tetra.Script.Walk.{
  is_push_only, push_only_loop, has_canonical_pushes, canonical_pushes_loop, is_canonical_push,
}
use tetra.Script.Compute.{
  hash160, check, is_canonical_signature, is_canonical_pub_key, is_canonical_value,
  is_canonical_hash_type,
}
use tetra.Script.Eval.{accepted, verify_script}
use tetra.Script.Eval.Rounds.{eval_script-push_all}
use tetra.Script.Eval.Standard.{verify_script-key_id}
use tetra.Solver.{solver}
use tetra.Solver.Shapes.{solver-script_for_key_id}
use tetra.Solver.Destination.{is_standard, is_standard_type, script_sig_args_expected}
use tetra.Signing.{is_scripthash}
use tetra.Policy.{
  is_final, standard_inputs, standard_outputs, is_standard_tx, get_min_fee, add_dust, in_range,
  args_expected, standard_stack, standard_input, standard_prevouts, are_inputs_standard,
}
use tetra.Transaction.{
  TxIn, TxOut, Transaction, Verdict, is_null, same_out_point, is_coin_base, check_outputs, count,
  check_duplicates, check_prevouts, check_transaction, check_inputs as check_vin,
}
use tetra.Pool.{TxMemPool, tx_at, add_unchecked, clear}
use tetra.Pool.Maps.{lookup as find_tx}
use tetra.Pool.Consistent.{Consistent, Consistent-clear}
use tetra.Pool.Accept.{
  AcceptResult, Node, Asked, has_conflict, early_result, inputs_result, standard_result,
  fees_result, fees_ok, scripts_result, inputs_exist, accept, pool_view,
}
use tetra.Pool.Accept.Sound.{accept_sound}
use tetra.Pool.Accept.Stages.{InputsPass}

abbrev a_key : Item
a_key = 2 ∷ replicate 32 5

abbrev a_hash : Item
a_hash = 2 ∷ replicate 19 5

-- Both values are 1, and the type is SIGHASH_ALL.
abbrev a_sig : Item
a_sig = 0x30 ∷ 6 ∷ 2 ∷ 1 ∷ 1 ∷ 2 ∷ 1 ∷ 1 ∷ 1 ∷ []

abbrev pays : ℕ → Item → TxOut
pays eur h = record {
  value = record { local = ("eur", pos eur) ∷ []; fixed = pos 0 };
  script_pub_key = script_for_key_id h;
}

abbrev coin : Coins
coin = record { coin_base = false; vout = pays 7 a_hash ∷ []; height = 5; version = pos 1 }

abbrev input : TxIn
input = record {
  prevout = record { hash = 78; n = 0 };
  script_sig = push_all (a_sig ∷ a_key ∷ []);
  sequence = 0xffffffff;
}

-- A transaction is known by its lock time here.
abbrev payment : Transaction
payment = record {
  version = pos 2;
  vin = input ∷ [];
  vout = pays 5 (replicate 20 9) ∷ [];
  lock_time = 4;
  attachments = [];
}

abbrev no_pool : TxMemPool
no_pool = clear (record { map_tx = []; map_next_tx = []; updated = 0 })

abbrev tip : View
tip h = if h == 78 then some coin else none

abbrev node : Node
node = record {
  get_hash = λ tx. tx.lock_time;
  serialize_size = λ tx. 100;
  cx = sample;
  check_sig = λ tx n sig key code. same key a_key;
  tip = tip;
  best_height = 8;
  now = pos 1700000000;
  test_net = false;
  min_relay_fee = empty;
  rate_ok = true;
}

abbrev asked : Asked
asked = record { check_inputs = true; limit_free = true; reject_insane_fee = false }

payment-standard : is_standard_tx (λ tx. 100) 8 (pos 1700000000) payment ≡ true
unfolding is_standard_tx is_final standard_inputs standard_outputs is_push_only push_only_loop
    has_canonical_pushes canonical_pushes_loop is_canonical_push get_op get_operand operand_size
    split_operand opcode_of value is_standard is_standard_type push_all push_data push_prefix
payment-standard = rw (solver-script_for_key_id (replicate 20 9) refl) refl

early : early_result node asked payment no_pool ≡ none
unfolding early_result has_conflict clear check_transaction check_outputs check_duplicates
    check_prevouts check_vin count same_out_point is_null is_coin_base plus_assign plus_entries find
    set add64 wrap ◌+ℤ◌ lt_int gt_int ge_int le_int min_value min_entries min_loop max_value
    max_loop money_range find_tx
early = rw payment-standard refl

stack-standard : standard_stack (solver (script_for_key_id a_hash)) (a_key ∷ a_sig ∷ []) ≡ true
unfolding standard_stack script_sig_args_expected is_scripthash args_expected
stack-standard = rw (solver-script_for_key_id a_hash refl) refl

-- The script of the input leaves what the type of the output asks for.
input-standard :
    standard_input sample
      (λ n sig key code. same key a_key)
      (pool_view tip no_pool)
      0
      input
      (script_for_key_id a_hash)
    ≡ true
unfolding standard_input push_all push_data push_prefix
input-standard =
    rw
      (
        solver-script_for_key_id a_hash refl,
        eval_script-push_all _ (a_sig ∷ a_key ∷ []) [] (omega arith)
            (omega arith, (omega arith, tt)) (omega arith),
        stack-standard,
      )
      refl

inputs-standard :
    are_inputs_standard sample
      (λ n sig key code. same key a_key)
      (pool_view tip no_pool)
      payment
      ((78, coin) ∷ [])
    ≡ some (true, (78, coin) ∷ [])
unfolding are_inputs_standard standard_prevouts get_output_for get_coins lookup available
    is_null_out is_coin_base is_null
inputs-standard =
    ap
      (λ b. elim b as (λ x. Option (Bool × Entries)) [
        | false ↦ some (false, (78, coin) ∷ [])
        | true ↦ some (true, (78, coin) ∷ [])
      ])
      input-standard

input-passes :
    verify_script
      (record sample { check_sig = λ sig key code. same key a_key; strict = true })
      true
      (push_all (a_sig ∷ a_key ∷ []))
      (script_for_key_id a_hash)
    ≡ accepted true
unfolding check hash160 is_canonical_signature is_canonical_pub_key is_canonical_value
    is_canonical_hash_type same
input-passes = verify_script-key_id _ true a_hash a_sig a_key refl (omega arith) (omega arith)

abbrev base : View
base = pool_view tip no_pool

abbrev cached : Entries
cached = (78, coin) ∷ []

abbrev flags : Flags
flags = record { p2sh = true; strict = true }

input-check :
    run_check sample
      (λ tx n sig key code. same key a_key)
      (record {
        script_pub_key = script_for_key_id a_hash;
        tx_to = payment;
        n_in = 0;
        flags = flags;
      })
    ≡ accepted true
unfolding run_check
input-check = input-passes

scripts-pass :
    (check_inputs sample
      (λ tx n sig key code. same key a_key)
      base
      false
      true
      flags
      8
      payment
      cached).0
    ≡ CheckResult.passed
unfolding check_inputs have_inputs have_all_coins are_available have_coins get_coins lookup
    is_available available is_null_out sum_inputs is_immature check_fees get_value_out
    value_out_loop check_scripts is_coin_base is_null plus_assign minus_assign minus plus_entries
    minus_entries find set add64 sub64 neg64 wrap ◌+ℤ◌ ◌-ℤ◌ lt lt_entries lt_int ge_int le_int
    min_value min_entries min_loop max_value max_loop money_range
scripts-pass =
    (check_inputs-queued sample (λ tx n sig key code. same key a_key) base true flags 8 payment
        cached).0.1
      (refl, (input-check, tt))

scripts-none : scripts_result node asked base payment cached ≡ none
unfolding scripts_result
scripts-none = rw (scripts_result, scripts-pass) refl

fees-none : fees_result node asked base payment cached ≡ none
unfolding fees_result fees_ok get_value_in value_in_loop get_output_for get_coins lookup available
    is_null_out get_value_out value_out_loop is_coin_base is_null plus_assign minus_assign minus
    plus_entries minus_entries find set add64 sub64 neg64 wrap ◌+ℤ◌ ◌-ℤ◌ lt gt lt_entries lt_int
    gt_int ge_int le_int min_value min_entries min_loop max_value max_loop money_range get_min_fee
    add_dust in_range times_int
fees-none = scripts-none

standard-none : standard_result node asked base payment cached ≡ none
unfolding standard_result
standard-none = rw (standard_result, inputs-standard) fees-none

inputs-none : inputs_result node asked payment no_pool ≡ none
unfolding inputs_result inputs_exist have_inputs have_all_coins are_available have_coins get_coins
    lookup insert is_available available is_null_out is_coin_base is_null pool_view clear find_tx
inputs-none = standard-none

abbrev one : TxMemPool
one = add_unchecked 4 payment no_pool

payment-stored : accept node asked payment no_pool ≡ AcceptResult.stored one
unfolding accept
payment-stored = rw (accept, early, inputs-none) refl

no_pool-Consistent : Consistent (λ tx. tx.lock_time) no_pool
no_pool-Consistent =
    Consistent-clear (λ tx. tx.lock_time) (record { map_tx = []; map_next_tx = []; updated = 0 })

accept_sound_example :
    Consistent (λ tx. tx.lock_time) one
    × (tx_at 4 one ≡ some payment)
    × (check_transaction (λ tx. 100) payment ≡ Verdict.valid)
    × (is_coin_base payment.vin ≡ false)
    × (4 ≤ 2 ^ 31 - 1)
    × ((false || is_standard_tx (λ tx. 100) 8 (pos 1700000000) payment) ≡ true)
    × (tx_at 4 no_pool ≡ none)
    × (true ≡ true → InputsPass node asked payment no_pool base)
accept_sound_example = accept_sound node asked payment no_pool one no_pool-Consistent payment-stored
