-- ===== src/Script/Tests.antt =====
-- Runs of scripts, and the theorems at concrete inputs.
use tetra.Prelude.{
  ℕ, ◌*◌, ◌≤◌, ◌≡◌, ◌≢◌, ◌↔◌, refl, true, false, ◌&&◌, List, [], ◌∷◌, ◌++◌, some, arith,
}
use tetra.Script.Opcode.{value, opcode_of, value-opcode_of}
use tetra.Script.Parse.{
  get_op, push_data, push_prefix, push_all, script_for_key_id, script_for_script_id,
}
use tetra.Script.Parse.Laws.{get_op-push_data, push_opcode}
use tetra.Script.Walk.{get_sig_op_count}
use tetra.Script.Walk.Counts.{get_sig_op_count_bounds}
use tetra.Script.Number.{cast_to_bool, getvch, of_int}
use tetra.Script.Machine.{same, if_op, else_op, endif_op}
use tetra.Script.Compute.{check, match_sigs, hash160}
use tetra.Script.Compute.Multisig.{Matches, match_sigs_iff}
use tetra.Script.Eval.{
  accepted, out_of_fuel, eval_script, eval_loop, verify_script, execute, dispatch, step, count_op,
  finish, is_disabled, all_true,
}
use tetra.Script.Eval.Limits.{WithinLimits, eval_script_limits, eval_script-ne-out_of_fuel}
use tetra.Script.Eval.Rounds.{eval_script-push_all}
use tetra.Script.Eval.Standard.{verify_script-key_id, key_id_check}
use tetra.Script.Eval.ScriptHash.{verify_script-script_id, succeeds}
use tetra.Script.Samples.{sample, a_key, a_hash}

value-opcode_of_example : value (opcode_of 0x76) ≡ 0x76
value-opcode_of_example = value-opcode_of 0x76 (omega arith)

get_op-push_data_example :
    get_op (push_data [] (1 ∷ 2 ∷ []) ++ (0xac ∷ [])) ≡ some (push_opcode 2, 1 ∷ 2 ∷ [], 0xac ∷ [])
get_op-push_data_example = get_op-push_data (1 ∷ 2 ∷ []) (0xac ∷ []) (omega arith)

get_sig_op_count_bounds_example :
    (get_sig_op_count true (0x52 ∷ 0xae ∷ []) ≤ get_sig_op_count false (0x52 ∷ 0xae ∷ []))
    × (get_sig_op_count false (0x52 ∷ 0xae ∷ []) ≤ 20 * 2)
get_sig_op_count_bounds_example = get_sig_op_count_bounds (0x52 ∷ 0xae ∷ [])

match_sigs_iff_example :
    (match_sigs sample [] (a_key ∷ []) (a_hash ∷ a_key ∷ []) ≡ true)
    ↔ Matches (check sample []) (a_key ∷ []) (a_hash ∷ a_key ∷ [])
match_sigs_iff_example = match_sigs_iff sample [] (a_key ∷ []) (a_hash ∷ a_key ∷ [])

-- 1 IF 2 ELSE 3 ENDIF
abbrev branches : List ℕ
branches = 0x51 ∷ 0x63 ∷ 0x52 ∷ 0x67 ∷ 0x53 ∷ 0x68 ∷ []

branches_run : eval_script sample [] branches ≡ accepted ((2 ∷ []) ∷ [])
unfolding eval_script eval_loop step dispatch execute count_op finish is_disabled all_true get_op
    opcode_of value if_op else_op endif_op cast_to_bool getvch of_int
branches_run = refl

eval_script_limits_example : WithinLimits branches [] ((2 ∷ []) ∷ [])
eval_script_limits_example = eval_script_limits sample [] ((2 ∷ []) ∷ []) branches branches_run

eval_script-ne-out_of_fuel_example : eval_script sample [] branches ≢ out_of_fuel
eval_script-ne-out_of_fuel_example = eval_script-ne-out_of_fuel sample [] branches

eval_script-push_all_example :
    eval_script sample [] (push_all (a_key ∷ a_hash ∷ [])) ≡ accepted (a_hash ∷ a_key ∷ [])
unfolding push_all push_data push_prefix
eval_script-push_all_example =
    eval_script-push_all sample (a_key ∷ a_hash ∷ []) [] (omega arith) (omega arith) (omega arith)

verify_script-key_id_example :
    verify_script sample false (push_all (a_key ∷ a_key ∷ [])) (script_for_key_id a_hash)
    ≡ accepted (same (hash160 sample a_key) a_hash && key_id_check sample a_hash a_key a_key)
verify_script-key_id_example =
    verify_script-key_id sample false a_hash a_key a_key (omega arith) (omega arith) (omega arith)

verify_script-script_id_example :
    verify_script sample true (push_all (a_key ∷ (0x51 ∷ []) ∷ [])) (script_for_script_id a_hash)
    ≡ accepted (
        same (hash160 sample (0x51 ∷ [])) a_hash
        && succeeds (eval_script sample (a_key ∷ []) (0x51 ∷ [])))
unfolding push_all push_data push_prefix
verify_script-script_id_example =
    verify_script-script_id sample a_hash (0x51 ∷ []) (a_key ∷ []) (omega arith) (omega arith)
      (omega arith) (omega arith) (omega arith)
