-- ===== src/Script/Eval.antt =====
-- `EvalScript` and `VerifyScript` (src/script.cpp).
pub mod Step
pub mod ScriptHash
pub mod Standard
pub mod Rounds
pub mod Limits
pub mod Returns
use tetra.Prelude.{
  ℕ, zero, suc, ◌+◌, ◌≡◌, Bool, true, false, not, ◌&&◌, ◌||◌, List, [], ◌∷◌, ◌++◌, Option, none,
  some, ◌>>=◌, ◌>>◌, guard, leb, ltb, ◌==◌, if◌then◌else◌, length, map,
}
use mathlib.Core.Option
use tetra.Prelude.Int.{ℤ, pos, negsuc}
use tetra.Script.Opcode
use tetra.Script.Opcode.{Opcode, op_push, op_n, op_hash160, value}
use tetra.Script.Parse.{get_op, is_pay_to_script_hash}
use tetra.Script.Walk.{is_counted, is_push_only}
use tetra.Script.Number.{cast_to_bool, getvch, of_int}
use tetra.Script.Machine.{
  Item, Machine, Context, group_op, item_op, equal_op, to_alt, from_alt, if_op, else_op, endif_op,
  verify_op, pick_op,
}
use tetra.Script.Compute.{
  unary_op, binary_op, numequalverify_op, within_op, hash_op, checksig_op, multisig_op,
}

-- The disabled opcodes, which are refused also in a branch that does not run.
unfoldable pub is_disabled : Opcode → Bool
is_disabled Opcode.op_cat = true
is_disabled Opcode.op_substr = true
is_disabled Opcode.op_left = true
is_disabled Opcode.op_right = true
is_disabled Opcode.op_invert = true
is_disabled Opcode.op_and = true
is_disabled Opcode.op_or = true
is_disabled Opcode.op_xor = true
is_disabled Opcode.op_2mul = true
is_disabled Opcode.op_2div = true
is_disabled Opcode.op_mul = true
is_disabled Opcode.op_div = true
is_disabled Opcode.op_mod = true
is_disabled Opcode.op_lshift = true
is_disabled Opcode.op_rshift = true
is_disabled o = false

-- `CBigNum bn(stacktop(-1).size())`
unfoldable pub size_op : Context → List Item → Option (List Item)
size_op cx [] = none
size_op cx (x ∷ s) = some (getvch cx.bignum (cx.bignum.set_word (length x)) ∷ x ∷ s)

-- `!count(vfExec.begin(), vfExec.end(), false)`
unfoldable pub all_true : List Bool → Bool
all_true [] = true
all_true (b ∷ bs) = b && all_true bs

-- `opcode > OP_16 && ++nOpCount > 201`
unfoldable pub count_op : Opcode → Machine → Machine
count_op o m = if is_counted o then record m { op_count = m.op_count + 1 } else m

abbrev pub on_stack : (List Item → Option (List Item)) → Machine → Option Machine
on_stack f m = Option.map (λ s. record m { stack = s }) (f m.stack)

module _ (cx : Context) where
  open cx use {bignum}
  open bignum use {set_word}

  -- The `switch` on the opcode; `running` is fExec and `pc` the script behind the instruction.
  unfoldable pub execute : Opcode → Bool → List ℕ → Machine → Option Machine
  execute Opcode.op_1negate running pc m =
      some (record m { stack = getvch bignum (of_int bignum (negsuc 0)) ∷ m.stack })
  execute (op_n k) running pc m =
      some (record m { stack = getvch bignum (of_int bignum (pos k)) ∷ m.stack })
  execute Opcode.op_nop running pc m = some m
  execute Opcode.op_nop1 running pc m = some m
  execute Opcode.op_nop2 running pc m = some m
  execute Opcode.op_nop3 running pc m = some m
  execute Opcode.op_nop4 running pc m = some m
  execute Opcode.op_nop5 running pc m = some m
  execute Opcode.op_nop6 running pc m = some m
  execute Opcode.op_nop7 running pc m = some m
  execute Opcode.op_nop8 running pc m = some m
  execute Opcode.op_nop9 running pc m = some m
  execute Opcode.op_nop10 running pc m = some m
  execute Opcode.op_if running pc m = if_op false running m
  execute Opcode.op_notif running pc m = if_op true running m
  execute Opcode.op_else running pc m = else_op m
  execute Opcode.op_endif running pc m = endif_op m
  execute Opcode.op_verify running pc m = on_stack verify_op m
  execute Opcode.op_return running pc m = none
  execute Opcode.op_toaltstack running pc m = to_alt m
  execute Opcode.op_fromaltstack running pc m = from_alt m
  execute Opcode.op_2drop running pc m = on_stack (group_op Opcode.op_2drop) m
  execute Opcode.op_2dup running pc m = on_stack (group_op Opcode.op_2dup) m
  execute Opcode.op_3dup running pc m = on_stack (group_op Opcode.op_3dup) m
  execute Opcode.op_2over running pc m = on_stack (group_op Opcode.op_2over) m
  execute Opcode.op_2rot running pc m = on_stack (group_op Opcode.op_2rot) m
  execute Opcode.op_2swap running pc m = on_stack (group_op Opcode.op_2swap) m
  execute Opcode.op_ifdup running pc m = on_stack (item_op Opcode.op_ifdup) m
  execute Opcode.op_depth running pc m =
      some (record m { stack = getvch bignum (set_word (length m.stack)) ∷ m.stack })
  execute Opcode.op_drop running pc m = on_stack (item_op Opcode.op_drop) m
  execute Opcode.op_dup running pc m = on_stack (item_op Opcode.op_dup) m
  execute Opcode.op_nip running pc m = on_stack (item_op Opcode.op_nip) m
  execute Opcode.op_over running pc m = on_stack (item_op Opcode.op_over) m
  execute Opcode.op_pick running pc m = on_stack (pick_op cx false) m
  execute Opcode.op_roll running pc m = on_stack (pick_op cx true) m
  execute Opcode.op_rot running pc m = on_stack (item_op Opcode.op_rot) m
  execute Opcode.op_swap running pc m = on_stack (item_op Opcode.op_swap) m
  execute Opcode.op_tuck running pc m = on_stack (item_op Opcode.op_tuck) m
  execute Opcode.op_size running pc m = on_stack (size_op cx) m
  execute Opcode.op_equal running pc m = on_stack (equal_op false) m
  execute Opcode.op_equalverify running pc m = on_stack (equal_op true) m
  execute Opcode.op_1add running pc m = on_stack (unary_op cx Opcode.op_1add) m
  execute Opcode.op_1sub running pc m = on_stack (unary_op cx Opcode.op_1sub) m
  execute Opcode.op_negate running pc m = on_stack (unary_op cx Opcode.op_negate) m
  execute Opcode.op_abs running pc m = on_stack (unary_op cx Opcode.op_abs) m
  execute Opcode.op_not running pc m = on_stack (unary_op cx Opcode.op_not) m
  execute Opcode.op_0notequal running pc m = on_stack (unary_op cx Opcode.op_0notequal) m
  execute Opcode.op_add running pc m = on_stack (binary_op cx Opcode.op_add) m
  execute Opcode.op_sub running pc m = on_stack (binary_op cx Opcode.op_sub) m
  execute Opcode.op_booland running pc m = on_stack (binary_op cx Opcode.op_booland) m
  execute Opcode.op_boolor running pc m = on_stack (binary_op cx Opcode.op_boolor) m
  execute Opcode.op_numequal running pc m = on_stack (binary_op cx Opcode.op_numequal) m
  execute Opcode.op_numequalverify running pc m = on_stack (numequalverify_op cx) m
  execute Opcode.op_numnotequal running pc m = on_stack (binary_op cx Opcode.op_numnotequal) m
  execute Opcode.op_lessthan running pc m = on_stack (binary_op cx Opcode.op_lessthan) m
  execute Opcode.op_greaterthan running pc m = on_stack (binary_op cx Opcode.op_greaterthan) m
  execute Opcode.op_lessthanorequal running pc m =
      on_stack (binary_op cx Opcode.op_lessthanorequal) m
  execute Opcode.op_greaterthanorequal running pc m =
      on_stack (binary_op cx Opcode.op_greaterthanorequal) m
  execute Opcode.op_min running pc m = on_stack (binary_op cx Opcode.op_min) m
  execute Opcode.op_max running pc m = on_stack (binary_op cx Opcode.op_max) m
  execute Opcode.op_within running pc m = on_stack (within_op cx) m
  execute Opcode.op_ripemd160 running pc m = on_stack (hash_op cx Opcode.op_ripemd160) m
  execute Opcode.op_sha1 running pc m = on_stack (hash_op cx Opcode.op_sha1) m
  execute Opcode.op_sha256 running pc m = on_stack (hash_op cx Opcode.op_sha256) m
  execute Opcode.op_hash160 running pc m = on_stack (hash_op cx Opcode.op_hash160) m
  execute Opcode.op_hash256 running pc m = on_stack (hash_op cx Opcode.op_hash256) m
  execute Opcode.op_codeseparator running pc m = some (record m { code = pc })
  execute Opcode.op_checksig running pc m = on_stack (checksig_op cx false m.code) m
  execute Opcode.op_checksigverify running pc m = on_stack (checksig_op cx true m.code) m
  execute Opcode.op_checkmultisig running pc m = multisig_op cx false m
  execute Opcode.op_checkmultisigverify running pc m = multisig_op cx true m
  execute o running pc m = none

  -- A push in a branch that runs, or the `switch`, which IF to ENDIF reach in any branch.
  unfoldable pub dispatch : Opcode → Item → List ℕ → Machine → Option Machine
  dispatch o d pc m =
      let running = all_true m.exec in
      if running && leb (value o) 0x4e
      then some (record m { stack = d ∷ m.stack })
      else if running || (leb 0x63 (value o) && leb (value o) 0x68)
      then execute o running pc m
      else some m

  -- One round of the loop behind `GetOp`; `none` is `return false` or an exception.
  unfoldable pub step : Opcode → Item → List ℕ → Machine → Option Machine
  step o d pc m = do
    guard (leb (length d) 520)
    guard (not (is_counted o && ltb 201 (count_op o m).op_count))
    guard (not (is_disabled o))
    m' ← dispatch o d pc (count_op o m)
    guard (leb (length m'.stack + length m'.alt) 1000)
    some m'

-- How a run ends. `out_of_fuel` is no behaviour of the source.
pub data Outcome {ℓ} (A : Type ℓ) : Type ℓ where
  accepted : A → Outcome A
  rejected out_of_fuel : Outcome A

abbrev pub start : List Item → List ℕ → Machine
start s script = record { stack = s; alt = []; exec = []; op_count = 0; code = script }

-- `if (!vfExec.empty()) return false;`
unfoldable pub finish : Outcome Machine → Outcome (List Item)
finish (accepted m) = if length m.exec == 0 then accepted m.stack else rejected
finish rejected = rejected
finish out_of_fuel = out_of_fuel

-- `!stack.empty() && CastToBool(stack.back())`
unfoldable pub top_true : List Item → Bool
top_true [] = false
top_true (x ∷ s) = cast_to_bool x

module _ (cx : Context) where
  unfoldable pub eval_loop : ℕ → List ℕ → Machine → Outcome Machine
  eval_loop fuel [] m = accepted m
  eval_loop zero (b ∷ pc) m = out_of_fuel
  eval_loop (suc fuel) (b ∷ pc) m = elim (get_op (b ∷ pc)) [
    | none ↦ rejected
    | some (o, d, rest) ↦ elim (step cx o d rest m) [
      | none ↦ rejected
      | some m' ↦ eval_loop fuel rest m'
    ]
  ]

  -- EvalScript: the stack that is left where it returns true.
  unfoldable pub eval_script : List Item → List ℕ → Outcome (List Item)
  eval_script s script =
      if ltb 10000 (length script)
      then rejected
      else finish (eval_loop (length script) script (start s script))

  -- The last part of VerifyScript, on the stack that `scriptSig` left; its `assert` fails on none.
  unfoldable pub verify_p2sh : List Item → Outcome Bool
  verify_p2sh [] = rejected
  verify_p2sh (serialized ∷ s) = elim (eval_script s serialized) [
    | accepted s' ↦ accepted (top_true s')
    | rejected ↦ accepted false
    | out_of_fuel ↦ out_of_fuel
  ]

  -- Behind both runs, which left `s` and `s'`: the result, and the script that is paid to.
  unfoldable pub verify_result : Bool → List ℕ → List ℕ → List Item → List Item → Outcome Bool
  verify_result p2sh script_sig script_pub_key s s' =
      if not (top_true s')
      then accepted false
      else if p2sh && is_pay_to_script_hash script_pub_key
      then (if is_push_only script_sig then verify_p2sh s else accepted false)
      else accepted true

  -- The run of the output's script on the stack `s` that the input's script left.
  unfoldable pub verify_output : Bool → List ℕ → List ℕ → List Item → Outcome Bool
  verify_output p2sh script_sig script_pub_key s = elim (eval_script s script_pub_key) [
    | rejected ↦ accepted false
    | out_of_fuel ↦ out_of_fuel
    | accepted s' ↦ verify_result p2sh script_sig script_pub_key s s'
  ]

  -- VerifyScript, with SCRIPT_VERIFY_P2SH as `p2sh`; `rejected` is the failed assertion.
  unfoldable pub verify_script : Bool → List ℕ → List ℕ → Outcome Bool
  verify_script p2sh script_sig script_pub_key = elim (eval_script [] script_sig) [
    | rejected ↦ accepted false
    | out_of_fuel ↦ out_of_fuel
    | accepted s ↦ verify_output p2sh script_sig script_pub_key s
  ]
