-- ===== src/Script/Parse.antt =====
-- `CScript::GetOp2`, the pushes `operator<<` and the walks over a script that use no stack
-- (src/script.h, src/script.cpp). A script is the list of its bytes; an iterator is what is left of it.
pub mod Laws
use tetra.Prelude.{
  ℕ, zero, suc, ◌+◌, ◌-◌, ◌%◌, ◌^◌, ◌≤◌, ◌<◌, ◌≡◌, refl, Bool, true, false, ◌&&◌, ◌||◌, not, List,
  [], ◌∷◌, ◌++◌, Option, none, some, ◌>>=◌, arith, leb, ltb, ◌==◌, if◌then◌else◌, length, take,
  drop, get_or,
}
use tetra.Prelude.Bytes.{le_bytes, read_le}
use tetra.Script.Opcode
use tetra.Script.Opcode.{Opcode}

-- The operand's length, and the script behind it, for an opcode up to OP_PUSHDATA4.
unfoldable pub operand_size : ℕ → List ℕ → Option (ℕ × List ℕ)
operand_size opcode pc =
    if ltb opcode 0x4c
    then some (opcode, pc)
    else if opcode == 0x4c
    then read_le 1 pc
    else if opcode == 0x4d
    then read_le 2 pc
    else read_le 4 pc

-- `if (end() - pc < nSize) return false; pvchRet->assign(pc, pc + nSize); pc += nSize;`
unfoldable pub split_operand : ℕ → List ℕ → Option (List ℕ × List ℕ)
split_operand n pc = if leb n (length pc) then some (take n pc, drop n pc) else none

-- The operand of the opcode byte `b`, and the script behind it.
unfoldable pub get_operand : ℕ → List ℕ → Option (List ℕ × List ℕ)
get_operand b pc = do (n, body) ← operand_size b pc; split_operand n body

-- `CScript::GetOp2`: the opcode, its operand and the script behind them; `none` is `return false`.
unfoldable pub get_op : List ℕ → Option (Opcode × List ℕ × List ℕ)
get_op [] = none
get_op (b ∷ pc) =
    if leb b 0x4e
    then (do (operand, rest) ← get_operand b pc; some (Opcode.opcode_of b, operand, rest))
    else some (Opcode.opcode_of b, [], pc)

-- `operator<<(const std::vector<unsigned char>&)`: the length in front of the bytes.
unfoldable pub push_prefix : ℕ → List ℕ
push_prefix n =
    if ltb n 0x4c
    then n ∷ []
    else if leb n 0xff
    then 0x4c ∷ n ∷ []
    else if leb n 0xffff
    then 0x4d ∷ le_bytes 2 n
    else 0x4e ∷ le_bytes 4 n

unfoldable pub push_data : List ℕ → List ℕ → List ℕ
push_data script b = script ++ (push_prefix (length b) ++ b)

-- A push for each item in turn: the script with which a spender hands its items over.
unfoldable pub push_all : List (List ℕ) → List ℕ
push_all [] = []
push_all (d ∷ ds) = push_data [] d ++ push_all ds

-- `operator<<(opcodetype)`, for the members of the enumeration, which are bytes.
unfoldable pub push_op : List ℕ → Opcode → List ℕ
push_op script o = script ++ Opcode.value o ∷ []

-- `CScript::DecodeOP_N`; the assertion fails on any other opcode.
unfoldable pub decode_op_n : Opcode → Option ℕ
decode_op_n (Opcode.op_push zero) = some 0
decode_op_n (Opcode.op_n k) = some k
decode_op_n _ = none

-- `CScript::EncodeOP_N`.
unfoldable pub encode_op_n : ℕ → Option Opcode
encode_op_n n =
    if leb n 16 then (if n == 0 then some (Opcode.op_push 0) else some (Opcode.op_n n)) else none

-- `CScript::IsPayToScriptHash`.
unfoldable pub is_pay_to_script_hash : List ℕ → Bool
is_pay_to_script_hash s =
    length s == 23
    && get_or s 0 0 == Opcode.value Opcode.op_hash160
    && get_or s 1 0 == 0x14
    && get_or s 22 0 == Opcode.value Opcode.op_equal

-- `operator<<(const uint160&)`, on the 20 bytes of the number.
unfoldable pub push_uint160 : List ℕ → List ℕ → List ℕ
push_uint160 script h = script ++ (20 ∷ h)

-- `CScriptVisitor` on a CKeyID and on a CScriptID: the scripts of `SetDestination`.
unfoldable pub script_for_key_id : List ℕ → List ℕ
script_for_key_id h =
    push_op
      (push_op (push_uint160 (push_op (push_op [] Opcode.op_dup) Opcode.op_hash160) h)
        Opcode.op_equalverify)
      Opcode.op_checksig

unfoldable pub script_for_script_id : List ℕ → List ℕ
script_for_script_id h = push_op (push_uint160 (push_op [] Opcode.op_hash160) h) Opcode.op_equal
