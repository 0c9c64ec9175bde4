-- ===== src/Script/Walk.antt =====
-- The walks of `CScript` over its instructions (src/script.h, src/script.cpp). Each takes fuel, and is
-- called with the script's length: an instruction takes a byte at least.
pub mod Counts
pub mod Delete
pub mod Pushes
use tetra.Prelude.{
  ℕ, zero, suc, ◌+◌, ◌-◌, Bool, true, false, not, ◌&&◌, ◌||◌, List, [], ◌∷◌, ◌++◌, Option, none,
  some, leb, ltb, ◌==◌, if◌then◌else◌, length, take, drop, get_or,
}
use tetra.Script.Opcode
use tetra.Script.Opcode.{Opcode, op_push, op_n, value}
use tetra.Script.Parse.{get_op, decode_op_n, is_pay_to_script_hash}

-- `opcode > OP_16`
abbrev pub is_counted : Opcode → Bool
is_counted o = ltb 0x60 (value o)

-- `CScript::IsPushOnly`
unfoldable pub push_only_loop : ℕ → List ℕ → Bool
push_only_loop fuel [] = true
push_only_loop zero (b ∷ pc) = false
push_only_loop (suc fuel) (b ∷ pc) = elim (get_op (b ∷ pc)) [
  | none ↦ false
  | some (o, d, rest) ↦ elim (is_counted o) [ true ↦ false | false ↦ push_only_loop fuel rest ]
]

unfoldable pub is_push_only : List ℕ → Bool
is_push_only s = push_only_loop (length s) s

-- The verdict of `HasCanonicalPushes` on one instruction.
unfoldable pub is_canonical_push : Opcode → List ℕ → Bool
is_canonical_push o d =
    if is_counted o
    then true
    else if ltb (value o) 0x4c && ltb 0 (value o) && (length d == 1 && leb (get_or d 0 0) 16)
    then false
    else if value o == 0x4c && ltb (length d) 0x4c
    then false
    else if value o == 0x4d && leb (length d) 0xff
    then false
    else if value o == 0x4e && leb (length d) 0xffff
    then false
    else true

-- `CScript::HasCanonicalPushes`
unfoldable pub canonical_pushes_loop : ℕ → List ℕ → Bool
canonical_pushes_loop fuel [] = true
canonical_pushes_loop zero (b ∷ pc) = false
canonical_pushes_loop (suc fuel) (b ∷ pc) = elim (get_op (b ∷ pc)) [
  | none ↦ false
  | some (o, d, rest) ↦ elim (is_canonical_push o d) [
    | true ↦ canonical_pushes_loop fuel rest
    | false ↦ false
  ]
]

unfoldable pub has_canonical_pushes : List ℕ → Bool
has_canonical_pushes s = canonical_pushes_loop (length s) s

-- What CHECKMULTISIG counts for, behind the opcode `last`: its keys, where `OP_N` tells them.
unfoldable pub multisig_ops : Bool → Opcode → ℕ
multisig_ops true (op_n k) = k
multisig_ops accurate last = 20

-- What one instruction adds in `GetSigOpCount`, behind the opcode `last`.
unfoldable pub sig_ops : Bool → Opcode → Opcode → ℕ
sig_ops accurate last Opcode.op_checksig = 1
sig_ops accurate last Opcode.op_checksigverify = 1
sig_ops accurate last Opcode.op_checkmultisig = multisig_ops accurate last
sig_ops accurate last Opcode.op_checkmultisigverify = multisig_ops accurate last
sig_ops accurate last o = 0

-- `CScript::GetSigOpCount(bool fAccurate)`; a script that cannot be read on counts up to there.
unfoldable pub sig_op_loop : ℕ → Bool → Opcode → List ℕ → ℕ
sig_op_loop fuel accurate last [] = 0
sig_op_loop zero accurate last (b ∷ pc) = 0
sig_op_loop (suc fuel) accurate last (b ∷ pc) = elim (get_op (b ∷ pc)) [
  | none ↦ 0
  | some (o, d, rest) ↦ sig_ops accurate last o + sig_op_loop fuel accurate o rest
]

-- `CScript::GetSigOpCount(bool)`. The source counts in an unsigned int, which wraps round at 2^32; that takes a
-- longer script than MAX_SIZE lets through.
unfoldable pub get_sig_op_count : Bool → List ℕ → ℕ
get_sig_op_count accurate s = sig_op_loop (length s) accurate Opcode.op_invalidopcode s

-- The last item that a script of pushes leaves; `none` where `GetSigOpCount` returns 0.
unfoldable pub last_push_loop : ℕ → List ℕ → List ℕ → Option (List ℕ)
last_push_loop fuel data' [] = some data'
last_push_loop zero data' (b ∷ pc) = none
last_push_loop (suc fuel) data' (b ∷ pc) = elim (get_op (b ∷ pc)) [
  | none ↦ none
  | some (o, d, rest) ↦ elim (is_counted o) [ true ↦ none | false ↦ last_push_loop fuel d rest ]
]

-- `CScript::GetSigOpCount(const CScript& scriptSig)`, on the output's script.
unfoldable pub get_p2sh_sig_op_count : List ℕ → List ℕ → ℕ
get_p2sh_sig_op_count script_pub_key script_sig =
    if not (is_pay_to_script_hash script_pub_key)
    then get_sig_op_count true script_pub_key
    else (elim (last_push_loop (length script_sig) [] script_sig) [
      | none ↦ 0
      | some subscript ↦ get_sig_op_count true subscript
    ])

-- `memcmp(&pc[0], &b[0], b.size()) == 0` with enough bytes left: what stands behind `b`.
unfoldable pub strip_prefix : List ℕ → List ℕ → Option (List ℕ)
strip_prefix [] pc = some pc
strip_prefix (x ∷ b) [] = none
strip_prefix (x ∷ b) (y ∷ pc) = let rest = strip_prefix b pc in if x == y then rest else none

-- The inner loop of `FindAndDelete`: every copy of `b` at the iterator goes, and is counted.
unfoldable pub erase_copies : ℕ → List ℕ → List ℕ → List ℕ × ℕ
erase_copies zero b pc = (pc, 0)
erase_copies (suc fuel) b pc = elim (strip_prefix b pc) [
  | none ↦ (pc, 0)
  | some rest ↦ let r = erase_copies fuel b rest in (r.0, r.1 + 1)
]

-- The outer loop: from the iterator on, what is kept and how many copies went.
unfoldable pub delete_loop : ℕ → List ℕ → List ℕ → List ℕ × ℕ
delete_loop zero b pc = erase_copies (length pc) b pc
delete_loop (suc fuel) b pc =
    let here = erase_copies (length pc) b pc in
    elim (get_op here.0) [
      | none ↦ here
      | some (o, d, rest) ↦
          let r = delete_loop fuel b rest in
          (take (length here.0 - length rest) here.0 ++ r.0, here.1 + r.1)
    ]

-- `CScript::FindAndDelete`: the script that is left and the number of copies found.
unfoldable pub find_and_delete : List ℕ → List ℕ → List ℕ × ℕ
find_and_delete s [] = (s, 0)
find_and_delete s (x ∷ b) = delete_loop (length s) (x ∷ b) s
