-- ===== src/Script/Opcode.antt =====
-- `enum opcodetype` (src/script.h): the opcodes that a script's bytes stand for.
use tetra.Prelude.{
  ℕ, ◌+◌, ◌-◌, ◌<◌, ◌≡◌, refl, Bool, true, none, some, List, [], ◌∷◌, arith, ltb, leb, ◌==◌,
  if◌then◌else◌, ==_iff, Bool-cases, inl, inr, ltb→lt, leb→le, ◌≤◌, get_elem?,
}
use tetra.Prelude.Bits.{passes, passes-at}

-- `op_push n` is the immediate push of `n` bytes, 0 ≤ n ≤ 75, of which `OP_0` is the first; `op_n k`
-- is `OP_k`, 1 ≤ k ≤ 16. `op_other b` is a byte that the enumeration does not name.
pub data Opcode : Type 0 where
  op_push : ℕ → Opcode
  op_pushdata1 op_pushdata2 op_pushdata4 op_1negate op_reserved : Opcode
  op_n : ℕ → Opcode
  op_nop op_ver op_if op_notif op_verif op_vernotif op_else op_endif op_verify : Opcode
  op_return : Opcode
  op_toaltstack op_fromaltstack op_2drop op_2dup op_3dup op_2over op_2rot op_2swap : Opcode
  op_ifdup op_depth op_drop op_dup op_nip op_over op_pick op_roll op_rot op_swap : Opcode
  op_tuck : Opcode
  op_cat op_substr op_left op_right op_size : Opcode
  op_invert op_and op_or op_xor op_equal op_equalverify op_reserved1 op_reserved2 : Opcode
  op_1add op_1sub op_2mul op_2div op_negate op_abs op_not op_0notequal op_add op_sub : Opcode
  op_mul op_div op_mod op_lshift op_rshift op_booland op_boolor op_numequal : Opcode
  op_numequalverify op_numnotequal op_lessthan op_greaterthan op_lessthanorequal : Opcode
  op_greaterthanorequal op_min op_max op_within : Opcode
  op_ripemd160 op_sha1 op_sha256 op_hash160 op_hash256 op_codeseparator op_checksig : Opcode
  op_checksigverify op_checkmultisig op_checkmultisigverify : Opcode
  op_nop1 op_nop2 op_nop3 op_nop4 op_nop5 op_nop6 op_nop7 op_nop8 op_nop9 op_nop10 : Opcode
  op_smallinteger op_pubkeys op_pubkeyhash op_pubkey op_invalidopcode : Opcode
  op_other : ℕ → Opcode

-- The members from OP_NOP = 0x61 to OP_NOP10 = 0xb9, in order.
abbrev named : List Opcode
named =
    op_nop ∷ op_ver ∷ op_if ∷ op_notif ∷ op_verif ∷ op_vernotif ∷ op_else ∷ op_endif ∷ op_verify
    ∷ op_return ∷ op_toaltstack ∷ op_fromaltstack ∷ op_2drop ∷ op_2dup ∷ op_3dup ∷ op_2over
    ∷ op_2rot ∷ op_2swap ∷ op_ifdup ∷ op_depth ∷ op_drop ∷ op_dup ∷ op_nip ∷ op_over ∷ op_pick
    ∷ op_roll ∷ op_rot ∷ op_swap ∷ op_tuck ∷ op_cat ∷ op_substr ∷ op_left ∷ op_right ∷ op_size
    ∷ op_invert ∷ op_and ∷ op_or ∷ op_xor ∷ op_equal ∷ op_equalverify ∷ op_reserved1 ∷ op_reserved2
    ∷ op_1add ∷ op_1sub ∷ op_2mul ∷ op_2div ∷ op_negate ∷ op_abs ∷ op_not ∷ op_0notequal ∷ op_add
    ∷ op_sub ∷ op_mul ∷ op_div ∷ op_mod ∷ op_lshift ∷ op_rshift ∷ op_booland ∷ op_boolor
    ∷ op_numequal ∷ op_numequalverify ∷ op_numnotequal ∷ op_lessthan ∷ op_greaterthan
    ∷ op_lessthanorequal ∷ op_greaterthanorequal ∷ op_min ∷ op_max ∷ op_within ∷ op_ripemd160
    ∷ op_sha1 ∷ op_sha256 ∷ op_hash160 ∷ op_hash256 ∷ op_codeseparator ∷ op_checksig
    ∷ op_checksigverify ∷ op_checkmultisig ∷ op_checkmultisigverify ∷ op_nop1 ∷ op_nop2 ∷ op_nop3
    ∷ op_nop4 ∷ op_nop5 ∷ op_nop6 ∷ op_nop7 ∷ op_nop8 ∷ op_nop9 ∷ op_nop10 ∷ []

-- The cast `(opcodetype)opcode` of a byte.
unfoldable pub opcode_of : ℕ → Opcode
opcode_of b =
    if leb b 0x4b
    then op_push b
    else if b == 0x4c
    then op_pushdata1
    else if b == 0x4d
    then op_pushdata2
    else if b == 0x4e
    then op_pushdata4
    else if b == 0x4f
    then op_1negate
    else if b == 0x50
    then op_reserved
    else if leb b 0x60
    then op_n (b - 0x50)
    else if leb b 0xb9
    then (elim (get_elem? named (b - 0x61)) [ some o ↦ o | none ↦ op_other b ])
    else if b == 0xfa
    then op_smallinteger
    else if b == 0xfb
    then op_pubkeys
    else if b == 0xfd
    then op_pubkeyhash
    else if b == 0xfe
    then op_pubkey
    else if b == 0xff
    then op_invalidopcode
    else op_other b

-- The enumeration's value of an opcode.
unfoldable pub value : Opcode → ℕ
value (op_push n) = n
value op_pushdata1 = 0x4c
value op_pushdata2 = 0x4d
value op_pushdata4 = 0x4e
value op_1negate = 0x4f
value op_reserved = 0x50
value (op_n k) = 0x50 + k
value op_nop = 0x61
value op_ver = 0x62
value op_if = 0x63
value op_notif = 0x64
value op_verif = 0x65
value op_vernotif = 0x66
value op_else = 0x67
value op_endif = 0x68
value op_verify = 0x69
value op_return = 0x6a
value op_toaltstack = 0x6b
value op_fromaltstack = 0x6c
value op_2drop = 0x6d
value op_2dup = 0x6e
value op_3dup = 0x6f
value op_2over = 0x70
value op_2rot = 0x71
value op_2swap = 0x72
value op_ifdup = 0x73
value op_depth = 0x74
value op_drop = 0x75
value op_dup = 0x76
value op_nip = 0x77
value op_over = 0x78
value op_pick = 0x79
value op_roll = 0x7a
value op_rot = 0x7b
value op_swap = 0x7c
value op_tuck = 0x7d
value op_cat = 0x7e
value op_substr = 0x7f
value op_left = 0x80
value op_right = 0x81
value op_size = 0x82
value op_invert = 0x83
value op_and = 0x84
value op_or = 0x85
value op_xor = 0x86
value op_equal = 0x87
value op_equalverify = 0x88
value op_reserved1 = 0x89
value op_reserved2 = 0x8a
value op_1add = 0x8b
value op_1sub = 0x8c
value op_2mul = 0x8d
value op_2div = 0x8e
value op_negate = 0x8f
value op_abs = 0x90
value op_not = 0x91
value op_0notequal = 0x92
value op_add = 0x93
value op_sub = 0x94
value op_mul = 0x95
value op_div = 0x96
value op_mod = 0x97
value op_lshift = 0x98
value op_rshift = 0x99
value op_booland = 0x9a
value op_boolor = 0x9b
value op_numequal = 0x9c
value op_numequalverify = 0x9d
value op_numnotequal = 0x9e
value op_lessthan = 0x9f
value op_greaterthan = 0xa0
value op_lessthanorequal = 0xa1
value op_greaterthanorequal = 0xa2
value op_min = 0xa3
value op_max = 0xa4
value op_within = 0xa5
value op_ripemd160 = 0xa6
value op_sha1 = 0xa7
value op_sha256 = 0xa8
value op_hash160 = 0xa9
value op_hash256 = 0xaa
value op_codeseparator = 0xab
value op_checksig = 0xac
value op_checksigverify = 0xad
value op_checkmultisig = 0xae
value op_checkmultisigverify = 0xaf
value op_nop1 = 0xb0
value op_nop2 = 0xb1
value op_nop3 = 0xb2
value op_nop4 = 0xb3
value op_nop5 = 0xb4
value op_nop6 = 0xb5
value op_nop7 = 0xb6
value op_nop8 = 0xb7
value op_nop9 = 0xb8
value op_nop10 = 0xb9
value op_smallinteger = 0xfa
value op_pubkeys = 0xfb
value op_pubkeyhash = 0xfd
value op_pubkey = 0xfe
value op_invalidopcode = 0xff
value (op_other b) = b

value_table : passes (λ b. value (opcode_of b) == b) 256 ≡ true
unfolding passes value opcode_of
value_table = refl

-- A byte keeps its number under the cast: no two bytes stand for the same opcode.
pub value-opcode_of : (b : ℕ) → b < 256 → value (opcode_of b) ≡ b
value-opcode_of b h = (==_iff _ b).0 (passes-at _ 256 b h value_table)

-- What the cast calls `OP_N` has N up to 16.
abbrev small_n : Opcode → Bool
small_n (op_n k) = leb k 16
small_n o = true

small_n_table : passes (λ b. small_n (opcode_of b)) 0xba ≡ true
unfolding passes opcode_of
small_n_table = refl

pub opcode_of-op_n : (b k : ℕ) → opcode_of b ≡ op_n k → k ≤ 16
unfolding opcode_of
opcode_of-op_n b k e = elim (Bool-cases (ltb b 0xba)) [
  | inl low ↦
      let small = passes-at (λ x. small_n (opcode_of x)) 0xba b (ltb→lt b 0xba low) small_n_table in
      leb→le k 16 (rw e at small)
  | inr high ↦ ground arith
]
