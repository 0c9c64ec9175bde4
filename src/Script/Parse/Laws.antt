-- ===== src/Script/Parse/Laws.antt =====
-- What `get_op` reads, on any script and behind a push.
use tetra.Prelude.{
  ℕ, suc, ◌+◌, ◌^◌, ◌≤◌, ◌<◌, ◌≡◌, ◌∙◌, true, List, [], ◌∷◌, ◌++◌, some, arith, leb, ltb, length,
  length-append, length-drop, length-take, inl, inr, if◌then◌else◌, Bool-cases, >>=-eq-some,
}
use mathlib.Core.List.{append_assoc}
use tetra.Prelude.Bytes.{
  le_bytes, le_value, read_le, length-read_le, read_le-le_bytes, length-le_bytes, take-append,
  drop-append,
}
use tetra.Script.Opcode
use tetra.Script.Opcode.{Opcode}
use tetra.Script.Parse.{operand_size, split_operand, get_operand, get_op, push_prefix, push_data}

operand_size-le :
    (b : ℕ) (pc : List ℕ) (x : ℕ × List ℕ) → operand_size b pc ≡ some x → length x.1 ≤ length pc
unfolding operand_size
operand_size-le b pc x e =
    ground
      (arith, length-read_le 1 pc x.0 x.1, length-read_le 2 pc x.0 x.1, length-read_le 4 pc x.0 x.1)

split_operand-length :
    (n : ℕ) (pc : List ℕ) (x : List ℕ × List ℕ)
    → split_operand n pc ≡ some x
    → length x.0 + length x.1 ≡ length pc
unfolding split_operand
split_operand-length n pc x e = ground (arith, length-take n pc, length-drop n pc)

get_operand-length :
    (b : ℕ) (pc : List ℕ) (x : List ℕ × List ℕ)
    → get_operand b pc ≡ some x
    → length x.0 + length x.1 ≤ length pc
unfolding get_operand
get_operand-length b pc x e =
    let (y, size, split) = >>=-eq-some (operand_size b pc) _ e in
    omega (arith, operand_size-le b pc y size, split_operand-length y.0 y.1 x split)

-- An instruction takes at least one byte, and its operand is part of what it takes.
pub get_op_takes :
    (s : List ℕ) (o : Opcode) (d rest : List ℕ)
    → get_op s ≡ some (o, d, rest)
    → length rest + length d < length s
unfolding get_op
get_op_takes [] o d rest e = cc
get_op_takes (b ∷ pc) o d rest e = elim (Bool-cases (leb b 0x4e)) [
  | inl push ↦
      let (x, found, e') = >>=-eq-some (get_operand b pc) _ (rw push at e) in
      ground (arith, get_operand-length b pc x found)
  | inr plain ↦ ground arith
]

-- With `fuel` as long as the script the next round has enough.
pub get_op_fuel :
    (fuel : ℕ) (s : List ℕ) (o : Opcode) (d rest : List ℕ)
    → get_op s ≡ some (o, d, rest)
    → length s ≤ suc fuel
    → length rest ≤ fuel
get_op_fuel fuel s o d rest e h = omega (arith, get_op_takes s o d rest e)

-- The opcode of an immediate push is below OP_1NEGATE, and carries what it pushes.
pub get_op_byte :
    (b : ℕ) (pc : List ℕ) (o : Opcode) (d rest : List ℕ)
    → get_op (b ∷ pc) ≡ some (o, d, rest)
    → o ≡ Opcode.opcode_of b
unfolding get_op
get_op_byte b pc o d rest e = grind arith

-- A one-byte opcode above the pushes.
pub get_op-plain :
    (b : ℕ) (pc : List ℕ) → 0x4e < b → get_op (b ∷ pc) ≡ some (Opcode.opcode_of b, [], pc)
unfolding get_op
get_op-plain b pc h = ground arith

read_le-byte : (n : ℕ) (rest : List ℕ) → read_le 1 (n ∷ rest) ≡ some (n, rest)
unfolding read_le le_value
read_le-byte n rest = ground arith

split_operand-append : (d rest : List ℕ) → split_operand (length d) (d ++ rest) ≡ some (d, rest)
unfolding split_operand
split_operand-append d rest =
    ground (arith, length-append d rest, take-append d rest, drop-append d rest)

-- The opcode that a push of `n` bytes is written with.
abbrev pub push_opcode : ℕ → Opcode
push_opcode n =
    if ltb n 0x4c
    then Opcode.op_push n
    else if leb n 0xff
    then Opcode.op_pushdata1
    else if leb n 0xffff
    then Opcode.op_pushdata2
    else Opcode.op_pushdata4

push_prefix-cases :
    (n : ℕ) (rest : List ℕ)
    → n < 2 ^ 32
    → (b : ℕ) × (tail : List ℕ) × (push_prefix n ++ rest ≡ b ∷ tail)
      × (operand_size b tail ≡ some (n, rest))
      × (leb b 0x4e ≡ true)
      × (Opcode.opcode_of b ≡ push_opcode n)
unfolding push_prefix operand_size Opcode.opcode_of
push_prefix-cases n rest h = elim (Bool-cases (ltb n 0x4c)) [
  | inl short ↦ (n, rest, ground arith, ground arith, ground arith, ground arith)
  | inr long ↦ elim (Bool-cases (leb n 0xff)) [
    | inl one ↦ (
      0x4c,
      n ∷ rest,
      ground arith,
      ground (arith, read_le-byte n rest),
      ground arith,
      ground arith,
    )
    | inr long1 ↦ elim (Bool-cases (leb n 0xffff)) [
      | inl two ↦ (
        0x4d,
        le_bytes 2 n ++ rest,
        ground arith,
        ground (arith, read_le-le_bytes 2 n rest),
        ground arith,
        ground arith,
      )
      | inr long2 ↦ (
        0x4e,
        le_bytes 4 n ++ rest,
        ground arith,
        ground (arith, read_le-le_bytes 4 n rest),
        ground arith,
        ground arith,
      )
    ]
  ]
]

-- GetOp reads back what operator<< pushed, for data shorter than 2^32 bytes, and leaves whatever
-- follows it.
pub get_op-push_data :
    (d rest : List ℕ)
    → length d < 2 ^ 32
    → get_op (push_data [] d ++ rest) ≡ some (push_opcode (length d), d, rest)
unfolding push_data get_op get_operand
get_op-push_data d rest h =
    let (b, tail, shape, size, short, opcode) = push_prefix-cases (length d) (d ++ rest) h in
    rw (
      append_assoc (push_prefix (length d)) d rest,
      shape,
      short,
      size,
      split_operand-append d rest,
      opcode,
    )

pub get_op-short :
    (n : ℕ) (d rest : List ℕ)
    → length d ≡ n
    → n < 0x4c
    → get_op (n ∷ (d ++ rest)) ≡ some (Opcode.op_push n, d, rest)
unfolding get_op get_operand operand_size split_operand Opcode.opcode_of
get_op-short n d rest e h =
    ground (arith, length-append d rest, take-append d rest, drop-append d rest)

pub push_data-cons :
    (d rest : List ℕ)
    → length d < 2 ^ 32
    → (b : ℕ) × (tail : List ℕ) × (push_data [] d ++ rest ≡ b ∷ tail)
unfolding push_data
push_data-cons d rest h =
    let (b, tail, shape, _, _, _) = push_prefix-cases (length d) (d ++ rest) h in
    (b, tail, append_assoc (push_prefix (length d)) d rest ∙ shape)

pub length-push_data :
    (d rest : List ℕ) → length d < 2 ^ 32 → length rest < length (push_data [] d ++ rest)
length-push_data d rest h = omega (arith, get_op_takes _ _ d rest (get_op-push_data d rest h))

-- The length in front takes at most five bytes.
pub length-push_data-le : (d : List ℕ) → length (push_data [] d) ≤ length d + 5
unfolding push_data push_prefix
length-push_data-le d = ground (
  arith,
  length-append (push_prefix (length d)) d,
  length-le_bytes 2 (length d),
  length-le_bytes 4 (length d),
)
