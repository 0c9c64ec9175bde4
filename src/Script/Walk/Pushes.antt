-- ===== src/Script/Walk/Pushes.antt =====
-- What IsPushOnly and HasCanonicalPushes accept together: the bytes that operator<< writes (src/script.h,
-- src/script.cpp).
use native.Mathlib.Nat.{pow-suc}
use tetra.Prelude.{
  ℕ, zero, suc, ◌+◌, ◌*◌, ◌/◌, ◌%◌, ◌^◌, ◌<◌, ◌≤◌, ◌≡◌, ◌≢◌, refl, sym, ◌∙◌, ap, subst, true, false,
  List, [], ◌∷◌, ◌++◌, none, some, arith, leb, ltb, ◌==◌, length, length-take, take, drop,
  take-append-drop, get_or, All, >>=-eq-some, Bool-cases, Option-cases, inl, inr, ◌⊎◌,
}
use mathlib.Core.List.{append_assoc}
use tetra.Prelude.Bytes.{IsByte, le_bytes, le_value, read_le}
use tetra.Script.Opcode.{Opcode, value, opcode_of, value-opcode_of}
use tetra.Script.Parse.{get_op, get_operand, operand_size, split_operand, push_prefix}
use tetra.Script.Parse.Laws.{get_op_byte}
use tetra.Script.Walk.{
  is_counted, is_push_only, push_only_loop, is_canonical_push, has_canonical_pushes,
  canonical_pushes_loop,
}

All-take : (k : ℕ) (xs : List ℕ) → All IsByte xs → All IsByte (take k xs)
All-take zero xs h = tt
All-take (suc k) [] h = tt
All-take (suc k) (x ∷ xs) h = (h.0, All-take k xs h.1)

All-behind : (xs ys : List ℕ) → All IsByte (xs ++ ys) → All IsByte ys
All-behind [] ys h = h
All-behind (x ∷ xs) ys h = All-behind xs ys h.1

le_bytes-le_value : (xs : List ℕ) → All IsByte xs → le_bytes (length xs) (le_value xs) ≡ xs
unfolding le_bytes le_value
le_bytes-le_value [] h = refl
le_bytes-le_value (x ∷ xs) h =
    let low : (x + 256 * le_value xs) % 256 ≡ x = omega (arith, h.0) in
    let high : (x + 256 * le_value xs) / 256 ≡ le_value xs = omega (arith, h.0) in
    rw (low, high, le_bytes-le_value xs h.1) refl

le_value_bound : (xs : List ℕ) → All IsByte xs → le_value xs < 256 ^ length xs
unfolding le_value
le_value_bound [] h = omega arith
le_value_bound (x ∷ xs) h = omega (arith, h.0, le_value_bound xs h.1, pow-suc 256 (length xs))

-- The bytes that a number was read from are the number's.
read_le_inv :
    (k : ℕ) (pc : List ℕ) (n : ℕ) (body : List ℕ)
    → All IsByte pc
    → read_le k pc ≡ some (n, body)
    → (pc ≡ le_bytes k n ++ body) × (n < 256 ^ k)
unfolding read_le
read_le_inv k pc n body bytes e =
    let taken = All-take k pc bytes in
    let size : length (take k pc) ≡ k = ground (arith, length-take k pc) in
    let number : n ≡ le_value (take k pc) = ground arith in
    let left : body ≡ drop k pc = ground arith in
    let whole : le_bytes k n ≡ take k pc =
      ap (le_bytes k) number
      ∙ ap (λ j. le_bytes j (le_value (take k pc))) (sym size)
      ∙ le_bytes-le_value (take k pc) taken in
    (
      sym (take-append-drop k pc)
          ∙ ap (λ x. x ++ drop k pc) (sym whole)
          ∙ ap (λ x. le_bytes k n ++ x) (sym left),
      subst (λ j. n < 256 ^ j) size (rw number (le_value_bound (take k pc) taken)),
    )

split_operand_inv :
    (n : ℕ) (body d rest : List ℕ)
    → split_operand n body ≡ some (d, rest)
    → (body ≡ d ++ rest) × (length d ≡ n)
unfolding split_operand
split_operand_inv n body d rest e =
    let front : d ≡ take n body = ground arith in
    let left : rest ≡ drop n body = ground arith in
    (
      sym (take-append-drop n body)
          ∙ ap (λ x. x ++ drop n body) (sym front)
          ∙ ap (λ x. d ++ x) (sym left),
      ap length front ∙ ground (arith, length-take n body),
    )

-- An instruction that pushes data, in the canonical form, is what operator<< writes for the data.
module _ (b : ℕ) (pc d rest : List ℕ) (byte : IsByte b) (bytes : All IsByte pc)
    (canonical : is_canonical_push (opcode_of b) d ≡ true) where
  abbrev IsShape : Type 0
  IsShape = b ∷ pc ≡ push_prefix (length d) ++ (d ++ rest)

  shape_short : b < 0x4c → split_operand b pc ≡ some (d, rest) → IsShape
  unfolding push_prefix
  shape_short short split =
      let (whole, size) = split_operand_inv b pc d rest split in rw size (ground (arith, whole))

  module _ (n : ℕ) (body : List ℕ) (split : split_operand n body ≡ some (d, rest)) where
    shape_one : b ≡ 0x4c → read_le 1 pc ≡ some (n, body) → IsShape
    unfolding push_prefix is_canonical_push le_bytes
    shape_one is_b read =
        let (whole, size) = split_operand_inv n body d rest split in
        let (front, bound) = read_le_inv 1 pc n body bytes read in
        let low : n % 256 ≡ n = omega (arith, bound) in
        let code : value (opcode_of b) ≡ 0x4c = value-opcode_of b byte ∙ is_b in
        let first : pc ≡ n ∷ (d ++ rest) =
          front ∙ ap (λ x. le_bytes 1 n ++ x) whole ∙ ap (λ x. x ∷ (d ++ rest)) low in
        let long : 0x4c ≤ length d = ground (arith, code) in
        let small : length d ≤ 0xff = omega (arith, size, bound) in
        rw (is_b, first, sym size) (ground (arith, long, small))

    shape_two : b ≡ 0x4d → read_le 2 pc ≡ some (n, body) → IsShape
    unfolding push_prefix is_canonical_push
    shape_two is_b read =
        let (whole, size) = split_operand_inv n body d rest split in
        let (front, bound) = read_le_inv 2 pc n body bytes read in
        let code : value (opcode_of b) ≡ 0x4d = value-opcode_of b byte ∙ is_b in
        let first : pc ≡ le_bytes 2 n ++ (d ++ rest) = front ∙ ap (λ x. le_bytes 2 n ++ x) whole in
        let long : 0xff < length d = ground (arith, code) in
        let small : length d ≤ 0xffff = omega (arith, size, bound) in
        rw (is_b, first, sym size) (ground (arith, long, small))

    shape_four : b ≡ 0x4e → read_le 4 pc ≡ some (n, body) → IsShape
    unfolding push_prefix is_canonical_push
    shape_four is_b read =
        let (whole, size) = split_operand_inv n body d rest split in
        let (front, bound) = read_le_inv 4 pc n body bytes read in
        let code : value (opcode_of b) ≡ 0x4e = value-opcode_of b byte ∙ is_b in
        let first : pc ≡ le_bytes 4 n ++ (d ++ rest) = front ∙ ap (λ x. le_bytes 4 n ++ x) whole in
        let long : 0xffff < length d = ground (arith, code) in
        rw (is_b, first, sym size) (ground (arith, long))

  shape : leb b 0x4e ≡ true → get_operand b pc ≡ some (d, rest) → IsShape
  unfolding get_operand operand_size
  shape low e = elim (Bool-cases (ltb b 0x4c)) [
    | inl short ↦ shape_short (ground arith) (rw (get_operand, operand_size, short) at e)
    | inr long ↦
        let ((n, body), size, split) = >>=-eq-some (operand_size b pc) _ e in
        elim (Bool-cases (b == 0x4c)) [
          | inl one ↦ shape_one n body split (ground arith) (rw (operand_size, long, one) at size)
          | inr not_one ↦ elim (Bool-cases (b == 0x4d)) [
            | inl two ↦
                shape_two n body split (ground arith)
                  (rw (operand_size, long, not_one, two) at size)
            | inr not_two ↦
                shape_four n body split (ground arith)
                  (rw (operand_size, long, not_one, not_two) at size)
          ]
        ]
  ]

-- What a script of pushes is put together from: an opcode between OP_1NEGATE and OP_16, or data.
pub data Piece : Type 0 where
  op_code : ℕ → Piece
  pushed : List ℕ → Piece

-- No data is a single byte that an OP_N stands for.
abbrev pub IsPiece : Piece → Type 0
IsPiece (Piece.op_code b) = (0x4f ≤ b) × (b ≤ 0x60)
IsPiece (Piece.pushed d) = (length d ≢ 1) ⊎ (16 < get_or d 0 0)

-- The bytes that operator<< writes for it.
abbrev pub piece_bytes : Piece → List ℕ
piece_bytes (Piece.op_code b) = b ∷ []
piece_bytes (Piece.pushed d) = push_prefix (length d) ++ d

abbrev pub written : List Piece → List ℕ
written [] = []
written (p ∷ ps) = piece_bytes p ++ written ps

short_length :
    (b : ℕ) (pc d rest : List ℕ) → b < 0x4c → get_operand b pc ≡ some (d, rest) → length d ≡ b
unfolding get_operand operand_size
short_length b pc d rest short e =
    let below : ltb b 0x4c ≡ true = ground arith in
    (split_operand_inv b pc d rest (rw (get_operand, operand_size, below) at e)).1

is_piece :
    (b : ℕ) (o : Opcode) (d : List ℕ)
    → value o ≡ b
    → b ≤ 0x4e
    → (b < 0x4c → length d ≡ b)
    → is_canonical_push o d ≡ true
    → IsPiece (Piece.pushed d)
unfolding is_canonical_push
is_piece b o d number low size canonical = elim (Bool-cases (length d == 1)) [
  | inr other ↦ inl (λ e. ground arith)
  | inl one ↦ elim (Bool-cases (ltb b 0x4c)) [
    | inl short ↦
        let is_one : length d ≡ b = size (ground arith) in inr (ground (arith, number, is_one))
    | inr long ↦ absurd (ground (arith, number))
  ]
]

operand_of :
    (b : ℕ) (pc : List ℕ) (o : Opcode) (d rest : List ℕ)
    → leb b 0x4e ≡ true
    → get_op (b ∷ pc) ≡ some (o, d, rest)
    → get_operand b pc ≡ some (d, rest)
unfolding get_op
operand_of b pc o d rest low e = elim (Option-cases (get_operand b pc)) [
  | inl stop ↦ (let both : none ≡ some (o, d, rest) = rw (get_op, low, stop) at e in cc)
  | inr ((d', rest'), found) ↦
      let both : some (opcode_of b, d', rest') ≡ some (o, d, rest) = rw (get_op, low, found) at e in
      let front : d' ≡ d = ground arith in
      let left : rest' ≡ rest = ground arith in
      found ∙ ap (λ x. some (x, rest')) front ∙ ap (λ x. some (d, x)) left
]

-- One instruction as a piece.
instruction :
    (b : ℕ) (pc : List ℕ) (o : Opcode) (d rest : List ℕ)
    → All IsByte (b ∷ pc)
    → get_op (b ∷ pc) ≡ some (o, d, rest)
    → is_counted o ≡ false
    → is_canonical_push o d ≡ true
    → (p : Piece) × IsPiece p × (b ∷ pc ≡ piece_bytes p ++ rest)
unfolding get_op is_canonical_push
instruction b pc o d rest (byte, bytes) read plain canonical =
    let code = get_op_byte b pc o d rest read in
    let number : value o ≡ b = ap value code ∙ value-opcode_of b byte in
    elim (Bool-cases (leb b 0x4e)) [
      | inr above ↦ (
        Piece.op_code b,
        (ground arith, ground (arith, number)),
        (let left : pc ≡ rest = ground arith in ap (λ x. b ∷ x) left),
      )
      | inl low ↦
          let operand = operand_of b pc o d rest low read in
          let fine : is_canonical_push (opcode_of b) d ≡ true =
            subst (λ x. is_canonical_push x d ≡ true) code canonical in
          (
            Piece.pushed d,
            is_piece b o d number (ground arith) (λ short. short_length b pc d rest short operand)
                canonical,
            shape b pc d rest byte bytes fine low operand
                ∙ sym (append_assoc (push_prefix (length d)) d rest),
          )
    ]

push_only_inv :
    (f b : ℕ) (pc : List ℕ) (o : Opcode) (d rest : List ℕ)
    → get_op (b ∷ pc) ≡ some (o, d, rest)
    → push_only_loop (suc f) (b ∷ pc) ≡ true
    → (is_counted o ≡ false) × (push_only_loop f rest ≡ true)
unfolding push_only_loop
push_only_inv f b pc o d rest read e = elim (Bool-cases (is_counted o)) [
  | inl counts ↦ (let both : false ≡ true = rw (push_only_loop, read, counts) at e in cc)
  | inr plain ↦ (plain, rw (push_only_loop, read, plain) at e)
]

canonical_inv :
    (f b : ℕ) (pc : List ℕ) (o : Opcode) (d rest : List ℕ)
    → get_op (b ∷ pc) ≡ some (o, d, rest)
    → canonical_pushes_loop (suc f) (b ∷ pc) ≡ true
    → (is_canonical_push o d ≡ true) × (canonical_pushes_loop f rest ≡ true)
unfolding canonical_pushes_loop
canonical_inv f b pc o d rest read e = elim (Bool-cases (is_canonical_push o d)) [
  | inr long ↦ (let both : false ≡ true = rw (canonical_pushes_loop, read, long) at e in cc)
  | inl short ↦ (short, rw (canonical_pushes_loop, read, short) at e)
]

pieces :
    (f : ℕ) (s : List ℕ)
    → All IsByte s
    → push_only_loop f s ≡ true
    → canonical_pushes_loop f s ≡ true
    → (ps : List Piece) × All IsPiece ps × (s ≡ written ps)
unfolding push_only_loop
pieces f [] bytes pushes canonical = ([], tt, refl)
pieces zero (b ∷ pc) bytes pushes canonical = cc
pieces (suc f) (b ∷ pc) bytes pushes canonical = elim (Option-cases (get_op (b ∷ pc))) [
  | inl stop ↦ (let both : false ≡ true = rw (push_only_loop, stop) at pushes in cc)
  | inr ((o, d, rest), read) ↦
      let (plain, pushes') = push_only_inv f b pc o d rest read pushes in
      let (short, canonical') = canonical_inv f b pc o d rest read canonical in
      let (p, is_p, whole) = instruction b pc o d rest bytes read plain short in
      let behind = All-behind (piece_bytes p) rest (subst (All IsByte) whole bytes) in
      let (ps, all, left) = pieces f rest behind pushes' canonical' in
      (p ∷ ps, (is_p, all), whole ∙ ap (λ x. piece_bytes p ++ x) left)
]

-- A script of bytes that IsPushOnly and HasCanonicalPushes accept is what operator<< writes for opcodes from
-- OP_1NEGATE to OP_16 and for data that are no single byte from 0 to 16.
pub pushes_inv :
    (s : List ℕ)
    → All IsByte s
    → is_push_only s ≡ true
    → has_canonical_pushes s ≡ true
    → (ps : List Piece) × All IsPiece ps × (s ≡ written ps)
unfolding is_push_only has_canonical_pushes
pushes_inv s bytes pushes canonical = pieces (length s) s bytes pushes canonical
