-- ===== src/Script/Machine.antt =====
-- The state of `EvalScript` (src/script.cpp), what it takes from outside, and the opcodes that move
-- stack items. The head of a list is the back of the vector: `stacktop(-1)`, `vfExec.back()`.
use tetra.Prelude.{
  ℕ, zero, suc, Bool, true, false, not, ◌&&◌, List, [], ◌∷◌, Option, none, some, ◌>>=◌, ◌==◌,
  if◌then◌else◌, get_elem?,
}
use tetra.Prelude.Int.{ℤ, pos, negsuc}
use tetra.Script.Opcode.{Opcode}
use tetra.Script.Number.{Bignum, cast_to_bool, cast_to_bignum, getint}

abbrev pub Item : Type 0
Item = List ℕ

abbrev pub true_item : Item
true_item = 1 ∷ []

-- `fSuccess ? vchTrue : vchFalse`
abbrev pub bool_item : Bool → Item
bool_item b = if b then true_item else []

-- `code` is the script from `pbegincodehash` on.
pub record Machine : Type 0 where
  pub stack : List Item
  pub alt : List Item
  pub exec : List Bool
  pub op_count : ℕ
  pub code : List ℕ

-- OpenSSL's numbers and hashes, and `CheckSig` for the transaction, the input, the hash type and the
-- flags of the call; `strict` is fStrictEncodings.
pub record Context : Type 1 where
  pub bignum : Bignum
  pub ripemd160 : Item → Item
  pub sha1 : Item → Item
  pub sha256 : Item → Item
  pub check_sig : Item → Item → List ℕ → Bool
  pub strict : Bool

-- 2DROP to 2SWAP: (bottom -- top) in the source's comments is right to left here.
unfoldable pub group_op : Opcode → List Item → Option (List Item)
group_op Opcode.op_2drop (x2 ∷ x1 ∷ s) = some s
group_op Opcode.op_2dup (x2 ∷ x1 ∷ s) = some (x2 ∷ x1 ∷ x2 ∷ x1 ∷ s)
group_op Opcode.op_3dup (x3 ∷ x2 ∷ x1 ∷ s) = some (x3 ∷ x2 ∷ x1 ∷ x3 ∷ x2 ∷ x1 ∷ s)
group_op Opcode.op_2over (x4 ∷ x3 ∷ x2 ∷ x1 ∷ s) = some (x2 ∷ x1 ∷ x4 ∷ x3 ∷ x2 ∷ x1 ∷ s)
group_op Opcode.op_2rot (x6 ∷ x5 ∷ x4 ∷ x3 ∷ x2 ∷ x1 ∷ s) = some (x2 ∷ x1 ∷ x6 ∷ x5 ∷ x4 ∷ x3 ∷ s)
group_op Opcode.op_2swap (x4 ∷ x3 ∷ x2 ∷ x1 ∷ s) = some (x2 ∷ x1 ∷ x4 ∷ x3 ∷ s)
group_op o s = none

-- IFDUP and DROP to TUCK, without DEPTH, PICK and ROLL.
unfoldable pub item_op : Opcode → List Item → Option (List Item)
item_op Opcode.op_ifdup (x ∷ s) = some (if cast_to_bool x then x ∷ x ∷ s else x ∷ s)
item_op Opcode.op_drop (x ∷ s) = some s
item_op Opcode.op_dup (x ∷ s) = some (x ∷ x ∷ s)
item_op Opcode.op_nip (x2 ∷ x1 ∷ s) = some (x2 ∷ s)
item_op Opcode.op_over (x2 ∷ x1 ∷ s) = some (x1 ∷ x2 ∷ x1 ∷ s)
item_op Opcode.op_rot (x3 ∷ x2 ∷ x1 ∷ s) = some (x1 ∷ x3 ∷ x2 ∷ s)
item_op Opcode.op_swap (x2 ∷ x1 ∷ s) = some (x1 ∷ x2 ∷ s)
item_op Opcode.op_tuck (x2 ∷ x1 ∷ s) = some (x2 ∷ x1 ∷ x2 ∷ s)
item_op o s = none

-- EQUAL and EQUALVERIFY; `same` is the comparison of vectors.
unfoldable pub same : Item → Item → Bool
same [] [] = true
same (x ∷ xs) (y ∷ ys) = x == y && same xs ys
same xs ys = false

-- The end of EQUALVERIFY, CHECKSIGVERIFY and their like: the result is pushed, or it must be true.
unfoldable pub push_or_verify : Bool → Bool → List Item → Option (List Item)
push_or_verify verify result s =
    if verify then (if result then some s else none) else some (bool_item result ∷ s)

unfoldable pub equal_op : Bool → List Item → Option (List Item)
equal_op verify (x2 ∷ x1 ∷ s) = push_or_verify verify (same x1 x2) s
equal_op verify s = none

-- TOALTSTACK and FROMALTSTACK.
unfoldable pub to_alt : Machine → Option Machine
to_alt m = elim m.stack [ [] ↦ none | x ∷ s ↦ some (record m { stack = s; alt = x ∷ m.alt }) ]

unfoldable pub from_alt : Machine → Option Machine
from_alt m = elim m.alt [ [] ↦ none | x ∷ s ↦ some (record m { stack = x ∷ m.stack; alt = s }) ]

-- IF and NOTIF: a value is taken from the stack only in a branch that runs.
unfoldable pub if_op : Bool → Bool → Machine → Option Machine
if_op negate running m =
    if running
    then (elim m.stack [
      | [] ↦ none
      | x ∷ s ↦
          let value = cast_to_bool x in
          some (record m { stack = s; exec = (if negate then not value else value) ∷ m.exec })
    ])
    else some (record m { exec = false ∷ m.exec })

unfoldable pub else_op : Machine → Option Machine
else_op m = elim m.exec [ [] ↦ none | b ∷ outer ↦ some (record m { exec = not b ∷ outer }) ]

unfoldable pub endif_op : Machine → Option Machine
endif_op m = elim m.exec [ [] ↦ none | b ∷ outer ↦ some (record m { exec = outer }) ]

unfoldable pub verify_op : List Item → Option (List Item)
verify_op [] = none
verify_op (x ∷ s) = if cast_to_bool x then some s else none

-- `stack.erase(stack.end()-n-1)`
unfoldable pub erase_at : ℕ → List Item → List Item
erase_at n [] = []
erase_at zero (x ∷ s) = s
erase_at (suc n) (x ∷ s) = x ∷ erase_at n s

-- PICK and ROLL with the index that was taken from the stack; `none` for an index out of range.
unfoldable pub pick_at : Bool → ℤ → List Item → Option (List Item)
pick_at roll (negsuc n) s = none
pick_at roll (pos n) s = elim (get_elem? s n) [
  | none ↦ none
  | some x ↦ some (x ∷ (if roll then erase_at n s else s))
]

unfoldable pub pick_op : Context → Bool → List Item → Option (List Item)
pick_op cx roll (top ∷ x ∷ s) = do
  n ← cast_to_bignum cx.bignum top
  pick_at roll (getint cx.bignum n) (x ∷ s)
pick_op cx roll s = none
