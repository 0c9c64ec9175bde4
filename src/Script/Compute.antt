-- ===== src/Script/Compute.antt =====
-- The numeric and the crypto opcodes of `EvalScript` (src/script.cpp), and the checks of encodings.
pub mod Multisig
use Prim.Native.Nat.{Ordering}
use tetra.Prelude.{
  ℕ, zero, suc, ◌+◌, ◌-◌, ◌%◌, ◌/◌, ◌≡◌, Bool, true, false, not, ◌&&◌, ◌||◌, List, [], ◌∷◌, ◌++◌,
  Option, none, some, ◌>>=◌, ◌>>◌, guard, leb, ltb, ◌==◌, if◌then◌else◌, length, take, drop, get_or,
  get_elem?,
}
use tetra.Prelude.Int.{ℤ, pos, negsuc}
use tetra.Script.Opcode
use tetra.Script.Opcode.{Opcode, op_hash160}
use tetra.Script.Parse.{push_data}
use tetra.Script.Walk.{find_and_delete}
use tetra.Script.Number.{Bignum, cast_to_bool, cast_to_bignum, getvch, getint}
use tetra.Script.Machine.{Item, Machine, Context, true_item, bool_item, push_or_verify}

-- IsCanonicalPubKey
unfoldable pub is_canonical_pub_key : Item → Bool
is_canonical_pub_key k =
    let first = get_or k 0 0 in
    if ltb (length k) 33
    then false
    else if first == 0x04
    then length k == 65
    else if first == 0x02 || first == 0x03
    then length k == 33
    else false

-- The checks of IsCanonicalSignature on R and on S: `at` is where the value starts.
unfoldable pub is_canonical_value : Item → ℕ → ℕ → Bool
is_canonical_value g at len =
    get_or g (at - 2) 0 == 0x02
    && not (len == 0)
    && ltb (get_or g at 0) 0x80
    && not (ltb 1 len && get_or g at 0 == 0 && ltb (get_or g (at + 1) 0) 0x80)

-- The hash type without SIGHASH_ANYONECANPAY, `& ~0x80` on a byte, is SIGHASH_ALL to SIGHASH_SINGLE.
unfoldable pub is_canonical_hash_type : ℕ → Bool
is_canonical_hash_type b = let t = b % 128 in leb 1 t && leb t 3

-- IsCanonicalSignature
unfoldable pub is_canonical_signature : Item → Bool
is_canonical_signature g =
    let size = length g in
    let len_r = get_or g 3 0 in
    let len_s = get_or g (5 + len_r) 0 in
    leb 9 size
    && leb size 73
    && is_canonical_hash_type (get_or g (size - 1) 0)
    && get_or g 0 0 == 0x30
    && get_or g 1 0 == size - 3
    && ltb (5 + len_r) size
    && len_r + len_s + 7 == size
    && is_canonical_value g 4 len_r
    && is_canonical_value g (6 + len_r) len_s

abbrev pub is_lt : Ordering → Bool
is_lt o = elim o [ Ordering.lt ↦ true | _ ↦ false ]

abbrev pub is_gt : Ordering → Bool
is_gt o = elim o [ Ordering.gt ↦ true | _ ↦ false ]

abbrev pub is_eq : Ordering → Bool
is_eq o = elim o [ Ordering.eq ↦ true | _ ↦ false ]

module _ (cx : Context) where
  open cx use {bignum, ripemd160, sha1, sha256, check_sig, strict}
  open bignum use {Num, set_word, is_negative, set_negative, add, sub, cmp}

  -- `CBigNum bn = (a == b)`: a bool is an int, which is not negative.
  unfoldable pub of_bool : Bool → Num
  of_bool b = set_word (if b then 1 else 0)

  -- `operator-(const CBigNum&)`
  unfoldable pub negated : Num → Num
  negated a = set_negative a (not (is_negative a))

  abbrev pub num_zero : Num
  num_zero = set_word 0

  abbrev pub num_one : Num
  num_one = set_word 1

  -- 1ADD to 0NOTEQUAL.
  unfoldable pub unary : Opcode → Num → Option Num
  unary Opcode.op_1add a = some (add a num_one)
  unary Opcode.op_1sub a = some (sub a num_one)
  unary Opcode.op_negate a = some (negated a)
  unary Opcode.op_abs a = some (if is_lt (cmp a num_zero) then negated a else a)
  unary Opcode.op_not a = some (of_bool (is_eq (cmp a num_zero)))
  unary Opcode.op_0notequal a = some (of_bool (not (is_eq (cmp a num_zero))))
  unary o a = none

  unfoldable pub unary_op : Opcode → List Item → Option (List Item)
  unary_op o [] = none
  unary_op o (x ∷ s) = do a ← cast_to_bignum bignum x; r ← unary o a; some (getvch bignum r ∷ s)

  -- ADD to MAX.
  unfoldable pub binary : Opcode → Num → Num → Option Num
  binary Opcode.op_add a b = some (add a b)
  binary Opcode.op_sub a b = some (sub a b)
  binary Opcode.op_booland a b =
      some (of_bool (not (is_eq (cmp a num_zero)) && not (is_eq (cmp b num_zero))))
  binary Opcode.op_boolor a b =
      some (of_bool (not (is_eq (cmp a num_zero)) || not (is_eq (cmp b num_zero))))
  binary Opcode.op_numequal a b = some (of_bool (is_eq (cmp a b)))
  binary Opcode.op_numequalverify a b = some (of_bool (is_eq (cmp a b)))
  binary Opcode.op_numnotequal a b = some (of_bool (not (is_eq (cmp a b))))
  binary Opcode.op_lessthan a b = some (of_bool (is_lt (cmp a b)))
  binary Opcode.op_greaterthan a b = some (of_bool (is_gt (cmp a b)))
  binary Opcode.op_lessthanorequal a b = some (of_bool (not (is_gt (cmp a b))))
  binary Opcode.op_greaterthanorequal a b = some (of_bool (not (is_lt (cmp a b))))
  binary Opcode.op_min a b = some (if is_lt (cmp a b) then a else b)
  binary Opcode.op_max a b = some (if is_gt (cmp a b) then a else b)
  binary o a b = none

  unfoldable pub binary_op : Opcode → List Item → Option (List Item)
  binary_op o (x2 ∷ x1 ∷ s) = do
    a ← cast_to_bignum bignum x1
    b ← cast_to_bignum bignum x2
    r ← binary o a b
    some (getvch bignum r ∷ s)
  binary_op o s = none

  -- NUMEQUALVERIFY looks at the item that was pushed.
  unfoldable pub numequalverify_op : List Item → Option (List Item)
  numequalverify_op s = do
    r ← binary_op Opcode.op_numequalverify s
    (elim r [ [] ↦ none | x ∷ rest ↦ if cast_to_bool x then some rest else none ])

  unfoldable pub within_op : List Item → Option (List Item)
  within_op (x3 ∷ x2 ∷ x1 ∷ s) = do
    a ← cast_to_bignum bignum x1
    lo ← cast_to_bignum bignum x2
    hi ← cast_to_bignum bignum x3
    some (bool_item (not (is_gt (cmp lo a)) && is_lt (cmp a hi)) ∷ s)
  within_op s = none

  -- Hash160 and Hash of src/hash.h.
  unfoldable pub hash160 : Item → Item
  hash160 d = ripemd160 (sha256 d)

  unfoldable pub hash256 : Item → Item
  hash256 d = sha256 (sha256 d)

  unfoldable pub hash : Opcode → Item → Item
  hash Opcode.op_ripemd160 d = ripemd160 d
  hash Opcode.op_sha1 d = sha1 d
  hash Opcode.op_sha256 d = sha256 d
  hash op_hash160 d = hash160 d
  hash o d = hash256 d

  unfoldable pub hash_op : Opcode → List Item → Option (List Item)
  hash_op o [] = none
  hash_op o (x ∷ s) = some (hash o x ∷ s)

  -- The test of a signature by CHECKSIG and CHECKMULTISIG, on the code without the signatures.
  unfoldable pub check : List ℕ → Item → Item → Bool
  check code sig key =
      (not strict || (is_canonical_signature sig && is_canonical_pub_key key))
      && check_sig sig key code

  unfoldable pub checksig_op : Bool → List ℕ → List Item → Option (List Item)
  checksig_op verify code (key ∷ sig ∷ s) =
      push_or_verify verify (check (find_and_delete code (push_data [] sig)).0 sig key) s
  checksig_op verify code s = none

  -- `scriptCode.FindAndDelete(CScript(vchSig))` for each signature.
  unfoldable pub delete_all : List ℕ → List Item → List ℕ
  delete_all code [] = code
  delete_all code (sig ∷ sigs) = delete_all (find_and_delete code (push_data [] sig)).0 sigs

  -- The matching loop: each key is tried once, on the first signature that is left.
  unfoldable pub match_sigs : List ℕ → List Item → List Item → Bool
  match_sigs code [] keys = true
  match_sigs code (sig ∷ sigs) [] = false
  match_sigs code (sig ∷ sigs) (key ∷ keys) =
      let left = if check code sig key then sigs else sig ∷ sigs in
      let rest = match_sigs code left keys in
      if ltb (length keys) (length left) then false else rest

  -- An int from the stack in the range that CHECKMULTISIG allows.
  unfoldable pub count_at : ℕ → Item → Option ℕ
  count_at limit x = do
    a ← cast_to_bignum bignum x
    (elim (getint bignum a) [ pos n ↦ if leb n limit then some n else none | negsuc n ↦ none ])

  -- Behind the number of keys `n`: (dummy [sig ...] num_of_signatures [pubkey ...]) below it.
  unfoldable pub multisig_tail : Bool → List ℕ → ℕ → List Item → Option (List Item)
  multisig_tail verify code n s = do
    guard (ltb n (length s))
    m ← count_at n (get_or s n [])
    guard (ltb (n + 1 + m) (length s))
    let sigs = take m (drop (n + 1) s)
    push_or_verify verify (match_sigs (delete_all code sigs) sigs (take n s)) (drop (n + m + 2) s)

  unfoldable pub multisig_op : Bool → Machine → Option Machine
  multisig_op verify m = elim m.stack [
    | [] ↦ none
    | top ∷ s ↦ do
      n ← count_at 20 top
      guard (leb (m.op_count + n) 201)
      s' ← multisig_tail verify m.code n s
      some (record m { stack = s'; op_count = m.op_count + n })
  ]
