-- ===== src/Solver/Multisig.antt =====
-- The scripts of `CScript::SetMultisig`, read by `Solver` (src/script.cpp).
use tetra.Prelude.{
  ℕ, zero, suc, ◌+◌, ◌-◌, ◌≤◌, ◌<◌, ◌≡◌, refl, ◌∙◌, ap, true, false, List, [], ◌∷◌, ◌++◌, some,
  none, ◌>>=◌, arith, length, length-append, All, ◌==◌, take, get_or,
}
use mathlib.Core.List.{append_assoc, append-nil}
use tetra.Prelude.Bytes.{take-append}
use tetra.Script.Opcode.{Opcode, op_push, op_n, opcode_of, value}
use tetra.Script.Parse.{get_op, push_op, is_pay_to_script_hash, decode_op_n}
use tetra.Script.Parse.Laws.{get_op-short, get_op-plain}
use tetra.Script.Machine.{Item, same}
use tetra.Solver.{
  TxnOutType, solver, match_template, match_round, match_op, read_keys, multisig_ok,
  pubkey_template, pubkeyhash_template, multisig_template, is_key_size, back_byte,
}
use tetra.Solver.Destination.{push_key, push_keys, middle}

abbrev pub IsShortKey : Item → Type 0
IsShortKey key = (33 ≤ length key) × (length key ≤ 75)

-- A push for each key.
abbrev pub key_bytes : List Item → List ℕ
key_bytes [] = []
key_bytes (k ∷ ks) = length k ∷ (k ++ key_bytes ks)

pub push_keys-key_bytes :
    (s : List ℕ) (keys : List Item)
    → All IsShortKey keys
    → push_keys s keys ≡ some (s ++ key_bytes keys)
unfolding push_keys push_key
push_keys-key_bytes s [] sizes = ground (arith, append-nil s)
push_keys-key_bytes s (k ∷ ks) (size, sizes) = ground (
  arith,
  push_keys-key_bytes (s ++ length k ∷ k) ks sizes,
  append_assoc s (length k ∷ k) (key_bytes ks),
)

opcode_of-number : (k : ℕ) → 1 ≤ k → k ≤ 16 → opcode_of (0x50 + k) ≡ op_n k
unfolding opcode_of
opcode_of-number k low high = ground arith

read_keys-plain :
    (fuel : ℕ) (o : Opcode) (tail : List ℕ) → read_keys fuel o [] tail ≡ (o, [], tail, [])
unfolding read_keys is_key_size
read_keys-plain zero o tail = refl
read_keys-plain (suc fuel) o tail = refl

read_keys-key_bytes :
    (fuel : ℕ) (k : Item) (ks : List Item) (b : ℕ) (tail : List ℕ)
    → IsShortKey k
    → All IsShortKey ks
    → 0x4e < b
    → length ks < fuel
    → read_keys fuel (op_push (length k)) k (key_bytes ks ++ b ∷ tail)
      ≡ (opcode_of b, [], tail, k ∷ ks)
unfolding read_keys is_key_size
read_keys-key_bytes zero k ks b tail size sizes plain room = absurd (omega arith)
read_keys-key_bytes (suc fuel) k [] b tail size sizes plain room =
    ground (arith, get_op-plain b tail plain, read_keys-plain fuel (opcode_of b) tail)
read_keys-key_bytes (suc fuel) k (k' ∷ ks) b tail size sizes plain room = ground (
  arith,
  append_assoc k' (key_bytes ks) (b ∷ tail),
  get_op-short (length k') k' (key_bytes ks ++ b ∷ tail) refl (omega arith),
  read_keys-key_bytes fuel k' ks b tail sizes.0 sizes.1 plain (omega arith),
)

length-key_bytes :
    (keys : List Item) (tail : List ℕ) → length keys ≤ length (key_bytes keys ++ tail)
length-key_bytes [] tail = omega arith
length-key_bytes (k ∷ ks) tail = omega (
  arith,
  length-key_bytes ks tail,
  length-append (k ++ key_bytes ks) tail,
  length-append k (key_bytes ks),
  length-append (key_bytes ks) tail,
)

-- OP_m, the keys, OP_n and CHECKMULTISIG.
abbrev pub multisig_script : ℕ → List Item → List ℕ
multisig_script m keys = (0x50 + m) ∷ (key_bytes keys ++ (0x50 + length keys) ∷ 0xae ∷ [])

abbrev pub multisig_solutions : ℕ → List Item → List Item
multisig_solutions m keys = (m ∷ []) ∷ (keys ++ (length keys ∷ []) ∷ [])

get_op-number :
    (k : ℕ) (pc : List ℕ) → 1 ≤ k → k ≤ 16 → get_op ((0x50 + k) ∷ pc) ≡ some (op_n k, [], pc)
get_op-number k pc low high =
    rw (get_op-plain (0x50 + k) pc (omega arith), opcode_of-number k low high) refl

-- One round on an opcode of the template, and one on OP_PUBKEYS.
module _ (fuel b : ℕ) (pc : List ℕ) {o : Opcode} {d r : List ℕ} where
  match_template-op :
      (o2 : Opcode) (d2 t r2 : List ℕ)
      → get_op (b ∷ pc) ≡ some (o, d, r)
      → get_op t ≡ some (o2, d2, r2)
      → (value o2 == 0xfb) ≡ false
      → match_template (suc fuel) (b ∷ pc) t
        ≡ (do found ← match_op o d o2 d2; more ← match_template fuel r r2; some (found ++ more))
  unfolding match_template match_round value
  match_template-op o2 d2 t r2 e e2 plain = ground (arith, e, e2, plain)

  match_template-keys :
      (d2 t r2 : List ℕ) (keys : List Item) {o' : Opcode} {left : List ℕ} (o3 : Opcode)
      (d3 r3 : List ℕ)
      → get_op (b ∷ pc) ≡ some (o, d, r)
      → get_op t ≡ some (Opcode.op_pubkeys, d2, r2)
      → read_keys (length (b ∷ pc)) o d r ≡ (o', [], left, keys)
      → get_op r2 ≡ some (o3, d3, r3)
      → match_template (suc fuel) (b ∷ pc) t ≡ (do
        found ← match_op o' [] o3 d3
        more ← match_template fuel left r3
        some ((keys ++ found) ++ more))
  unfolding match_template match_round value
  match_template-keys d2 t r2 keys o3 d3 r3 e e2 read e3 = ground (arith, e, e2, read, e3)

pub get_or-last : (xs : List Item) (x : Item) → get_or (xs ++ x ∷ []) (length xs) [] ≡ x
get_or-last [] x = refl
get_or-last (y ∷ xs) x = get_or-last xs x

module _ (m : ℕ) (low : 1 ≤ m) (k : Item) (ks : List Item) where
  abbrev keys : List Item
  keys = k ∷ ks

  module _ (few : m ≤ length keys) (count : length keys ≤ 16) (sizes : All IsShortKey keys) where
    match_template-multisig :
        match_template 5 (multisig_script m keys) multisig_template
        ≡ some (multisig_solutions m keys)
    unfolding get_op push_op value opcode_of
    match_template-multisig =
        let tail = (0x50 + length keys) ∷ 0xae ∷ [] in
        let room : length ks < suc (length (k ++ (key_bytes ks ++ tail))) =
          omega (arith, length-append k (key_bytes ks ++ tail), length-key_bytes ks tail) in
        let first =
          match_template-op 4 (0x50 + m) (key_bytes keys ++ tail) _ [] multisig_template _
            (get_op-number m _ low (omega arith)) refl refl in
        let second =
          match_template-keys 3 (length k) (k ++ (key_bytes ks ++ tail)) []
            (0xfb ∷ 0xfa ∷ 0xae ∷ []) (0xfa ∷ 0xae ∷ []) keys _ [] (0xae ∷ [])
            (get_op-short (length k) k (key_bytes ks ++ tail) refl (omega arith)) refl
            (read_keys-key_bytes _ k ks (0x50 + length keys) (0xae ∷ []) sizes.0 sizes.1
              (omega arith) room)
            refl in
        first
        ∙ rw
            (
              append_assoc k (key_bytes ks) tail,
              second,
              opcode_of-number (length keys) (omega arith) count,
            )
            (unfold match_op match_template match_round decode_op_n same in
              ap (λ r. some ((m ∷ []) ∷ r)) (append-nil (keys ++ (length keys ∷ []) ∷ [])))

    size : length (multisig_solutions m keys) - 1 ≡ suc (length keys)
    size = omega (arith, length-append keys ((length keys ∷ []) ∷ []))

    count_behind : back_byte (multisig_solutions m keys) ≡ length keys
    count_behind =
        ap (λ i. get_or (get_or (multisig_solutions m keys) i []) 0 0) size
        ∙ ap (λ x. get_or x 0 0) (get_or-last keys (length keys ∷ []))

    pub middle-solutions : middle (multisig_solutions m keys) ≡ keys
    middle-solutions =
        let count_keys : length (multisig_solutions m keys) - 2 ≡ length keys =
          omega (arith, size) in
        ap (λ i. take i (keys ++ (length keys ∷ []) ∷ [])) count_keys
        ∙ take-append keys ((length keys ∷ []) ∷ [])

    multisig_ok-solutions : multisig_ok (multisig_solutions m keys) ≡ true
    unfolding multisig_ok
    multisig_ok-solutions =
        ground (arith, count_behind, length-append keys ((length keys ∷ []) ∷ []))

    no_match :
        (o2 : Opcode) (d2 t r2 : List ℕ)
        → get_op t ≡ some (o2, d2, r2)
        → (value o2 == 0xfb) ≡ false
        → match_op (op_n m) [] o2 d2 ≡ none
        → match_template 5 (multisig_script m keys) t ≡ none
    no_match o2 d2 t r2 e plain other =
        match_template-op 4 (0x50 + m) _ o2 d2 t r2 (get_op-number m _ low (omega arith)) e plain
        ∙ rw other refl

    no_pubkey : match_template 5 (multisig_script m keys) pubkey_template ≡ none
    unfolding get_op value push_op opcode_of match_op is_key_size
    no_pubkey = no_match _ [] pubkey_template _ refl refl refl

    no_pubkeyhash : match_template 5 (multisig_script m keys) pubkeyhash_template ≡ none
    unfolding get_op value push_op opcode_of match_op
    no_pubkeyhash = no_match _ [] pubkeyhash_template _ refl refl (ground arith)

    not_p2sh : is_pay_to_script_hash (multisig_script m keys) ≡ false
    unfolding is_pay_to_script_hash value
    not_p2sh = ground arith

    -- Solver on a multisig script of 1 ≤ m ≤ n ≤ 16 keys of 33 to 75 bytes.
    pub solver-multisig : solver (multisig_script m keys) ≡ record {
      ok = true;
      type_ret = TxnOutType.tx_multisig;
      solutions = multisig_solutions m keys;
    }
    unfolding solver
    solver-multisig =
        ground (
          arith, not_p2sh, no_pubkey, no_pubkeyhash, match_template-multisig, multisig_ok-solutions,
        )
