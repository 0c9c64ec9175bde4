-- ===== src/Solver/Sound.antt =====
-- What `Solver` promises of the solutions that it returns (src/script.cpp).
use tetra.Prelude.{
  ℕ, zero, suc, ◌-◌, ◌≤◌, ◌≡◌, refl, ◌∙◌, ap, true, false, List, [], ◌∷◌, ◌++◌, some, none, ◌>>=◌,
  ◌==◌, sym, subst, Bool, if◌then◌else◌, arith, length, length-append, All, take, drop, get_or,
  >>=-eq-some, Bool-cases, Option-cases, inl, inr, length-take, length-drop,
}
use mathlib.Core.List.{append-nil}
use tetra.Script.Opcode.{Opcode, opcode_of, value}
use tetra.Script.Parse.{get_op, push_op, is_pay_to_script_hash, decode_op_n}
use tetra.Script.Machine.{Item}
use tetra.Solver.Multisig.{get_or-last}
use tetra.Solver.{
  TxnOutType, solver, match_template, match_round, match_op, read_keys, multisig_ok,
  pubkey_template, pubkeyhash_template, multisig_template, is_key_size, back_byte,
}

-- A size that the templates take for a key.
abbrev pub IsKey : Item → Type 0
IsKey key = (33 ≤ length key) × (length key ≤ 120)

-- The solutions of each type: a key, a hash of 20 bytes, or the number of signatures, the keys and
-- their number.
unfoldable pub IsSolution : TxnOutType → List Item → Type 0
IsSolution TxnOutType.tx_nonstandard sols = ⊥
IsSolution TxnOutType.tx_pubkey sols = (key : Item) × (sols ≡ key ∷ []) × IsKey key
IsSolution TxnOutType.tx_pubkeyhash sols = (h : Item) × (sols ≡ h ∷ []) × (length h ≡ 20)
IsSolution TxnOutType.tx_scripthash sols = (h : Item) × (sols ≡ h ∷ []) × (length h ≡ 20)
IsSolution TxnOutType.tx_multisig sols =
    (m : ℕ) × (keys : List Item) × (sols ≡ (m ∷ []) ∷ (keys ++ (length keys ∷ []) ∷ []))
    × (1 ≤ m)
    × (m ≤ length keys)
    × All IsKey keys

is_key_size-IsKey : (d : Item) → is_key_size d ≡ true → IsKey d
unfolding is_key_size
is_key_size-IsKey d h = ground arith

read_keys-IsKey :
    (fuel : ℕ) (o : Opcode) (d : Item) (pc : List ℕ) → All IsKey (read_keys fuel o d pc).3
unfolding read_keys
read_keys-IsKey zero o d pc = tt
read_keys-IsKey (suc fuel) o d pc = elim (Bool-cases (is_key_size d)) [
  | inr other ↦ rw (read_keys, other) tt
  | inl key ↦ elim (Option-cases (get_op pc)) [
    | inl end ↦ rw (read_keys, key, end) (is_key_size-IsKey d key, tt)
    | inr ((o', d', rest), read) ↦
        rw (read_keys, key, read) (is_key_size-IsKey d key, read_keys-IsKey fuel o' d' rest)
  ]
]

-- Rounds on an opcode of a template, and on OP_PUBKEYS.
module _ (s t : List ℕ) (x : List Item × List ℕ × List ℕ) (e : match_round s t ≡ some x) where
  match_round-op :
      (o : Opcode) (d r : List ℕ)
      → get_op t ≡ some (o, d, r)
      → (value o == 0xfb) ≡ false
      → (o1 : Opcode) × (d1 : Item) × (match_op o1 d1 o d ≡ some x.0) × (x.2 ≡ r)
  unfolding match_round value
  match_round-op o d r read plain =
      let ((o1, d1, r1), _, e3) = >>=-eq-some (get_op s) _ e in
      let run : (match_op o1 d1 o d >>= λ found. some (found, r1, r)) ≡ some x =
        ground (arith, read, e3, plain) in
      let (found, ok, last) = >>=-eq-some (match_op o1 d1 o d) _ run in
      (o1, d1, ground arith, ground arith)

  match_round-keys :
      (d r : List ℕ) (o3 : Opcode) (d3 r3 : List ℕ)
      → get_op t ≡ some (Opcode.op_pubkeys, d, r)
      → get_op r ≡ some (o3, d3, r3)
      → (keys : List Item) × (o1 : Opcode) × (d1 : Item) × (found : List Item) × All IsKey keys
        × (match_op o1 d1 o3 d3 ≡ some found)
        × (x.0 ≡ keys ++ found)
        × (x.2 ≡ r3)
  unfolding match_round value
  match_round-keys d r o3 d3 r3 read read3 =
      let ((o1, d1, r1), _, e3) = >>=-eq-some (get_op s) _ e in
      let (o1', d1', r1', keys) = read_keys (length s) o1 d1 r1 in
      let run : (match_op o1' d1' o3 d3 >>= λ found. some (keys ++ found, r1', r3)) ≡ some x =
        ground (arith, read, read3, e3) in
      let (found, ok, last) = >>=-eq-some (match_op o1' d1' o3 d3) _ run in
      (keys, o1', d1', found, read_keys-IsKey (length s) o1 d1 r1, ok, ground arith, ground arith)

match_template-eq :
    (fuel c : ℕ) (s t : List ℕ)
    → match_template (suc fuel) s (c ∷ t)
      ≡ (do x ← match_round s (c ∷ t); more ← match_template fuel x.1 x.2; some (x.0 ++ more))
unfolding match_template
match_template-eq fuel c [] t = refl
match_template-eq fuel c (b ∷ s) t = refl

match_template-cons :
    (fuel c : ℕ) (s t : List ℕ) (sols : List Item)
    → match_template (suc fuel) s (c ∷ t) ≡ some sols
    → (x : List Item × List ℕ × List ℕ) × (more : List Item) × (match_round s (c ∷ t) ≡ some x)
      × (match_template fuel x.1 x.2 ≡ some more)
      × (sols ≡ x.0 ++ more)
match_template-cons fuel c s t sols e =
    let (x, round, e') =
      >>=-eq-some (match_round s (c ∷ t)) _ (sym (match_template-eq fuel c s t) ∙ e) in
    let (more, rest, last) = >>=-eq-some (match_template fuel x.1 x.2) _ e' in
    (x, more, round, rest, ground arith)

match_template-end :
    (fuel : ℕ) (s : List ℕ) (sols : List Item) → match_template fuel s [] ≡ some sols → sols ≡ []
unfolding match_template match_round get_op
match_template-end fuel [] sols e = grind arith
match_template-end zero (b ∷ s) sols e = cc
match_template-end (suc fuel) (b ∷ s) sols e =
    let (x, round, _) = >>=-eq-some (match_round (b ∷ s) []) _ e in
    let (y, _, round') = >>=-eq-some (get_op (b ∷ s)) _ round in cc

found_nothing :
    (exact : Bool) (found : List Item) → (if exact then some [] else none) ≡ some found → found ≡ []
found_nothing exact found e = ground arith

-- A round on the first opcode `o` of what is left of the template.
module _ (fuel a : ℕ) (t : List ℕ) (o : Opcode) (read : get_op (a ∷ t) ≡ some (o, [], t)) where
  Rest : List Item → Type 0
  Rest sols = (s : List ℕ) × (match_template fuel s t ≡ some sols)

  module _ (plain : (value o == 0xfb) ≡ false) (s : List ℕ) (sols : List Item)
      (e : match_template (suc fuel) s (a ∷ t) ≡ some sols) where
    round-op :
        (o1 : Opcode) × (d1 : Item) × (found : List Item) × (more : List Item) × (match_op o1 d1 o
            []
          ≡ some found)
        × Rest more
        × (sols ≡ found ++ more)
    unfolding Rest
    round-op =
        let (x, more, round, rest, last) = match_template-cons fuel a s t sols e in
        let (o1, d1, found, end) = match_round-op s (a ∷ t) x round o [] t read plain in
        (
          o1,
          d1,
          x.0,
          more,
          found,
          (x.1, subst (λ r. match_template fuel x.1 r ≡ some more) end rest),
          last,
        )

    -- An opcode that is no wildcard adds nothing.
    round-exact :
        ((o1 : Opcode) (d1 : Item) (found : List Item)
          → match_op o1 d1 o [] ≡ some found
          → found ≡ [])
        → Rest sols
    unfolding Rest
    round-exact exact =
        let (o1, d1, found, more, ok, (s1, rest), last) = round-op in
        (s1, rest ∙ ap some (sym (last ∙ ap (λ f. f ++ more) (exact o1 d1 found ok))))

IsKey-found :
    (o1 : Opcode) (d1 : Item) (found : List Item)
    → match_op o1 d1 Opcode.op_pubkey [] ≡ some found
    → (found ≡ d1 ∷ []) × IsKey d1
unfolding match_op is_key_size
IsKey-found o1 d1 found e = ground arith

hash_found :
    (o1 : Opcode) (d1 : Item) (found : List Item)
    → match_op o1 d1 Opcode.op_pubkeyhash [] ≡ some found
    → (found ≡ d1 ∷ []) × (length d1 ≡ 20)
unfolding match_op
hash_found o1 d1 found e = ground arith

number_found :
    (o1 : Opcode) (d1 : Item) (found : List Item)
    → match_op o1 d1 Opcode.op_smallinteger [] ≡ some found
    → (n : ℕ) × (found ≡ (n ∷ []) ∷ [])
unfolding match_op
number_found o1 d1 found e =
    let (n, _, last) = >>=-eq-some (decode_op_n o1) _ e in (n, ground arith)

IsSolution-pubkey :
    (s : List ℕ) (sols : List Item)
    → match_template 5 s pubkey_template ≡ some sols
    → IsSolution TxnOutType.tx_pubkey sols
unfolding IsSolution match_op get_op opcode_of value push_op Rest
IsSolution-pubkey s sols e =
    let (o1, d1, found, more, ok, (s1, e1), last) =
      round-op 4 0xfe (0xac ∷ []) _ refl refl s sols e in
    let (s2, e2) =
      round-exact 3 0xac [] Opcode.op_checksig refl refl s1 more e1 (λ o d f. found_nothing _ f) in
    let (key, size) = IsKey-found o1 d1 found ok in
    (d1, last ∙ rw (key, match_template-end 3 s2 more e2) refl, size)

IsSolution-pubkeyhash :
    (s : List ℕ) (sols : List Item)
    → match_template 5 s pubkeyhash_template ≡ some sols
    → IsSolution TxnOutType.tx_pubkeyhash sols
unfolding IsSolution match_op get_op opcode_of value push_op Rest
IsSolution-pubkeyhash s sols e =
    let (s1, e1) =
      round-exact 4 0x76 _ Opcode.op_dup refl refl s sols e (λ o d f. found_nothing _ f) in
    let (s2, e2) =
      round-exact 3 0xa9 _ Opcode.op_hash160 refl refl s1 sols e1 (λ o d f. found_nothing _ f) in
    let (o3, d3, found, more, ok, (s3, e3), last) =
      round-op 2 0xfd _ Opcode.op_pubkeyhash refl refl s2 sols e2 in
    let (s4, e4) =
      round-exact 1 0x88 _ Opcode.op_equalverify refl refl s3 more e3
        (λ o d f. found_nothing _ f) in
    let (s5, e5) =
      round-exact 0 0xac [] Opcode.op_checksig refl refl s4 more e4 (λ o d f. found_nothing _ f) in
    let (hash, size) = hash_found o3 d3 found ok in
    (d3, last ∙ rw (hash, match_template-end 0 s5 more e5) refl, size)

-- The last number of a multisig script, behind its keys.
multisig_numbers :
    (m n : ℕ) (keys : List Item)
    → multisig_ok ((m ∷ []) ∷ (keys ++ (n ∷ []) ∷ [])) ≡ true
    → (1 ≤ m) × (m ≤ length keys) × (n ≡ length keys)
unfolding multisig_ok
multisig_numbers m n keys ok =
    let size = length-append keys ((n ∷ []) ∷ []) in
    let last : suc (length (keys ++ (n ∷ []) ∷ [])) - 1 ≡ suc (length keys) = omega (arith, size) in
    let back : back_byte ((m ∷ []) ∷ (keys ++ (n ∷ []) ∷ [])) ≡ n =
      ap (λ i. get_or (get_or ((m ∷ []) ∷ (keys ++ (n ∷ []) ∷ [])) i []) 0 0) last
      ∙ ap (λ x. get_or x 0 0) (get_or-last keys (n ∷ [])) in
    ground (arith, size, back)

assemble :
    (m n : ℕ) (keys : List Item) {sols first more here second more2 : List Item}
    → sols ≡ first ++ more
    → first ≡ (m ∷ []) ∷ []
    → more ≡ here ++ more2
    → here ≡ keys ++ second
    → second ≡ (n ∷ []) ∷ []
    → more2 ≡ []
    → sols ≡ (m ∷ []) ∷ (keys ++ (n ∷ []) ∷ [])
assemble m n keys a b c d e f = a ∙ rw (b, c, d, e, f, append-nil (keys ++ (n ∷ []) ∷ [])) refl

IsSolution-multisig :
    (s : List ℕ) (sols : List Item)
    → match_template 5 s multisig_template ≡ some sols
    → multisig_ok sols ≡ true
    → IsSolution TxnOutType.tx_multisig sols
unfolding IsSolution match_op get_op opcode_of value push_op Rest
IsSolution-multisig s sols e good =
    let (o1, d1, first, more, ok, (s1, e1), last) =
      round-op 4 0xfa _ Opcode.op_smallinteger refl refl s sols e in
    let (m, number) = number_found o1 d1 first ok in
    let (x, more2, round, rest, last2) = match_template-cons 3 0xfb s1 _ more e1 in
    let (keys, o2, d2, second, sizes, ok2, shape, end) =
      match_round-keys s1 (0xfb ∷ 0xfa ∷ 0xae ∷ []) x round [] (0xfa ∷ 0xae ∷ [])
        Opcode.op_smallinteger [] (0xae ∷ []) refl refl in
    let (n, number2) = number_found o2 d2 second ok2 in
    let (s3, e3) =
      round-exact 2 0xae [] Opcode.op_checkmultisig refl refl x.1 more2
        (subst (λ t. match_template 3 x.1 t ≡ some more2) end rest) (λ o d f. found_nothing _ f) in
    let all : sols ≡ (m ∷ []) ∷ (keys ++ (n ∷ []) ∷ []) =
      assemble m n keys last number last2 shape number2 (match_template-end 2 s3 more2 e3) in
    let (low, few, count) =
      multisig_numbers m n keys (subst (λ r. multisig_ok r ≡ true) all good) in
    (m, keys, all ∙ ap (λ k. (m ∷ []) ∷ (keys ++ (k ∷ []) ∷ [])) count, low, few, sizes)

taken : (s : List ℕ) → is_pay_to_script_hash s ≡ true → length (take 20 (drop 2 s)) ≡ 20
unfolding is_pay_to_script_hash
taken s p2sh = ground (arith, length-take 20 (drop 2 s), length-drop 2 s)

-- Where Solver returns true, the solutions are those of the type: a key of 33 to 120 bytes, a hash
-- of 20 bytes, or the number of signatures, keys of 33 to 120 bytes and their number, which is at
-- least the number of signatures, which is at least one; and the type is not TX_NONSTANDARD.
pub solver-IsSolution :
    (s : List ℕ) → (solver s).ok ≡ true → IsSolution (solver s).type_ret (solver s).solutions
unfolding solver
solver-IsSolution s e = elim (Bool-cases (is_pay_to_script_hash s)) [
  | inl p2sh ↦ rw p2sh (unfold IsSolution in (take 20 (drop 2 s), refl, taken s p2sh))
  | inr other ↦ elim (Option-cases (match_template 5 s pubkey_template)) [
    | inr (sols, found) ↦ rw (other, found) (IsSolution-pubkey s sols found)
    | inl no_key ↦ elim (Option-cases (match_template 5 s pubkeyhash_template)) [
      | inr (sols, found) ↦ rw (other, no_key, found) (IsSolution-pubkeyhash s sols found)
      | inl no_hash ↦ elim (Option-cases (match_template 5 s multisig_template)) [
        | inr (sols, found) ↦
            rw (other, no_key, no_hash, found)
              (IsSolution-multisig s sols found (rw (other, no_key, no_hash, found) at e))
        | inl no_match ↦ (let no : false ≡ true = rw (other, no_key, no_hash, no_match) at e in cc)
      ]
    ]
  ]
]
