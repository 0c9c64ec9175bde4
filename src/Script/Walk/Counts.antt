-- ===== src/Script/Walk/Counts.antt =====
-- The counts of signature operations, and the pushes that count as canonical.
use tetra.Prelude.{
  ◌⊎◌, ◌≢◌, ℕ, zero, suc, ◌*◌, ◌^◌, ◌≤◌, ◌<◌, ◌≡◌, refl, ◌∙◌, true, false, List, [], ◌∷◌, ◌++◌,
  some, arith, length, All, get_or, Option-cases, inl, inr,
}
use tetra.Script.Opcode.{Opcode, op_n, value, opcode_of-op_n}
use tetra.Script.Parse.{get_op, push_data, push_all}
use tetra.Script.Parse.Laws.{
  get_op_takes, get_op_byte, get_op-push_data, push_opcode, push_data-cons, length-push_data,
}
use tetra.Script.Walk.{
  is_canonical_push, canonical_pushes_loop, has_canonical_pushes, multisig_ops, sig_ops,
  sig_op_loop, get_sig_op_count,
}

-- An opcode that counts for at most 20 keys in front of CHECKMULTISIG.
abbrev Modest : Opcode → Type 0
Modest o = multisig_ops true o ≤ 20

Modest-op_n : (o : Opcode) → ((k : ℕ) → o ≡ op_n k → k ≤ 16) → Modest o
unfolding multisig_ops
Modest-op_n (op_n k) h = omega (arith, h k refl)
Modest-op_n _ h = omega arith

get_op-Modest :
    (b : ℕ) (pc : List ℕ) (o : Opcode) (d rest : List ℕ)
    → get_op (b ∷ pc) ≡ some (o, d, rest)
    → Modest o
get_op-Modest b pc o d rest read =
    Modest-op_n o (λ k e. opcode_of-op_n b k (cc (get_op_byte b pc o d rest read)))

sig_ops_bounds :
    (last o : Opcode)
    → Modest last
    → (sig_ops true last o ≤ sig_ops false last o) × (sig_ops false last o ≤ 20)
unfolding sig_ops multisig_ops
sig_ops_bounds last Opcode.op_checkmultisig h = ground arith
sig_ops_bounds last Opcode.op_checkmultisigverify h = ground arith
sig_ops_bounds last _ h = (omega arith, omega arith)

sig_op_loop_bounds :
    (fuel : ℕ) (last : Opcode) (s : List ℕ)
    → Modest last
    → (sig_op_loop fuel true last s ≤ sig_op_loop fuel false last s)
      × (sig_op_loop fuel false last s ≤ 20 * length s)
unfolding sig_op_loop
sig_op_loop_bounds fuel last [] h = (omega arith, omega arith)
sig_op_loop_bounds zero last (b ∷ pc) h = (omega arith, omega arith)
sig_op_loop_bounds (suc fuel) last (b ∷ pc) h = elim (Option-cases (get_op (b ∷ pc))) [
  | inl bad ↦ rw (bad, sig_op_loop) (omega arith, omega arith)
  | inr ((o, d, rest), read) ↦
      let (le, most) = sig_op_loop_bounds fuel o rest (get_op-Modest b pc o d rest read) in
      let (one_le, one_most) = sig_ops_bounds last o h in
      let shorter = get_op_takes (b ∷ pc) o d rest read in
      rw (read, sig_op_loop) (omega arith, omega arith)
]

-- GetSigOpCount never counts more when it is accurate, and at most 20 operations for a byte of the
-- script.
pub get_sig_op_count_bounds :
    (s : List ℕ)
    → (get_sig_op_count true s ≤ get_sig_op_count false s)
      × (get_sig_op_count false s ≤ 20 * length s)
unfolding get_sig_op_count multisig_ops
get_sig_op_count_bounds s = sig_op_loop_bounds (length s) Opcode.op_invalidopcode s (omega arith)

-- A push that has no shorter form: not a single byte that `OP_N` stands for.
abbrev pub HasNoOpcode : List ℕ → Type 0
HasNoOpcode d = (length d < 2 ^ 32) × ((length d ≢ 1) ⊎ (16 < get_or d 0 0))

is_canonical_push-push :
    (d : List ℕ) → HasNoOpcode d → is_canonical_push (push_opcode (length d)) d ≡ true
unfolding is_canonical_push value
is_canonical_push-push d (small, big) = ground (arith, big)

canonical_loop-round :
    (fuel b : ℕ) (pc : List ℕ) (o : Opcode) (d rest : List ℕ)
    → get_op (b ∷ pc) ≡ some (o, d, rest)
    → is_canonical_push o d ≡ true
    → canonical_pushes_loop (suc fuel) (b ∷ pc) ≡ canonical_pushes_loop fuel rest
unfolding canonical_pushes_loop
canonical_loop-round fuel b pc o d rest read fine = rw (read, canonical_pushes_loop) (rw fine)

canonical_loop-push :
    (fuel : ℕ) (d rest : List ℕ)
    → HasNoOpcode d
    → canonical_pushes_loop (suc fuel) (push_data [] d ++ rest) ≡ canonical_pushes_loop fuel rest
canonical_loop-push fuel d rest h =
    let (b, tail, shape) = push_data-cons d rest h.0 in
    let read = get_op-push_data d rest h.0 in
    rw shape
      (canonical_loop-round fuel b tail _ d rest (rw shape at read) (is_canonical_push-push d h))

canonical_loop-push_all :
    (fuel : ℕ) (ds : List (List ℕ))
    → length (push_all ds) ≤ fuel
    → All HasNoOpcode ds
    → canonical_pushes_loop fuel (push_all ds) ≡ true
unfolding push_all canonical_pushes_loop
canonical_loop-push_all fuel [] enough h = refl
canonical_loop-push_all zero (d ∷ ds) enough h =
    absurd (omega (arith, length-push_data d (push_all ds) h.0.0))
canonical_loop-push_all (suc fuel) (d ∷ ds) enough h =
    canonical_loop-push fuel d (push_all ds) h.0
    ∙ canonical_loop-push_all fuel ds (omega (arith, length-push_data d (push_all ds) h.0.0)) h.1

-- HasCanonicalPushes accepts what operator<< writes for items shorter than 2^32 bytes that no OP_N
-- stands for.
has_canonical_pushes-push_all :
    (ds : List (List ℕ)) → All HasNoOpcode ds → has_canonical_pushes (push_all ds) ≡ true
unfolding has_canonical_pushes
has_canonical_pushes-push_all ds h = canonical_loop-push_all _ ds (omega arith) h
