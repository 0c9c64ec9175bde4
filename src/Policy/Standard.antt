-- ===== src/Policy/Standard.antt =====
-- What a standard transaction is (src/main.cpp).
use tetra.Prelude.{
  ℕ, suc, ◌⊎◌, inl, inr, Bool-cases, ltb, ◌==◌, ◌≤◌, ◌<◌, ◌≡◌, true, List, [], ◌∷◌, arith, length,
  All,
}
use tetra.Prelude.Int.{ℤ, pos, ◌≤ℤ◌}
use tetra.Prelude.Bytes.{IsByte}
use tetra.Script.Walk.Pushes.{Piece, IsPiece, written, pushes_inv}
use tetra.Solver.{TxnOutType, solver, back_byte}
use tetra.Solver.Destination.{is_standard, is_standard_type}
use tetra.Solver.Sound.{IsSolution, solver-IsSolution}
use tetra.Transaction.{Transaction, TxIn, TxOut}
use tetra.Policy.{
  standard_inputs, standard_outputs, is_final, is_standard_tx, all_final, locktime_threshold,
}

-- The script of an input: at most 500 bytes, which operator<< writes for opcodes from OP_1NEGATE to OP_16 and
-- for data that are no single byte from 0 to 16.
abbrev pub IsPlain : TxIn → Type 0
IsPlain i =
    (length i.script_sig ≤ 500) × ((ps : List Piece) × All IsPiece ps × (i.script_sig ≡ written ps))

-- The transaction is final for the next block at a height and a time: its lock time is 0 or has passed, as a
-- height or as a time, or no input can be replaced.
abbrev pub IsFinal : ℕ → ℤ → Transaction → Type 0
IsFinal height time tx =
    (tx.lock_time ≡ 0)
    ⊎ (((tx.lock_time < 500000000) × (tx.lock_time < height))
        ⊎ (((500000000 ≤ tx.lock_time) × (pos (suc tx.lock_time) ≤ℤ time))
            ⊎ All (λ i. i.sequence ≡ 0xffffffff) tx.vin))

all_final-All : (vin : List TxIn) → all_final vin ≡ true → All (λ i. i.sequence ≡ 0xffffffff) vin
unfolding all_final
all_final-All [] e = tt
all_final-All (i ∷ vin) e = (ground arith, all_final-All vin (ground arith))

is_final-IsFinal :
    (best_height : ℕ) (now : ℤ) (tx : Transaction)
    → is_final best_height now tx 0 (pos 0) ≡ true
    → IsFinal best_height now tx
unfolding is_final
is_final-IsFinal best_height now tx e = elim (Bool-cases (tx.lock_time == 0)) [
  | inl unlocked ↦ inl (ground arith)
  | inr locked ↦ elim (Bool-cases (all_final tx.vin)) [
    | inl final ↦ inr (inr (inr (all_final-All tx.vin final)))
    | inr open_inputs ↦ elim (Bool-cases (ltb tx.lock_time locktime_threshold)) [
      | inl height ↦ inr (inl (ground arith, ground arith))
      | inr time ↦ inr (inr (inl (ground arith, ground arith)))
    ]
  ]
]

-- At most three keys.
unfoldable pub FewKeys : TxnOutType → List (List ℕ) → Type 0
FewKeys TxnOutType.tx_multisig sols = back_byte sols ≤ 3
FewKeys type sols = Unit

-- The script of an output: one that Solver knows, with at most three keys.
abbrev pub IsKnown : TxOut → Type 0
IsKnown o =
    IsSolution (solver o.script_pub_key).type_ret (solver o.script_pub_key).solutions
    × FewKeys (solver o.script_pub_key).type_ret (solver o.script_pub_key).solutions

standard_inputs-IsPlain :
    (vin : List TxIn)
    → All (λ i. All IsByte i.script_sig) vin
    → standard_inputs vin ≡ true
    → All IsPlain vin
unfolding standard_inputs
standard_inputs-IsPlain [] bytes e = tt
standard_inputs-IsPlain (i ∷ vin) bytes e = (
  (ground arith, pushes_inv i.script_sig bytes.0 (ground arith) (ground arith)),
  standard_inputs-IsPlain vin bytes.1 (ground arith),
)

is_standard_type-FewKeys :
    (type : TxnOutType) (sols : List (List ℕ))
    → is_standard_type type sols ≡ true
    → FewKeys type sols
unfolding is_standard_type FewKeys
is_standard_type-FewKeys TxnOutType.tx_nonstandard sols e = tt
is_standard_type-FewKeys TxnOutType.tx_pubkey sols e = tt
is_standard_type-FewKeys TxnOutType.tx_pubkeyhash sols e = tt
is_standard_type-FewKeys TxnOutType.tx_scripthash sols e = tt
is_standard_type-FewKeys TxnOutType.tx_multisig sols e = ground arith

is_standard-IsKnown : (o : TxOut) → is_standard o.script_pub_key ≡ true → IsKnown o
unfolding is_standard
is_standard-IsKnown o e = (
  solver-IsSolution o.script_pub_key (ground arith),
  is_standard_type-FewKeys (solver o.script_pub_key).type_ret (solver o.script_pub_key).solutions
      (ground arith),
)

standard_outputs-IsKnown : (vout : List TxOut) → standard_outputs vout ≡ true → All IsKnown vout
unfolding standard_outputs
standard_outputs-IsKnown [] e = tt
standard_outputs-IsKnown (o ∷ vout) e =
    (is_standard-IsKnown o (ground arith), standard_outputs-IsKnown vout (ground arith))

-- A transaction that IsStandard accepts, whose inputs' scripts are bytes, has a version from 1 to 2 and fewer
-- than 100,000 bytes. Its lock time is 0, or is a height below the best one or a time that has
-- passed, or all its inputs are final. The scripts of its inputs have at most 500 bytes, and are what
-- operator<< writes for opcodes from OP_1NEGATE to OP_16 and for data that are no single byte from 0
-- to 16. The scripts of its outputs are of the types that Solver knows, with their solutions, and with
-- at most three keys.
pub is_standard_tx_sound :
    (serialize_size : Transaction → ℕ) (best_height : ℕ) (now : ℤ) (tx : Transaction)
    → All (λ i. All IsByte i.script_sig) tx.vin
    → is_standard_tx serialize_size best_height now tx ≡ true
    → (pos 1 ≤ℤ tx.version)
      × (tx.version ≤ℤ pos 2)
      × IsFinal best_height now tx
      × (serialize_size tx < 100000)
      × All IsPlain tx.vin
      × All IsKnown tx.vout
unfolding is_standard_tx
is_standard_tx_sound serialize_size best_height now tx bytes e = (
  ground arith,
  ground arith,
  is_final-IsFinal best_height now tx (ground arith),
  ground arith,
  standard_inputs-IsPlain tx.vin bytes (ground arith),
  standard_outputs-IsKnown tx.vout (ground arith),
)
