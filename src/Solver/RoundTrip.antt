-- ===== src/Solver/RoundTrip.antt =====
-- The scripts of `SetDestination` and `SetMultisig`, read back by `ExtractDestination` and
-- `ExtractDestinations` (src/script.cpp).
use tetra.Prelude.{ℕ, ◌+◌, ◌≤◌, ◌≡◌, refl, List, [], ◌∷◌, some, ◌>>=◌, arith, length, All, map}
use mathlib.Core.List.{append_assoc}
use tetra.Script.Opcode.{value}
use tetra.Script.Parse.{push_op, encode_op_n}
use tetra.Script.Machine.{Item}
use tetra.PubKey.{get_id}
use tetra.Solver.{TxnOutType}
use tetra.Solver.Shapes.{solver-script_for_key_id, solver-script_for_script_id}
use tetra.Solver.Destination.{
  TxDestination, set_destination, set_multisig, destination_of, extract_destination,
  destinations_of, extract_destinations,
}
use tetra.Solver.Multisig.{
  IsShortKey, key_bytes, multisig_script, solver-multisig, middle-solutions, push_keys-key_bytes,
}

-- A destination whose hash has 20 bytes.
abbrev pub IsAddress : TxDestination → Type 0
IsAddress TxDestination.no_destination = ⊥
IsAddress (TxDestination.key_id h) = length h ≡ 20
IsAddress (TxDestination.script_id h) = length h ≡ 20

module _ (hash160 : Item → Item) where
  -- ExtractDestination reads back the destination for which SetDestination wrote the script, when
  -- its hash has 20 bytes.
  pub extract_destination-set_destination :
      (a : TxDestination) → IsAddress a → extract_destination hash160 (set_destination a) ≡ some a
  unfolding extract_destination set_destination destination_of
  extract_destination-set_destination TxDestination.no_destination h = absurd h
  extract_destination-set_destination (TxDestination.key_id h) size =
      rw (solver-script_for_key_id h size) refl
  extract_destination-set_destination (TxDestination.script_id h) size =
      rw (solver-script_for_script_id h size) refl

  set_multisig-script :
      (m : ℕ) (keys : List Item)
      → 1 ≤ m
      → m ≤ length keys
      → length keys ≤ 16
      → All IsShortKey keys
      → set_multisig m keys ≡ some (multisig_script m keys)
  unfolding set_multisig encode_op_n push_op value
  set_multisig-script m keys low few count sizes = ground (
    arith,
    push_keys-key_bytes ((0x50 + m) ∷ []) keys sizes,
    append_assoc (key_bytes keys) ((0x50 + length keys) ∷ []) (0xae ∷ []),
  )

  -- ExtractDestinations reads back what SetMultisig wrote for keys of 33 to 75 bytes, of which there
  -- are at most 16, and at least as many as the signatures that it asks for, which are at least
  -- one: the type, the addresses of the keys in their order and the number of signatures.
  pub extract_destinations-set_multisig :
      (m : ℕ) (keys : List Item)
      → 1 ≤ m
      → m ≤ length keys
      → length keys ≤ 16
      → All IsShortKey keys
      → (set_multisig m keys >>= extract_destinations hash160)
        ≡ some
            (TxnOutType.tx_multisig, map (λ key. TxDestination.key_id (get_id hash160 key)) keys, m)
  unfolding extract_destinations destinations_of
  extract_destinations-set_multisig m [] low few count sizes = absurd (omega arith)
  extract_destinations-set_multisig m (k ∷ ks) low few count sizes =
      rw
        (
          set_multisig-script m (k ∷ ks) low few count sizes,
          solver-multisig m low k ks few count sizes,
          middle-solutions m low k ks few count sizes,
        )
        refl
