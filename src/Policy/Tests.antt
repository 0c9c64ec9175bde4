-- ===== src/Policy/Tests.antt =====
-- A standard transaction.
use tetra.Prelude.{◌≡◌, ◌<◌, refl, arith, true, [], ◌∷◌, All, replicate}
use tetra.Prelude.Int.{pos, ◌≤ℤ◌}
use tetra.Script.Opcode.{opcode_of, value}
use tetra.Script.Parse.{get_op, get_operand, operand_size, split_operand, script_for_key_id}
use tetra.Script.Walk.{
  is_push_only, push_only_loop, has_canonical_pushes, canonical_pushes_loop, is_canonical_push,
}
use tetra.Solver.Shapes.{solver-script_for_key_id}
use tetra.Solver.Destination.{is_standard, is_standard_type}
use tetra.Transaction.{Transaction, TxIn, TxOut}
use tetra.Policy.{is_final, standard_inputs, standard_outputs, is_standard_tx}
use tetra.Policy.Standard.{IsFinal, IsPlain, IsKnown, is_standard_tx_sound}

abbrev pays_key : TxOut
pays_key = record {
  value = record { local = ("eur", pos 5) ∷ []; fixed = pos 0 };
  script_pub_key = script_for_key_id (replicate 20 9);
}

abbrev pushes_two : TxIn
pushes_two = record {
  prevout = record { hash = 77; n = 0 };
  script_sig = 2 ∷ 17 ∷ 18 ∷ [];
  sequence = 5;
}

abbrev plain : Transaction
plain = record {
  version = pos 2;
  vin = pushes_two ∷ [];
  vout = pays_key ∷ [];
  lock_time = 0;
  attachments = [];
}

plain-standard : is_standard_tx (λ tx. 120) 8 (pos 1700000000) plain ≡ true
unfolding is_standard_tx is_final standard_inputs standard_outputs is_push_only push_only_loop
    has_canonical_pushes canonical_pushes_loop is_canonical_push get_op get_operand operand_size
    split_operand opcode_of value is_standard is_standard_type
plain-standard = rw (solver-script_for_key_id (replicate 20 9) refl) refl

is_standard_tx_sound_example :
    (pos 1 ≤ℤ pos 2)
    × (pos 2 ≤ℤ pos 2)
    × IsFinal 8 (pos 1700000000) plain
    × (120 < 100000)
    × All IsPlain (pushes_two ∷ [])
    × All IsKnown (pays_key ∷ [])
is_standard_tx_sound_example =
    is_standard_tx_sound (λ tx. 120) 8 (pos 1700000000) plain
      ((omega arith, (omega arith, (omega arith, tt))), tt) plain-standard
