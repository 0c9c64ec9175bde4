-- ===== src/Block/Tests.antt =====
-- A block with a coin base and a payment.
use tetra.Prelude.{ℕ, ◌+◌, ◌*◌, ◌≤◌, ◌≡◌, refl, true, false, List, [], ◌∷◌, All, length}
use tetra.Prelude.Int.{pos, ◌+ℤ◌}
use tetra.Prelude.Word.{add64, wrap}
use tetra.Cash.{
  find, set, plus_assign, plus_entries, lt_int, gt_int, ge_int, le_int, min_value, min_entries,
  min_loop, max_value, max_loop,
}
use tetra.Cash.Range.{money_range}
use tetra.Transaction.{
  TxIn, TxOut, Transaction, Verdict, is_null, same_out_point, is_coin_base, check_outputs, count,
  check_duplicates, check_prevouts, check_inputs, check_transaction,
}
use tetra.Script.Walk.{get_sig_op_count, sig_op_loop, sig_ops}
use tetra.Script.Parse.{get_op, operand_size, split_operand, get_operand}
use tetra.Script.Opcode.{opcode_of, value}
use tetra.Merkle.{back, build_merkle_tree, tree_loop, level_loop}
use tetra.Merkle.Levels.{root}
use tetra.Inputs.{CheckResult}
use tetra.Block.{
  Block, contains, insert_all, any_coin_base, input_sig_ops, output_sig_ops,
  get_legacy_sig_op_count, block_sig_ops, check_transactions, check_tree, check_vtx,
  starts_with_coin_base, check_block,
}
use tetra.Block.Sound.{AreDistinct, check_block_sound}

abbrev out : TxOut
out = record {
  value = record { local = ("eur", pos 50) ∷ []; fixed = pos 0 };
  script_pub_key = 0xac ∷ [];
}

abbrev at : ℕ → ℕ → TxIn
at hash n = record {
  prevout = record { hash = hash; n = n };
  script_sig = 0x51 ∷ 0x51 ∷ [];
  sequence = 0;
}

abbrev tx_of : ℕ → TxIn → Transaction
tx_of id i = record {
  version = pos 2;
  vin = i ∷ [];
  vout = out ∷ [];
  lock_time = id;
  attachments = [];
}

abbrev id : Transaction → ℕ
id tx = tx.lock_time

abbrev size : Transaction → ℕ
size tx = 100

abbrev whole : Block → ℕ
whole b = 100 * length b.vtx

abbrev mix : ℕ → ℕ → ℕ
mix a b = 10 * a + b

abbrev block : Block
block = record {
  merkle_root = 12;
  time = 1000;
  vtx = tx_of 1 (at 0 0xffffffff) ∷ tx_of 2 (at 77 0) ∷ [];
}

block_passed : check_block size id whole mix 900 true block ≡ CheckResult.passed
unfolding check_block check_vtx check_tree check_transactions starts_with_coin_base any_coin_base
    insert_all contains block_sig_ops get_legacy_sig_op_count input_sig_ops output_sig_ops back
    build_merkle_tree tree_loop level_loop get_sig_op_count sig_op_loop sig_ops get_op operand_size
    split_operand get_operand opcode_of value check_transaction check_outputs check_duplicates
    check_prevouts check_inputs count same_out_point is_null is_coin_base plus_assign plus_entries
    find set add64 wrap ◌+ℤ◌ lt_int gt_int ge_int le_int min_value min_entries min_loop max_value
    max_loop money_range
block_passed = refl

check_block_sound_example :
    (200 ≤ 1000000)
    × (1000 ≤ 900 + 7200)
    × ((tx : Transaction) × (rest : List Transaction) × (block.vtx ≡ tx ∷ rest)
        × (is_coin_base tx.vin ≡ true)
        × All (λ t. is_coin_base t.vin ≡ false) rest)
    × All (λ tx. check_transaction size tx ≡ Verdict.valid) block.vtx
    × AreDistinct (1 ∷ 2 ∷ [])
    × (block_sig_ops block.vtx ≤ 20000)
    × (true ≡ true → 12 ≡ root mix 2 (1 ∷ 2 ∷ []))
check_block_sound_example = check_block_sound size id whole mix 900 true block block_passed
