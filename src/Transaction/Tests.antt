-- ===== src/Transaction/Tests.antt =====
-- A payment in two circuits, and a total above MAX_MONEY that is accepted.
use tetra.Prelude.{ℕ, ◌≡◌, ◌≤◌, ◌<◌, refl, ◌*◌, ◌+◌, List, [], ◌∷◌, length, All}
use tetra.Prelude.Int.{pos, ◌+ℤ◌}
use tetra.Prelude.Word.{add64, wrap}
use tetra.Cash.{
  find, set, plus_assign, plus_entries, lt_int, gt_int, ge_int, le_int, min_value, min_entries,
  min_loop, max_value, max_loop,
}
use tetra.Cash.Range.{money_range}
use tetra.Transaction.{
  TxIn, TxOut, Transaction, Verdict, is_null, same_out_point, is_coin_base, check_outputs, count,
  check_duplicates, check_prevouts, check_inputs, check_transaction,
}
use tetra.Transaction.Sound.{IsBounded, AreDistinct, HasGoodInputs, check_transaction_sound}

abbrev spend : ℕ → TxIn
spend n = record { prevout = record { hash = 77; n = n }; script_sig = []; sequence = 0xffffffff }

abbrev pay : ℕ → ℕ → TxOut
pay eur usd = record {
  value = record { local = ("eur", pos eur) ∷ ("usd", pos usd) ∷ []; fixed = pos 0 };
  script_pub_key = 0x51 ∷ [];
}

abbrev payment : List TxOut → Transaction
payment vout = record {
  version = pos 2;
  vin = spend 0 ∷ spend 1 ∷ [];
  vout = vout;
  lock_time = 0;
  attachments = [];
}

abbrev size : Transaction → ℕ
size tx = 100 * length tx.vin + 50 * length tx.vout

payment_valid : check_transaction size (payment (pay 500 3 ∷ [])) ≡ Verdict.valid
unfolding check_transaction check_outputs check_duplicates check_prevouts check_inputs count
    same_out_point is_null is_coin_base plus_assign plus_entries find set add64 wrap ◌+ℤ◌ lt_int
    gt_int ge_int le_int min_value min_entries min_loop max_value max_loop money_range
payment_valid = refl

-- The outputs pay twice MAX_MONEY in one circuit.
total_not_bounded :
    check_transaction size (payment (pay 1840000000000 1 ∷ pay 1840000000000 1 ∷ []))
    ≡ Verdict.valid
unfolding check_transaction check_outputs check_duplicates check_prevouts check_inputs count
    same_out_point is_null is_coin_base plus_assign plus_entries find set add64 wrap ◌+ℤ◌ lt_int
    gt_int ge_int le_int min_value min_entries min_loop max_value max_loop money_range
total_not_bounded = refl

check_transaction_sound_example :
    (0 < 2)
    × (0 < 1)
    × (250 ≤ 1000000)
    × All IsBounded (pay 500 3 ∷ [])
    × AreDistinct (spend 0 ∷ spend 1 ∷ [])
    × HasGoodInputs (spend 0 ∷ spend 1 ∷ [])
check_transaction_sound_example =
    check_transaction_sound size (payment (pay 500 3 ∷ [])) payment_valid
