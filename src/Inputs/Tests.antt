-- ===== src/Inputs/Tests.antt =====
-- A payment in two circuits, checked against the coins that it spends.
use Prim.Native.String.{String}
use tetra.Prelude.{ℕ, ◌≤◌, ◌≡◌, refl, Bool, true, false, List, [], ◌∷◌, none, arith, All}
use tetra.Prelude.Int.{pos, ◌+ℤ◌, ◌-ℤ◌}
use tetra.Prelude.Word.{add64, sub64, neg64, wrap}
use tetra.Script.Samples.{sample}
use tetra.Script.Machine.{Item, same}
use tetra.Cash.{
  find, set, plus_assign, minus_assign, minus, plus_entries, minus_entries, lt, lt_entries, lt_int,
  ge_int, le_int, min_value, min_entries, min_loop, max_value, max_loop,
}
use tetra.Cash.Range.{money_range}
use tetra.Transaction.{TxIn, TxOut, Transaction, is_coin_base, is_null}
use tetra.Coins.{Coins, available, is_available, is_null_out}
use tetra.Coins.Cache.{Entries, View, through, lookup, get_coins, have_coins}
use tetra.Inputs.{
  CheckResult, Flags, value_out_loop, get_value_out, check_fees, is_immature, have_all_coins,
  are_available, have_inputs, sum_inputs, check_scripts, check_inputs,
}
use tetra.Inputs.Totals.{total}
use tetra.Inputs.Reads.{IsThere, IsMature, spent}
use tetra.Inputs.Sound.{check_inputs_sound}
use tetra.Inputs.Queued.{Agree, check_inputs-queued}

abbrev pays : ℕ → ℕ → TxOut
pays eur usd = record {
  value = record { local = ("eur", pos eur) ∷ ("usd", pos usd) ∷ []; fixed = pos 0 };
  script_pub_key = 0x51 ∷ [];
}

abbrev of_coin : ℕ → TxIn
of_coin n = record { prevout = record { hash = 77; n = n }; script_sig = []; sequence = 0xffffffff }

abbrev below : View
below k = none

abbrev coin : Coins
coin = record { coin_base = true; vout = pays 300 1 ∷ pays 200 2 ∷ []; height = 8; version = pos 1 }

abbrev coins : Entries
coins = (77, coin) ∷ []

abbrev payment : Transaction
payment = record {
  version = pos 2;
  vin = of_coin 0 ∷ of_coin 1 ∷ [];
  vout = pays 490 3 ∷ [];
  lock_time = 0;
  attachments = [];
}

abbrev flags : Flags
flags = record { p2sh = true; strict = false }

abbrev any_sig : Transaction → ℕ → Item → Item → List ℕ → Bool
any_sig tx n sig key code = same sig key

payment_passed :
    (check_inputs sample any_sig below true true flags 8 payment coins).0 ≡ CheckResult.passed
unfolding check_inputs have_inputs have_all_coins are_available have_coins get_coins lookup
    is_available available is_null_out sum_inputs is_immature check_fees get_value_out
    value_out_loop check_scripts is_coin_base is_null plus_assign minus_assign minus plus_entries
    minus_entries find set add64 sub64 neg64 wrap ◌+ℤ◌ ◌-ℤ◌ lt lt_entries lt_int ge_int le_int
    min_value min_entries min_loop max_value max_loop money_range
payment_passed = refl

check_inputs_sound_example :
    All (IsThere (through below coins)) payment.vin
    × All (IsMature (through below coins) 9) payment.vin
    × ((circuit : String)
        → total circuit (pays 490 3 ∷ []) ≤ total circuit (spent (through below coins) payment.vin))
unfolding through lookup available is_null_out is_coin_base is_null find
check_inputs_sound_example =
    check_inputs_sound sample any_sig below true true flags 8 payment coins refl
      (
        ((refl, (refl, tt)), ((omega arith, omega arith), ((omega arith, omega arith), tt))),
        (((refl, (refl, tt)), ((omega arith, omega arith), ((omega arith, omega arith), tt))), tt),
      )
      (((refl, (refl, tt)), ((omega arith, omega arith), ((omega arith, omega arith), tt))), tt)
      (omega arith) (omega arith) payment_passed

check_inputs-queued_example :
    Agree sample any_sig below coins
      (check_inputs sample any_sig below false true flags 8 payment coins)
      (check_inputs sample any_sig below true true flags 8 payment coins)
check_inputs-queued_example = check_inputs-queued sample any_sig below true flags 8 payment coins
