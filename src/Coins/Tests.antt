-- ===== src/Coins/Tests.antt =====
-- Coins spent, a cache flushed, a block connected and disconnected.
use tetra.Prelude.{ℕ, ◌≡◌, refl, Bool, true, false, List, [], ◌∷◌, none, some, arith}
use tetra.Prelude.Int.{pos}
use tetra.Transaction.{TxIn, TxOut, Transaction, is_coin_base, is_null}
use tetra.Coins.{Coins, null_out, is_null_out, coins_of, Undo, spend, cleanup, available}
use tetra.Coins.Cache.{
  Cache, get_cache_size, get_best_block, Entries, View, lookup, insert, get_coins, set_coins,
  batch_write, flush, through, through-flush,
}
use tetra.Coins.Update.{spend_inputs, update_coins}
use tetra.Coins.RoundTrip.{SameView, IsHigh}
use tetra.Coins.Block.{connect_txs, disconnect_block}
use tetra.Coins.Disconnect.{disconnect_block-connect_txs}

abbrev out : ℕ → TxOut
out n = record {
  value = record { local = ("eur", pos n) ∷ []; fixed = pos 0 };
  script_pub_key = 0x51 ∷ [];
}

abbrev at : ℕ → ℕ → TxIn
at hash n = record { prevout = record { hash = hash; n = n }; script_sig = []; sequence = 0 }

abbrev tx_of : List TxIn → List TxOut → Transaction
tx_of vin vout = record { version = pos 2; vin = vin; vout = vout; lock_time = 0; attachments = [] }

abbrev old : Coins
old = record {
  coin_base = false;
  vout = out 5 ∷ null_out ∷ out 9 ∷ [];
  height = 7;
  version = pos 1;
}

abbrev below : View
below k = none

abbrev start : Entries
start = (100, old) ∷ []

-- The coin base 200, a payment 201 that spends both outputs of 100, and 202 that spends 201.
abbrev mint : Transaction
mint = tx_of (at 0 0xffffffff ∷ []) (out 50 ∷ [])

abbrev pay : Transaction
pay = tx_of (at 100 2 ∷ at 100 0 ∷ []) (out 14 ∷ [])

abbrev pay_on : Transaction
pay_on = tx_of (at 201 0 ∷ []) (out 13 ∷ [])

spend_first :
    spend 2 old
    ≡ some (
      record { txout = out 9; coin_base = false; height = 0; version = pos 0 },
      record old { vout = out 5 ∷ [] },
    )
unfolding spend available cleanup is_null_out
spend_first = refl

abbrev upper : Cache
upper = record { coins = (200, old) ∷ []; tip = some 4 }

abbrev lower : Cache
lower = record { coins = start; tip = none }

through-flush_example :
    (get_cache_size (flush upper lower).0 ≡ 0)
    × (through below (insert 200 old start) 100 ≡ some old)
    × (through (through below (insert 200 old start)) [] 100 ≡ some old)
    × ((b : ℕ)
        → upper.tip ≡ some b
        → ((get_best_block (some 3) (flush upper lower).1).0 ≡ some b)
          × ((get_best_block
                (get_best_block (some 3) (flush upper lower).1).0
                (flush upper lower).0).0
              ≡ (get_best_block (get_best_block (some 3) lower).0 upper).0))
    × (upper.tip ≡ none
        → ((flush upper lower).1.tip ≡ none)
          × ((get_best_block (some 3) (flush upper lower).1).0 ≡ some 3))
unfolding flush batch_write through lookup insert
through-flush_example = through-flush below (some 3) upper lower 100 (refl, tt)

abbrev block : List (Transaction × ℕ)
block = (mint, 200) ∷ (pay, 201) ∷ (pay_on, 202) ∷ []

abbrev spent_undo : List (List Undo)
spent_undo =
    (record { txout = out 9; coin_base = false; height = 0; version = pos 0 }
      ∷ record { txout = out 5; coin_base = false; height = 7; version = pos 1 }
      ∷ [])
    ∷ (record { txout = out 14; coin_base = false; height = 9; version = pos 2 } ∷ [])
    ∷ []

abbrev after : Entries
after =
    (100, record old { vout = [] })
    ∷ (200, record { coin_base = true; vout = out 50 ∷ []; height = 9; version = pos 2 })
    ∷ (201, record { coin_base = false; vout = []; height = 9; version = pos 2 })
    ∷ (202, record { coin_base = false; vout = out 13 ∷ []; height = 9; version = pos 2 })
    ∷ []

connected : connect_txs below 9 block start ≡ some (spent_undo, after)
unfolding connect_txs update_coins spend_inputs get_coins set_coins lookup insert spend available
    cleanup is_null_out coins_of is_coin_base is_null
connected = refl

start-IsHigh : IsHigh (through below start)
unfolding through lookup
start-IsHigh k c e = ground arith

disconnect_block-connect_txs_example :
    (t' : Entries) × (fine : Bool) × (disconnect_block below 9 block spent_undo after
      ≡ some (t', fine))
    × SameView (through below t') (through below start)
unfolding through lookup is_coin_base is_null
disconnect_block-connect_txs_example =
    disconnect_block-connect_txs below 9 (omega arith) mint 200 ((pay, 201) ∷ (pay_on, 202) ∷ [])
      spent_undo start after after start-IsHigh refl (refl, (refl, tt))
      (((λ n. refl), refl), (((λ n. refl), refl), (((λ n. refl), refl), tt)))
      ((omega arith, (omega arith, tt)), ((omega arith, tt), (tt, tt))) connected
      (λ k. ((λ n. refl), refl))
