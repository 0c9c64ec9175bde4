-- ===== src/Coins/Block.antt =====
-- The coins' part of ConnectBlock, and DisconnectBlock (src/main.cpp): the transactions of a block with
-- their hashes, the first one the coin base.
use tetra.Prelude.{ℕ, Bool, true, ◌&&◌, List, [], ◌∷◌, Option, none, some, ◌>>=◌, if◌then◌else◌}
use tetra.Transaction.{Transaction, is_coin_base}
use tetra.Coins.{Undo}
use tetra.Coins.Cache.{Entries, View}
use tetra.Coins.Update.{update_coins, remove_outputs, disconnect}

abbrev pub Txs : Type 0
Txs = List (Transaction × ℕ)

module _ (base : View) (height : ℕ) where
  unfoldable pub connect_txs : Txs → Entries → Option (List (List Undo) × Entries)
  connect_txs [] m = some ([], m)
  connect_txs ((tx, h) ∷ txs) m = do
    (us, m') ← update_coins base tx height h m
    (uss, m'') ← connect_txs txs m'
    some (if is_coin_base tx.vin then uss else us ∷ uss, m'')

  -- The transactions behind the coin base, the last one first.
  unfoldable pub disconnect_txs : Txs → List (List Undo) → Entries → Option (Entries × Bool)
  disconnect_txs [] [] m = some (m, true)
  disconnect_txs ((tx, h) ∷ txs) (us ∷ uss) m = do
    (m', fine) ← disconnect_txs txs uss m
    (m'', fine') ← disconnect base tx height h us m'
    some (m'', fine && fine')
  disconnect_txs txs uss m = none

  unfoldable pub disconnect_block : Txs → List (List Undo) → Entries → Option (Entries × Bool)
  disconnect_block [] uss m = none
  disconnect_block ((tx, h) ∷ txs) uss m = do
    (m', fine) ← disconnect_txs txs uss m
    let (m'', fine') = remove_outputs base tx height h m'
    some (m'', fine && fine')
