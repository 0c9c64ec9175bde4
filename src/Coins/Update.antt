-- ===== src/Coins/Update.antt =====
-- UpdateCoins, and the part of DisconnectBlock that undoes one transaction (src/main.cpp).
use tetra.Prelude.{
  ℕ, Bool, true, false, not, ◌&&◌, List, [], ◌∷◌, Option, none, some, ◌>>=◌, ◌==◌, if◌then◌else◌,
}
use tetra.Prelude.Int.{pos, negsuc}
use tetra.Script.Machine.{same}
use tetra.Cash.{eq, eq_int}
use tetra.Transaction.{TxIn, TxOut, Transaction, is_coin_base}
use tetra.Coins.{Coins, no_coins, coins_of, Undo, spend, restore}
use tetra.Coins.Cache.{Entries, View, get_coins, set_coins}

-- `==` on outputs and on coins, by that of Cash.
unfoldable pub same_outs : List TxOut → List TxOut → Bool
same_outs [] [] = true
same_outs (o ∷ os) (p ∷ ps) =
    eq o.value p.value && same o.script_pub_key p.script_pub_key && same_outs os ps
same_outs os ps = false

unfoldable pub same_coins : Coins → Coins → Bool
same_coins c d =
    (if c.coin_base then d.coin_base else not d.coin_base)
    && c.height == d.height
    && eq_int c.version d.version
    && same_outs c.vout d.vout

-- `CCoins coins; view.GetCoins(hash, coins);`
unfoldable pub or_none : Option Coins → Coins
or_none none = no_coins
or_none (some c) = c

module _ (base : View) where
  -- The inputs are marked spent; `none` is an assertion that fails.
  unfoldable pub spend_inputs : List TxIn → Entries → Option (List Undo × Entries)
  spend_inputs [] m = some ([], m)
  spend_inputs (i ∷ is) m = do
    let (found, m') = get_coins base i.prevout.hash m
    c ← found
    (u, c') ← spend i.prevout.n c
    (us, m'') ← spend_inputs is (set_coins i.prevout.hash c' m')
    some (u ∷ us, m'')

  unfoldable pub update_coins : Transaction → ℕ → ℕ → Entries → Option (List Undo × Entries)
  update_coins tx height txhash m = do
    (us, m') ← if is_coin_base tx.vin then some ([], m) else spend_inputs tx.vin m
    some (us, set_coins txhash (coins_of tx height) m')

  -- The outputs of a transaction are taken away; with whether they were all there.
  unfoldable pub remove_outputs : Transaction → ℕ → ℕ → Entries → Entries × Bool
  remove_outputs tx height txhash m =
      let made = coins_of tx height in
      let (found, m') = get_coins base txhash m in
      let outs : Coins = elim found [ some c ↦ c | none ↦ made ] in
      let there = (elim made.version as (λ v. Coins) [
        | pos n ↦ outs
        | negsuc n ↦ record outs { version = made.version }
      ]) in
      (set_coins txhash no_coins m', same_coins there made)

  unfoldable pub restore_input : TxIn → Undo → Entries → Entries × Bool
  restore_input i u m =
      let (found, m') = get_coins base i.prevout.hash m in
      let (c', fine) = restore i.prevout.n u (or_none found) in
      (set_coins i.prevout.hash c' m', fine)

  -- The last input first; `none` is a number of undo records that does not fit.
  unfoldable pub restore_inputs : List TxIn → List Undo → Entries → Option (Entries × Bool)
  restore_inputs [] [] m = some (m, true)
  restore_inputs (i ∷ is) (u ∷ us) m = do
    (m', fine) ← restore_inputs is us m
    let (m'', fine') = restore_input i u m'
    some (m'', fine && fine')
  restore_inputs is us m = none

  -- A transaction that is not the first of its block.
  unfoldable pub disconnect : Transaction → ℕ → ℕ → List Undo → Entries → Option (Entries × Bool)
  disconnect tx height txhash us m = do
    let (m', fine) = remove_outputs tx height txhash m
    (m'', fine') ← restore_inputs tx.vin us m'
    some (m'', fine && fine')
