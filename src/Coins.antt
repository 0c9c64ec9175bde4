-- ===== src/Coins.antt =====
-- Unspent outputs (src/main.h): CCoins, what a transaction has left, and the undo information of an input.
use tetra.Prelude.{
  ℕ, zero, suc, ◌+◌, Bool, true, false, not, ◌&&◌, List, [], ◌∷◌, Option, none, some, ◌==◌,
  if◌then◌else◌, length, get_elem?, set,
}
use tetra.Prelude.Int.{ℤ, pos}
use tetra.Cash.{empty}
use tetra.Transaction.{TxIn, TxOut, Transaction, is_coin_base}
pub mod Outputs
pub mod Spend
pub mod Cache
pub mod Update
pub mod RoundTrip
pub mod Block
pub mod Disconnect
mod Tests

-- `CTxOut::SetNull`, and `IsNull`, which only looks at the circuits.
abbrev pub null_out : TxOut
null_out = record { value = empty; script_pub_key = [] }

unfoldable pub is_null_out : TxOut → Bool
is_null_out o = length o.value.local == 0

pub record Coins : Type 0 where
  pub coin_base : Bool
  pub vout : List TxOut
  pub height : ℕ
  pub version : ℤ

-- The two constructors.
abbrev pub no_coins : Coins
no_coins = record { coin_base = false; vout = []; height = 0; version = pos 0 }

unfoldable pub coins_of : Transaction → ℕ → Coins
coins_of tx height = record {
  coin_base = is_coin_base tx.vin;
  vout = tx.vout;
  height = height;
  version = tx.version;
}

-- The outputs without the null ones at the end.
unfoldable pub cleanup : List TxOut → List TxOut
cleanup [] = []
cleanup (o ∷ os) = elim (cleanup os) [
  | [] ↦ if is_null_out o then [] else o ∷ []
  | p ∷ ps ↦ o ∷ p ∷ ps
]

-- The output at a place, if it is there and not null; `IsAvailable`.
unfoldable pub available : ℕ → List TxOut → Option TxOut
available n vout = elim (get_elem? vout n) [
  | none ↦ none
  | some o ↦ if is_null_out o then none else some o
]

unfoldable pub is_available : ℕ → List TxOut → Bool
is_available n vout = elim (available n vout) [ none ↦ false | some o ↦ true ]

unfoldable pub is_pruned : List TxOut → Bool
is_pruned [] = true
is_pruned (o ∷ os) = is_null_out o && is_pruned os

-- CTxInUndo: a height of 0 says that the output was not the last.
pub record Undo : Type 0 where
  pub txout : TxOut
  pub coin_base : Bool
  pub height : ℕ
  pub version : ℤ

-- `Spend`, with the undo information.
unfoldable pub spend : ℕ → Coins → Option (Undo × Coins)
spend n c = elim (available n c.vout) [
  | none ↦ none
  | some o ↦ elim (cleanup (set c.vout n null_out)) [
    | [] ↦ some (
      record { txout = o; coin_base = c.coin_base; height = c.height; version = c.version },
      record c { vout = [] },
    )
    | p ∷ ps ↦ some (
      record { txout = o; coin_base = false; height = 0; version = pos 0 },
      record c { vout = p ∷ ps },
    )
  ]
]

-- `vout.resize(n + 1)` where that is longer, and `vout[n] = o`.
unfoldable pub assign : ℕ → TxOut → List TxOut → List TxOut
assign zero o [] = o ∷ []
assign zero o (x ∷ xs) = o ∷ xs
assign (suc n) o [] = null_out ∷ assign n o []
assign (suc n) o (x ∷ xs) = x ∷ assign n o xs

-- The restored input of DisconnectBlock, from the coins that are there, and whether all was as it
-- should be.
unfoldable pub restore : ℕ → Undo → Coins → Coins × Bool
restore n u c =
    let base =
      if u.height == 0
      then c
      else record { coin_base = u.coin_base; vout = []; height = u.height; version = u.version } in
    let as_said = if u.height == 0 then not (is_pruned c.vout) else is_pruned c.vout in
    (record base { vout = assign n u.txout base.vout }, as_said && not (is_available n base.vout))
