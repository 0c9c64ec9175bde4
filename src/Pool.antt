-- ===== src/Pool.antt =====
-- The memory pool, CTxMemPool (src/main.h, src/main.cpp): `addUnchecked`, `remove`, `removeConflicts` and
-- `clear`. Maps are association lists, of which only lookups are read. A pointer to a transaction of the
-- pool is the hash under which the pool has it. The hash of a transaction is a parameter.
pub mod Maps
pub mod Consistent
pub mod Remove
pub mod Conflicts
pub mod Accept
pub mod Orphans
mod Tests
use tetra.Prelude.{
  ℕ, zero, suc, ◌+◌, Bool, true, false, not, ◌&&◌, List, [], ◌∷◌, Option, none, some, ◌==◌,
  if◌then◌else◌, length,
}
use tetra.Transaction.{Transaction, TxIn, TxOut, OutPoint, same_out_point, same_transaction}
use tetra.Pool.Maps.{lookup, store, erase}

-- `CInPoint`
pub record InPoint : Type 0 where
  pub ptx : ℕ
  pub n : ℕ

abbrev pub same_hash : ℕ → ℕ → Bool
same_hash a b = a == b

pub record TxMemPool : Type 0 where
  pub map_tx : List (ℕ × Transaction)
  pub map_next_tx : List (OutPoint × InPoint)
  pub updated : ℕ

abbrev pub tx_at : ℕ → TxMemPool → Option Transaction
tx_at h pool = lookup same_hash h pool.map_tx

abbrev pub spender : OutPoint → TxMemPool → Option InPoint
spender p pool = lookup same_out_point p pool.map_next_tx

-- The loops over the inputs of `addUnchecked`, from the `n`th on, and of `remove`.
unfoldable pub add_inputs :
    ℕ → ℕ → List TxIn → List (OutPoint × InPoint) → List (OutPoint × InPoint)
add_inputs h n [] next = next
add_inputs h n (i ∷ vin) next =
    add_inputs h (suc n) vin (store same_out_point i.prevout (record { ptx = h; n = n }) next)

unfoldable pub erase_inputs : List TxIn → List (OutPoint × InPoint) → List (OutPoint × InPoint)
erase_inputs [] next = next
erase_inputs (i ∷ vin) next = erase_inputs vin (erase same_out_point i.prevout next)

unfoldable pub add_unchecked : ℕ → Transaction → TxMemPool → TxMemPool
add_unchecked h tx pool = record {
  map_tx = store same_hash h tx pool.map_tx;
  map_next_tx = add_inputs h 0 tx.vin pool.map_next_tx;
  updated = pool.updated + 1;
}

unfoldable pub clear : TxMemPool → TxMemPool
clear pool = record { map_tx = []; map_next_tx = []; updated = pool.updated + 1 }

module _ (get_hash : Transaction → ℕ) where
  -- `remove(tx)`, which is also the part of `remove(tx, true)` behind the loop over the outputs.
  unfoldable pub remove_one : Transaction → TxMemPool → TxMemPool
  remove_one tx pool = elim (tx_at (get_hash tx) pool) [
    | none ↦ pool
    | some old ↦ record {
      map_tx = erase same_hash (get_hash tx) pool.map_tx;
      map_next_tx = erase_inputs tx.vin pool.map_next_tx;
      updated = pool.updated + 1;
    }
  ]

  -- The loop over the outputs from the `k`th on, `left` of them; `go` is the recursive call. A pointer to no
  -- transaction of the pool, which there is none of, would be followed to `none`.
  unfoldable pub remove_spenders :
      (Transaction → TxMemPool → Option TxMemPool) → ℕ → ℕ → ℕ → TxMemPool → Option TxMemPool
  remove_spenders go h zero k pool = some pool
  remove_spenders go h (suc left) k pool = elim (spender (record { hash = h; n = k }) pool) [
    | none ↦ remove_spenders go h left (suc k) pool
    | some q ↦ elim (tx_at q.ptx pool) [
      | none ↦ none
      | some child ↦ elim (go child pool) [
        | none ↦ none
        | some pool' ↦ remove_spenders go h left (suc k) pool'
      ]
    ]
  ]

  -- `remove(tx, true)`; the fuel bounds the depth of the calls.
  unfoldable pub remove_all : ℕ → Transaction → TxMemPool → Option TxMemPool
  remove_all zero tx pool = none
  remove_all (suc fuel) tx pool =
      elim (remove_spenders (remove_all fuel) (get_hash tx) (length tx.vout) 0 pool) [
        | none ↦ none
        | some pool' ↦ some (remove_one tx pool')
      ]

  -- `removeConflicts` on the inputs that are left.
  unfoldable pub remove_conflicts : ℕ → Transaction → List TxIn → TxMemPool → Option TxMemPool
  remove_conflicts fuel tx [] pool = some pool
  remove_conflicts fuel tx (i ∷ vin) pool = elim (spender i.prevout pool) [
    | none ↦ remove_conflicts fuel tx vin pool
    | some q ↦ elim (tx_at q.ptx pool) [
      | none ↦ none
      | some other ↦ elim (same_transaction other tx) [
        | true ↦ remove_conflicts fuel tx vin pool
        | false ↦ elim (remove_all fuel other pool) [
          | none ↦ none
          | some pool' ↦ remove_conflicts fuel tx vin pool'
        ]
      ]
    ]
  ]
