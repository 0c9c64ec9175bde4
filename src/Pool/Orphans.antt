-- ===== src/Pool/Orphans.antt =====
-- The orphan transactions, whose inputs are not known yet: AddOrphanTx, EraseOrphanTx and
-- LimitOrphanTxSize (src/main.cpp). The transactions are in the order of their hashes, as in the
-- std::map; of the map by the parents only lookups are read. The hash and the size of a transaction are
-- parameters, and so are the random hashes.
pub mod Limit
mod Tests
use tetra.Prelude.{
  ℕ, zero, suc, ◌+◌, Bool, true, false, not, ◌&&◌, ◌||◌, List, [], ◌∷◌, Option, none, some, ltb,
  ◌==◌, if◌then◌else◌, length,
}
use tetra.Transaction.{Transaction, TxIn}
use tetra.Pool.{same_hash}
use tetra.Pool.Maps.{lookup, store, erase}

-- `mapOrphanTransactions` and `mapOrphanTransactionsByPrev`
pub record Orphans : Type 0 where
  pub by_hash : List (ℕ × Transaction)
  pub by_prev : List (ℕ × List ℕ)

abbrev pub orphan_at : ℕ → Orphans → Option Transaction
orphan_at h o = lookup same_hash h o.by_hash

-- A new element of the map, in its place, and an element that is taken out.
unfoldable pub put : ℕ → Transaction → List (ℕ × Transaction) → List (ℕ × Transaction)
put h tx [] = (h, tx) ∷ []
put h tx ((g, t) ∷ m) = if ltb h g then (h, tx) ∷ (g, t) ∷ m else (g, t) ∷ put h tx m

unfoldable pub take_out : ℕ → List (ℕ × Transaction) → List (ℕ × Transaction)
take_out h [] = []
take_out h ((g, t) ∷ m) = if same_hash g h then m else (g, t) ∷ take_out h m

-- A set of hashes: `insert` and `erase`.
unfoldable pub add_hash : ℕ → List ℕ → List ℕ
add_hash h [] = h ∷ []
add_hash h (g ∷ hs) = if same_hash g h then g ∷ hs else g ∷ add_hash h hs

unfoldable pub drop_hash : ℕ → List ℕ → List ℕ
drop_hash h [] = []
drop_hash h (g ∷ hs) = if same_hash g h then hs else g ∷ drop_hash h hs

-- `mapOrphanTransactionsByPrev[p]`, which makes an empty set where there is none.
unfoldable pub children : ℕ → List (ℕ × List ℕ) → List ℕ
children p m = elim (lookup same_hash p m) [ none ↦ [] | some hs ↦ hs ]

-- The loops over the inputs.
unfoldable pub link : ℕ → List TxIn → List (ℕ × List ℕ) → List (ℕ × List ℕ)
link h [] m = m
link h (i ∷ vin) m =
    let p = i.prevout.hash in link h vin (store same_hash p (add_hash h (children p m)) m)

unfoldable pub unlink_one : ℕ → ℕ → List (ℕ × List ℕ) → List (ℕ × List ℕ)
unlink_one h p m = elim (drop_hash h (children p m)) [
  | [] ↦ erase same_hash p m
  | g ∷ hs ↦ store same_hash p (g ∷ hs) m
]

unfoldable pub unlink : ℕ → List TxIn → List (ℕ × List ℕ) → List (ℕ × List ℕ)
unlink h [] m = m
unlink h (i ∷ vin) m = unlink h vin (unlink_one h i.prevout.hash m)

-- `AddOrphanTx`: whether it is stored, and the maps.
unfoldable pub add_orphan_tx :
    (Transaction → ℕ) → (Transaction → ℕ) → Transaction → Orphans → Bool × Orphans
add_orphan_tx get_hash serialize_size tx o = elim (orphan_at (get_hash tx) o) [
  | some old ↦ (false, o)
  | none ↦ if ltb 5000 (serialize_size tx) then (false, o) else (
    true,
    record {
      by_hash = put (get_hash tx) tx o.by_hash;
      by_prev = link (get_hash tx) tx.vin o.by_prev;
    },
  )
]

unfoldable pub erase_orphan_tx : ℕ → Orphans → Orphans
erase_orphan_tx h o = elim (orphan_at h o) [
  | none ↦ o
  | some tx ↦ record { by_hash = take_out h o.by_hash; by_prev = unlink h tx.vin o.by_prev }
]

-- The first hash that is not below `r`, and else the first of all.
unfoldable pub lower_bound : ℕ → List (ℕ × Transaction) → Option ℕ
lower_bound r [] = none
lower_bound r ((g, t) ∷ m) = if ltb g r then lower_bound r m else some g

unfoldable pub victim : ℕ → List (ℕ × Transaction) → Option ℕ
victim r [] = none
victim r ((g, t) ∷ m) = elim (lower_bound r ((g, t) ∷ m)) [ none ↦ some g | some h ↦ some h ]

-- One round of LimitOrphanTxSize, whose map is not empty.
unfoldable pub evict_orphan : ℕ → Orphans → Orphans
evict_orphan r o = elim (victim r o.by_hash) [ none ↦ o | some h ↦ erase_orphan_tx h o ]

-- The loop, with the next random hashes and `evicted` transactions erased so far.
unfoldable pub limit_loop : ℕ → (ℕ → ℕ) → ℕ → ℕ → Orphans → ℕ × Orphans
limit_loop zero random max_orphans evicted o = (evicted, o)
limit_loop (suc fuel) random max_orphans evicted o = elim (ltb max_orphans (length o.by_hash)) [
  | false ↦ (evicted, o)
  | true ↦
      limit_loop fuel (λ i. random (suc i)) max_orphans (evicted + 1) (evict_orphan (random 0) o)
]

-- `LimitOrphanTxSize`; each round erases a transaction, so the size is fuel enough.
unfoldable pub limit_orphan_tx_size : (ℕ → ℕ) → ℕ → Orphans → ℕ × Orphans
limit_orphan_tx_size random max_orphans o = limit_loop (length o.by_hash) random max_orphans 0 o
