-- ===== src/Pool/Orphans/Tests.antt =====
-- Three orphan transactions, of which two have the same parent (src/main.cpp).
use tetra.Prelude.{ℕ, ◌≡◌, refl, false, [], ◌∷◌, length}
use tetra.Prelude.Int.{pos}
use tetra.Transaction.{Transaction}
use tetra.Pool.Maps.{lookup, store, erase}
use tetra.Pool.Orphans.{
  Orphans, children, put, add_hash, drop_hash, link, unlink, unlink_one, take_out, add_orphan_tx,
  erase_orphan_tx, limit_orphan_tx_size,
}
use tetra.Pool.Orphans.Limit.{length-limit_orphan_tx_size}

-- A transaction is known by its lock time here.
abbrev orphan : ℕ → ℕ → Transaction
orphan h p = record {
  version = pos 2;
  vin =
      record { prevout = record { hash = p; n = 0 }; script_sig = []; sequence = 0xffffffff } ∷ [];
  vout = [];
  lock_time = h;
  attachments = [];
}

abbrev no_orphans : Orphans
no_orphans = record { by_hash = []; by_prev = [] }

abbrev add : ℕ → ℕ → Orphans → Orphans
add h p o = (add_orphan_tx (λ tx. tx.lock_time) (λ tx. 300) (orphan h p) o).1

abbrev three : Orphans
three = add 6 70 (add 9 71 (add 4 70 no_orphans))

found : children 70 three.by_prev ≡ 4 ∷ 6 ∷ []
unfolding add_orphan_tx link add_hash children put lookup store
found = refl

known : (add_orphan_tx (λ tx. tx.lock_time) (λ tx. 300) (orphan 9 80) three).0 ≡ false
unfolding add_orphan_tx link add_hash children put lookup store
known = refl

erased : children 70 (erase_orphan_tx 4 three).by_prev ≡ 6 ∷ []
unfolding erase_orphan_tx unlink unlink_one drop_hash take_out add_orphan_tx link add_hash children
    put lookup store erase
erased = refl

length-limit_orphan_tx_size_example :
    (length (limit_orphan_tx_size (λ i. 8) 2 three).1.by_hash ≡ 2)
    × ((limit_orphan_tx_size (λ i. 8) 2 three).0 ≡ 1)
unfolding add_orphan_tx link add_hash children put lookup store
length-limit_orphan_tx_size_example = length-limit_orphan_tx_size (λ i. 8) 2 three
