-- ===== src/Pool/Orphans/Limit.antt =====
-- How many orphan transactions LimitOrphanTxSize leaves (src/main.cpp).
use tetra.Prelude.{
  ℕ, zero, suc, ◌+◌, ◌-◌, ◌≤◌, ◌<◌, ◌≡◌, refl, ◌∙◌, ap, List, [], ◌∷◌, some, arith, ltb,
  if◌then◌else◌, length, Bool-cases, Option-cases, inl, inr,
}
use tetra.Transaction.{Transaction}
use tetra.Pool.{same_hash}
use tetra.Pool.Maps.{lookup}
use tetra.Pool.Orphans.{
  Orphans, orphan_at, take_out, erase_orphan_tx, lower_bound, victim, evict_orphan, limit_loop,
  limit_orphan_tx_size,
}

lower_bound-found :
    (r h : ℕ) (m : List (ℕ × Transaction))
    → lower_bound r m ≡ some h
    → (tx : Transaction) × (lookup same_hash h m ≡ some tx)
unfolding lower_bound lookup
lower_bound-found r h [] e = cc
lower_bound-found r h ((g, t) ∷ m) e = elim (Bool-cases (same_hash g h)) [
  | inl here ↦ (t, rw here refl)
  | inr other ↦ elim (Bool-cases (ltb g r)) [
    | inl below ↦
        let (tx, at) = lower_bound-found r h m (rw (lower_bound, below) at e) in (tx, rw other at)
    | inr not_below ↦ absurd (ground arith)
  ]
]

victim-found :
    (r : ℕ) (g : ℕ) (t : Transaction) (m : List (ℕ × Transaction))
    → (h : ℕ) × (tx : Transaction) × (victim r ((g, t) ∷ m) ≡ some h)
      × (lookup same_hash h ((g, t) ∷ m) ≡ some tx)
unfolding victim
victim-found r g t m = elim (Option-cases (lower_bound r ((g, t) ∷ m))) [
  | inl e ↦ (g, t, rw (victim, e) refl, unfold lookup in ground arith)
  | inr (h, e) ↦
      let (tx, at) = lower_bound-found r h ((g, t) ∷ m) e in (h, tx, rw (victim, e) refl, at)
]

length-take_out :
    (h : ℕ) (tx : Transaction) (m : List (ℕ × Transaction))
    → lookup same_hash h m ≡ some tx
    → suc (length (take_out h m)) ≡ length m
unfolding take_out lookup
length-take_out h tx [] e = cc
length-take_out h tx ((g, t) ∷ m) e = elim (Bool-cases (same_hash g h)) [
  | inl here ↦ rw here refl
  | inr other ↦ rw other (ap suc (length-take_out h tx m (rw (lookup, other) at e)))
]

length-erase_orphan_tx :
    (h : ℕ) (tx : Transaction) (o : Orphans)
    → orphan_at h o ≡ some tx
    → suc (length (erase_orphan_tx h o).by_hash) ≡ length o.by_hash
unfolding erase_orphan_tx
length-erase_orphan_tx h tx o e = rw (erase_orphan_tx, e) (length-take_out h tx o.by_hash e)

length-evict_orphan_go :
    (r : ℕ) (m : List (ℕ × Transaction)) (o : Orphans)
    → o.by_hash ≡ m
    → 0 < length m
    → suc (length (evict_orphan r o).by_hash) ≡ length o.by_hash
unfolding evict_orphan
length-evict_orphan_go r [] o e some_left = absurd (omega arith)
length-evict_orphan_go r ((g, t) ∷ m) o e some_left =
    let (h, tx, chosen, at) = victim-found r g t m in
    rw (evict_orphan, ap (victim r) e ∙ chosen)
      (length-erase_orphan_tx h tx o (ap (lookup same_hash h) e ∙ at))

length-evict_orphan :
    (r : ℕ) (o : Orphans)
    → 0 < length o.by_hash
    → suc (length (evict_orphan r o).by_hash) ≡ length o.by_hash
length-evict_orphan r o some_left = length-evict_orphan_go r o.by_hash o refl some_left

-- What is left of `size` elements.
abbrev pub at_most : ℕ → ℕ → ℕ
at_most limit size = if ltb limit size then limit else size

length-limit_loop :
    (fuel : ℕ) (random : ℕ → ℕ) (limit evicted : ℕ) (o : Orphans)
    → length o.by_hash ≤ limit + fuel
    → (length (limit_loop fuel random limit evicted o).1.by_hash ≡ at_most limit (length o.by_hash))
      × ((limit_loop fuel random limit evicted o).0
          ≡ evicted + (length o.by_hash - at_most limit (length o.by_hash)))
unfolding limit_loop
length-limit_loop zero random limit evicted o enough = (ground arith, ground arith)
length-limit_loop (suc fuel) random limit evicted o enough =
    elim (Bool-cases (ltb limit (length o.by_hash))) [
      | inr few ↦ rw (limit_loop, few) (ground arith, ground arith)
      | inl many ↦
          let one = length-evict_orphan (random 0) o (ground arith) in
          let (size, count) =
            length-limit_loop fuel (λ i. random (suc i)) limit (evicted + 1)
              (evict_orphan (random 0) o) (omega (arith, one, enough)) in
          rw (limit_loop, many) (ground (arith, size, one, many), ground (arith, count, one, many))
    ]

-- LimitOrphanTxSize ends with as many orphan transactions as before or as it is asked to leave,
-- whichever is less, and returns how many it erased, whatever the random hashes are.
pub length-limit_orphan_tx_size :
    (random : ℕ → ℕ) (limit : ℕ) (o : Orphans)
    → (length (limit_orphan_tx_size random limit o).1.by_hash ≡ at_most limit (length o.by_hash))
      × ((limit_orphan_tx_size random limit o).0
          ≡ length o.by_hash - at_most limit (length o.by_hash))
unfolding limit_orphan_tx_size
length-limit_orphan_tx_size random limit o =
    let (size, count) = length-limit_loop (length o.by_hash) random limit 0 o (omega arith) in
    (size, count ∙ omega arith)
