-- ===== src/Pool/Remove/One.antt =====
-- A transaction taken out of the memory pool by `CTxMemPool::remove` (src/main.cpp).
use tetra.Prelude.{
  ℕ, zero, suc, ◌+◌, ◌≡◌, refl, ◌∙◌, sym, ap, subst, ◌⊎◌, inl, inr, true, false, List, [], ◌∷◌,
  none, some, arith, get_elem?, Bool-cases, Option-cases,
}
use tetra.Transaction.{Transaction, TxIn, OutPoint, same_out_point}
use tetra.Pool.Maps.{erase, lookup-erase_self, lookup-erase_other}
use tetra.Pool.{InPoint, TxMemPool, same_hash, tx_at, spender, erase_inputs, remove_one}
use tetra.Pool.Consistent.{
  IsSpender, point, Points, Spends, Named, Consistent, SpendsOther, find_input, same_hash-eq,
  same_hash_refl, same_out_point_refl, lookup-erase_inputs_other, lookup-erase_inputs,
}

-- The pool has no other transactions and no other spenders than the one before.
unfoldable pub IsPart : TxMemPool → TxMemPool → Type 0
IsPart pool' pool =
    ((h : ℕ) (tx : Transaction) → tx_at h pool' ≡ some tx → tx_at h pool ≡ some tx)
    × ((p : OutPoint) (q : InPoint) → spender p pool' ≡ some q → spender p pool ≡ some q)

pub IsPart-trans : (a b c : TxMemPool) → IsPart a b → IsPart b c → IsPart a c
unfolding IsPart
IsPart-trans a b c (ab, ab') (bc, bc') =
    (λ h tx e. bc h tx (ab h tx e), λ p q e. bc' p q (ab' p q e))

pub IsPart-refl : (a : TxMemPool) → IsPart a a
unfolding IsPart
IsPart-refl a = (λ h tx e. e, λ p q e. e)

pub IsPart-none :
    (a b : TxMemPool) (p : OutPoint) → IsPart a b → spender p b ≡ none → spender p a ≡ none
unfolding IsPart
IsPart-none a b p (_, part) gone = elim (Option-cases (spender p a)) [
  | inl e ↦ e
  | inr (q, e) ↦ (let both : none ≡ some q = sym gone ∙ part p q e in cc)
]

pub IsPart-tx_none : (a b : TxMemPool) (h : ℕ) → IsPart a b → tx_at h b ≡ none → tx_at h a ≡ none
unfolding IsPart
IsPart-tx_none a b h (part, _) gone = elim (Option-cases (tx_at h a)) [
  | inl e ↦ e
  | inr (tx, e) ↦ (let both : none ≡ some tx = sym gone ∙ part h tx e in cc)
]

SpendsOther-at :
    (p : OutPoint) (k : ℕ) (i : TxIn) (vin : List TxIn)
    → SpendsOther p vin
    → get_elem? vin k ≡ some i
    → same_out_point i.prevout p ≡ false
SpendsOther-at p k i [] others e = cc
SpendsOther-at p zero i (j ∷ vin) (other, others) e =
    let first : j ≡ i = ground arith in ap (λ x. same_out_point x.prevout p) (sym first) ∙ other
SpendsOther-at p (suc k) i (j ∷ vin) (other, others) e = SpendsOther-at p k i vin others e

module _ (h : ℕ) (tx : Transaction) (pool : TxMemPool) (there : tx_at h pool ≡ some tx) where
  abbrev rest : TxMemPool
  rest = record {
    map_tx = erase same_hash h pool.map_tx;
    map_next_tx = erase_inputs tx.vin pool.map_next_tx;
    updated = pool.updated + 1;
  }

  gone : tx_at h rest ≡ none
  gone = lookup-erase_self same_hash same_hash-eq same_hash_refl h pool.map_tx

  kept : (g : ℕ) → same_hash h g ≡ false → tx_at g rest ≡ tx_at g pool
  kept g apart = lookup-erase_other same_hash same_hash-eq same_hash_refl h g pool.map_tx apart

  tx_at-rest :
      (g : ℕ) (other : Transaction)
      → tx_at g rest ≡ some other
      → (same_hash h g ≡ false) × (tx_at g pool ≡ some other)
  tx_at-rest g other e = elim (Bool-cases (same_hash h g)) [
    | inl here ↦
        (let both : none ≡ some other =
            sym gone ∙ ap (λ x. tx_at x rest) (same_hash-eq h g here) ∙ e in
          cc)
    | inr apart ↦ (apart, sym (kept g apart) ∙ e)
  ]

  spender-rest :
      (p : OutPoint) (q : InPoint)
      → spender p rest ≡ some q
      → SpendsOther p tx.vin × (spender p pool ≡ some q)
  spender-rest p q e = elim (find_input p tx.vin) [
    | inl others ↦ (others, sym (lookup-erase_inputs_other p tx.vin pool.map_next_tx others) ∙ e)
    | inr (k, i, at, spends) ↦
        (let both : none ≡ some q =
            sym (lookup-erase_inputs k i tx.vin pool.map_next_tx at)
            ∙ ap (λ x. spender x rest) spends
            ∙ e in
          cc)
  ]

  IsPart-rest : IsPart rest pool
  unfolding IsPart
  IsPart-rest = (λ g other e. (tx_at-rest g other e).1, λ p q e. (spender-rest p q e).1)

  Points-rest : Points pool → Points rest
  unfolding Points IsSpender
  Points-rest points p q e =
      let (others, before) = spender-rest p q e in
      let (tx2, i, at, input, spends) = points p q before in
      elim (Bool-cases (same_hash h q.ptx)) [
        | inr apart ↦ (tx2, i, kept q.ptx apart ∙ at, input, spends)
        | inl here ↦
            let same_tx : some tx2 ≡ some tx =
              sym at ∙ ap (λ x. tx_at x pool) (sym (same_hash-eq h q.ptx here)) ∙ there in
            let whole : tx2 ≡ tx = ground arith in
            let own =
              SpendsOther-at p q.n i tx.vin others
                (ap (λ x. get_elem? x.vin q.n) (sym whole) ∙ input) in
            let both : false ≡ true =
              sym own ∙ ap (λ x. same_out_point x p) spends ∙ same_out_point_refl p in
            cc
      ]

  Spends-rest : Spends pool → Spends rest
  unfolding Spends
  Spends-rest all g n other i at e =
      let (apart, before) = tx_at-rest g other at in
      let entry = all g n other i before e in
      elim (find_input i.prevout tx.vin) [
        | inl others ↦ lookup-erase_inputs_other i.prevout tx.vin pool.map_next_tx others ∙ entry
        | inr (k, j, own, spends) ↦
            let entry2 = all h k tx j there own in
            let same_entry : some (point g n) ≡ some (point h k) =
              sym entry ∙ ap (λ x. spender x pool) (sym spends) ∙ entry2 in
            let same_h : g ≡ h = ground arith in
            let both : false ≡ true = sym apart ∙ ap (same_hash h) same_h ∙ same_hash_refl h in cc
      ]

  Named-rest : (get_hash : Transaction → ℕ) → Named get_hash pool → Named get_hash rest
  unfolding Named
  Named-rest get_hash names g other e = names g other (tx_at-rest g other e).1

-- A smaller pool, consistent, without the transaction.
unfoldable pub Removed : (Transaction → ℕ) → TxMemPool → TxMemPool → Transaction → Type 0
Removed get_hash pool' pool tx =
    Consistent get_hash pool' × IsPart pool' pool × (tx_at (get_hash tx) pool' ≡ none)

module _ (get_hash : Transaction → ℕ) where
  remove_one-absent :
      (tx : Transaction) (pool : TxMemPool)
      → tx_at (get_hash tx) pool ≡ none
      → remove_one get_hash tx pool ≡ pool
  unfolding remove_one
  remove_one-absent tx pool absent = rw (remove_one, absent) refl

  remove_one-there :
      (tx old : Transaction) (pool : TxMemPool) (there : tx_at (get_hash tx) pool ≡ some old)
      → remove_one get_hash tx pool ≡ record {
        map_tx = erase same_hash (get_hash tx) pool.map_tx;
        map_next_tx = erase_inputs tx.vin pool.map_next_tx;
        updated = pool.updated + 1;
      }
  unfolding remove_one
  remove_one-there tx old pool there = rw (remove_one, there) refl

  pub Removed-remove_one :
      (tx : Transaction) (pool : TxMemPool)
      → Consistent get_hash pool
      → ((tx_at (get_hash tx) pool ≡ none) ⊎ (tx_at (get_hash tx) pool ≡ some tx))
      → Removed get_hash (remove_one get_hash tx pool) pool tx
  unfolding Removed
  Removed-remove_one tx pool consistent (inl absent) =
      subst (λ r. Removed get_hash r pool tx) (sym (remove_one-absent tx pool absent))
        (consistent, IsPart-refl pool, absent)
  Removed-remove_one tx pool (points, all, names) (inr there) =
      subst (λ r. Removed get_hash r pool tx) (sym (remove_one-there tx tx pool there))
        (
          (
            Points-rest (get_hash tx) tx pool there points,
            Spends-rest (get_hash tx) tx pool there all,
            Named-rest (get_hash tx) tx pool there get_hash names,
          ),
          IsPart-rest (get_hash tx) tx pool there,
          gone (get_hash tx) tx pool there,
        )

  -- A removed transaction spends nothing.
  pub spender-Removed :
      (pool' pool : TxMemPool) (child : Transaction) (p : OutPoint) (q : InPoint)
      → Removed get_hash pool' pool child
      → spender p pool ≡ some q
      → q.ptx ≡ get_hash child
      → spender p pool' ≡ none
  unfolding Removed IsPart Points IsSpender
  spender-Removed pool' pool child p q ((points, _, _), (_, part), absent) before named =
      elim (Option-cases (spender p pool')) [
        | inl e ↦ e
        | inr (q', e) ↦
            let same_entry : some q' ≡ some q = sym (part p q' e) ∙ before in
            let whole : q' ≡ q = ground arith in
            let (tx, _, at, _, _) = points p q' e in
            let both : none ≡ some tx =
              sym absent ∙ ap (λ x. tx_at x pool') (sym named ∙ ap (λ x. x.ptx) (sym whole)) ∙ at in
            cc
      ]
