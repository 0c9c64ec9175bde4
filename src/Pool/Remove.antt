-- ===== src/Pool/Remove.antt =====
-- `CTxMemPool::remove` with the transactions that depend on the one removed (src/main.cpp).
pub mod One
unfoldable pub use tetra.Pool.Remove.One.{IsPart, Removed}
pub use tetra.Pool.Remove.One.{IsPart-trans, IsPart-refl, spender-Removed}
use tetra.Pool.Remove.One.{IsPart-none, IsPart-tx_none, Removed-remove_one}
use tetra.Prelude.{
  ℕ, zero, suc, ◌+◌, ◌<◌, ◌≡◌, refl, ◌∙◌, sym, ap, subst, ◌⊎◌, inl, inr, true, false, List, [], ◌∷◌,
  Option, none, some, arith, ◌==◌, length, get_elem?, Bool-cases, Option-cases,
}
use tetra.Transaction.{Transaction, TxIn, OutPoint, same_out_point}
use tetra.Pool.Maps.{erase, lookup-erase_self, lookup-erase_other}
use tetra.Pool.{
  InPoint, TxMemPool, same_hash, tx_at, spender, erase_inputs, remove_one, remove_spenders,
  remove_all,
}
use tetra.Pool.Consistent.{
  IsSpender, point, Points, Spends, Named, Consistent, SpendsOther, find_input, same_hash-eq,
  same_hash_refl, same_out_point_refl, lookup-erase_inputs_other, lookup-erase_inputs,
}

module _ (get_hash : Transaction → ℕ) where
  -- No output of the transaction is spent, among the first `n`.
  abbrev pub Unspent : ℕ → ℕ → TxMemPool → Type 0
  Unspent h n pool = (k : ℕ) → k < n → spender (record { hash = h; n = k }) pool ≡ none

  module _ (rank : Transaction → ℕ) where
    -- The rank falls from a transaction to those of the pool that spend its outputs.
    unfoldable pub IsRanked : TxMemPool → Type 0
    IsRanked pool =
        (h n : ℕ) (tx child : Transaction) (i : TxIn)
        → tx_at h pool ≡ some child
        → get_elem? child.vin n ≡ some i
        → i.prevout.hash ≡ get_hash tx
        → rank child < rank tx

    pub IsRanked-part : (a b : TxMemPool) → IsPart a b → IsRanked b → IsRanked a
    unfolding IsRanked IsPart
    IsRanked-part a b (part, _) ranked h n tx child i at = ranked h n tx child i (part h child at)

    -- What the recursive call does for the transactions of the pool below a rank.
    unfoldable Removes : (Transaction → TxMemPool → Option TxMemPool) → ℕ → Type 0
    Removes go r =
        (child : Transaction) (pool : TxMemPool)
        → Consistent get_hash pool
        → IsRanked pool
        → tx_at (get_hash child) pool ≡ some child
        → rank child < r
        → (pool' : TxMemPool) × (go child pool ≡ some pool') × Removed get_hash pool' pool child

    Unspent-suc :
        (h k : ℕ) (pool : TxMemPool)
        → Unspent h k pool
        → spender (record { hash = h; n = k }) pool ≡ none
        → Unspent h (suc k) pool
    Unspent-suc h k pool before here j low = elim (Bool-cases (j == k)) [
      | inl last ↦
          let same_n : j ≡ k = ground arith in
          ap (λ x. spender (record { hash = h; n = x }) pool) same_n ∙ here
      | inr earlier ↦ before j (ground arith)
    ]

    Unspent-part : (h k : ℕ) (a b : TxMemPool) → IsPart a b → Unspent h k b → Unspent h k a
    Unspent-part h k a b part all j low = IsPart-none a b _ part (all j low)

    module _ (go : Transaction → TxMemPool → Option TxMemPool) (h left k : ℕ)
        (pool : TxMemPool) where
      skip :
          spender (record { hash = h; n = k }) pool ≡ none
          → remove_spenders get_hash go h (suc left) k pool
            ≡ remove_spenders get_hash go h left (suc k) pool
      unfolding remove_spenders
      skip unspent = rw (remove_spenders, unspent) refl

      descend :
          (q : InPoint) (child : Transaction) (pool' : TxMemPool)
          → spender (record { hash = h; n = k }) pool ≡ some q
          → tx_at q.ptx pool ≡ some child
          → go child pool ≡ some pool'
          → remove_spenders get_hash go h (suc left) k pool
            ≡ remove_spenders get_hash go h left (suc k) pool'
      unfolding remove_spenders
      descend q child pool' found at ran = rw (remove_spenders, found, at, ran) refl

    Removes-spenders :
        (go : Transaction → TxMemPool → Option TxMemPool) (tx : Transaction) (left k : ℕ)
        (pool : TxMemPool)
        → Removes go (rank tx)
        → Consistent get_hash pool
        → IsRanked pool
        → Unspent (get_hash tx) k pool
        → (pool' : TxMemPool) × (remove_spenders get_hash go (get_hash tx) left k pool ≡ some pool')
          × Consistent get_hash pool'
          × IsPart pool' pool
          × Unspent (get_hash tx) (k + left) pool'
    unfolding remove_spenders Points IsSpender Named Removes Removed IsRanked
    Removes-spenders go tx zero k pool works consistent ranked before =
        (pool, refl, consistent, IsPart-refl pool, λ j low. before j (omega arith))
    Removes-spenders go tx (suc left) k pool works consistent ranked before =
        let p : OutPoint = record { hash = get_hash tx; n = k } in
        elim (Option-cases (spender p pool)) [
          | inl unspent ↦
              let (pool', run, c, part, all) =
                Removes-spenders go tx left (suc k) pool works consistent ranked
                  (Unspent-suc (get_hash tx) k pool before unspent) in
              (
                pool',
                skip go (get_hash tx) left k pool unspent ∙ run,
                c,
                part,
                λ j low. all j (omega arith),
              )
          | inr (q, found) ↦
              let (child, i, at, input, spends) = consistent.0 p q found in
              let named : get_hash child ≡ q.ptx = consistent.2 q.ptx child at in
              let (pool1, ran, removed) =
                works child pool consistent ranked (ap (λ x. tx_at x pool) named ∙ at)
                  (ranked q.ptx q.n tx child i at input (ap (λ x. x.hash) spends)) in
              let before1 =
                Unspent-suc (get_hash tx) k pool1
                  (Unspent-part (get_hash tx) k pool1 pool removed.1 before)
                  (spender-Removed get_hash pool1 pool child p q removed found (sym named)) in
              let (pool', run, c, part, all) =
                Removes-spenders go tx left (suc k) pool1 works removed.0
                  (IsRanked-part pool1 pool removed.1 ranked) before1 in
              (
                pool',
                descend go (get_hash tx) left k pool q child pool1 found at ran ∙ run,
                c,
                IsPart-trans pool' pool1 pool part removed.1,
                λ j low. all j (omega arith),
              )
        ]

    remove_all-step :
        (fuel : ℕ) (tx : Transaction) (pool pool1 : TxMemPool)
        → remove_spenders get_hash (remove_all get_hash fuel) (get_hash tx) (length tx.vout) 0 pool
          ≡ some pool1
        → remove_all get_hash (suc fuel) tx pool ≡ some (remove_one get_hash tx pool1)
    unfolding remove_all
    remove_all-step fuel tx pool pool1 run = rw (remove_all, run) refl

    own_part :
        (tx : Transaction) (pool' pool : TxMemPool)
        → IsPart pool' pool
        → ((tx_at (get_hash tx) pool ≡ none) ⊎ (tx_at (get_hash tx) pool ≡ some tx))
        → (tx_at (get_hash tx) pool' ≡ none) ⊎ (tx_at (get_hash tx) pool' ≡ some tx)
    unfolding IsPart
    own_part tx pool' pool part (inl absent) =
        inl (IsPart-tx_none pool' pool (get_hash tx) part absent)
    own_part tx pool' pool part (inr there) = elim (Option-cases (tx_at (get_hash tx) pool')) [
      | inl absent ↦ inl absent
      | inr (old, at) ↦ inr (at ∙ sym (part.0 (get_hash tx) old at) ∙ there)
    ]

    -- From a consistent pool with a rank that falls from a transaction to those of the pool that
    -- spend its outputs (hashes have no cycles), and which has no transaction under the hash of
    -- `tx` but `tx`, `remove` with more fuel than the rank of `tx` leaves a consistent pool, with no
    -- transactions or spenders that were not there before, without `tx`, and without a spender of
    -- its outputs.
    pub Removed-remove_all :
        (fuel : ℕ) (tx : Transaction) (pool : TxMemPool)
        → Consistent get_hash pool
        → IsRanked pool
        → ((tx_at (get_hash tx) pool ≡ none) ⊎ (tx_at (get_hash tx) pool ≡ some tx))
        → rank tx < fuel
        → (pool' : TxMemPool) × (remove_all get_hash fuel tx pool ≡ some pool')
          × Removed get_hash pool' pool tx
          × Unspent (get_hash tx) (length tx.vout) pool'
    unfolding remove_all Removes Removed IsPart
    Removed-remove_all zero tx pool consistent ranked own room = absurd (omega arith)
    Removed-remove_all (suc fuel) tx pool consistent ranked own room =
        let works : Removes (remove_all get_hash fuel) (rank tx) = λ child p c r at low.
          (let (p', ran, removed, _) = Removed-remove_all fuel child p c r (inr at) (omega arith) in
            (p', ran, removed)) in
        let (pool1, run, c, part, all) =
          Removes-spenders (remove_all get_hash fuel) tx (length tx.vout) 0 pool works consistent
            ranked (λ j low. absurd (omega arith)) in
        let (c', part', absent) =
          Removed-remove_one get_hash tx pool1 c (own_part tx pool1 pool part own) in
        (
          remove_one get_hash tx pool1,
          remove_all-step fuel tx pool pool1 run,
          (c', IsPart-trans (remove_one get_hash tx pool1) pool1 pool part' part, absent),
          λ j low. IsPart-none (remove_one get_hash tx pool1) pool1 _ part' (all j (omega arith)),
        )
