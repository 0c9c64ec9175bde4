-- ===== src/Pool/Conflicts.antt =====
-- `CTxMemPool::removeConflicts` (src/main.cpp).
use tetra.Prelude.{
  ℕ, ◌<◌, ◌≡◌, refl, ◌∙◌, sym, ap, inl, inr, true, false, List, [], ◌∷◌, none, some, arith, All,
  Bool-cases, Option-cases,
}
use tetra.Transaction.{Transaction, TxIn, OutPoint, same_transaction}
use tetra.Pool.{InPoint, TxMemPool, tx_at, spender, remove_all, remove_conflicts}
use tetra.Pool.Consistent.{IsSpender, Points, Named, Consistent}
use tetra.Pool.Remove.{
  IsPart, IsPart-trans, IsPart-refl, IsRanked, IsRanked-part, Removed, spender-Removed,
  Removed-remove_all,
}

-- No transaction of the pool spends the outpoint, unless it is equal to `tx` by `operator==`.
unfoldable pub OnlyBy : Transaction → TxMemPool → OutPoint → Type 0
OnlyBy tx pool p =
    (q : InPoint) (other : Transaction)
    → spender p pool ≡ some q
    → tx_at q.ptx pool ≡ some other
    → same_transaction other tx ≡ true

OnlyBy-found :
    (tx other : Transaction) (pool : TxMemPool) (p : OutPoint) (q : InPoint)
    → spender p pool ≡ some q
    → tx_at q.ptx pool ≡ some other
    → same_transaction other tx ≡ true
    → OnlyBy tx pool p
unfolding OnlyBy
OnlyBy-found tx other pool p q e at equal q' other' e' at' =
    let entry : some q' ≡ some q = sym e' ∙ e in
    let whole : q' ≡ q = ground arith in
    let found : some other' ≡ some other = sym at' ∙ ap (λ x. tx_at x.ptx pool) whole ∙ at in
    let same : other' ≡ other = ground arith in ap (λ x. same_transaction x tx) same ∙ equal

OnlyBy-part :
    (tx : Transaction) (a b : TxMemPool) (p : OutPoint) → IsPart a b → OnlyBy tx b p → OnlyBy tx a p
unfolding OnlyBy IsPart
OnlyBy-part tx a b p (part, part') only q other e at =
    only q other (part' p q e) (part q.ptx other at)

module _ (get_hash rank : Transaction → ℕ) (fuel : ℕ) (tx : Transaction) where
  -- The depth of the calls is bounded for every transaction of the pool.
  abbrev pub Bounded : TxMemPool → Type 0
  Bounded pool = (h : ℕ) (t : Transaction) → tx_at h pool ≡ some t → rank t < fuel

  module _ (i : TxIn) (vin : List TxIn) (pool : TxMemPool) where
    skip :
        spender i.prevout pool ≡ none
        → remove_conflicts get_hash fuel tx (i ∷ vin) pool
          ≡ remove_conflicts get_hash fuel tx vin pool
    unfolding remove_conflicts
    skip e = rw (remove_conflicts, e) refl

    same_kept :
        (q : InPoint) (other : Transaction)
        → spender i.prevout pool ≡ some q
        → tx_at q.ptx pool ≡ some other
        → same_transaction other tx ≡ true
        → remove_conflicts get_hash fuel tx (i ∷ vin) pool
          ≡ remove_conflicts get_hash fuel tx vin pool
    unfolding remove_conflicts
    same_kept q other e at equal = rw (remove_conflicts, e, at, equal) refl

    other_removed :
        (q : InPoint) (other : Transaction) (pool' : TxMemPool)
        → spender i.prevout pool ≡ some q
        → tx_at q.ptx pool ≡ some other
        → same_transaction other tx ≡ false
        → remove_all get_hash fuel other pool ≡ some pool'
        → remove_conflicts get_hash fuel tx (i ∷ vin) pool
          ≡ remove_conflicts get_hash fuel tx vin pool'
    unfolding remove_conflicts
    other_removed q other pool' e at differs ran = rw (remove_conflicts, e, at, differs, ran) refl

  -- From a consistent pool with a rank that falls from a transaction to those of the pool that spend
  -- its outputs, and is below the fuel, removeConflicts ends and leaves a consistent pool, with no
  -- transactions or spenders that were not there before, in which an outpoint that an input of
  -- `tx` spends is spent by no transaction but one that `operator==` takes for `tx`.
  pub OnlyBy-remove_conflicts :
      (vin : List TxIn) (pool : TxMemPool)
      → Consistent get_hash pool
      → IsRanked get_hash rank pool
      → Bounded pool
      → (pool' : TxMemPool) × (remove_conflicts get_hash fuel tx vin pool ≡ some pool')
        × Consistent get_hash pool'
        × IsPart pool' pool
        × All (λ i. OnlyBy tx pool' i.prevout) vin
  unfolding remove_conflicts Points IsSpender Named Removed OnlyBy IsPart
  OnlyBy-remove_conflicts [] pool consistent ranked bounded =
      (pool, refl, consistent, IsPart-refl pool, tt)
  OnlyBy-remove_conflicts (i ∷ vin) pool consistent ranked bounded =
      elim (Option-cases (spender i.prevout pool)) [
        | inl e ↦
            let (pool', run, c, part, all) =
              OnlyBy-remove_conflicts vin pool consistent ranked bounded in
            (
              pool',
              skip i vin pool e ∙ run,
              c,
              part,
              (
                λ q other e' at. (let both : none ≡ some q = sym e ∙ part.1 i.prevout q e' in cc),
                all,
              ),
            )
        | inr (q, e) ↦
            let (other, j, at, input, spends) = consistent.0 i.prevout q e in
            elim (Bool-cases (same_transaction other tx)) [
              | inl equal ↦
                  let (pool', run, c, part, all) =
                    OnlyBy-remove_conflicts vin pool consistent ranked bounded in
                  (
                    pool',
                    same_kept i vin pool q other e at equal ∙ run,
                    c,
                    part,
                    (
                      OnlyBy-part tx pool' pool i.prevout part
                          (OnlyBy-found tx other pool i.prevout q e at equal),
                      all,
                    ),
                  )
              | inr differs ↦
                  let named : get_hash other ≡ q.ptx = consistent.2 q.ptx other at in
                  let (pool1, ran, removed, _) =
                    Removed-remove_all get_hash rank fuel other pool consistent ranked
                      (inr (ap (λ x. tx_at x pool) named ∙ at)) (bounded q.ptx other at) in
                  let gone =
                    spender-Removed get_hash pool1 pool other i.prevout q removed e (sym named) in
                  let (pool', run, c, part, all) =
                    OnlyBy-remove_conflicts vin pool1 removed.0
                      (IsRanked-part get_hash rank pool1 pool removed.1 ranked)
                      (λ h t at'. bounded h t (removed.1.0 h t at')) in
                  (
                    pool',
                    other_removed i vin pool q other pool1 e at differs ran ∙ run,
                    c,
                    IsPart-trans pool' pool1 pool part removed.1,
                    (
                      λ q' other' e' at'.
                          (let both : none ≡ some q' = sym gone ∙ part.1 i.prevout q' e' in cc),
                      all,
                    ),
                  )
            ]
      ]
