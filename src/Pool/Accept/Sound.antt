-- ===== src/Pool/Accept/Sound.antt =====
-- What `CTxMemPool::accept` keeps of the pool, and of what it asks of a transaction (src/main.cpp).
use tetra.Prelude.{
  ℕ, ◌-◌, ◌^◌, ◌≤◌, ◌≡◌, refl, ◌∙◌, sym, ap, subst, true, false, ◌||◌, none, some, arith,
  if◌then◌else◌, get_elem?, Option-cases, ◌⊎◌, inl, inr,
}
use tetra.Policy.{is_standard_tx}
use tetra.Transaction.{Transaction, TxIn, Verdict, is_coin_base, check_transaction}
use tetra.Transaction.Sound.{check_transaction_sound}
use tetra.Pool.{InPoint, TxMemPool, tx_at, spender, add_unchecked}
use tetra.Pool.Consistent.{Consistent, Consistent-add_unchecked, tx_at_self}
use tetra.Pool.Accept.{
  Refusal, AcceptResult, Node, Asked, early_result, inputs_result, pool_view, accept,
}
use tetra.Pool.Accept.Stages.{
  AreDistinct-Distinct, has_conflict-none, InputsPass, early_result-none, inputs_result-none,
}

accept-cases :
    (r : AcceptResult)
    → ((pool : TxMemPool) × (r ≡ AcceptResult.stored pool))
      ⊎ ((why : Refusal) × (r ≡ AcceptResult.not_stored why))
accept-cases (AcceptResult.stored pool) = inl (pool, refl)
accept-cases (AcceptResult.not_stored why) = inr (why, refl)

module _ (node : Node) (asked : Asked) (tx : Transaction) (pool : TxMemPool) where
  open node use {get_hash, serialize_size, cx, check_sig, tip, best_height, now, test_net}

  accept-stored :
      (pool' : TxMemPool)
      → accept node asked tx pool ≡ AcceptResult.stored pool'
      → (early_result node asked tx pool ≡ none)
        × (asked.check_inputs ≡ true → inputs_result node asked tx pool ≡ none)
        × (pool' ≡ add_unchecked (get_hash tx) tx pool)
  unfolding accept inputs_result
  accept-stored pool' e = elim (Option-cases (early_result node asked tx pool)) [
    | inr (r, stop) ↦
        (let both : AcceptResult.not_stored r ≡ AcceptResult.stored pool' =
            rw (accept, stop) at e in
          cc)
    | inl early ↦
        elim (Option-cases
          (if asked.check_inputs then inputs_result node asked tx pool else none)) [
            | inr (r, stop) ↦
                (let both : AcceptResult.not_stored r ≡ AcceptResult.stored pool' =
                    rw (accept, early, stop) at e in
                  cc)
            | inl checked ↦
                let last : AcceptResult.stored (add_unchecked (get_hash tx) tx pool)
                    ≡ AcceptResult.stored pool' =
                  rw (accept, early, checked) at e in
                (early, λ asked_for. rw asked_for at checked, ground arith)
          ]
  ]

  -- From a consistent pool, a transaction that `accept` stores is in the pool afterwards, under its hash, and the pool is
  -- consistent. It passed CheckTransaction, is no coin base, has a lock time below 2^31, is
  -- standard but on the test net, and was not in the pool. Where its inputs were to be checked, the
  -- chain and the pool had no coins under its hash, and those that it spends; and over these, through
  -- a cache that reads as they do, its inputs are standard but on the test net, and CheckInputs passes
  -- it and its scripts.
  pub accept_sound :
      (pool' : TxMemPool)
      → Consistent get_hash pool
      → accept node asked tx pool ≡ AcceptResult.stored pool'
      → Consistent get_hash pool'
        × (tx_at (get_hash tx) pool' ≡ some tx)
        × (check_transaction serialize_size tx ≡ Verdict.valid)
        × (is_coin_base tx.vin ≡ false)
        × (tx.lock_time ≤ 2 ^ 31 - 1)
        × ((test_net || is_standard_tx serialize_size best_height now tx) ≡ true)
        × (tx_at (get_hash tx) pool ≡ none)
        × (asked.check_inputs ≡ true → InputsPass node asked tx pool (pool_view tip pool))
  accept_sound pool' consistent e =
      let (early, checked, whole) = accept-stored pool' e in
      let (valid, loose, time, standard, new, apart) = early_result-none node asked tx pool early in
      let (_, _, _, _, distinct, _) = check_transaction_sound serialize_size tx valid in
      let next =
        Consistent-add_unchecked (get_hash tx) tx pool new (AreDistinct-Distinct tx.vin distinct)
          (has_conflict-none tx.vin pool apart) get_hash refl consistent in
      (
        subst (Consistent get_hash) (sym whole) next,
        ap (tx_at (get_hash tx)) whole ∙ tx_at_self (get_hash tx) tx pool,
        valid,
        loose,
        time,
        standard,
        new,
        λ asked_for. inputs_result-none node asked tx pool loose (checked asked_for),
      )

  -- Why a transaction cannot be stored: it is a coin base, the pool has one under its hash, or one
  -- of its inputs spends what a transaction of the pool spends.
  pub data Obstacle : Type 0 where
    coin_base : is_coin_base tx.vin ≡ true → Obstacle
    known : (old : Transaction) → tx_at (get_hash tx) pool ≡ some old → Obstacle
    spent :
        (k : ℕ) (i : TxIn) (q : InPoint)
        → get_elem? tx.vin k ≡ some i
        → spender i.prevout pool ≡ some q
        → Obstacle

  no_obstacle : early_result node asked tx pool ≡ none → ¬ Obstacle
  no_obstacle e (coin_base h) =
      (let both : true ≡ false = sym h ∙ (early_result-none node asked tx pool e).1 in cc)
  no_obstacle e (known old at) =
      (let both : some old ≡ none = sym at ∙ (early_result-none node asked tx pool e).4 in cc)
  no_obstacle e (spent k i q at by) =
      (let both : some q ≡ none =
          sym by
          ∙ has_conflict-none tx.vin pool (early_result-none node asked tx pool e).5 k i at in
        cc)

  -- `accept` does not store a coin base, a transaction that the pool has, or one that spends what a
  -- transaction of the pool spends.
  pub accept-not_stored :
      Obstacle → (r : Refusal) × (accept node asked tx pool ≡ AcceptResult.not_stored r)
  accept-not_stored obstacle = elim (accept-cases (accept node asked tx pool)) [
    | inr (r, e) ↦ (r, e)
    | inl (pool', e) ↦ absurd (no_obstacle (accept-stored pool' e).0 obstacle)
  ]
