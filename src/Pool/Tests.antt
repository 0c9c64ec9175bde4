-- ===== src/Pool/Tests.antt =====
-- A pool of a transaction and one that spends its output, and the theorems about it.
use tetra.Prelude.{
  ℕ, zero, suc, ◌≡◌, refl, sym, ◌∙◌, ap, true, false, [], ◌∷◌, none, some, arith, get_elem?, All,
  Bool-cases, ◌⊎◌, inl, inr,
}
use tetra.Prelude.Int.{pos}
use tetra.Cash.{empty}
use tetra.Script.Samples.{sample}
use tetra.Script.Machine.{same}
use tetra.Transaction.{TxIn, TxOut, Transaction, is_null, same_out_point, is_coin_base}
use tetra.Pool.{
  TxMemPool, same_hash, tx_at, spender, add_unchecked, add_inputs, clear, remove_all,
  remove_conflicts,
}
use tetra.Pool.Maps.{lookup, store}
use tetra.Pool.Consistent.{
  Consistent, Consistent-add_unchecked, Consistent-clear, tx_at_self, tx_at-other, same_hash-eq,
}
use tetra.Pool.Remove.{Removed, Unspent, IsPart, IsRanked, Removed-remove_all}
use tetra.Pool.Conflicts.{OnlyBy, Bounded, OnlyBy-remove_conflicts}
use tetra.Pool.Accept.{AcceptResult, Refusal, Node, Asked, accept}
use tetra.Pool.Accept.Sound.{accept-not_stored, coin_base}

abbrev spend : ℕ → ℕ → TxIn
spend h n = record { prevout = record { hash = h; n = n }; script_sig = []; sequence = 0xffffffff }

abbrev pay : ℕ → TxOut
pay eur = record {
  value = record { local = ("eur", pos eur) ∷ []; fixed = pos 0 };
  script_pub_key = 0x51 ∷ [];
}

-- A transaction is known by its lock time here, which falls from one to those that spend it.
abbrev tx_of : ℕ → TxIn → Transaction
tx_of h i = record {
  version = pos 2;
  vin = i ∷ [];
  vout = pay 5 ∷ [];
  lock_time = h;
  attachments = [];
}

abbrev hash_of : Transaction → ℕ
hash_of tx = tx.lock_time

abbrev parent : Transaction
parent = tx_of 5 (spend 77 0)

abbrev child : Transaction
child = tx_of 3 (spend 5 0)

abbrev no_pool : TxMemPool
no_pool = clear (record { map_tx = []; map_next_tx = []; updated = 0 })

abbrev one : TxMemPool
one = add_unchecked 5 parent no_pool

abbrev two : TxMemPool
two = add_unchecked 3 child one

one_input : (i j : TxIn) (k : ℕ) → get_elem? (i ∷ []) k ≡ some j → i ≡ j
one_input i j zero at = ground arith
one_input i j (suc k) at = cc

only_spend :
    (i j : TxIn) (pool : TxMemPool)
    → spender i.prevout pool ≡ none
    → (k : ℕ) → get_elem? (i ∷ []) k ≡ some j
    → spender j.prevout pool ≡ none
only_spend i j pool e k at = ap (λ x. spender x.prevout pool) (sym (one_input i j k at)) ∙ e

one-Consistent : Consistent hash_of one
unfolding clear lookup
one-Consistent =
    Consistent-add_unchecked 5 parent no_pool refl (tt, tt)
      (λ k i at. only_spend (spend 77 0) i no_pool refl k at) hash_of refl
      (Consistent-clear hash_of (record { map_tx = []; map_next_tx = []; updated = 0 }))

two-Consistent : Consistent hash_of two
unfolding add_unchecked clear lookup store add_inputs same_out_point
two-Consistent =
    Consistent-add_unchecked 3 child one refl (tt, tt)
      (λ k i at. only_spend (spend 5 0) i one refl k at) hash_of refl one-Consistent

two_txs : (h : ℕ) (t : Transaction) → tx_at h two ≡ some t → (t ≡ child) ⊎ (t ≡ parent)
unfolding clear lookup
two_txs h t at = elim (Bool-cases (same_hash 3 h)) [
  | inl here ↦
      let whole : some t ≡ some child =
        sym at ∙ ap (λ x. tx_at x two) (sym (same_hash-eq 3 h here)) ∙ tx_at_self 3 child one in
      inl (ground arith)
  | inr other ↦ elim (Bool-cases (same_hash 5 h)) [
    | inl here ↦
        let whole : some t ≡ some parent =
          sym at
          ∙ tx_at-other 3 child one h other
          ∙ ap (λ x. tx_at x one) (sym (same_hash-eq 5 h here))
          ∙ tx_at_self 5 parent no_pool in
        inr (ground arith)
    | inr neither ↦
        let both : some t ≡ none =
          sym at ∙ tx_at-other 3 child one h other ∙ tx_at-other 5 parent no_pool h neither in
        cc
  ]
]

two-IsRanked : IsRanked hash_of hash_of two
unfolding IsRanked
two-IsRanked h n tx t i at input e = elim (two_txs h t at) [
  | inl is_child ↦
      let first = one_input (spend 5 0) i n (ap (λ x. get_elem? x.vin n) (sym is_child) ∙ input) in
      let parent_hash : 5 ≡ tx.lock_time = ap (λ x. x.prevout.hash) first ∙ e in
      let low : t.lock_time ≡ 3 = ap (λ x. x.lock_time) is_child in omega arith
  | inr is_parent ↦
      let first =
        one_input (spend 77 0) i n (ap (λ x. get_elem? x.vin n) (sym is_parent) ∙ input) in
      let coin_hash : 77 ≡ tx.lock_time = ap (λ x. x.prevout.hash) first ∙ e in
      let low : t.lock_time ≡ 5 = ap (λ x. x.lock_time) is_parent in omega arith
]

Removed-remove_all_example :
    (pool' : TxMemPool) × (remove_all hash_of 6 parent two ≡ some pool')
    × Removed hash_of pool' two parent
    × Unspent hash_of 5 1 pool'
unfolding add_unchecked lookup store clear
Removed-remove_all_example =
    Removed-remove_all hash_of hash_of 6 parent two two-Consistent two-IsRanked (inr refl)
      (omega arith)

-- Another transaction that spends the parent's coin.
abbrev rival : Transaction
rival = tx_of 2 (spend 77 0)

two-Bounded : Bounded hash_of hash_of 6 rival two
two-Bounded h t at = elim (two_txs h t at) [
  | inl is_child ↦ (let low : t.lock_time ≡ 3 = ap (λ x. x.lock_time) is_child in omega arith)
  | inr is_parent ↦ (let low : t.lock_time ≡ 5 = ap (λ x. x.lock_time) is_parent in omega arith)
]

OnlyBy-remove_conflicts_example :
    (pool' : TxMemPool) × (remove_conflicts hash_of 6 rival (spend 77 0 ∷ []) two ≡ some pool')
    × Consistent hash_of pool'
    × IsPart pool' two
    × All (λ i. OnlyBy rival pool' i.prevout) (spend 77 0 ∷ [])
OnlyBy-remove_conflicts_example =
    OnlyBy-remove_conflicts hash_of hash_of 6 rival (spend 77 0 ∷ []) two two-Consistent
      two-IsRanked two-Bounded

abbrev node : Node
node = record {
  get_hash = hash_of;
  serialize_size = λ tx. 100;
  cx = sample;
  check_sig = λ tx n sig key code. same sig key;
  tip = λ h. none;
  best_height = 8;
  now = pos 1700000000;
  test_net = true;
  min_relay_fee = empty;
  rate_ok = true;
}

abbrev asked : Asked
asked = record { check_inputs = false; limit_free = true; reject_insane_fee = false }

-- A coin base by itself.
abbrev loose : Transaction
loose = tx_of 4 (record {
  prevout = record { hash = 0; n = 0xffffffff };
  script_sig = 1 ∷ 2 ∷ [];
  sequence = 0xffffffff;
})

loose-coin_base : is_coin_base loose.vin ≡ true
unfolding is_coin_base is_null
loose-coin_base = refl

accept-not_stored_example :
    (r : Refusal) × (accept node asked loose one ≡ AcceptResult.not_stored r)
accept-not_stored_example = accept-not_stored node asked loose one (coin_base loose-coin_base)
