-- ===== src/Pool/Consistent.antt =====
-- The memory pool is consistent: mapNextTx says exactly which input of which transaction of the pool spends
-- an outpoint (src/main.cpp).
use tetra.Prelude.{
  ℕ, zero, suc, ◌+◌, ◌≡◌, refl, ◌∙◌, sym, ap, subst, ◌⊎◌, inl, inr, true, false, List, [], ◌∷◌,
  none, some, arith, get_elem?, All, Bool-cases,
}
use tetra.Transaction.{Transaction, TxIn, OutPoint, same_out_point}
use tetra.Pool.Maps.{
  lookup, store, erase, lookup-store_self, lookup-store_other, lookup-erase_self,
  lookup-erase_other,
}
use tetra.Pool.{
  InPoint, TxMemPool, same_hash, tx_at, spender, add_inputs, erase_inputs, add_unchecked, clear,
}

pub same_out_point-eq : (p q : OutPoint) → same_out_point p q ≡ true → p ≡ q
unfolding same_out_point
same_out_point-eq p q e = ground arith

pub same_out_point_refl : (p : OutPoint) → same_out_point p p ≡ true
unfolding same_out_point
same_out_point_refl p = ground arith

pub same_hash-eq : (a b : ℕ) → same_hash a b ≡ true → a ≡ b
same_hash-eq a b e = ground arith

pub same_hash_refl : (a : ℕ) → same_hash a a ≡ true
same_hash_refl a = ground arith

-- The inputs spend other outpoints than `p`, and different ones.
abbrev pub SpendsOther : OutPoint → List TxIn → Type 0
SpendsOther p vin = All (λ i. same_out_point i.prevout p ≡ false) vin

abbrev pub Distinct : List TxIn → Type 0
Distinct [] = Unit
Distinct (i ∷ vin) = SpendsOther i.prevout vin × Distinct vin

-- The input that spends `p`, or that there is none.
pub find_input :
    (p : OutPoint) (vin : List TxIn)
    → SpendsOther p vin ⊎ ((k : ℕ) × (i : TxIn) × (get_elem? vin k ≡ some i) × (i.prevout ≡ p))
find_input p [] = inl tt
find_input p (i ∷ vin) = elim (Bool-cases (same_out_point i.prevout p)) [
  | inl here ↦ inr (0, i, refl, same_out_point-eq i.prevout p here)
  | inr other ↦ elim (find_input p vin) [
    | inl none_there ↦ inl (other, none_there)
    | inr (k, j, at, e) ↦ inr (suc k, j, at, e)
  ]
]

abbrev pub point : ℕ → ℕ → InPoint
point h n = record { ptx = h; n = n }

abbrev stored : ℕ → ℕ → TxIn → List (OutPoint × InPoint) → List (OutPoint × InPoint)
stored h n i next = store same_out_point i.prevout (point h n) next

lookup-add_inputs_other :
    (h n : ℕ) (p : OutPoint) (vin : List TxIn) (next : List (OutPoint × InPoint))
    → SpendsOther p vin
    → lookup same_out_point p (add_inputs h n vin next) ≡ lookup same_out_point p next
unfolding add_inputs
lookup-add_inputs_other h n p [] next others = refl
lookup-add_inputs_other h n p (i ∷ vin) next (other, others) =
    lookup-add_inputs_other h (suc n) p vin _ others
    ∙ lookup-store_other same_out_point same_out_point-eq same_out_point_refl i.prevout p
        (point h n) next other

lookup-add_inputs :
    (h n k : ℕ) (i : TxIn) (vin : List TxIn) (next : List (OutPoint × InPoint))
    → Distinct vin
    → get_elem? vin k ≡ some i
    → lookup same_out_point i.prevout (add_inputs h n vin next) ≡ some (point h (n + k))
unfolding add_inputs
lookup-add_inputs h n k i [] next distinct e = cc
lookup-add_inputs h n zero i (j ∷ vin) next (others, distinct) e =
    let first : j ≡ i = ground arith in
    ap (λ x. lookup same_out_point x.prevout (add_inputs h (suc n) vin (stored h n j next)))
      (sym first)
    ∙ lookup-add_inputs_other h (suc n) j.prevout vin (stored h n j next) others
    ∙ lookup-store_self same_out_point same_out_point-eq same_out_point_refl j.prevout (point h n)
        next
    ∙ ap (λ m. some (point h m)) (omega arith)
lookup-add_inputs h n (suc k) i (j ∷ vin) next (others, distinct) e =
    lookup-add_inputs h (suc n) k i vin (stored h n j next) distinct e
    ∙ ap (λ m. some (point h m)) (omega arith)

pub lookup-erase_inputs_other :
    (p : OutPoint) (vin : List TxIn) (next : List (OutPoint × InPoint))
    → SpendsOther p vin
    → lookup same_out_point p (erase_inputs vin next) ≡ lookup same_out_point p next
unfolding erase_inputs
lookup-erase_inputs_other p [] next others = refl
lookup-erase_inputs_other p (i ∷ vin) next (other, others) =
    lookup-erase_inputs_other p vin _ others
    ∙ lookup-erase_other same_out_point same_out_point-eq same_out_point_refl i.prevout p next other

-- What is gone stays gone.
pub lookup-erase_inputs_gone :
    (p : OutPoint) (vin : List TxIn) (next : List (OutPoint × InPoint))
    → lookup same_out_point p next ≡ none
    → lookup same_out_point p (erase_inputs vin next) ≡ none
unfolding erase_inputs
lookup-erase_inputs_gone p [] next gone = gone
lookup-erase_inputs_gone p (i ∷ vin) next gone = elim (Bool-cases (same_out_point i.prevout p)) [
  | inl here ↦ lookup-erase_inputs_gone p vin _ (
      ap (λ x. lookup same_out_point x (erase same_out_point i.prevout next))
        (sym (same_out_point-eq i.prevout p here))
      ∙ lookup-erase_self same_out_point same_out_point-eq same_out_point_refl i.prevout next)
  | inr other ↦ lookup-erase_inputs_gone p vin _ (
      lookup-erase_other same_out_point same_out_point-eq same_out_point_refl i.prevout p next other
      ∙ gone)
]

pub lookup-erase_inputs :
    (k : ℕ) (i : TxIn) (vin : List TxIn) (next : List (OutPoint × InPoint))
    → get_elem? vin k ≡ some i
    → lookup same_out_point i.prevout (erase_inputs vin next) ≡ none
unfolding erase_inputs
lookup-erase_inputs k i [] next e = cc
lookup-erase_inputs zero i (j ∷ vin) next e =
    let first : j ≡ i = ground arith in
    lookup-erase_inputs_gone i.prevout vin _ (
      ap (λ x. lookup same_out_point x.prevout (erase same_out_point j.prevout next)) (sym first)
      ∙ lookup-erase_self same_out_point same_out_point-eq same_out_point_refl j.prevout next)
lookup-erase_inputs (suc k) i (j ∷ vin) next e = lookup-erase_inputs k i vin _ e

-- The entry names a transaction of the pool, and one of its inputs, which spends the outpoint.
unfoldable pub IsSpender : TxMemPool → OutPoint → InPoint → Type 0
IsSpender pool p q =
    (tx : Transaction) × (i : TxIn) × (tx_at q.ptx pool ≡ some tx)
    × (get_elem? tx.vin q.n ≡ some i)
    × (i.prevout ≡ p)

-- Every entry of mapNextTx is an input of a transaction of the pool that spends the outpoint.
unfoldable pub Points : TxMemPool → Type 0
Points pool = (p : OutPoint) (q : InPoint) → spender p pool ≡ some q → IsSpender pool p q

-- Every input of a transaction of the pool has its entry.
unfoldable pub Spends : TxMemPool → Type 0
Spends pool =
    (h n : ℕ) (tx : Transaction) (i : TxIn)
    → tx_at h pool ≡ some tx
    → get_elem? tx.vin n ≡ some i
    → spender i.prevout pool ≡ some (record { ptx = h; n = n })

-- The transactions stand under their hashes.
unfoldable pub Named : (Transaction → ℕ) → TxMemPool → Type 0
Named get_hash pool = (h : ℕ) (tx : Transaction) → tx_at h pool ≡ some tx → get_hash tx ≡ h

abbrev pub Consistent : (Transaction → ℕ) → TxMemPool → Type 0
Consistent get_hash pool = Points pool × Spends pool × Named get_hash pool

module _ (h : ℕ) (tx : Transaction) (pool : TxMemPool) where
  abbrev added : TxMemPool
  added = add_unchecked h tx pool

  pub tx_at_self : tx_at h added ≡ some tx
  unfolding add_unchecked
  tx_at_self = lookup-store_self same_hash same_hash-eq same_hash_refl h tx pool.map_tx

  pub tx_at-other : (g : ℕ) → same_hash h g ≡ false → tx_at g added ≡ tx_at g pool
  unfolding add_unchecked
  tx_at-other g apart =
      lookup-store_other same_hash same_hash-eq same_hash_refl h g tx pool.map_tx apart

  module _ (new : tx_at h pool ≡ none) (distinct : Distinct tx.vin)
      (free : (k : ℕ) (i : TxIn)
        → get_elem? tx.vin k ≡ some i
        → spender i.prevout pool ≡ none) where
    spender-own :
        (k : ℕ) (i : TxIn)
        → get_elem? tx.vin k ≡ some i
        → spender i.prevout added ≡ some (point h k)
    unfolding add_unchecked
    spender-own k i at =
        lookup-add_inputs h 0 k i tx.vin pool.map_next_tx distinct at
        ∙ ap (λ m. some (point h m)) (omega arith)

    spender-other : (p : OutPoint) → SpendsOther p tx.vin → spender p added ≡ spender p pool
    unfolding add_unchecked
    spender-other p others = lookup-add_inputs_other h 0 p tx.vin pool.map_next_tx others

    Points-added : Points pool → Points added
    unfolding Points IsSpender
    Points-added points p q e = elim (find_input p tx.vin) [
      | inr (k, i, at, spends) ↦
          let same_point : some (point h k) ≡ some q =
            sym (spender-own k i at) ∙ ap (λ x. spender x added) spends ∙ e in
          let whole : q ≡ point h k = ground arith in
          subst (λ r. IsSpender added p r) (sym whole) (tx, i, tx_at_self, at, spends)
      | inl others ↦
          let (tx2, i, there, at, spends) = points p q (sym (spender-other p others) ∙ e) in
          elim (Bool-cases (same_hash h q.ptx)) [
            | inr apart ↦ (tx2, i, tx_at-other q.ptx apart ∙ there, at, spends)
            | inl here ↦
                let both : none ≡ some tx2 =
                  sym new ∙ ap (λ g. tx_at g pool) (same_hash-eq h q.ptx here) ∙ there in
                cc
          ]
    ]

    Spends-added : Spends pool → Spends added
    unfolding Spends
    Spends-added all g n other i at e = elim (Bool-cases (same_hash h g)) [
      | inl here ↦
          let own : some other ≡ some tx =
            sym at ∙ ap (λ x. tx_at x added) (sym (same_hash-eq h g here)) ∙ tx_at_self in
          let whole : other ≡ tx = ground arith in
          spender-own n i (ap (λ x. get_elem? x.vin n) (sym whole) ∙ e)
          ∙ ap (λ x. some (point x n)) (same_hash-eq h g here)
      | inr apart ↦
          let before = all g n other i (sym (tx_at-other g apart) ∙ at) e in
          elim (find_input i.prevout tx.vin) [
            | inl others ↦ spender-other i.prevout others ∙ before
            | inr (k, j, there, spends) ↦
                let both : none ≡ some (point g n) =
                  sym (free k j there) ∙ ap (λ x. spender x pool) spends ∙ before in
                cc
          ]
    ]

    Named-added :
        (get_hash : Transaction → ℕ) → get_hash tx ≡ h → Named get_hash pool → Named get_hash added
    unfolding Named
    Named-added get_hash own names g other at = elim (Bool-cases (same_hash h g)) [
      | inl here ↦
          let whole : some other ≡ some tx =
            sym at ∙ ap (λ x. tx_at x added) (sym (same_hash-eq h g here)) ∙ tx_at_self in
          let is_tx : other ≡ tx = ground arith in ap get_hash is_tx ∙ own ∙ same_hash-eq h g here
      | inr apart ↦ names g other (sym (tx_at-other g apart) ∙ at)
    ]

    -- addUnchecked, under the transaction's hash, keeps the pool consistent when the hash is new, and
    -- the inputs of the transaction spend different outpoints, which no transaction of the pool
    -- spends.
    pub Consistent-add_unchecked :
        (get_hash : Transaction → ℕ)
        → get_hash tx ≡ h
        → Consistent get_hash pool
        → Consistent get_hash (add_unchecked h tx pool)
    Consistent-add_unchecked get_hash own (points, all, names) =
        (Points-added points, Spends-added all, Named-added get_hash own names)

-- The cleared pool is consistent.
pub Consistent-clear :
    (get_hash : Transaction → ℕ) (pool : TxMemPool) → Consistent get_hash (clear pool)
unfolding clear lookup Points Spends Named
Consistent-clear get_hash pool = (λ p q e. cc, λ h n tx i at e. cc, λ h tx at. cc)
