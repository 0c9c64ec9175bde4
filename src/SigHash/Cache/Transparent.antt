-- ===== src/SigHash/Cache/Transparent.antt =====
-- The cache of signatures changes no result of `CheckSig`, and stays small (src/script.cpp).
use tetra.Prelude.{
  ℕ, zero, suc, ◌≡◌, refl, Bool, true, List, [], ◌∷◌, arith, ltb, length, All, Bool-cases, inl, inr,
}
use tetra.Prelude.Int.{ℤ, pos, negsuc}
use tetra.Script.Machine.{Item, same}
use tetra.SigHash.{Crypto}
use tetra.SigHash.Cache.{
  SigData, Cache, same_data, get, insert_data, erase_from, all_before, tail, evict_one, evict,
  set_valid, can_pass, passes, lookup, check_sig,
}
use tetra.Transaction.{Transaction}

same-eq : (x y : Item) → same x y ≡ true → x ≡ y
unfolding same
same-eq [] [] e = refl
same-eq [] (b ∷ y) e = cc
same-eq (a ∷ x) [] e = cc
same-eq (a ∷ x) (b ∷ y) e = ground (arith, same-eq x y)

module _ (P : SigData → Type 0) where
  All-get :
      (cache : Cache) (k : SigData)
      → All P cache
      → get cache k ≡ true
      → (e : SigData) × P e × (same_data e k ≡ true)
  unfolding get
  All-get [] k h e = cc
  All-get (a ∷ cache) k (here, later) e = elim (Bool-cases (same_data a k)) [
    | inl found ↦ (a, here, found)
    | inr other ↦ All-get cache k later (rw other at e)
  ]

module _ (before : SigData → SigData → Bool) (P : SigData → Type 0) where
  All-insert_data :
      (k : SigData) (cache : Cache) → P k → All P cache → All P (insert_data before k cache)
  unfolding insert_data
  All-insert_data k [] new h = (new, tt)
  All-insert_data k (e ∷ cache) new (here, later) = elim (Bool-cases (same_data e k)) [
    | inl found ↦ rw found (here, later)
    | inr other ↦ elim (Bool-cases (before k e)) [
      | inl first ↦ rw (other, first) (new, (here, later))
      | inr behind ↦ rw (other, behind) (here, All-insert_data k cache new later)
    ]
  ]

  All-erase_from : (k : SigData) (cache : Cache) → All P cache → All P (erase_from before k cache)
  unfolding erase_from
  All-erase_from k [] h = tt
  All-erase_from k (e ∷ cache) (here, later) = elim (Bool-cases (before e k)) [
    | inl earlier ↦ rw earlier (here, All-erase_from k cache later)
    | inr this ↦ rw this later
  ]

  All-tail : (cache : Cache) → All P cache → All P (tail cache)
  All-tail [] h = tt
  All-tail (e ∷ cache) (here, later) = later

  All-evict_one : (random : ℕ) (cache : Cache) → All P cache → All P (evict_one before random cache)
  unfolding evict_one
  All-evict_one random cache h =
      elim (Bool-cases (all_before before (record { hash = random; sig = []; key = [] }) cache)) [
        | inl wrap ↦ rw wrap (All-tail cache h)
        | inr found ↦ rw found (All-erase_from _ cache h)
      ]

  All-evict :
      (fuel : ℕ) (random : ℕ → ℕ) (limit : ℕ) (cache : Cache)
      → All P cache
      → All P (evict before fuel random limit cache)
  unfolding evict
  All-evict zero random limit cache h = h
  All-evict (suc fuel) random limit cache h = elim (Bool-cases (ltb limit (length cache))) [
    | inl large ↦
        rw large (All-evict fuel (λ i. random (suc i)) limit _ (All-evict_one (random 0) cache h))
    | inr small ↦ rw small h
  ]

  All-set_valid :
      (max_size : ℤ) (random : ℕ → ℕ) (k : SigData) (cache : Cache)
      → P k
      → All P cache
      → All P (set_valid before max_size random k cache)
  unfolding set_valid
  All-set_valid (negsuc n) random k cache new h = h
  All-set_valid (pos zero) random k cache new h = h
  All-set_valid (pos (suc m)) random k cache new h =
      All-insert_data k _ new (All-evict (length cache) random (suc m) cache h)

module _ (before : SigData → SigData → Bool) (crypto : Crypto) (max_size : ℤ) where
  -- A signature that passes.
  abbrev pub Passed : SigData → Type 0
  Passed e = crypto.verify e.key e.hash e.sig ≡ true

  get-Passed : (cache : Cache) (k : SigData) → All Passed cache → get cache k ≡ true → Passed k
  unfolding same_data
  get-Passed cache k h e =
      let (a, passed, found) = All-get Passed cache k h e in
      ground (arith, same-eq a.sig k.sig, same-eq a.key k.key)

  lookup-Passed :
      (random : ℕ → ℕ) (no_cache : Bool) (k : SigData) (cache : Cache)
      → All Passed cache
      → ((lookup before crypto max_size random no_cache k cache).0
          ≡ crypto.verify k.key k.hash k.sig)
        × All Passed (lookup before crypto max_size random no_cache k cache).1
  unfolding lookup
  lookup-Passed random no_cache k cache h = elim (Bool-cases (get cache k)) [
    | inl hit ↦ rw (hit, get-Passed cache k h hit) (refl, h)
    | inr miss ↦ elim (Bool-cases (crypto.verify k.key k.hash k.sig)) [
      | inr bad ↦ rw (miss, bad) (refl, h)
      | inl good ↦ elim (Bool-cases no_cache) [
        | inl off ↦ rw (miss, good, off) (refl, h)
        | inr on ↦
            rw (miss, good, on) (refl, All-set_valid before Passed max_size random k cache good h)
      ]
    ]
  ]

  -- From a cache whose signatures all pass, CheckSig returns what the check without a cache does,
  -- and leaves a cache whose signatures all pass, whatever the random hashes and the flag are.
  pub check_sig-passes :
      (random : ℕ → ℕ) (sig key : Item) (code : List ℕ) (tx : Transaction) (n hash_type : ℕ)
      (no_cache : Bool) (cache : Cache)
      → All Passed cache
      → ((check_sig before crypto max_size random sig key code tx n hash_type no_cache cache).0
          ≡ passes crypto sig key code tx n hash_type)
        × All Passed
            (check_sig before crypto max_size random sig key code tx n hash_type no_cache cache).1
  unfolding check_sig passes
  check_sig-passes random sig key code tx n hash_type no_cache cache h =
      elim (Bool-cases (can_pass sig key hash_type)) [
        | inl can ↦ rw can (lookup-Passed random no_cache _ cache h)
        | inr stop ↦ rw stop (refl, h)
      ]
