-- ===== src/SigHash/Cache/Size.antt =====
-- The size of the cache of signatures (src/script.cpp).
use tetra.Prelude.{
  ℕ, zero, suc, ◌+◌, ◌-◌, ◌≤◌, ◌≡◌, refl, Bool, false, List, [], ◌∷◌, arith, ltb, length,
  Bool-cases, inl, inr,
}
use tetra.Prelude.Int.{ℤ, pos, negsuc, pos_part}
use tetra.Script.Machine.{Item}
use tetra.SigHash.{Crypto}
use tetra.SigHash.Cache.{
  SigData, Cache, insert_data, erase_from, all_before, tail, evict_one, evict, set_valid, lookup,
  can_pass, check_sig,
}
use tetra.Transaction.{Transaction}

length-tail : (cache : Cache) → length (tail cache) ≡ length cache - 1
length-tail [] = refl
length-tail (e ∷ cache) = omega arith

module _ (before : SigData → SigData → Bool) where
  length-insert_data :
      (k : SigData) (cache : Cache) → length (insert_data before k cache) ≤ length cache + 1
  unfolding insert_data
  length-insert_data k [] = omega arith
  length-insert_data k (e ∷ cache) = ground (arith, length-insert_data k cache)

  length-erase_from :
      (k : SigData) (cache : Cache)
      → all_before before k cache ≡ false
      → suc (length (erase_from before k cache)) ≡ length cache
  unfolding erase_from all_before
  length-erase_from k [] e = cc
  length-erase_from k (a ∷ cache) e = ground (arith, length-erase_from k cache)

  length-evict_one :
      (random : ℕ) (cache : Cache) → length (evict_one before random cache) ≡ length cache - 1
  unfolding evict_one
  length-evict_one random cache =
      let k : SigData = record { hash = random; sig = []; key = [] } in
      elim (Bool-cases (all_before before k cache)) [
        | inl wrap ↦ rw wrap (length-tail cache)
        | inr found ↦ rw found (omega (arith, length-erase_from k cache found))
      ]

  -- With a round for each element too many there is fuel enough.
  length-evict :
      (fuel : ℕ) (random : ℕ → ℕ) (limit : ℕ) (cache : Cache)
      → length cache ≤ limit + fuel
      → length (evict before fuel random limit cache) ≤ limit
  unfolding evict
  length-evict zero random limit cache room = omega arith
  length-evict (suc fuel) random limit cache room = elim (Bool-cases (ltb limit (length cache))) [
    | inl large ↦ rw large (
        length-evict fuel (λ i. random (suc i)) limit (evict_one before (random 0) cache)
          (omega (arith, length-evict_one (random 0) cache)))
    | inr small ↦ rw small (ground arith)
  ]

  length-set_valid :
      (max_size : ℤ) (random : ℕ → ℕ) (k : SigData) (cache : Cache)
      → length cache ≤ pos_part max_size + 1
      → length (set_valid before max_size random k cache) ≤ pos_part max_size + 1
  unfolding set_valid
  length-set_valid (negsuc n) random k cache h = h
  length-set_valid (pos zero) random k cache h = h
  length-set_valid (pos (suc m)) random k cache h = omega (
    arith,
    length-insert_data k (evict before (length cache) random (suc m) cache),
    length-evict (length cache) random (suc m) cache (omega arith),
  )

  module _ (crypto : Crypto) (max_size : ℤ) where
    length-lookup :
        (random : ℕ → ℕ) (no_cache : Bool) (k : SigData) (cache : Cache)
        → length cache ≤ pos_part max_size + 1
        → length (lookup before crypto max_size random no_cache k cache).1 ≤ pos_part max_size + 1
    unfolding lookup
    length-lookup random no_cache k cache h =
        ground (arith, length-set_valid max_size random k cache h)

    -- A cache of at most one signature more than -maxsigcachesize, where that is positive, stays so
    -- through CheckSig.
    pub length-check_sig :
        (random : ℕ → ℕ) (sig key : Item) (code : List ℕ) (tx : Transaction) (n hash_type : ℕ)
        (no_cache : Bool) (cache : Cache)
        → length cache ≤ pos_part max_size + 1
        → length
            (check_sig before crypto max_size random sig key code tx n hash_type no_cache cache).1
          ≤ pos_part max_size + 1
    unfolding check_sig
    length-check_sig random sig key code tx n hash_type no_cache cache h =
        elim (Bool-cases (can_pass sig key hash_type)) [
          | inl can ↦ rw can (length-lookup random no_cache _ cache h)
          | inr stop ↦ rw stop h
        ]
