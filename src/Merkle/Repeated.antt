-- ===== src/Merkle/Repeated.antt =====
-- Two lists of transactions with one merkle root (src/main.h).
use tetra.Prelude.{
  ℕ, zero, suc, ◌-◌, ◌%◌, ◌≤◌, ◌<◌, ◌≡◌, ◌∙◌, ap, sym, subst, List, [], ◌∷◌, ◌++◌, some, arith,
  length, length-append, get_elem?,
}
use tetra.Merkle.{back, build_merkle_tree}
use tetra.Merkle.Levels.{pairs, levels, root, length-pairs, build_merkle_tree-levels, back-levels}

module _ (hash_of : ℕ → ℕ → ℕ) where
  pairs-repeated :
      (xs : List ℕ) (l : ℕ)
      → length xs % 2 ≡ 1
      → get_elem? xs (length xs - 1) ≡ some l
      → pairs hash_of (xs ++ (l ∷ [])) ≡ pairs hash_of xs
  pairs-repeated [] l odd e = cc
  pairs-repeated (x ∷ []) l odd e = ground arith
  pairs-repeated (x ∷ y ∷ []) l odd e = absurd (omega arith)
  pairs-repeated (x ∷ y ∷ z ∷ ys) l odd e =
      let place : suc (suc (suc (length ys))) - 1 ≡ suc (suc (suc (length ys) - 1)) = omega arith in
      ap (λ t. hash_of x y ∷ t)
        (pairs-repeated (z ∷ ys) l (omega arith)
          (subst (λ k. get_elem? (x ∷ y ∷ z ∷ ys) k ≡ some l) place e))

  root-suc : (n : ℕ) (xs : List ℕ) → length xs ≤ suc n → root hash_of (suc n) xs ≡ root hash_of n xs
  root-suc zero xs few = ground arith
  root-suc (suc n) xs few = ground (arith, root-suc n (pairs hash_of xs), length-pairs hash_of xs)

  root-pairs :
      (n : ℕ) (xs : List ℕ)
      → 1 < length xs
      → root hash_of (suc n) xs ≡ root hash_of n (pairs hash_of xs)
  root-pairs n xs many = ground arith

  root-repeated :
      (n : ℕ) (xs : List ℕ) (l : ℕ)
      → length xs ≡ suc n
      → 0 < n
      → length xs % 2 ≡ 1
      → get_elem? xs (length xs - 1) ≡ some l
      → root hash_of (suc (suc n)) (xs ++ (l ∷ [])) ≡ root hash_of (suc n) xs
  root-repeated n xs l size many odd e =
      let same = pairs-repeated xs l odd e in
      let more = xs ++ (l ∷ []) in
      root-pairs (suc n) more (omega (arith, length-append xs (l ∷ [])))
      ∙ ap (root hash_of (suc n)) same
      ∙ root-suc n (pairs hash_of xs) (omega (arith, length-pairs hash_of xs))
      ∙ sym (root-pairs n xs (omega arith))

  -- A block with an odd number of transactions, more than one, has the same merkle root when its last
  -- transaction is repeated.
  pub build_merkle_tree-repeated :
      (txs : List ℕ) (l : ℕ)
      → length txs % 2 ≡ 1
      → 1 < length txs
      → get_elem? txs (length txs - 1) ≡ some l
      → (tree : List ℕ) × (tree' : List ℕ) × (build_merkle_tree hash_of txs ≡ some tree)
        × (build_merkle_tree hash_of (txs ++ (l ∷ [])) ≡ some tree')
        × (back tree' ≡ back tree)
  build_merkle_tree-repeated txs l odd many e =
      let n = length txs - 1 in
      let more = txs ++ (l ∷ []) in
      let size : length txs ≡ suc n = omega arith in
      let size' : length more ≡ suc (suc n) = omega (arith, length-append txs (l ∷ [])) in
      let here : back (levels hash_of (length txs) txs) ≡ root hash_of (suc n) txs =
        back-levels hash_of (length txs) txs ∙ ap (λ k. root hash_of k txs) size in
      let there : back (levels hash_of (length more) more) ≡ root hash_of (suc (suc n)) more =
        back-levels hash_of (length more) more ∙ ap (λ k. root hash_of k more) size' in
      (
        levels hash_of (length txs) txs,
        levels hash_of (length more) more,
        build_merkle_tree-levels hash_of txs,
        build_merkle_tree-levels hash_of more,
        there ∙ root-repeated n txs l size (omega arith) odd e ∙ sym here,
      )
