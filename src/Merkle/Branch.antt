-- ===== src/Merkle/Branch.antt =====
-- The branches of GetMerkleBranch, and CheckMerkleBranch on them (src/main.h).
use tetra.Prelude.{
  ℕ, zero, suc, ◌-◌, ◌/◌, ◌%◌, ◌≤◌, ◌<◌, ◌≡◌, refl, ◌∙◌, sym, subst, min, false, not, List, [], ◌∷◌,
  ◌++◌, some, arith, ◌==◌, ltb, if◌then◌else◌, length, length-append, get_elem?, Bool-cases, inl,
  inr,
}
use tetra.Prelude.Int.{pos}
use tetra.Merkle.{
  back, sibling, build_merkle_tree, branch_loop, get_merkle_branch, check_loop, check_merkle_branch,
}
use tetra.Merkle.Levels.{
  pairs, levels, root, get_elem?-level, length-pairs, append_assoc, build_merkle_tree-levels,
  back-levels,
}

lt_of_get_elem? : (xs : List ℕ) (i h : ℕ) → get_elem? xs i ≡ some h → i < length xs
lt_of_get_elem? [] i h e = cc
lt_of_get_elem? (x ∷ xs) zero h e = omega arith
lt_of_get_elem? (x ∷ xs) (suc i) h e = omega (arith, lt_of_get_elem? xs i h e)

single : (xs : List ℕ) (i h : ℕ) → length xs ≤ 1 → get_elem? xs i ≡ some h → h ≡ back xs
unfolding back
single [] i h few e = cc
single (x ∷ []) zero h few e = ground arith
single (x ∷ []) (suc i) h few e = cc
single (x ∷ y ∷ ys) i h few e = absurd (omega arith)

module _ (hash_of : ℕ → ℕ → ℕ) where
  -- A hash and the one beside it make the one above.
  beside :
      (xs : List ℕ) (i h : ℕ)
      → get_elem? xs i ≡ some h
      → (o : ℕ) × (get_elem? xs (min (sibling i) (length xs - 1)) ≡ some o)
        × (get_elem? (pairs hash_of xs) (i / 2)
            ≡ some (if not (i % 2 == 0) then hash_of o h else hash_of h o))
  unfolding sibling
  beside [] i h e = cc
  beside (x ∷ []) zero h e = (x, ground arith, ground arith)
  beside (x ∷ []) (suc i) h e = cc
  beside (x ∷ y ∷ ys) zero h e = (y, ground arith, ground arith)
  beside (x ∷ y ∷ ys) (suc zero) h e = (x, ground arith, ground arith)
  beside (x ∷ y ∷ ys) (suc (suc i)) h e =
      let (o, at, up) = beside ys i h e in
      let lt = lt_of_get_elem? ys i h e in
      let place : min (sibling (suc (suc i))) (suc (suc (length ys)) - 1)
          ≡ suc (suc (min (sibling i) (length ys - 1))) =
        ground arith in
      let half : suc (suc i) / 2 ≡ suc (i / 2) = omega arith in
      let parity : suc (suc i) % 2 ≡ i % 2 = omega arith in
      (
        o,
        subst (λ k. get_elem? (x ∷ y ∷ ys) k ≡ some o) (sym place) at,
        subst
            (λ k.
              get_elem? (pairs hash_of (x ∷ y ∷ ys)) k
              ≡ some (if not (suc (suc i) % 2 == 0) then hash_of o h else hash_of h o))
            (sym half)
            (subst
              (λ k.
                get_elem? (pairs hash_of ys) (i / 2)
                ≡ some (if not (k == 0) then hash_of o h else hash_of h o))
              (sym parity) up),
      )

  branch_loop_lem :
      (fuel : ℕ) (pre xs : List ℕ) (i h : ℕ)
      → length xs ≤ suc fuel
      → get_elem? xs i ≡ some h
      → (branch : List ℕ) × (branch_loop hash_of fuel
            (pre ++ levels hash_of fuel xs)
            (length pre)
            (length xs)
            i
          ≡ some branch)
        × (check_loop hash_of false h branch i ≡ root hash_of fuel xs)
  unfolding branch_loop check_loop
  branch_loop_lem zero pre xs i h few at = ([], refl, single xs i h few at)
  branch_loop_lem (suc fuel) pre xs i h few at = elim (Bool-cases (ltb 1 (length xs))) [
    | inr one ↦ ([], ground arith, ground (arith, single xs i h (ground arith) at))
    | inl more ↦
        (let (o, other, up) = beside xs i h at in
          let above = if not (i % 2 == 0) then hash_of o h else hash_of h o in
          let (branch, runs, right) =
            branch_loop_lem fuel (pre ++ xs) (pairs hash_of xs) (i / 2) above
              (omega (arith, length-pairs hash_of xs)) up in
          let found =
            get_elem?-level pre xs (levels hash_of fuel (pairs hash_of xs))
              (min (sibling i) (length xs - 1)) o other in
          (
            o ∷ branch,
            ground (
              arith,
              length-append pre xs,
              length-pairs hash_of xs,
              append_assoc pre xs (levels hash_of fuel (pairs hash_of xs)),
            ),
            ground arith,
          ))
  ]

  -- For every transaction of a block, GetMerkleBranch reads nothing out of bounds, and
  -- CheckMerkleBranch on the branch gives the root that BuildMerkleTree returns.
  pub check_merkle_branch-get_merkle_branch :
      (txs : List ℕ) (i h : ℕ)
      → get_elem? txs i ≡ some h
      → (tree : List ℕ) × (branch : List ℕ) × (build_merkle_tree hash_of txs ≡ some tree)
        × (get_merkle_branch hash_of txs i ≡ some branch)
        × (check_merkle_branch hash_of h branch (pos i) ≡ back tree)
  unfolding get_merkle_branch check_merkle_branch
  check_merkle_branch-get_merkle_branch txs i h at =
      let built = build_merkle_tree-levels hash_of txs in
      let (branch, runs, right) = branch_loop_lem (length txs) [] txs i h (omega arith) at in
      (
        levels hash_of (length txs) txs,
        branch,
        built,
        ground (arith, built),
        right ∙ sym (back-levels hash_of (length txs) txs),
      )
