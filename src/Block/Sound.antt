-- ===== src/Block/Sound.antt =====
-- What holds of a block that CheckBlock accepts (src/main.cpp).
use tetra.Prelude.{
  ℕ, zero, suc, ◌+◌, ◌≤◌, ◌≡◌, ◌≢◌, refl, ◌∙◌, ap, sym, Bool, true, false, List, [], ◌∷◌, ◌++◌, map,
  arith, All, All-map, length, length-map, take, Bool-cases, inl, inr,
}
use tetra.Transaction.{Transaction, Verdict, is_coin_base, check_transaction}
use tetra.Merkle.{back}
use tetra.Merkle.Levels.{levels, pairs, root, build_merkle_tree-levels, back-levels}
use tetra.Inputs.{CheckResult}
use tetra.Block.{
  Block, contains, insert_all, any_coin_base, block_sig_ops, check_transactions, check_tree,
  check_vtx, starts_with_coin_base, check_block,
}

-- No hash stands twice.
abbrev pub AreDistinct : List ℕ → Type 0
AreDistinct [] = Unit {0}
AreDistinct (x ∷ xs) = All (λ y. y ≢ x) xs × AreDistinct xs

length-insert_all_le : (xs s : List ℕ) → length (insert_all xs s) ≤ length xs + length s
unfolding insert_all
length-insert_all_le [] s = omega arith
length-insert_all_le (x ∷ xs) s =
    ground (arith, length-insert_all_le xs s, length-insert_all_le xs (x ∷ s))

-- A set as large as the list has taken each element as a new one.
insert_all_new :
    (xs s : List ℕ)
    → length (insert_all xs s) ≡ length xs + length s
    → AreDistinct xs × All (λ x. contains x s ≡ false) xs
unfolding insert_all contains
insert_all_new [] s h = (tt, tt)
insert_all_new (x ∷ xs) s h = elim (Bool-cases (contains x s)) [
  | inl old ↦ absurd (ground (arith, length-insert_all_le xs s))
  | inr new ↦
      (let (distinct, apart) = insert_all_new xs (x ∷ s) (ground arith) in
        (
          (
            All-map (λ y. contains y (x ∷ s) ≡ false) (λ y. y ≢ x) xs (λ y k e. ground arith) apart,
            distinct,
          ),
          (
            new,
            All-map (λ y. contains y (x ∷ s) ≡ false) (λ y. contains y s ≡ false) xs
                (λ y k. ground arith) apart,
          ),
        ))
]

take-append : (xs ys : List ℕ) → take (length xs) (xs ++ ys) ≡ xs
take-append [] ys = refl
take-append (x ∷ xs) ys = ap (λ l. x ∷ l) (take-append xs ys)

take_self : (xs : List ℕ) → take (length xs) xs ≡ xs
take_self [] = refl
take_self (x ∷ xs) = ap (λ l. x ∷ l) (take_self xs)

take-levels :
    (hash_of : ℕ → ℕ → ℕ) (fuel : ℕ) (xs : List ℕ) → take (length xs) (levels hash_of fuel xs) ≡ xs
take-levels hash_of zero xs = take_self xs
take-levels hash_of (suc fuel) xs =
    ground (arith, take_self xs, take-append xs (levels hash_of fuel (pairs hash_of xs)))

others :
    (txs : List Transaction) → any_coin_base txs ≡ false → All (λ t. is_coin_base t.vin ≡ false) txs
unfolding any_coin_base
others [] h = tt
others (tx ∷ txs) h = (ground arith, others txs (ground arith))

starts_with_coin_base_lem :
    (txs : List Transaction)
    → starts_with_coin_base txs ≡ true
    → (tx : Transaction) × (rest : List Transaction) × (txs ≡ tx ∷ rest)
      × (is_coin_base tx.vin ≡ true)
      × All (λ t. is_coin_base t.vin ≡ false) rest
unfolding starts_with_coin_base
starts_with_coin_base_lem [] h = cc
starts_with_coin_base_lem (tx ∷ rest) h = (tx, rest, refl, ground arith, others rest (ground arith))

check_tree_lem :
    (check_merkle_root : Bool) (b : Block) (hashes tree : List ℕ)
    → length hashes ≡ length b.vtx
    → take (length hashes) tree ≡ hashes
    → check_tree check_merkle_root b tree ≡ CheckResult.passed
    → AreDistinct hashes
      × (block_sig_ops b.vtx ≤ 20000)
      × (check_merkle_root ≡ true → b.merkle_root ≡ back tree)
unfolding check_tree
check_tree_lem check_merkle_root b hashes tree size front h =
    let front' : take (length b.vtx) tree ≡ hashes = ap (λ n. take n tree) (sym size) ∙ front in
    let large : length (insert_all (take (length b.vtx) tree) []) ≡ length b.vtx = ground arith in
    let new : length (insert_all hashes []) ≡ length hashes + 0 =
      ap (λ l. length (insert_all l [])) (sym front') ∙ large ∙ omega arith in
    ((insert_all_new hashes [] new).0, ground arith, λ asked. ground arith)

module _ (tx_size : Transaction → ℕ) where
  check_transactions_lem :
      (txs : List Transaction)
      → check_transactions tx_size txs ≡ Verdict.valid
      → All (λ tx. check_transaction tx_size tx ≡ Verdict.valid) txs
  unfolding check_transactions
  check_transactions_lem [] h = tt
  check_transactions_lem (tx ∷ txs) h = (ground arith, check_transactions_lem txs (ground arith))

module _ (tx_size tx_hash : Transaction → ℕ) (block_size : Block → ℕ) (hash_of : ℕ → ℕ → ℕ) where
  check_vtx_lem :
      (check_merkle_root : Bool) (b : Block)
      → check_vtx tx_size tx_hash block_size hash_of check_merkle_root b ≡ CheckResult.passed
      → (check_transactions tx_size b.vtx ≡ Verdict.valid)
        × (check_tree check_merkle_root b
              (levels hash_of (length (map tx_hash b.vtx)) (map tx_hash b.vtx))
            ≡ CheckResult.passed)
  unfolding check_vtx
  check_vtx_lem check_merkle_root b h =
      ground (arith, build_merkle_tree-levels hash_of (map tx_hash b.vtx))

  -- A block that CheckBlock accepts has at most 1,000,000 bytes and a time at most two hours ahead; it
  -- starts with a coin base and has no other; CheckTransaction accepts all its transactions; these
  -- have different hashes and at most 20,000 signature operations; and the merkle root of their hashes
  -- is the one in the block, where that is asked for.
  pub check_block_sound :
      (now : ℕ) (check_merkle_root : Bool) (b : Block)
      → check_block tx_size tx_hash block_size hash_of now check_merkle_root b ≡ CheckResult.passed
      → (block_size b ≤ 1000000)
        × (b.time ≤ now + 7200)
        × ((tx : Transaction) × (rest : List Transaction) × (b.vtx ≡ tx ∷ rest)
            × (is_coin_base tx.vin ≡ true)
            × All (λ t. is_coin_base t.vin ≡ false) rest)
        × All (λ tx. check_transaction tx_size tx ≡ Verdict.valid) b.vtx
        × AreDistinct (map tx_hash b.vtx)
        × (block_sig_ops b.vtx ≤ 20000)
        × (check_merkle_root ≡ true
            → b.merkle_root ≡ root hash_of (length b.vtx) (map tx_hash b.vtx))
  unfolding check_block
  check_block_sound now check_merkle_root b h =
      let hashes = map tx_hash b.vtx in
      let (txs, tests) = check_vtx_lem check_merkle_root b (ground arith) in
      let (distinct, sig_ops, right) =
        check_tree_lem check_merkle_root b hashes (levels hash_of (length hashes) hashes)
          (length-map b.vtx tx_hash) (take-levels hash_of (length hashes) hashes) tests in
      (
        ground arith,
        ground arith,
        starts_with_coin_base_lem b.vtx (ground arith),
        check_transactions_lem tx_size b.vtx txs,
        distinct,
        sig_ops,
        λ asked.
            right asked
            ∙ back-levels hash_of (length hashes) hashes
            ∙ ap (λ n. root hash_of n hashes) (length-map b.vtx tx_hash),
      )
