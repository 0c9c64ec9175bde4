-- ===== src/Merkle/Tests.antt =====
-- The merkle tree of three transactions.
use tetra.Prelude.{ℕ, ◌+◌, ◌*◌, ◌≡◌, refl, List, [], ◌∷◌, some, arith}
use tetra.Prelude.Int.{pos}
use tetra.Merkle.{
  back, sibling, level_loop, tree_loop, build_merkle_tree, branch_loop, get_merkle_branch,
  check_merkle_branch,
}
use tetra.Merkle.Branch.{check_merkle_branch-get_merkle_branch}
use tetra.Merkle.Repeated.{build_merkle_tree-repeated}

abbrev mix : ℕ → ℕ → ℕ
mix a b = 10 * a + b

three_built : build_merkle_tree mix (1 ∷ 2 ∷ 3 ∷ []) ≡ some (1 ∷ 2 ∷ 3 ∷ 12 ∷ 33 ∷ 153 ∷ [])
unfolding build_merkle_tree tree_loop level_loop
three_built = refl

three_branch : get_merkle_branch mix (1 ∷ 2 ∷ 3 ∷ []) 2 ≡ some (3 ∷ 12 ∷ [])
unfolding get_merkle_branch branch_loop sibling build_merkle_tree tree_loop level_loop
three_branch = refl

check_merkle_branch-get_merkle_branch_example :
    (tree : List ℕ) × (branch : List ℕ) × (build_merkle_tree mix (1 ∷ 2 ∷ 3 ∷ []) ≡ some tree)
    × (get_merkle_branch mix (1 ∷ 2 ∷ 3 ∷ []) 2 ≡ some branch)
    × (check_merkle_branch mix 3 branch (pos 2) ≡ back tree)
check_merkle_branch-get_merkle_branch_example =
    check_merkle_branch-get_merkle_branch mix (1 ∷ 2 ∷ 3 ∷ []) 2 3 refl

build_merkle_tree-repeated_example :
    (tree : List ℕ) × (tree' : List ℕ) × (build_merkle_tree mix (1 ∷ 2 ∷ 3 ∷ []) ≡ some tree)
    × (build_merkle_tree mix (1 ∷ 2 ∷ 3 ∷ 3 ∷ []) ≡ some tree')
    × (back tree' ≡ back tree)
build_merkle_tree-repeated_example =
    build_merkle_tree-repeated mix (1 ∷ 2 ∷ 3 ∷ []) 3 refl (omega arith) refl
