-- ===== src/Merkle.antt =====
-- The merkle tree of a block's transactions (src/main.h): all levels one behind another in one vector,
-- the branch of a transaction, and the check of a branch. The hash of two hashes is a parameter.
pub mod Levels
pub mod Branch
pub mod Repeated
mod Tests
use tetra.Prelude.{
  ℕ, zero, suc, ◌+◌, ◌-◌, ◌/◌, ◌%◌, min, Bool, true, false, not, List, [], ◌∷◌, ◌++◌, Option, none,
  some, ◌>>=◌, ◌==◌, ltb, if◌then◌else◌, length, get_elem?,
}
use tetra.Prelude.Int.{ℤ, pos, negsuc}

-- `nIndex^1`, `nIndex&1` and `nIndex>>1` of an index, or of its complement where it is negative.
unfoldable pub sibling : ℕ → ℕ
sibling i = if i % 2 == 0 then suc i else i - 1

abbrev pub is_right : Bool → ℕ → Bool
is_right complement i = if complement then i % 2 == 0 else not (i % 2 == 0)

-- `vMerkleTree.empty() ? 0 : vMerkleTree.back()`
unfoldable pub back : List ℕ → ℕ
back [] = 0
back (x ∷ []) = x
back (x ∷ y ∷ ys) = back (y ∷ ys)

module _ (hash_of : ℕ → ℕ → ℕ) where
  -- The pairs of a level, which starts at `j` and has `n` hashes; `none` is an index out of bounds.
  unfoldable pub level_loop : ℕ → List ℕ → ℕ → ℕ → ℕ → Option (List ℕ)
  level_loop zero tree j n i = some tree
  level_loop (suc fuel) tree j n i =
      if ltb i n
      then (do
        a ← get_elem? tree (j + i)
        b ← get_elem? tree (j + min (i + 1) (n - 1))
        level_loop fuel (tree ++ (hash_of a b ∷ [])) j n (i + 2))
      else some tree

  unfoldable pub tree_loop : ℕ → List ℕ → ℕ → ℕ → Option (List ℕ)
  tree_loop zero tree j n = some tree
  tree_loop (suc fuel) tree j n =
      if ltb 1 n
      then (do tree' ← level_loop n tree j n 0; tree_loop fuel tree' (j + n) ((n + 1) / 2))
      else some tree

  -- BuildMerkleTree on the hashes of the transactions; it returns the back.
  unfoldable pub build_merkle_tree : List ℕ → Option (List ℕ)
  build_merkle_tree txs = tree_loop (length txs) txs 0 (length txs)

  unfoldable pub branch_loop : ℕ → List ℕ → ℕ → ℕ → ℕ → Option (List ℕ)
  branch_loop zero tree j n index = some []
  branch_loop (suc fuel) tree j n index =
      if ltb 1 n
      then (do
        other ← get_elem? tree (j + min (sibling index) (n - 1))
        others ← branch_loop fuel tree (j + n) ((n + 1) / 2) (index / 2)
        some (other ∷ others))
      else some []

  unfoldable pub get_merkle_branch : List ℕ → ℕ → Option (List ℕ)
  get_merkle_branch txs index = do
    tree ← build_merkle_tree txs
    branch_loop (length txs) tree 0 (length txs) index

  unfoldable pub check_loop : Bool → ℕ → List ℕ → ℕ → ℕ
  check_loop complement hash [] index = hash
  check_loop complement hash (other ∷ others) index =
      check_loop complement
        (if is_right complement index then hash_of other hash else hash_of hash other) others
        (index / 2)

  -- `negsuc k` has the bits of k turned over.
  unfoldable pub check_merkle_branch : ℕ → List ℕ → ℤ → ℕ
  check_merkle_branch hash branch (pos index) = check_loop false hash branch index
  check_merkle_branch hash branch (negsuc zero) = 0
  check_merkle_branch hash branch (negsuc (suc k)) = check_loop true hash branch (suc k)
