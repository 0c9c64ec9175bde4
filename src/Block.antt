-- ===== src/Block.antt =====
-- CheckBlock (src/main.cpp), the tests of a block that need no other. The hash and the serialized size
-- of a transaction, and the size of a block, are parameters; the test of the proof of work is commented
-- out in the source.
use tetra.Prelude.{
  ℕ, zero, suc, ◌+◌, ◌*◌, Bool, true, false, not, ◌&&◌, ◌||◌, List, [], ◌∷◌, map, Option, none,
  some, ◌==◌, ltb, if◌then◌else◌, length, take,
}
use tetra.Transaction.{TxIn, TxOut, Transaction, Verdict, is_coin_base, check_transaction}
use tetra.Script.Walk.{get_sig_op_count}
use tetra.Merkle.{back, build_merkle_tree}
use tetra.Inputs.{CheckResult}
pub mod Sound
mod Tests

pub record Block : Type 0 where
  pub merkle_root : ℕ
  pub time : ℕ
  pub vtx : List Transaction

-- A std::set of hashes.
unfoldable pub contains : ℕ → List ℕ → Bool
contains x [] = false
contains x (y ∷ s) = x == y || contains x s

unfoldable pub insert_all : List ℕ → List ℕ → List ℕ
insert_all [] s = s
insert_all (x ∷ xs) s = insert_all xs (if contains x s then s else x ∷ s)

unfoldable pub any_coin_base : List Transaction → Bool
any_coin_base [] = false
any_coin_base (tx ∷ txs) = is_coin_base tx.vin || any_coin_base txs

unfoldable pub input_sig_ops : List TxIn → ℕ
input_sig_ops [] = 0
input_sig_ops (i ∷ is) = get_sig_op_count false i.script_sig + input_sig_ops is

unfoldable pub output_sig_ops : List TxOut → ℕ
output_sig_ops [] = 0
output_sig_ops (o ∷ os) = get_sig_op_count false o.script_pub_key + output_sig_ops os

unfoldable pub get_legacy_sig_op_count : Transaction → ℕ
get_legacy_sig_op_count tx = input_sig_ops tx.vin + output_sig_ops tx.vout

unfoldable pub block_sig_ops : List Transaction → ℕ
block_sig_ops [] = 0
block_sig_ops (tx ∷ txs) = get_legacy_sig_op_count tx + block_sig_ops txs

abbrev pub max_block_size : ℕ
max_block_size = 1000000

-- MAX_BLOCK_SIZE/50
abbrev pub max_block_sigops : ℕ
max_block_sigops = 20000

-- The tests behind the merkle tree; GetTxHash reads the first hashes of the tree.
unfoldable pub check_tree : Bool → Block → List ℕ → CheckResult
check_tree check_merkle_root b tree =
    if not (length (insert_all (take (length b.vtx) tree) []) == length b.vtx)
    then CheckResult.dos 100
    else if ltb max_block_sigops (block_sig_ops b.vtx)
    then CheckResult.dos 100
    else if check_merkle_root && not (b.merkle_root == back tree)
    then CheckResult.dos 100
    else CheckResult.passed

-- The coin base first, and no other.
unfoldable pub starts_with_coin_base : List Transaction → Bool
starts_with_coin_base [] = false
starts_with_coin_base (tx ∷ txs) = is_coin_base tx.vin && not (any_coin_base txs)

module _ (tx_size : Transaction → ℕ) where
  unfoldable pub check_transactions : List Transaction → Verdict
  check_transactions [] = Verdict.valid
  check_transactions (tx ∷ txs) = elim (check_transaction tx_size tx) [
    | Verdict.valid ↦ check_transactions txs
    | Verdict.dos level ↦ Verdict.dos level
  ]

module _ (tx_size tx_hash : Transaction → ℕ) (block_size : Block → ℕ) (hash_of : ℕ → ℕ → ℕ) where
  -- The tests of the transactions, and those that follow.
  unfoldable pub check_vtx : Bool → Block → CheckResult
  check_vtx check_merkle_root b = elim (check_transactions tx_size b.vtx) [
    | Verdict.dos level ↦ CheckResult.dos level
    | Verdict.valid ↦ elim (build_merkle_tree hash_of (map tx_hash b.vtx)) [
      | none ↦ CheckResult.aborted
      | some tree ↦ check_tree check_merkle_root b tree
    ]
  ]

  -- CheckBlock at an adjusted time.
  unfoldable pub check_block : ℕ → Bool → Block → CheckResult
  check_block now check_merkle_root b =
      if length b.vtx == 0 || ltb max_block_size (length b.vtx) || ltb max_block_size (block_size b)
      then CheckResult.dos 100
      else if ltb (now + 2 * 60 * 60) b.time
      then CheckResult.invalid
      else if not (starts_with_coin_base b.vtx)
      then CheckResult.dos 100
      else check_vtx check_merkle_root b
