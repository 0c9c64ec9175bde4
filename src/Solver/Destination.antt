-- ===== src/Solver/Destination.antt =====
-- What the node asks of an output's script, on top of `Solver`: the destinations it pays to, whether it
-- is standard, and the script that pays to a destination or to several keys (src/script.cpp).
use tetra.Prelude.{
  ℕ, ◌+◌, ◌-◌, Bool, true, false, not, ◌||◌, List, [], ◌∷◌, ◌++◌, Option, none, some, ◌>>=◌, ◌>>◌,
  guard, ltb, if◌then◌else◌, length, get_or, take, drop, map,
}
use tetra.Prelude.Int.{ℤ, pos, negsuc}
use tetra.Script.Opcode.{Opcode}
use tetra.Script.Parse.{push_op, encode_op_n, script_for_key_id, script_for_script_id}
use tetra.Script.Machine.{Item}
use tetra.PubKey.{get_id}
use tetra.Solver.{TxnOutType, solver, front_byte, back_byte}

-- `CTxDestination`
pub data TxDestination : Type 0 where
  no_destination : TxDestination
  key_id : Item → TxDestination
  script_id : Item → TxDestination

-- `CScript::SetDestination`
unfoldable pub set_destination : TxDestination → List ℕ
set_destination TxDestination.no_destination = []
set_destination (TxDestination.key_id h) = script_for_key_id h
set_destination (TxDestination.script_id h) = script_for_script_id h

-- `operator<<(const CPubKey&)`, with its assertion.
unfoldable pub push_key : List ℕ → Item → Option (List ℕ)
push_key script key = do guard (ltb (length key) 0x4c); some (script ++ length key ∷ key)

unfoldable pub push_keys : List ℕ → List Item → Option (List ℕ)
push_keys script [] = some script
push_keys script (key ∷ keys) = do script' ← push_key script key; push_keys script' keys

-- `CScript::SetMultisig`; `none` is a failed assertion.
unfoldable pub set_multisig : ℕ → List Item → Option (List ℕ)
set_multisig required keys = do
  m ← encode_op_n required
  script ← push_keys (push_op [] m) keys
  n ← encode_op_n (length keys)
  some (push_op (push_op script n) Opcode.op_checkmultisig)

-- The keys among the solutions of a multisig script.
abbrev pub middle : List Item → List Item
middle sols = take (length sols - 2) (drop 1 sols)

unfoldable pub is_standard_type : TxnOutType → List Item → Bool
is_standard_type TxnOutType.tx_nonstandard sols = false
is_standard_type TxnOutType.tx_multisig sols =
    let m = front_byte sols in
    let n = back_byte sols in
    if ltb n 1 || ltb 3 n then false else if ltb m 1 || ltb n m then false else true
is_standard_type type sols = true

-- `IsStandard(const CScript&)`
unfoldable pub is_standard : List ℕ → Bool
is_standard s =
    let r = solver s in if not r.ok then false else is_standard_type r.type_ret r.solutions

unfoldable pub script_sig_args_expected : TxnOutType → List Item → ℤ
script_sig_args_expected TxnOutType.tx_nonstandard sols = negsuc 0
script_sig_args_expected TxnOutType.tx_pubkey sols = pos 1
script_sig_args_expected TxnOutType.tx_pubkeyhash sols = pos 2
script_sig_args_expected TxnOutType.tx_multisig sols =
    if ltb (length sols) 1 || ltb (length (get_or sols 0 [])) 1
    then negsuc 0
    else pos (front_byte sols + 1)
script_sig_args_expected TxnOutType.tx_scripthash sols = pos 1

-- Hash160 is a parameter.
module _ (hash160 : Item → Item) where
  unfoldable pub destination_of : TxnOutType → List Item → Option TxDestination
  destination_of TxnOutType.tx_pubkey sols =
      some (TxDestination.key_id (get_id hash160 (get_or sols 0 [])))
  destination_of TxnOutType.tx_pubkeyhash sols = some (TxDestination.key_id (get_or sols 0 []))
  destination_of TxnOutType.tx_scripthash sols = some (TxDestination.script_id (get_or sols 0 []))
  destination_of type sols = none

  unfoldable pub extract_destination : List ℕ → Option TxDestination
  extract_destination s =
      let r = solver s in if not r.ok then none else destination_of r.type_ret r.solutions

  -- The type, the addresses and the number of signatures that are required.
  unfoldable pub destinations_of :
      List ℕ → TxnOutType → List Item → Option (TxnOutType × List TxDestination × ℕ)
  destinations_of s TxnOutType.tx_multisig sols = some (
    TxnOutType.tx_multisig,
    map (λ key. TxDestination.key_id (get_id hash160 key)) (middle sols),
    front_byte sols,
  )
  destinations_of s type sols = do a ← extract_destination s; some (type, a ∷ [], 1)

  unfoldable pub extract_destinations : List ℕ → Option (TxnOutType × List TxDestination × ℕ)
  extract_destinations s =
      let r = solver s in if not r.ok then none else destinations_of s r.type_ret r.solutions
