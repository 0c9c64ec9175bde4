-- ===== src/Signing.antt =====
-- `Sign1`, `SignN`, `Solver` with a key store and `SignSignature` (src/script.cpp), on the key store of
-- src/keystore.h. What a CKey does is OpenSSL's, and a parameter.
pub mod Deleted
pub mod KeyId
mod Tests
use tetra.Prelude.{
  ℕ, zero, suc, ◌+◌, ◌%◌, Bool, true, false, not, ◌&&◌, List, [], ◌∷◌, ◌++◌, Option, none, some,
  ltb, ◌==◌, if◌then◌else◌, length, get_or, get_elem?,
}
use tetra.PubKey.{get_id}
use tetra.Script.Machine.{Item, Context}
use tetra.Script.Parse.{push_data, push_op}
use tetra.Script.Compute.{hash160}
use tetra.Script.Eval.{Outcome, accepted, verify_script}
use tetra.Script.Opcode.{Opcode}
use tetra.Solver.{TxnOutType, Solved, solver, front_byte}
use tetra.Solver.Destination.{middle}
use tetra.SigHash.{Crypto, signature_hash, set_script}
use tetra.SigHash.Cache.{passes}
use tetra.Transaction.{Transaction, TxIn, TxOut}

-- `CKeyStore` as the signing code uses it, with `CKey::Sign`; `none` is `return false`.
pub record KeyStore : Type 1 where
  pub Key : Type 0
  pub get_key : Item → Option Key
  pub get_pub_key : Item → Option Item
  pub get_cscript : Item → Option (List ℕ)
  pub sign : Key → ℕ → Option Item

-- What `Solver` returns, and what it leaves in `scriptSigRet` and in `whichTypeRet`.
pub record Signed : Type 0 where
  pub ok : Bool
  pub script_sig : List ℕ
  pub which_type : TxnOutType

module _ (store : KeyStore) (hash160_of : Item → Item) where
  open store use {get_key, get_pub_key, get_cscript, sign}

  -- The script with the signature behind it.
  unfoldable pub sign1 : Item → ℕ → ℕ → List ℕ → Option (List ℕ)
  sign1 address hash hash_type script_sig = elim (get_key address) [
    | none ↦ none
    | some key ↦ elim (sign key hash) [
      | none ↦ none
      | some sig ↦ some (push_data script_sig (sig ++ hash_type % 256 ∷ []))
    ]
  ]

  -- The loop over the keys that are left, behind `signed` signatures.
  unfoldable pub sign_loop : ℕ → ℕ → ℕ → List Item → ℕ → List ℕ → ℕ × List ℕ
  sign_loop required hash hash_type [] signed script_sig = (signed, script_sig)
  sign_loop required hash hash_type (key ∷ keys) signed script_sig = elim (ltb signed required) [
    | false ↦ (signed, script_sig)
    | true ↦ elim (sign1 (get_id hash160_of key) hash hash_type script_sig) [
      | none ↦ sign_loop required hash hash_type keys signed script_sig
      | some script_sig' ↦ sign_loop required hash hash_type keys (suc signed) script_sig'
    ]
  ]

  unfoldable pub sign_n : List Item → ℕ → ℕ → List ℕ → Bool × List ℕ
  sign_n multisigdata hash hash_type script_sig =
      let required = front_byte multisigdata in
      let r = sign_loop required hash hash_type (middle multisigdata) 0 script_sig in
      (r.0 == required, r.1)

  -- `return Sign1(...)`, on the empty script.
  unfoldable pub sign_one : TxnOutType → Item → ℕ → ℕ → Signed
  sign_one type address hash hash_type = elim (sign1 address hash hash_type []) [
    | none ↦ record { ok = false; script_sig = []; which_type = type }
    | some script_sig ↦ record { ok = true; script_sig = script_sig; which_type = type }
  ]

  -- `scriptSigRet << vch`, where a key that is not found is the invalid one, without bytes.
  unfoldable pub with_pub_key : Item → Signed → Signed
  with_pub_key address r =
      let key : Item = elim (get_pub_key address) [ none ↦ [] | some key ↦ key ] in
      if r.ok then record r { script_sig = r.script_sig ++ length key ∷ key } else r

  -- The `switch` on the type.
  unfoldable pub sign_type : TxnOutType → List Item → ℕ → ℕ → Signed
  sign_type TxnOutType.tx_nonstandard sols hash hash_type = record {
    ok = false;
    script_sig = [];
    which_type = TxnOutType.tx_nonstandard;
  }
  sign_type TxnOutType.tx_pubkey sols hash hash_type =
      sign_one TxnOutType.tx_pubkey (get_id hash160_of (get_or sols 0 [])) hash hash_type
  sign_type TxnOutType.tx_pubkeyhash sols hash hash_type =
      with_pub_key (get_or sols 0 [])
        (sign_one TxnOutType.tx_pubkeyhash (get_or sols 0 []) hash hash_type)
  sign_type TxnOutType.tx_scripthash sols hash hash_type = elim (get_cscript (get_or sols 0 [])) [
    | none ↦ record { ok = false; script_sig = []; which_type = TxnOutType.tx_scripthash }
    | some script ↦ record { ok = true; script_sig = script; which_type = TxnOutType.tx_scripthash }
  ]
  sign_type TxnOutType.tx_multisig sols hash hash_type =
      let r = sign_n sols hash hash_type (push_op [] (Opcode.op_push 0)) in
      record { ok = r.0; script_sig = r.1; which_type = TxnOutType.tx_multisig }

  -- `Solver` with a key store.
  unfoldable pub sign_solver : List ℕ → ℕ → ℕ → Signed
  sign_solver script_pub_key hash hash_type =
      let r = solver script_pub_key in
      if not r.ok
      then record { ok = false; script_sig = []; which_type = r.type_ret }
      else sign_type r.type_ret r.solutions hash hash_type

-- `txin.scriptSig = script`
unfoldable pub with_script : List ℕ → ℕ → Transaction → Transaction
with_script script n tx = record tx { vin = set_script script n tx.vin }

-- The context of the scripts of an input, with SCRIPT_VERIFY_STRICTENC and the hash type 0; the numbers and
-- hashes are those of `cx`.
abbrev pub context_of : Context → Crypto → Transaction → ℕ → Context
context_of cx crypto tx n = record cx {
  check_sig = λ sig key code. passes crypto sig key code tx n 0;
  strict = true;
}

unfoldable pub is_scripthash : TxnOutType → Bool
is_scripthash TxnOutType.tx_scripthash = true
is_scripthash type = false

module _ (store : KeyStore) (cx : Context) (crypto : Crypto) where
  -- The last test of `SignSignature`, with SCRIPT_VERIFY_P2SH.
  unfoldable pub test_solution : List ℕ → List ℕ → Transaction → ℕ → Outcome Bool × Transaction
  test_solution script_sig from_pub_key tx n =
      let tx' = with_script script_sig n tx in
      (verify_script (context_of cx crypto tx' n) true script_sig from_pub_key, tx')

  -- The signatures for the script that the store has for a hash; it is appended in any case.
  unfoldable pub sign_subscript : List ℕ → List ℕ → Transaction → ℕ → ℕ → Outcome Bool × Transaction
  sign_subscript subscript from_pub_key tx n hash_type =
      let tx1 = with_script subscript n tx in
      let hash2 = signature_hash crypto subscript tx1 n hash_type in
      let r = sign_solver store (hash160 cx) subscript hash2 hash_type in
      let script_sig = push_data r.script_sig subscript in
      if not (r.ok && not (is_scripthash r.which_type))
      then (accepted false, with_script script_sig n tx)
      else test_solution script_sig from_pub_key tx n

  -- `SignSignature`: its result, and the transaction that it leaves; the assertion on `nIn` fails as `none`.
  unfoldable pub sign_signature : List ℕ → Transaction → ℕ → ℕ → Option (Outcome Bool × Transaction)
  sign_signature from_pub_key tx n hash_type =
      let hash = signature_hash crypto from_pub_key tx n hash_type in
      let r = sign_solver store (hash160 cx) from_pub_key hash hash_type in
      if not (ltb n (length tx.vin))
      then none
      else if not r.ok
      then some (accepted false, with_script r.script_sig n tx)
      else if is_scripthash r.which_type
      then some (sign_subscript r.script_sig from_pub_key tx n hash_type)
      else some (test_solution r.script_sig from_pub_key tx n)

  -- `SignSignature` on the transaction that is spent, with its assertions.
  unfoldable pub sign_input :
      Transaction → Transaction → ℕ → ℕ → Option (Outcome Bool × Transaction)
  sign_input tx_from tx n hash_type = elim (get_elem? tx.vin n) [
    | none ↦ none
    | some i ↦ elim (get_elem? tx_from.vout (i.prevout).n) [
      | none ↦ none
      | some o ↦ sign_signature o.script_pub_key tx n hash_type
    ]
  ]
