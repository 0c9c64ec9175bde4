-- ===== src/SigHash.antt =====
-- `SignatureHash` and `CheckSig` (src/script.cpp), without its cache. The hash of a serialized
-- transaction with the type behind it is a parameter, and so are the tests of OpenSSL; a hash is the
-- number that it is. The hash type is the native int with its bits read as an unsigned number.
pub mod Cache
pub mod Commit
mod Tests
use tetra.Prelude.{
  ℕ, zero, suc, ◌+◌, ◌/◌, ◌%◌, Bool, true, false, not, ◌&&◌, ◌||◌, List, [], ◌∷◌, ◌++◌, Option,
  none, some, leb, ltb, ◌==◌, if◌then◌else◌, length, get_elem?, set, map, replicate, take,
}
use tetra.Prelude.Int.{ℤ, pos, negsuc}
use tetra.Script.Opcode.{Opcode}
use tetra.Script.Parse.{push_op}
use tetra.Script.Walk.{find_and_delete}
use tetra.Script.Machine.{Item}
use tetra.Coins.{null_out}
use tetra.Transaction.{Transaction, TxIn, TxOut, OutPoint}

abbrev pub sighash_all : ℕ
sighash_all = 1

abbrev pub sighash_none : ℕ
sighash_none = 2

abbrev pub sighash_single : ℕ
sighash_single = 3

-- `nHashType & 0x1f` and `nHashType & SIGHASH_ANYONECANPAY`
abbrev pub base_type : ℕ → ℕ
base_type hash_type = hash_type % 32

abbrev pub anyone_can_pay : ℕ → Bool
anyone_can_pay hash_type = hash_type / 128 % 2 == 1

abbrev pub blank_signature : TxIn → TxIn
blank_signature i = record i { script_sig = [] }

-- The two loops that blank out the signatures, and the script in the place of one.
unfoldable pub blank_signatures : List TxIn → List TxIn
blank_signatures vin = map blank_signature vin

unfoldable pub set_script : List ℕ → ℕ → List TxIn → List TxIn
set_script code n [] = []
set_script code zero (i ∷ vin) = record i { script_sig = code } ∷ vin
set_script code (suc n) (i ∷ vin) = i ∷ set_script code n vin

abbrev pub zero_sequence : TxIn → TxIn
zero_sequence i = record i { sequence = 0 }

-- `if (i != nIn) txTmp.vin[i].nSequence = 0;`
unfoldable pub free_others : ℕ → List TxIn → List TxIn
free_others n [] = []
free_others zero (i ∷ vin) = i ∷ map zero_sequence vin
free_others (suc n) (i ∷ vin) = zero_sequence i ∷ free_others n vin

-- `vout.resize(nOut+1)` and the loop over the outputs before; `none` where `nOut` is out of range.
unfoldable pub lock_in : ℕ → List TxOut → Option (List TxOut)
lock_in n vout = elim (get_elem? vout n) [
  | none ↦ none
  | some o ↦ some (replicate n null_out ++ o ∷ [])
]

-- `txTmp.vin[0] = txTmp.vin[nIn]; txTmp.vin.resize(1);`, for `nIn` in range.
unfoldable pub only_input : ℕ → List TxIn → List TxIn
only_input n vin = elim (get_elem? vin n) [ none ↦ vin | some i ↦ i ∷ [] ]

unfoldable pub mask_inputs : ℕ → ℕ → List TxIn → List TxIn
mask_inputs n hash_type vin =
    let freed =
      if base_type hash_type == sighash_none || base_type hash_type == sighash_single
      then free_others n vin
      else vin in
    if anyone_can_pay hash_type then only_input n freed else freed

unfoldable pub mask_outputs : ℕ → ℕ → List TxOut → Option (List TxOut)
mask_outputs n hash_type vout =
    if base_type hash_type == sighash_none
    then some []
    else if base_type hash_type == sighash_single
    then lock_in n vout
    else some vout

-- `txTmp` as it is hashed; `none` where `nOut` is out of range.
unfoldable pub masked : List ℕ → Transaction → ℕ → ℕ → Option Transaction
masked script_code tx n hash_type =
    let code = (find_and_delete script_code (push_op [] Opcode.op_codeseparator)).0 in
    elim (mask_outputs n hash_type tx.vout) [
      | none ↦ none
      | some vout ↦ some (record tx {
        vin = mask_inputs n hash_type (set_script code n (blank_signatures tx.vin));
        vout = vout;
      })
    ]

-- Outside: the hash of a serialized transaction and a type, and `CPubKey::Verify` on a key, a hash and a
-- signature.
pub record Crypto : Type 0 where
  pub hash_tx : Transaction → ℕ → ℕ
  pub verify : Item → ℕ → Item → Bool

module _ (crypto : Crypto) where
  open crypto use {hash_tx, verify}

  unfoldable pub signature_hash : List ℕ → Transaction → ℕ → ℕ → ℕ
  signature_hash script_code tx n hash_type =
      if leb (length tx.vin) n
      then 1
      else elim (masked script_code tx n hash_type) [ none ↦ 1 | some tmp ↦ hash_tx tmp hash_type ]
