-- ===== src/Signing/Tests.antt =====
-- A key that is held, and the signature that it makes.
use tetra.Prelude.{ℕ, ◌+◌, ◌≡◌, refl, true, [], ◌∷◌, ◌++◌, none, some, arith, length, replicate}
use tetra.Prelude.Int.{pos}
use tetra.PubKey.{pub_key, get_len}
use tetra.Script.Machine.{Item, same}
use tetra.Script.Parse.{push_all, script_for_key_id}
use tetra.Script.Compute.{
  hash160, is_canonical_signature, is_canonical_pub_key, is_canonical_value, is_canonical_hash_type,
}
use tetra.Script.Eval.{accepted}
use tetra.Script.Samples.{sample}
use tetra.SigHash.{Crypto}
use tetra.Transaction.{Transaction}
use tetra.Signing.{KeyStore, with_script, sign_signature}
use tetra.Signing.KeyId.{sign_signature-key_id}

abbrev held_key : Item
held_key = 2 ∷ replicate 32 5

abbrev held_id : Item
held_id = 2 ∷ replicate 19 5

-- Both values are 1.
abbrev a_sig : Item
a_sig = 0x30 ∷ 6 ∷ 2 ∷ 1 ∷ 1 ∷ 2 ∷ 1 ∷ 1 ∷ []

abbrev store : KeyStore
store = record {
  Key = ℕ;
  get_key = λ h. some 12;
  get_pub_key = λ h. some held_key;
  get_cscript = λ h. none;
  sign = λ key hash. some a_sig;
}

abbrev crypto : Crypto
crypto = record { hash_tx = λ tx t. length tx.vin + t; verify = λ key h sig. same sig a_sig }

abbrev spending : Transaction
spending = record {
  version = pos 2;
  vin = record { prevout = record { hash = 77; n = 0 }; script_sig = []; sequence = 5 } ∷ [];
  vout = [];
  lock_time = 0;
  attachments = [];
}

sign_signature-key_id_example :
    sign_signature store sample crypto (script_for_key_id held_id) spending 0 1
    ≡ some (accepted true, with_script (push_all ((a_sig ++ 1 ∷ []) ∷ held_key ∷ [])) 0 spending)
unfolding same hash160 pub_key get_len is_canonical_pub_key is_canonical_signature
    is_canonical_value is_canonical_hash_type
sign_signature-key_id_example =
    sign_signature-key_id store sample crypto held_id held_key 12 a_sig spending 0 1 refl refl refl
      refl refl refl refl refl refl (omega arith) (omega arith) (omega arith)
