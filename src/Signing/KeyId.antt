-- ===== src/Signing/KeyId.antt =====
-- A wallet spends what is paid to its keys: `SignSignature` on the script of a CKeyID (src/script.cpp).
use tetra.Prelude.{
  ℕ, zero, suc, ◌-◌, ◌%◌, ◌≤◌, ◌<◌, ◌≡◌, ◌≢◌, refl, ◌∙◌, ap, sym, Bool, true, false, List, [], ◌∷◌,
  ◌++◌, some, arith, length, length-append, get_or, take, get_elem?, map,
}
use mathlib.Core.List.{append-nil}
use tetra.Prelude.Bytes.{take-append}
use tetra.PubKey.{pub_key, is_valid}
use tetra.Script.Parse.{push_data, push_prefix, push_all, script_for_key_id}
use tetra.Script.Machine.{Item, Context, same}
use tetra.Script.Compute.{check, hash160, is_canonical_signature, is_canonical_pub_key}
use tetra.Script.Eval.{accepted}
use tetra.Script.Eval.ScriptHash.{get_or-append}
use tetra.Script.Eval.Standard.{verify_script-key_id, key_id_check}
use tetra.Solver.{TxnOutType}
use tetra.Solver.Shapes.{solver-script_for_key_id}
use tetra.SigHash.{Crypto, signature_hash, set_script}
use tetra.SigHash.Cache.{passes, can_pass, sig_type, sig_body}
use tetra.SigHash.Commit.{view, SameInputs, SameOutputs, SameInputs-signature_hash}
use tetra.Signing.{
  KeyStore, sign1, sign_one, with_pub_key, sign_type, sign_solver, with_script, context_of,
  is_scripthash, test_solution, sign_signature,
}
use tetra.Signing.Deleted.{find_and_delete-script_for_key_id}
use tetra.Transaction.{Transaction, TxIn, TxOut}

view-set_script :
    (code : List ℕ) (n : ℕ) (vin : List TxIn) → map view (set_script code n vin) ≡ map view vin
unfolding set_script
view-set_script code n [] = refl
view-set_script code zero (i ∷ vin) = refl
view-set_script code (suc n) (i ∷ vin) = ap (λ r. view i ∷ r) (view-set_script code n vin)

map-prevout : (vin : List TxIn) → map (λ v. v.0) (map view vin) ≡ map (λ i. i.prevout) vin
map-prevout [] = refl
map-prevout (i ∷ vin) = ap (λ r. i.prevout ∷ r) (map-prevout vin)

SameInputs-view :
    (any free : Bool) (n : ℕ) (vin vin' : List TxIn)
    → map view vin ≡ map view vin'
    → SameInputs any free n vin vin'
unfolding SameInputs
SameInputs-view true free n vin vin' h = ap (λ vs. get_elem? vs n) h
SameInputs-view false true n vin vin' h =
    (sym (map-prevout vin) ∙ ap (map (λ v. v.0)) h ∙ map-prevout vin', ap (λ vs. get_elem? vs n) h)
SameInputs-view false false n vin vin' h = h

SameOutputs-refl :
    (none_of single : Bool) (n : ℕ) (vout : List TxOut) → SameOutputs none_of single n vout vout
unfolding SameOutputs
SameOutputs-refl true single n vout = tt
SameOutputs-refl false true n vout = refl
SameOutputs-refl false false n vout = refl

-- The script of an input is not part of what is hashed.
signature_hash-with_script :
    (crypto : Crypto) (code script : List ℕ) (tx : Transaction) (n t : ℕ)
    → signature_hash crypto code (with_script script n tx) n t ≡ signature_hash crypto code tx n t
unfolding with_script
signature_hash-with_script crypto code script tx n t =
    SameInputs-signature_hash crypto code (with_script script n tx) tx n t refl refl refl
      (SameInputs-view _ _ n (set_script script n tx.vin) tx.vin (view-set_script script n tx.vin))
      (SameOutputs-refl _ _ n tx.vout)

module _ (store : KeyStore) (cx : Context) (crypto : Crypto) where
  open store use {Key, get_key, get_pub_key, sign}

  -- What the store and OpenSSL promise for a key: it has the public key `pub_key`, which is in the canonical form
  -- and hashes to `h`, and its signatures of `hash` pass, and are canonical with the type behind them.
  module _ (h key_bytes : Item) (key : Key) (sig : Item) (tx : Transaction) (n t : ℕ)
      (size : length h ≡ 20) (held : get_key h ≡ some key) (public : get_pub_key h ≡ some key_bytes)
      (hashes : same (hash160 cx key_bytes) h ≡ true) (valid : pub_key key_bytes ≡ key_bytes)
      (canonical_key : is_canonical_pub_key key_bytes ≡ true)
      (signs : sign key (signature_hash crypto (script_for_key_id h) tx n t) ≡ some sig)
      (verifies : crypto.verify key_bytes (signature_hash crypto (script_for_key_id h) tx n t) sig
        ≡ true)
      (canonical : is_canonical_signature (sig ++ t ∷ []) ≡ true)
      (apart : length (sig ++ t ∷ []) ≢ 20) (byte : t < 256) (input : n < length tx.vin) where
    abbrev signed_hash : ℕ
    signed_hash = signature_hash crypto (script_for_key_id h) tx n t

    abbrev script_sig : List ℕ
    script_sig = push_all ((sig ++ t ∷ []) ∷ key_bytes ∷ [])

    sign1-held : sign1 store (hash160 cx) h signed_hash t [] ≡ some (push_data [] (sig ++ t ∷ []))
    unfolding sign1
    sign1-held = let low : t % 256 ≡ t = omega arith in rw (sign1, held, signs, low) refl

    key_size : (33 ≤ length key_bytes) × (length key_bytes ≤ 65)
    unfolding is_canonical_pub_key
    key_size = ground arith

    pushes : push_data [] (sig ++ t ∷ []) ++ length key_bytes ∷ key_bytes ≡ script_sig
    unfolding push_all push_data push_prefix
    pushes = ground (arith, key_size, append-nil key_bytes)

    sign_solver-key_id :
        sign_solver store (hash160 cx) (script_for_key_id h) signed_hash t
        ≡ record { ok = true; script_sig = script_sig; which_type = TxnOutType.tx_pubkeyhash }
    unfolding sign_solver sign_type with_pub_key sign_one
    sign_solver-key_id =
        rw
          (
            solver-script_for_key_id h size,
            sign_type,
            with_pub_key,
            sign_one,
            sign1-held,
            public,
            pushes,
          )
          refl

    sig_size : (9 ≤ length (sig ++ t ∷ [])) × (length (sig ++ t ∷ []) ≤ 73)
    unfolding is_canonical_signature
    sig_size = ground arith

    front_size : length (sig ++ t ∷ []) - 1 ≡ length sig
    front_size = omega (arith, length-append sig (t ∷ []))

    last_byte : sig_type (sig ++ t ∷ []) ≡ t
    last_byte = ap (λ i. get_or (sig ++ t ∷ []) i 0) front_size ∙ get_or-append sig t 0

    body : sig_body (sig ++ t ∷ []) ≡ sig
    body = ap (λ i. take i (sig ++ t ∷ [])) front_size ∙ take-append sig (t ∷ [])

    abbrev signed : Transaction
    signed = with_script script_sig n tx

    passes-signed : passes crypto (sig ++ t ∷ []) key_bytes (script_for_key_id h) signed n 0 ≡ true
    unfolding passes can_pass is_valid
    passes-signed =
        rw
          (
            last_byte,
            body,
            valid,
            signature_hash-with_script crypto (script_for_key_id h) script_sig tx n t,
            verifies,
          )
          (ground (arith, key_size, sig_size))

    check-signed : key_id_check (context_of cx crypto signed n) h (sig ++ t ∷ []) key_bytes ≡ true
    unfolding check
    check-signed =
        rw
          (
            find_and_delete-script_for_key_id (sig ++ t ∷ []) h apart (omega (arith, sig_size))
                size,
            canonical,
            canonical_key,
            passes-signed,
          )
          refl

    hashes-signed : same (hash160 (context_of cx crypto signed n) key_bytes) h ≡ true
    unfolding hash160
    hashes-signed = hashes

    -- SignSignature on the script of a CKeyID, for an input that there is and a type of one byte:
    -- where the store has the key and the public key, which is in the canonical form and hashes to
    -- the ID, and the key's signature of the hash passes the public key's check, and is canonical
    -- with the type behind it and does not have 20 bytes then, SignSignature returns true, and
    -- leaves the transaction with the signature and the public key pushed in that input's script.
    pub sign_signature-key_id :
        sign_signature store cx crypto (script_for_key_id h) tx n t ≡ some (accepted true, signed)
    unfolding sign_signature test_solution is_scripthash
    sign_signature-key_id =
        let verified =
          verify_script-key_id (context_of cx crypto signed n) true h (sig ++ t ∷ []) key_bytes size
            (omega (arith, sig_size)) (omega (arith, key_size)) in
        rw (sign_solver-key_id, verified, hashes-signed, check-signed) (ground arith)
