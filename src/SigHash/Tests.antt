-- ===== src/SigHash/Tests.antt =====
-- Two transactions that a signature of one input does not tell apart, and a run of the cache.
use tetra.Prelude.{ℕ, ◌+◌, ◌≡◌, refl, Bool, true, List, [], ◌∷◌, ◌==◌, All, length, replicate, ltb}
use tetra.Prelude.Int.{pos}
use tetra.Script.Machine.{Item}
use tetra.Transaction.{Transaction, TxIn, TxOut}
use tetra.SigHash.{Crypto, signature_hash}
use tetra.SigHash.Commit.{SameInputs, SameOutputs, SameInputs-signature_hash}
use tetra.SigHash.Cache.{SigData, Cache, check_sig, passes}
use tetra.SigHash.Cache.Transparent.{Passed, check_sig-passes}

abbrev spend : ℕ → TxIn
spend n = record { prevout = record { hash = 77; n = n }; script_sig = n ∷ []; sequence = 5 }

abbrev pay : ℕ → TxOut
pay eur = record {
  value = record { local = ("eur", pos eur) ∷ []; fixed = pos 0 };
  script_pub_key = 0x51 ∷ [];
}

abbrev tx_of : List TxIn → List TxOut → Transaction
tx_of vin vout = record { version = pos 2; vin = vin; vout = vout; lock_time = 0; attachments = [] }

abbrev crypto : Crypto
crypto = record { hash_tx = λ tx t. length tx.vin + t; verify = λ key h sig. length sig == 2 }

-- SIGHASH_NONE with SIGHASH_ANYONECANPAY: the other input and the outputs are open.
SameInputs-signature_hash_example :
    signature_hash crypto [] (tx_of (spend 0 ∷ spend 1 ∷ []) (pay 3 ∷ [])) 0 130
    ≡ signature_hash crypto [] (tx_of (spend 0 ∷ []) (pay 4 ∷ pay 5 ∷ [])) 0 130
unfolding SameInputs SameOutputs
SameInputs-signature_hash_example =
    SameInputs-signature_hash crypto [] (tx_of (spend 0 ∷ spend 1 ∷ []) (pay 3 ∷ []))
      (tx_of (spend 0 ∷ []) (pay 4 ∷ pay 5 ∷ [])) 0 130 refl refl refl refl tt

abbrev by_hash : SigData → SigData → Bool
by_hash a b = ltb a.hash b.hash

abbrev a_key : Item
a_key = 2 ∷ replicate 32 5

abbrev cached : Cache
cached = record { hash = 3; sig = 8 ∷ 9 ∷ []; key = a_key } ∷ []

check_sig-passes_example :
    ((check_sig by_hash crypto
        (pos 2)
        (λ i. i)
        (8 ∷ 9 ∷ 2 ∷ [])
        a_key
        []
        (tx_of (spend 0 ∷ []) [])
        0
        0
        true
        cached).0
      ≡ passes crypto (8 ∷ 9 ∷ 2 ∷ []) a_key [] (tx_of (spend 0 ∷ []) []) 0 0)
    × All
        (Passed by_hash crypto (pos 2))
        (check_sig by_hash crypto
          (pos 2)
          (λ i. i)
          (8 ∷ 9 ∷ 2 ∷ [])
          a_key
          []
          (tx_of (spend 0 ∷ []) [])
          0
          0
          true
          cached).1
check_sig-passes_example =
    check_sig-passes by_hash crypto (pos 2) (λ i. i) (8 ∷ 9 ∷ 2 ∷ []) a_key []
      (tx_of (spend 0 ∷ []) []) 0 0 true cached (refl, tt)
