-- ===== src/SigHash/Commit.antt =====
-- What a signature commits to, by the type of its hash (src/script.cpp).
use tetra.Prelude.{
  ℕ, zero, suc, ◌≡◌, refl, ◌∙◌, ap, sym, Bool, true, false, ◌||◌, List, [], ◌∷◌, Option, none, some,
  arith, leb, ◌==◌, length, get_elem?, map, Bool-cases, Option-cases, inl, inr,
}
use mathlib.Core.Option
use tetra.Script.Opcode.{Opcode}
use tetra.Script.Parse.{push_op}
use tetra.Script.Walk.{find_and_delete}
use tetra.Transaction.{Transaction, TxIn, TxOut, OutPoint}
use tetra.SigHash.{
  zero_sequence, blank_signature, Crypto, signature_hash, masked, mask_inputs, mask_outputs,
  blank_signatures, set_script, free_others, lock_in, only_input, base_type, anyone_can_pay,
  sighash_none, sighash_single,
}

-- An input without its script.
abbrev pub view : TxIn → OutPoint × ℕ
view i = (i.prevout, i.sequence)

-- The inputs that are hashed, built from what they commit to.
abbrev input : List ℕ → OutPoint × ℕ → TxIn
input code v = record { prevout = v.0; script_sig = code; sequence = v.1 }

abbrev rebuild : List ℕ → ℕ → List (OutPoint × ℕ) → List TxIn
rebuild code n [] = []
rebuild code zero (v ∷ vs) = input code v ∷ map (input []) vs
rebuild code (suc n) (v ∷ vs) = input [] v ∷ rebuild code n vs

abbrev freed : OutPoint → TxIn
freed p = record { prevout = p; script_sig = []; sequence = 0 }

abbrev rebuild_free : List ℕ → ℕ → List OutPoint → Option (OutPoint × ℕ) → List TxIn
rebuild_free code n [] v = []
rebuild_free code zero (p ∷ ps) none = freed p ∷ map freed ps
rebuild_free code zero (p ∷ ps) (some v) = input code v ∷ map freed ps
rebuild_free code (suc n) (p ∷ ps) v = freed p ∷ rebuild_free code n ps v

blank_all : (vin : List TxIn) → blank_signatures vin ≡ map (input []) (map view vin)
unfolding blank_signatures
blank_all [] = refl
blank_all (i ∷ vin) = ap (λ r. input [] (view i) ∷ r) (blank_all vin)

blanked :
    (code : List ℕ) (n : ℕ) (vin : List TxIn)
    → set_script code n (blank_signatures vin) ≡ rebuild code n (map view vin)
unfolding blank_signatures set_script
blanked code n [] = refl
blanked code zero (i ∷ vin) = ap (λ r. input code (view i) ∷ r) (blank_all vin)
blanked code (suc n) (i ∷ vin) = ap (λ r. input [] (view i) ∷ r) (blanked code n vin)

freed_all :
    (vin : List TxIn)
    → map zero_sequence (map blank_signature vin) ≡ map freed (map (λ i. i.prevout) vin)
freed_all [] = refl
freed_all (i ∷ vin) = ap (λ r. freed i.prevout ∷ r) (freed_all vin)

freed_blanked :
    (code : List ℕ) (n : ℕ) (vin : List TxIn)
    → free_others n (set_script code n (blank_signatures vin))
      ≡ rebuild_free code n (map (λ i. i.prevout) vin) (get_elem? (map view vin) n)
unfolding free_others set_script blank_signatures
freed_blanked code n [] = refl
freed_blanked code zero (i ∷ vin) = ap (λ r. input code (view i) ∷ r) (freed_all vin)
freed_blanked code (suc n) (i ∷ vin) = ap (λ r. freed i.prevout ∷ r) (freed_blanked code n vin)

get_elem?-free_others :
    (n : ℕ) (vin : List TxIn) → get_elem? (free_others n vin) n ≡ get_elem? vin n
unfolding free_others
get_elem?-free_others n [] = refl
get_elem?-free_others zero (i ∷ vin) = refl
get_elem?-free_others (suc n) (i ∷ vin) = get_elem?-free_others n vin

get_elem?-blanked :
    (code : List ℕ) (n : ℕ) (vin : List TxIn)
    → get_elem? (set_script code n (blank_signatures vin)) n
      ≡ Option.map (input code) (get_elem? (map view vin) n)
unfolding set_script blank_signatures
get_elem?-blanked code n [] = refl
get_elem?-blanked code zero (i ∷ vin) = refl
get_elem?-blanked code (suc n) (i ∷ vin) = get_elem?-blanked code n vin

out_of_range :
    (n : ℕ) (vin : List TxIn) → get_elem? (map view vin) n ≡ none → leb (length vin) n ≡ true
out_of_range n [] e = ground arith
out_of_range zero (i ∷ vin) e = cc
out_of_range (suc n) (i ∷ vin) e = ground (arith, out_of_range n vin e)

in_range :
    (n : ℕ) (vin : List TxIn) (v : OutPoint × ℕ)
    → get_elem? (map view vin) n ≡ some v
    → leb (length vin) n ≡ false
in_range n [] v e = cc
in_range zero (i ∷ vin) v e = ground arith
in_range (suc n) (i ∷ vin) v e = ground (arith, in_range n vin v e)

-- The types that leave the sequence numbers of the other inputs open.
abbrev pub is_free : ℕ → Bool
is_free t = base_type t == sighash_none || base_type t == sighash_single

module _ (code : List ℕ) (n t : ℕ) (vin : List TxIn) where
  abbrev hashed : List TxIn
  hashed = mask_inputs n t (set_script code n (blank_signatures vin))

  hashed-one :
      (v : OutPoint × ℕ)
      → anyone_can_pay t ≡ true
      → get_elem? (map view vin) n ≡ some v
      → hashed ≡ input code v ∷ []
  unfolding mask_inputs only_input
  hashed-one v any found = ground (
    arith,
    get_elem?-free_others n (set_script code n (blank_signatures vin)),
    get_elem?-blanked code n vin,
  )

  hashed-free :
      anyone_can_pay t ≡ false
      → is_free t ≡ true
      → hashed ≡ rebuild_free code n (map (λ i. i.prevout) vin) (get_elem? (map view vin) n)
  unfolding mask_inputs
  hashed-free all free = ground (arith, freed_blanked code n vin)

  hashed-all : anyone_can_pay t ≡ false → is_free t ≡ false → hashed ≡ rebuild code n (map view vin)
  unfolding mask_inputs
  hashed-all all fixed = ground (arith, blanked code n vin)

-- What a signature of the type commits to among the inputs: with SIGHASH_ANYONECANPAY the outpoint and
-- the sequence number of its own; with SIGHASH_NONE and SIGHASH_SINGLE also the other outpoints; else all
-- outpoints and sequence numbers.
unfoldable pub SameInputs : Bool → Bool → ℕ → List TxIn → List TxIn → Type 0
SameInputs true free n vin vin' = get_elem? (map view vin) n ≡ get_elem? (map view vin') n
SameInputs false true n vin vin' =
    (map (λ i. i.prevout) vin ≡ map (λ i. i.prevout) vin')
    × (get_elem? (map view vin) n ≡ get_elem? (map view vin') n)
SameInputs false false n vin vin' = map view vin ≡ map view vin'

-- Among the outputs: none with SIGHASH_NONE, the one with the number of the input with SIGHASH_SINGLE, else
-- all of them.
unfoldable pub SameOutputs : Bool → Bool → ℕ → List TxOut → List TxOut → Type 0
SameOutputs true single n vout vout' = Unit
SameOutputs false true n vout vout' = get_elem? vout n ≡ get_elem? vout' n
SameOutputs false false n vout vout' = vout ≡ vout'

SameInputs-range :
    (any free : Bool) (n : ℕ) (vin vin' : List TxIn)
    → SameInputs any free n vin vin'
    → get_elem? (map view vin) n ≡ get_elem? (map view vin') n
unfolding SameInputs
SameInputs-range true free n vin vin' h = h
SameInputs-range false true n vin vin' h = h.1
SameInputs-range false false n vin vin' h = ap (λ vs. get_elem? vs n) h

module _ (code : List ℕ) (n t : ℕ) where
  SameInputs-hashed :
      (vin vin' : List TxIn) (v : OutPoint × ℕ)
      → SameInputs (anyone_can_pay t) (is_free t) n vin vin'
      → get_elem? (map view vin) n ≡ some v
      → hashed code n t vin ≡ hashed code n t vin'
  unfolding SameInputs
  SameInputs-hashed vin vin' v h found =
      let found' = sym (SameInputs-range _ _ n vin vin' h) ∙ found in
      elim (Bool-cases (anyone_can_pay t)) [
        | inl any ↦
            hashed-one code n t vin v any found ∙ sym (hashed-one code n t vin' v any found')
        | inr all ↦ elim (Bool-cases (is_free t)) [
          | inl free ↦
              let h' : SameInputs false true n vin vin' = rw (all, free) at h in
              hashed-free code n t vin all free
              ∙ rw (h'.0, h'.1) refl
              ∙ sym (hashed-free code n t vin' all free)
          | inr fixed ↦
              let h' : SameInputs false false n vin vin' = rw (all, fixed) at h in
              hashed-all code n t vin all fixed
              ∙ ap (rebuild code n) h'
              ∙ sym (hashed-all code n t vin' all fixed)
        ]
      ]

  SameOutputs-masked :
      (vout vout' : List TxOut)
      → SameOutputs (base_type t == sighash_none) (base_type t == sighash_single) n vout vout'
      → mask_outputs n t vout ≡ mask_outputs n t vout'
  unfolding SameOutputs mask_outputs lock_in
  SameOutputs-masked vout vout' h = elim (Bool-cases (base_type t == sighash_none)) [
    | inl none_of ↦ ground arith
    | inr others ↦ elim (Bool-cases (base_type t == sighash_single)) [
      | inl single ↦
          let h' : SameOutputs false true n vout vout' = rw (others, single) at h in
          ground (arith, h', others, single)
      | inr all ↦
          let h' : SameOutputs false false n vout vout' = rw (others, all) at h in
          ap (mask_outputs n t) h'
    ]
  ]

masked-Same :
    (code : List ℕ) (tx tx' : Transaction) (n t : ℕ)
    → tx.version ≡ tx'.version
    → tx.lock_time ≡ tx'.lock_time
    → tx.attachments ≡ tx'.attachments
    → mask_outputs n t tx.vout ≡ mask_outputs n t tx'.vout
    → hashed (find_and_delete code (push_op [] Opcode.op_codeseparator)).0 n t tx.vin
      ≡ hashed (find_and_delete code (push_op [] Opcode.op_codeseparator)).0 n t tx'.vin
    → masked code tx n t ≡ masked code tx' n t
unfolding masked
masked-Same code tx tx' n t v l a outs ins = elim (Option-cases (mask_outputs n t tx'.vout)) [
  | inl stop ↦ rw (masked, outs, stop) refl
  | inr (vout, locked) ↦ rw (masked, outs, locked, v, l, a, ins) refl
]

module _ (crypto : Crypto) where
  -- Two transactions with the same version, lock time and attachments have the same signature hash
  -- for an input when they also agree on what the type commits to. Of the inputs, that is the
  -- outpoint and the sequence number of this one with SIGHASH_ANYONECANPAY, and the outpoints of the
  -- others too with SIGHASH_NONE and SIGHASH_SINGLE, else all outpoints and sequence numbers; of the
  -- outputs, it is none with SIGHASH_NONE, the one with the input's number with SIGHASH_SINGLE, else all.
  pub SameInputs-signature_hash :
      (code : List ℕ) (tx tx' : Transaction) (n t : ℕ)
      → tx.version ≡ tx'.version
      → tx.lock_time ≡ tx'.lock_time
      → tx.attachments ≡ tx'.attachments
      → SameInputs (anyone_can_pay t) (is_free t) n tx.vin tx'.vin
      → SameOutputs (base_type t == sighash_none) (base_type t == sighash_single) n tx.vout tx'.vout
      → signature_hash crypto code tx n t ≡ signature_hash crypto code tx' n t
  unfolding signature_hash
  SameInputs-signature_hash code tx tx' n t v l a ins outs =
      let range = SameInputs-range _ _ n tx.vin tx'.vin ins in
      elim (Option-cases (get_elem? (map view tx.vin) n)) [
        | inl outside ↦
            rw (out_of_range n tx.vin outside, out_of_range n tx'.vin (sym range ∙ outside)) refl
        | inr (x, found) ↦
            rw
              (
                in_range n tx.vin x found,
                in_range n tx'.vin x (sym range ∙ found),
                masked-Same code tx tx' n t v l a
                    (SameOutputs-masked code n t tx.vout tx'.vout outs)
                    (SameInputs-hashed _ n t tx.vin tx'.vin x ins found),
              )
              refl
      ]
