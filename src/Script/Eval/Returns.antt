-- ===== src/Script/Eval/Returns.antt =====
-- VerifyScript returns: its assertion never fails, and its runs end (src/script.cpp).
use tetra.Prelude.{
  ℕ, ◌≡◌, refl, sym, ◌∙◌, Bool, true, false, ◌&&◌, List, [], ◌∷◌, arith, length, Bool-cases, inl,
  inr, ◌⊎◌,
}
use tetra.Script.Opcode.{value, opcode_of}
use tetra.Script.Parse.{is_pay_to_script_hash}
use tetra.Script.Walk.{is_push_only}
use tetra.Script.Machine.{Item, Context}
use tetra.Script.Compute.{hash_op}
use tetra.Script.Eval.{
  Outcome, accepted, rejected, out_of_fuel, execute, all_true, eval_script, start, finish, top_true,
  verify_script, verify_output, verify_result, verify_p2sh,
}
use tetra.Script.Eval.Rounds.{round-fails, eval_script-run}
use tetra.Script.Eval.Limits.{eval_script-ne-out_of_fuel}
use tetra.Script.Eval.ScriptHash.{succeeds, verify_p2sh-succeeds}

Outcome-cases :
    {A : Type 0} (r : Outcome A)
    → ((a : A) × (r ≡ accepted a)) ⊎ ((r ≡ rejected) ⊎ (r ≡ out_of_fuel))
Outcome-cases (accepted a) = inl (a, refl)
Outcome-cases rejected = inr (inl refl)
Outcome-cases out_of_fuel = inr (inr refl)

-- What VerifyScript is when it returns.
abbrev pub Returns : Outcome Bool → Type 0
Returns r = (b : Bool) × (r ≡ accepted b)

module _ (cx : Context) where
  -- OP_HASH160, the first of a pay-to-script-hash script, fails on the empty stack.
  eval_script-p2sh : (s : List ℕ) → is_pay_to_script_hash s ≡ true → eval_script cx [] s ≡ rejected
  unfolding is_pay_to_script_hash value finish opcode_of execute hash_op all_true
  eval_script-p2sh [] e = absurd (ground arith)
  eval_script-p2sh (b ∷ pc) e =
      let first : b ≡ 0xa9 = ground arith in
      let size : length (b ∷ pc) ≡ 23 = ground arith in
      eval_script-run cx [] (b ∷ pc) rejected (omega arith) (
        rw first (
          round-fails cx (length pc) 0xa9 pc (start [] (0xa9 ∷ pc)) (omega arith) (omega arith) refl
            refl))

  verify_p2sh-Returns :
      (script_pub_key : List ℕ) (s s' : List Item)
      → is_pay_to_script_hash script_pub_key ≡ true
      → eval_script cx s script_pub_key ≡ accepted s'
      → Returns (verify_p2sh cx s)
  verify_p2sh-Returns script_pub_key [] s' p2sh run =
      let both : rejected ≡ accepted s' = sym (eval_script-p2sh script_pub_key p2sh) ∙ run in
      absurd (ground arith)
  verify_p2sh-Returns script_pub_key (x ∷ s) s' p2sh run =
      (succeeds (eval_script cx s x), verify_p2sh-succeeds cx x s)

  verify_result-Returns :
      (p2sh : Bool) (script_sig script_pub_key : List ℕ) (s s' : List Item)
      → eval_script cx s script_pub_key ≡ accepted s'
      → Returns (verify_result cx p2sh script_sig script_pub_key s s')
  unfolding verify_result
  verify_result-Returns p2sh script_sig script_pub_key s s' run = elim (Bool-cases (top_true s')) [
    | inr failed ↦ (false, rw (verify_result, failed) refl)
    | inl top ↦ elim (Bool-cases (p2sh && is_pay_to_script_hash script_pub_key)) [
      | inr plain ↦ (true, rw (verify_result, top, plain) refl)
      | inl hashed ↦ elim (Bool-cases (is_push_only script_sig)) [
        | inr others ↦ (false, rw (verify_result, top, hashed, others) refl)
        | inl pushes ↦
            let (b, e) = verify_p2sh-Returns script_pub_key s s' (ground arith) run in
            (b, rw (verify_result, top, hashed, pushes) e)
      ]
    ]
  ]

  -- VerifyScript returns on all scripts: its assertion does not fail.
  pub verify_script-Returns :
      (p2sh : Bool) (script_sig script_pub_key : List ℕ)
      → Returns (verify_script cx p2sh script_sig script_pub_key)
  unfolding verify_script verify_output
  verify_script-Returns p2sh script_sig script_pub_key =
      elim (Outcome-cases (eval_script cx [] script_sig)) [
        | inr (inl e) ↦ (false, rw (verify_script, e) refl)
        | inr (inr e) ↦ absurd (eval_script-ne-out_of_fuel cx [] script_sig e)
        | inl (s, e) ↦ elim (Outcome-cases (eval_script cx s script_pub_key)) [
          | inr (inl f) ↦ (false, rw (verify_script, e, verify_output, f) refl)
          | inr (inr f) ↦ absurd (eval_script-ne-out_of_fuel cx s script_pub_key f)
          | inl (s', f) ↦
              let (b, g) = verify_result-Returns p2sh script_sig script_pub_key s s' f in
              (b, rw (verify_script, e, verify_output, f) g)
        ]
      ]
