-- ===== src/Script/Eval/ScriptHash.antt =====
-- Pay to script hash: the script that `SetDestination` writes for a CScriptID, spent through
-- VerifyScript with SCRIPT_VERIFY_P2SH (src/script.cpp).
use tetra.Prelude.{
  ℕ, ◌≤◌, ◌≡◌, refl, ◌∙◌, ap, Bool, true, false, ◌&&◌, List, [], ◌∷◌, ◌++◌, arith, length,
  length-append, All, All-append, get_or,
}
use tetra.Script.Opcode.{value, opcode_of}
use tetra.Script.Parse.{
  push_op, push_uint160, script_for_script_id, is_pay_to_script_hash, push_all,
}
use tetra.Script.Number.{cast_to_bool}
use tetra.Script.Machine.{Item, Machine, Context, equal_op, same, push_or_verify, bool_item}
use tetra.Script.Compute.{hash_op, hash, hash160}
use tetra.Script.Eval.{
  Outcome, accepted, rejected, out_of_fuel, execute, is_disabled, all_true, eval_loop, eval_script,
  start, finish, top_true, verify_script, verify_output, verify_result, verify_p2sh,
}
use tetra.Script.Eval.Rounds.{
  push_onto, round-execute, round-push, eval_script-push_all, eval_script-run, push_onto-last,
  length-push_onto, is_push_only-push_all,
}
use tetra.Script.Eval.Limits.{eval_script-ne-out_of_fuel}

pub script_for_script_id-shape :
    (h : Item) → script_for_script_id h ≡ 0xa9 ∷ 20 ∷ (h ++ (0x87 ∷ []))
unfolding script_for_script_id push_op push_uint160 value
script_for_script_id-shape h = refl

pub get_or-append : (xs : List ℕ) (x d : ℕ) → get_or (xs ++ x ∷ []) (length xs) d ≡ x
get_or-append [] x d = refl
get_or-append (y ∷ xs) x d = get_or-append xs x d

pub script_id-p2sh :
    (h : Item) → length h ≡ 20 → is_pay_to_script_hash (script_for_script_id h) ≡ true
unfolding is_pay_to_script_hash value
script_id-p2sh h size =
    let last : get_or (h ++ 0x87 ∷ []) 20 0 ≡ 0x87 = rw size at (get_or-append h 0x87 0) in
    rw (script_for_script_id-shape h) (ground (arith, last, length-append h (0x87 ∷ [])))

-- Whether a run is accepted and leaves a true value on top.
pub succeeds : Outcome (List Item) → Bool
succeeds (accepted s) = top_true s
succeeds rejected = false
succeeds out_of_fuel = false

module _ (cx : Context) where
  abbrev machine : List ℕ → ℕ → List Item → Machine
  machine code n s = record { stack = s; alt = []; exec = []; op_count = n; code = code }

  eval_script-script_id :
      (h x : Item) (s : List Item)
      → length h ≡ 20
      → length s ≤ 990
      → eval_script cx (x ∷ s) (script_for_script_id h)
        ≡ accepted (bool_item (same (hash160 cx x) h) ∷ s)
  unfolding finish opcode_of is_disabled all_true execute equal_op push_or_verify hash_op hash
      eval_loop
  eval_script-script_id h x s size room =
      let whole = script_for_script_id-shape h in
      let code = script_for_script_id h in
      let bytes : length code ≡ 23 = omega (arith, ap length whole, length-append h (0x87 ∷ [])) in
      let m = start (x ∷ s) code in
      let run =
        ap (λ f. eval_loop cx f code m) bytes
        ∙ ap (λ c. eval_loop cx 23 c m) whole
        ∙ round-execute cx 22 0xa9 _ m (machine code 1 (hash160 cx x ∷ s)) (omega arith)
            (omega arith) refl refl (omega arith) refl (omega arith)
        ∙ round-push cx 21 20 h (0x87 ∷ []) (machine code 1 (hash160 cx x ∷ s)) size (omega arith)
            refl (omega arith)
        ∙ round-execute cx 20 0x87 [] (machine code 1 (h ∷ hash160 cx x ∷ s))
            (machine code 2 (bool_item (same (hash160 cx x) h) ∷ s)) (omega arith) (omega arith)
            refl refl (omega arith) refl (omega arith) in
      eval_script-run cx (x ∷ s) code _ (omega arith) run

  cast-bool_item : (b : Bool) (s : List Item) → top_true (bool_item b ∷ s) ≡ b
  unfolding top_true cast_to_bool
  cast-bool_item b s = ground arith

  pub verify_p2sh-succeeds :
      (x : Item) (s : List Item) → verify_p2sh cx (x ∷ s) ≡ accepted (succeeds (eval_script cx s x))
  unfolding verify_p2sh succeeds
  verify_p2sh-succeeds x s = ground (arith, eval_script-ne-out_of_fuel cx s x)

  -- VerifyScript, with pay-to-script-hash on, on the script of a CScriptID (20 bytes), with at
  -- most 900 items and a serialized script pushed by the spender, each of at most 520 bytes and
  -- all in 10,000: it returns whether that script hashes to the one in the output, and accepts the
  -- items.
  pub verify_script-script_id :
      (h serialized : Item) (args : List Item)
      → length h ≡ 20
      → All (λ d. length d ≤ 520) args
      → length serialized ≤ 520
      → length args ≤ 900
      → length (push_all (args ++ serialized ∷ [])) ≤ 10000
      → verify_script cx true (push_all (args ++ serialized ∷ [])) (script_for_script_id h)
        ≡ accepted (
            same (hash160 cx serialized) h
            && succeeds (eval_script cx (push_onto args []) serialized))
  unfolding verify_script verify_output verify_result
  verify_script-script_id h serialized args size small fits few short =
      let items = args ++ serialized ∷ [] in
      let all_small = All-append (λ d. length d ≤ 520) args (serialized ∷ []) small (fits, tt) in
      let pushes =
        eval_script-push_all cx items [] short all_small
          (omega (arith, length-append args (serialized ∷ []))) in
      ground (
        arith,
        pushes,
        push_onto-last args serialized [],
        eval_script-script_id h serialized (push_onto args []) size
            (omega (arith, length-push_onto args [])),
        cast-bool_item (same (hash160 cx serialized) h) (push_onto args []),
        script_id-p2sh h size,
        is_push_only-push_all items all_small,
        verify_p2sh-succeeds serialized (push_onto args []),
      )
