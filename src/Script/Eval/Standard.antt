-- ===== src/Script/Eval/Standard.antt =====
-- The scripts that `SetDestination` writes (src/script.cpp), spent through VerifyScript.
use tetra.Prelude.{
  ℕ, suc, ◌≤◌, ◌≡◌, refl, ◌∙◌, ap, Bool, false, ◌&&◌, List, [], ◌∷◌, ◌++◌, arith, if◌then◌else◌,
  length, length-append, Bool-cases, inl, inr,
}
use mathlib.Core.List.{append_assoc}
use tetra.Script.Opcode.{value, opcode_of}
use tetra.Script.Parse.{
  push_data, push_op, push_uint160, script_for_key_id, is_pay_to_script_hash, push_all,
}
use tetra.Script.Walk.{find_and_delete}
use tetra.Script.Number.{cast_to_bool}
use tetra.Script.Machine.{
  Item, Machine, Context, item_op, equal_op, same, push_or_verify, bool_item,
}
use tetra.Script.Compute.{hash_op, hash, hash160, check, checksig_op}
use tetra.Script.Eval.{
  accepted, rejected, execute, is_disabled, all_true, eval_loop, eval_script, start, finish,
  top_true, verify_script, verify_output, verify_result,
}
use tetra.Script.Eval.Rounds.{
  round-execute, round-push, round-fails, eval_script-push_all, eval_script-run, length-push_all,
}

pub script_for_key_id-shape :
    (h : Item) → script_for_key_id h ≡ 0x76 ∷ 0xa9 ∷ 20 ∷ (h ++ (0x88 ∷ 0xac ∷ []))
unfolding script_for_key_id push_op push_uint160 value
script_for_key_id-shape h = ap (λ r. 0x76 ∷ 0xa9 ∷ 20 ∷ r) (append_assoc h (0x88 ∷ []) (0xac ∷ []))

pub key_id-not_p2sh :
    (h : Item) → length h ≡ 20 → is_pay_to_script_hash (script_for_key_id h) ≡ false
unfolding is_pay_to_script_hash
key_id-not_p2sh h size =
    ground (arith, ap length (script_for_key_id-shape h), length-append h (0x88 ∷ 0xac ∷ []))

module _ (cx : Context) where
  -- The check of a signature under `script_for_key_id`: the code covers the script without it.
  abbrev pub key_id_check : Item → Item → Item → Bool
  key_id_check h sig key =
      check cx (find_and_delete (script_for_key_id h) (push_data [] sig)).0 sig key

  abbrev machine : List ℕ → ℕ → List Item → Machine
  machine code n s = record { stack = s; alt = []; exec = []; op_count = n; code = code }

  run_to_hash :
      (fuel : ℕ) (code pc : List ℕ) (h key : Item) (s : List Item)
      → length h ≡ 20
      → length s ≤ 990
      → eval_loop cx
          (suc (suc (suc fuel)))
          (0x76 ∷ 0xa9 ∷ 20 ∷ (h ++ pc))
          (machine code 0 (key ∷ s))
        ≡ eval_loop cx fuel pc (machine code 2 (h ∷ hash160 cx key ∷ key ∷ s))
  unfolding opcode_of is_disabled all_true execute item_op hash_op hash
  run_to_hash fuel code pc h key s size room =
      round-execute cx _ 0x76 _ (machine code 0 (key ∷ s)) (machine code 1 (key ∷ key ∷ s))
        (omega arith) (omega arith) refl refl (omega arith) refl (omega arith)
      ∙ round-execute cx _ 0xa9 _ (machine code 1 (key ∷ key ∷ s))
          (machine code 2 (hash160 cx key ∷ key ∷ s)) (omega arith) (omega arith) refl refl
          (omega arith) refl (omega arith)
      ∙ round-push cx fuel 20 h pc (machine code 2 (hash160 cx key ∷ key ∷ s)) size (omega arith)
          refl (omega arith)

  -- EQUALVERIFY on unequal items, and on equal ones followed by CHECKSIG.
  run_checks :
      (fuel : ℕ) (code : List ℕ) (h x sig key : Item) (s : List Item)
      → length s ≤ 990
      → eval_loop cx (suc (suc fuel)) (0x88 ∷ 0xac ∷ []) (machine code 2 (h ∷ x ∷ key ∷ sig ∷ s))
        ≡ (if same x h
            then accepted (
                machine code 4
                  (bool_item (check cx (find_and_delete code (push_data [] sig)).0 sig key) ∷ s))
            else rejected)
  unfolding opcode_of is_disabled all_true execute equal_op push_or_verify checksig_op
  run_checks fuel code h x sig key s room = elim (Bool-cases (same x h)) [
    | inl equal ↦ rw equal (
        round-execute cx (suc fuel) 0x88 (0xac ∷ []) (machine code 2 (h ∷ x ∷ key ∷ sig ∷ s))
          (machine code 3 (key ∷ sig ∷ s)) (omega arith) (omega arith) refl refl (omega arith)
          (ground arith) (omega arith)
        ∙ round-execute cx fuel 0xac [] (machine code 3 (key ∷ sig ∷ s)) _ (omega arith)
            (omega arith) refl refl (omega arith) refl (omega arith)
        ∙ unfold eval_loop in refl)
    | inr other ↦ rw other (
        round-fails cx (suc fuel) 0x88 (0xac ∷ []) (machine code 2 (h ∷ x ∷ key ∷ sig ∷ s))
          (omega arith) (omega arith) refl (ground arith))
  ]

  -- The script of a CKeyID on a stack with a signature and a key.
  eval_script-key_id :
      (h sig key : Item)
      → length h ≡ 20
      → eval_script cx (key ∷ sig ∷ []) (script_for_key_id h) ≡ (
          if same (hash160 cx key) h
          then accepted (bool_item (key_id_check h sig key) ∷ [])
          else rejected)
  unfolding finish
  eval_script-key_id h sig key size =
      let whole = script_for_key_id-shape h in
      let code = script_for_key_id h in
      let tail : List ℕ = 0x88 ∷ 0xac ∷ [] in
      let bytes : length code ≡ 25 = omega (arith, ap length whole, length-append h tail) in
      let m = start (key ∷ sig ∷ []) code in
      let run =
        ap (λ f. eval_loop cx f code m) bytes
        ∙ ap (λ c. eval_loop cx 25 c m) whole
        ∙ run_to_hash 22 code tail h key (sig ∷ []) size (omega arith)
        ∙ run_checks 20 code h (hash160 cx key) sig key [] (omega arith) in
      eval_script-run cx (key ∷ sig ∷ []) code _ (omega arith) run ∙ ground arith

  cast-bool_item : (b : Bool) (s : List Item) → top_true (bool_item b ∷ s) ≡ b
  unfolding top_true cast_to_bool
  cast-bool_item b s = ground arith

  -- VerifyScript on the script of a CKeyID (20 bytes), with a signature and a key of at most 520
  -- bytes pushed by the spender: it returns whether the key hashes to the one in the script and
  -- the signature passes the check.
  pub verify_script-key_id :
      (p2sh : Bool) (h sig key : Item)
      → length h ≡ 20
      → length sig ≤ 520
      → length key ≤ 520
      → verify_script cx p2sh (push_all (sig ∷ key ∷ [])) (script_for_key_id h)
        ≡ accepted (same (hash160 cx key) h && key_id_check h sig key)
  unfolding verify_script verify_output verify_result
  verify_script-key_id p2sh h sig key size sig_size key_size =
      let pushes =
        eval_script-push_all cx (sig ∷ key ∷ []) [] (omega (arith, length-push_all sig key))
          (sig_size, (key_size, tt)) (omega arith) in
      ground (
        arith,
        pushes,
        eval_script-key_id h sig key size,
        cast-bool_item (key_id_check h sig key) [],
        key_id-not_p2sh h size,
      )
