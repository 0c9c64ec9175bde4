-- ===== src/Solver/Shapes.antt =====
-- The scripts that the node writes, read by `Solver` (src/script.cpp).
use tetra.Prelude.{
  ℕ, ◌≤◌, ◌≡◌, refl, ap, true, false, List, [], ◌∷◌, ◌++◌, some, none, arith, length, length-append,
  take, sym,
}
use tetra.Prelude.Bytes.{take-append}
use tetra.Script.Opcode.{opcode_of, value}
use tetra.Script.Parse.{
  get_op, push_op, script_for_key_id, script_for_script_id, is_pay_to_script_hash,
}
use tetra.Script.Parse.Laws.{get_op-short}
use tetra.Script.Machine.{Item, same}
use tetra.Script.Eval.Standard.{script_for_key_id-shape, key_id-not_p2sh}
use tetra.Script.Eval.ScriptHash.{script_for_script_id-shape, script_id-p2sh}
use tetra.Solver.{
  TxnOutType, solver, match_template, match_round, match_op, pubkey_template, pubkeyhash_template,
  is_key_size,
}

module _ (h : Item) (size : length h ≡ 20) where
  match_template-key_id : match_template 5 (script_for_key_id h) pubkeyhash_template ≡ some (h ∷ [])
  unfolding match_template match_round match_op get_op opcode_of value push_op same
  match_template-key_id =
      rw (script_for_key_id-shape h, get_op-short 20 h (0x88 ∷ 0xac ∷ []) size (omega arith), size)
        refl

  no_key-key_id : match_template 5 (script_for_key_id h) pubkey_template ≡ none
  unfolding match_template match_round match_op get_op opcode_of value push_op is_key_size
  no_key-key_id = rw (script_for_key_id-shape h) refl

  -- Solver on the script of a CKeyID.
  pub solver-script_for_key_id :
      solver (script_for_key_id h)
      ≡ record { ok = true; type_ret = TxnOutType.tx_pubkeyhash; solutions = h ∷ [] }
  unfolding solver
  solver-script_for_key_id =
      ground (arith, key_id-not_p2sh h size, no_key-key_id, match_template-key_id)

  -- Solver on the script of a CScriptID.
  pub solver-script_for_script_id :
      solver (script_for_script_id h)
      ≡ record { ok = true; type_ret = TxnOutType.tx_scripthash; solutions = h ∷ [] }
  unfolding solver
  solver-script_for_script_id =
      rw (script_id-p2sh h size, script_for_script_id-shape h)
        (rw (ap (λ n. take n (h ++ (0x87 ∷ []))) (sym size), take-append h (0x87 ∷ [])) refl)

-- Any key that a template takes, in front of CHECKSIG.
module _ (key : Item) (low : 33 ≤ length key) (high : length key ≤ 75) where
  abbrev key_script : List ℕ
  key_script = length key ∷ (key ++ (0xac ∷ []))

  match_template-key : match_template 5 key_script pubkey_template ≡ some (key ∷ [])
  unfolding match_template match_round match_op get_op opcode_of value push_op same is_key_size
  match_template-key =
      let size : is_key_size key ≡ true = ground arith in
      rw (get_op-short (length key) key (0xac ∷ []) refl (omega arith), size) refl

  key-not_p2sh : is_pay_to_script_hash key_script ≡ false
  unfolding is_pay_to_script_hash
  key-not_p2sh = ground (arith, length-append key (0xac ∷ []))

  -- Solver on a key and CHECKSIG.
  pub solver-key :
      solver key_script
      ≡ record { ok = true; type_ret = TxnOutType.tx_pubkey; solutions = key ∷ [] }
  unfolding solver
  solver-key = ground (arith, key-not_p2sh, match_template-key)
