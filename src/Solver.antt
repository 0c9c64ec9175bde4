-- ===== src/Solver.antt =====
-- `Solver` on an output's script, and what the node asks of it: which scripts are standard and which
-- destinations they pay to (src/script.cpp, src/script.h).
mod Tests
pub mod Shapes
pub mod Sound
pub mod RoundTrip
pub mod Multisig
pub mod Destination
use tetra.Prelude.{
  ℕ, zero, suc, ◌+◌, ◌-◌, Bool, true, false, not, ◌&&◌, ◌||◌, List, [], ◌∷◌, ◌++◌, Option, none,
  some, ◌>>=◌, leb, ltb, ◌==◌, if◌then◌else◌, length, get_or, take, drop, map,
}
use tetra.Prelude.Int.{ℤ, pos, negsuc}
use tetra.Script.Opcode.{Opcode, op_push, op_n, value}
use tetra.Script.Parse.{
  get_op, push_op, decode_op_n, encode_op_n, is_pay_to_script_hash, script_for_key_id,
  script_for_script_id,
}
use tetra.Script.Machine.{Item, same}

-- `txnouttype`
pub data TxnOutType : Type 0 where
  tx_nonstandard tx_pubkey tx_pubkeyhash tx_scripthash tx_multisig : TxnOutType

-- What `Solver` returns, and what it leaves in `typeRet` and in `vSolutionsRet`.
pub record Solved : Type 0 where
  pub ok : Bool
  pub type_ret : TxnOutType
  pub solutions : List Item

-- The templates, in the order of the map that holds them.
abbrev pub pubkey_template : List ℕ
pubkey_template = push_op (push_op [] Opcode.op_pubkey) Opcode.op_checksig

abbrev pub pubkeyhash_template : List ℕ
pubkeyhash_template =
    push_op
      (push_op (push_op (push_op (push_op [] Opcode.op_dup) Opcode.op_hash160) Opcode.op_pubkeyhash)
        Opcode.op_equalverify)
      Opcode.op_checksig

abbrev pub multisig_template : List ℕ
multisig_template =
    push_op
      (push_op (push_op (push_op [] Opcode.op_smallinteger) Opcode.op_pubkeys)
        Opcode.op_smallinteger)
      Opcode.op_checkmultisig

-- `vch1.size() >= 33 && vch1.size() <= 120`
unfoldable pub is_key_size : Item → Bool
is_key_size d = leb 33 (length d) && leb (length d) 120

-- The loop behind OP_PUBKEYS, on the instruction `o` with the operand `d` in front of `pc`: the
-- instruction that is no key, what is left, and the keys. A failed `GetOp` leaves OP_INVALIDOPCODE and
-- no operand, which no opcode of the template matches, wherever the iterator stopped.
unfoldable pub read_keys : ℕ → Opcode → Item → List ℕ → Opcode × Item × List ℕ × List Item
read_keys zero o d pc = (o, d, pc, [])
read_keys (suc fuel) o d pc = elim (is_key_size d) [
  | false ↦ (o, d, pc, [])
  | true ↦ elim (get_op pc) [
    | none ↦ (Opcode.op_invalidopcode, [], pc, d ∷ [])
    | some (o', d', rest) ↦
        let (last, operand, left, keys) = read_keys fuel o' d' rest in
        (last, operand, left, d ∷ keys)
  ]
]

-- One opcode of the template against one instruction: what it adds to the solutions; `none` is `break`.
unfoldable pub match_op : Opcode → Item → Opcode → Item → Option (List Item)
match_op o d Opcode.op_pubkey d2 = if is_key_size d then some (d ∷ []) else none
match_op o d Opcode.op_pubkeyhash d2 = if length d == 20 then some (d ∷ []) else none
match_op o d Opcode.op_smallinteger d2 = do n ← decode_op_n o; some ((n ∷ []) ∷ [])
match_op o d o2 d2 = if value o == value o2 && same d d2 then some [] else none

-- One round of the loop: what it adds to the solutions, and what is left of the script and of the
-- template.
unfoldable pub match_round : List ℕ → List ℕ → Option (List Item × List ℕ × List ℕ)
match_round s1 s2 = do
  (o1, d1, r1) ← get_op s1
  (o2, d2, r2) ← get_op s2
  (elim (value o2 == value Opcode.op_pubkeys) [
    | false ↦ do found ← match_op o1 d1 o2 d2; some (found, r1, r2)
    | true ↦ do
      let (o1', d1', r1', keys) = read_keys (length s1) o1 d1 r1
      (o3, d3, r3) ← get_op r2
      found ← match_op o1' d1' o3 d3
      some (keys ++ found, r1', r3)
  ])

-- The solutions of a script against a template; `none` is any `break`. A round takes an opcode of the
-- template, of which there are at most five.
unfoldable pub match_template : ℕ → List ℕ → List ℕ → Option (List Item)
match_template fuel [] [] = some []
match_template zero s1 s2 = none
match_template (suc fuel) s1 s2 = do
  (found, r1, r2) ← match_round s1 s2
  more ← match_template fuel r1 r2
  some (found ++ more)

-- `vSolutionsRet.front()[0]` and `vSolutionsRet.back()[0]`
abbrev pub front_byte : List Item → ℕ
front_byte sols = get_or (get_or sols 0 []) 0 0

abbrev pub back_byte : List Item → ℕ
back_byte sols = get_or (get_or sols (length sols - 1) []) 0 0

-- The additional checks for TX_MULTISIG.
unfoldable pub multisig_ok : List Item → Bool
multisig_ok sols =
    let m = front_byte sols in
    let n = back_byte sols in not (ltb m 1 || ltb n 1 || ltb n m || not (length sols - 2 == n))

-- `Solver`, with the vector of the solutions empty before. A script that fails the additional checks
-- keeps its type and its solutions.
unfoldable pub solver : List ℕ → Solved
solver s =
    if is_pay_to_script_hash s
    then record {
      ok = true;
      type_ret = TxnOutType.tx_scripthash;
      solutions = take 20 (drop 2 s) ∷ [];
    }
    else elim (match_template 5 s pubkey_template) [
      | some sols ↦ record { ok = true; type_ret = TxnOutType.tx_pubkey; solutions = sols }
      | none ↦ elim (match_template 5 s pubkeyhash_template) [
        | some sols ↦ record { ok = true; type_ret = TxnOutType.tx_pubkeyhash; solutions = sols }
        | none ↦ elim (match_template 5 s multisig_template) [
          | some sols ↦ record {
            ok = multisig_ok sols;
            type_ret = TxnOutType.tx_multisig;
            solutions = sols;
          }
          | none ↦ record { ok = false; type_ret = TxnOutType.tx_nonstandard; solutions = [] }
        ]
      ]
    ]
