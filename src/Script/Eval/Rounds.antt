-- ===== src/Script/Eval/Rounds.antt =====
-- Single rounds of `EvalScript` with their result, for the scripts that the program writes itself.
use tetra.Prelude.{
  ℕ, zero, suc, ◌+◌, ◌≤◌, ◌<◌, ◌≡◌, refl, true, false, List, [], ◌∷◌, ◌++◌, none, some, arith, leb,
  length, length-append, All, ◌∙◌,
}
use tetra.Script.Opcode.{Opcode, op_push, value, opcode_of, value-opcode_of}
use tetra.Script.Parse.{get_op, push_data, push_all}
use tetra.Script.Parse.Laws.{
  length-push_data-le, get_op-push_data, get_op-plain, get_op-short, push_opcode, length-push_data,
  push_data-cons,
}
use tetra.Script.Walk.{is_counted, push_only_loop, is_push_only}
use tetra.Script.Machine.{Item, Machine, Context}
use tetra.Script.Eval.{
  Outcome, accepted, rejected, execute, dispatch, step, count_op, is_disabled, all_true, eval_loop,
  eval_script, start, finish,
}

pub length-push_all : (d e : Item) → length (push_all (d ∷ e ∷ [])) ≤ length d + length e + 10
unfolding push_all
length-push_all d e = omega (
  arith,
  length-append (push_data [] d) (push_data [] e ++ []),
  length-append (push_data [] e) [],
  length-push_data-le d,
  length-push_data-le e,
)

abbrev pub push_onto : List Item → List Item → List Item
push_onto [] s = s
push_onto (d ∷ ds) s = push_onto ds (d ∷ s)

push_opcode_facts :
    (n : ℕ) → (leb (value (push_opcode n)) 0x4e ≡ true) × (is_disabled (push_opcode n) ≡ false)
unfolding value is_disabled
push_opcode_facts n = (ground arith, ground arith)

push_opcode_plain : (n : ℕ) → is_counted (push_opcode n) ≡ false
unfolding value
push_opcode_plain n = ground arith

counted-byte : (b : ℕ) → 0x60 < b → b < 256 → is_counted (opcode_of b) ≡ true
counted-byte b high byte = rw (value-opcode_of b byte) (ground arith)

pub push_onto-last :
    (ds : List Item) (x : Item) (s : List Item) → push_onto (ds ++ x ∷ []) s ≡ x ∷ push_onto ds s
push_onto-last [] x s = refl
push_onto-last (d ∷ ds) x s = push_onto-last ds x (d ∷ s)

pub length-push_onto : (ds s : List Item) → length (push_onto ds s) ≡ length ds + length s
length-push_onto [] s = omega arith
length-push_onto (d ∷ ds) s = omega (arith, length-push_onto ds (d ∷ s))

push_only_loop-round :
    (fuel b : ℕ) (pc : List ℕ) (o : Opcode) (d rest : List ℕ)
    → get_op (b ∷ pc) ≡ some (o, d, rest)
    → is_counted o ≡ false
    → push_only_loop (suc fuel) (b ∷ pc) ≡ push_only_loop fuel rest
unfolding push_only_loop
push_only_loop-round fuel b pc o d rest read plain = rw (read, push_only_loop) (rw plain)

push_only_loop-push_all :
    (fuel : ℕ) (ds : List Item)
    → length (push_all ds) ≤ fuel
    → All (λ d. length d ≤ 520) ds
    → push_only_loop fuel (push_all ds) ≡ true
unfolding push_all push_only_loop
push_only_loop-push_all fuel [] h small = refl
push_only_loop-push_all zero (d ∷ ds) h small =
    absurd (omega (arith, length-push_data d (push_all ds) (omega arith)))
push_only_loop-push_all (suc fuel) (d ∷ ds) h small =
    let (b, tail, shape) = push_data-cons d (push_all ds) (omega arith) in
    let read = get_op-push_data d (push_all ds) (omega arith) in
    let rest =
      push_only_loop-push_all fuel ds
        (omega (arith, length-push_data d (push_all ds) (omega arith))) small.1 in
    rw shape (
      push_only_loop-round fuel b tail _ d (push_all ds) (rw shape at read)
        (push_opcode_plain (length d))
      ∙ rest)

-- IsPushOnly holds of a script of pushes.
pub is_push_only-push_all :
    (ds : List Item) → All (λ d. length d ≤ 520) ds → is_push_only (push_all ds) ≡ true
unfolding is_push_only
is_push_only-push_all ds small = push_only_loop-push_all _ ds (omega arith) small

module _ (cx : Context) where
  -- A counted opcode in a branch that runs.
  pub step-execute :
      (o : Opcode) (pc : List ℕ) (m m' : Machine)
      → all_true m.exec ≡ true
      → is_counted o ≡ true
      → is_disabled o ≡ false
      → m.op_count < 201
      → execute cx o true pc (record m { op_count = m.op_count + 1 }) ≡ some m'
      → length m'.stack + length m'.alt ≤ 1000
      → step cx o [] pc m ≡ some m'
  unfolding step dispatch count_op
  step-execute o pc m m' running counts enabled few run fits = ground arith

  pub step-fails :
      (o : Opcode) (pc : List ℕ) (m : Machine)
      → all_true m.exec ≡ true
      → is_counted o ≡ true
      → execute cx o true pc (record m { op_count = m.op_count + 1 }) ≡ none
      → step cx o [] pc m ≡ none
  unfolding step dispatch count_op
  step-fails o pc m running counts stop = ground arith

  -- A push in a branch that runs.
  pub step-push :
      (o : Opcode) (d : Item) (pc : List ℕ) (m : Machine)
      → all_true m.exec ≡ true
      → leb (value o) 0x4e ≡ true
      → is_disabled o ≡ false
      → length d ≤ 520
      → length m.stack + length m.alt < 1000
      → step cx o d pc m ≡ some (record m { stack = d ∷ m.stack })
  unfolding step dispatch count_op
  step-push o d pc m running short enabled small room = ground arith

  pub eval_loop-round :
      (fuel b : ℕ) (pc : List ℕ) (m : Machine) (o : Opcode) (d rest : List ℕ) (m' : Machine)
      → get_op (b ∷ pc) ≡ some (o, d, rest)
      → step cx o d rest m ≡ some m'
      → eval_loop cx (suc fuel) (b ∷ pc) m ≡ eval_loop cx fuel rest m'
  unfolding eval_loop
  eval_loop-round fuel b pc m o d rest m' read go = rw (read, eval_loop) (rw go)

  pub eval_loop-fails :
      (fuel b : ℕ) (pc : List ℕ) (m : Machine) (o : Opcode) (d rest : List ℕ)
      → get_op (b ∷ pc) ≡ some (o, d, rest)
      → step cx o d rest m ≡ none
      → eval_loop cx (suc fuel) (b ∷ pc) m ≡ rejected
  unfolding eval_loop
  eval_loop-fails fuel b pc m o d rest read stop = rw (read, eval_loop) (rw stop)

  eval_loop-push :
      (fuel : ℕ) (d rest : List ℕ) (m : Machine)
      → all_true m.exec ≡ true
      → length d ≤ 520
      → length m.stack + length m.alt < 1000
      → eval_loop cx (suc fuel) (push_data [] d ++ rest) m
        ≡ eval_loop cx fuel rest (record m { stack = d ∷ m.stack })
  eval_loop-push fuel d rest m running small room =
      let (b, tail, shape) = push_data-cons d rest (omega arith) in
      let read = get_op-push_data d rest (omega arith) in
      let (short, enabled) = push_opcode_facts (length d) in
      rw shape (
        eval_loop-round fuel b tail m (push_opcode (length d)) d rest _ (rw shape at read)
          (step-push (push_opcode (length d)) d rest m running short enabled small room))

  -- A script of pushes leaves its items on the stack, the last on top.
  pub eval_loop-push_all :
      (ds : List Item) (fuel : ℕ) (m : Machine)
      → length (push_all ds) ≤ fuel
      → All (λ d. length d ≤ 520) ds
      → all_true m.exec ≡ true
      → length ds + length m.stack + length m.alt ≤ 1000
      → eval_loop cx fuel (push_all ds) m ≡ accepted (record m { stack = push_onto ds m.stack })
  unfolding push_all
  eval_loop-push_all [] fuel m enough small running room = unfold eval_loop in refl
  eval_loop-push_all (d ∷ ds) zero m enough small running room =
      absurd (omega (arith, length-push_data d (push_all ds) (omega arith)))
  eval_loop-push_all (d ∷ ds) (suc fuel) m enough small running room =
      eval_loop-push fuel d (push_all ds) m running small.0 (omega arith)
      ∙ eval_loop-push_all ds fuel (record m { stack = d ∷ m.stack })
          (omega (arith, length-push_data d (push_all ds) (omega arith))) small.1 running
          (omega arith)

  -- A script of pushes, within the limits on its size, its items and the stack, leaves its items
  -- on the stack, the last on top.
  pub eval_script-push_all :
      (ds s : List Item)
      → length (push_all ds) ≤ 10000
      → All (λ d. length d ≤ 520) ds
      → length ds + length s ≤ 1000
      → eval_script cx s (push_all ds) ≡ accepted (push_onto ds s)
  unfolding eval_script finish all_true
  eval_script-push_all ds s short small room = ground (
    arith,
    eval_loop-push_all ds (length (push_all ds)) (start s (push_all ds)) (omega arith) small refl
        (omega arith),
  )

  -- A round on a one-byte opcode in a branch that runs: it goes on with what `execute` makes, or the
  -- script is rejected.
  pub round-execute :
      (fuel b : ℕ) (pc : List ℕ) (m m' : Machine)
      → 0x60 < b
      → b < 256
      → is_disabled (opcode_of b) ≡ false
      → all_true m.exec ≡ true
      → m.op_count < 201
      → execute cx (opcode_of b) true pc (record m { op_count = m.op_count + 1 }) ≡ some m'
      → length m'.stack + length m'.alt ≤ 1000
      → eval_loop cx (suc fuel) (b ∷ pc) m ≡ eval_loop cx fuel pc m'
  round-execute fuel b pc m m' high byte enabled running few run fits =
      eval_loop-round fuel b pc m (opcode_of b) [] pc m' (get_op-plain b pc (omega arith))
        (step-execute (opcode_of b) pc m m' running (counted-byte b high byte) enabled few run fits)

  pub round-fails :
      (fuel b : ℕ) (pc : List ℕ) (m : Machine)
      → 0x60 < b
      → b < 256
      → all_true m.exec ≡ true
      → execute cx (opcode_of b) true pc (record m { op_count = m.op_count + 1 }) ≡ none
      → eval_loop cx (suc fuel) (b ∷ pc) m ≡ rejected
  round-fails fuel b pc m high byte running stop =
      eval_loop-fails fuel b pc m (opcode_of b) [] pc (get_op-plain b pc (omega arith))
        (step-fails (opcode_of b) pc m running (counted-byte b high byte) stop)

  -- A round on a push of fewer than 76 bytes.
  pub round-push :
      (fuel n : ℕ) (d pc : List ℕ) (m : Machine)
      → length d ≡ n
      → n < 0x4c
      → all_true m.exec ≡ true
      → length m.stack + length m.alt < 1000
      → eval_loop cx (suc fuel) (n ∷ (d ++ pc)) m
        ≡ eval_loop cx fuel pc (record m { stack = d ∷ m.stack })
  unfolding value is_disabled
  round-push fuel n d pc m size short running room =
      eval_loop-round fuel n (d ++ pc) m (op_push n) d pc _ (get_op-short n d pc size short)
        (step-push (op_push n) d pc m running (ground arith) refl (omega arith) room)

  pub eval_script-run :
      (s : List Item) (script : List ℕ) (r : Outcome Machine)
      → length script ≤ 10000
      → eval_loop cx (length script) script (start s script) ≡ r
      → eval_script cx s script ≡ finish r
  unfolding eval_script
  eval_script-run s script r short run = ground arith
