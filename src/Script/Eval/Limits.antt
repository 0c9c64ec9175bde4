-- ===== src/Script/Eval/Limits.antt =====
-- What every accepted run of `EvalScript` has met, and that the fuel is enough.
use tetra.Prelude.{
  ℕ, zero, suc, ◌+◌, ◌≤◌, ◌≡◌, ◌≢◌, refl, false, List, [], ◌∷◌, some, arith, ltb, if◌then◌else◌,
  length, max, Bool-cases, ap, Option-cases, inl, inr, ◌⊎◌, All,
}
use tetra.Script.Opcode.{Opcode}
use tetra.Script.Parse.{get_op}
use tetra.Script.Parse.Laws.{get_op_fuel}
use tetra.Script.Walk.{is_counted}
use tetra.Script.Machine.{Item, Machine, Context}
use tetra.Script.Eval.{
  Outcome, accepted, rejected, out_of_fuel, step, is_disabled, eval_loop, eval_script, finish,
  start,
}
use tetra.Script.Eval.Step.{depth_after, step_limits}

-- The instructions of a script that can be read to its end, with their operands.
pub data Parses : List ℕ → List (Opcode × Item) → Type 0 where
  end : Parses [] []
  next :
      {b : ℕ} {pc : List ℕ} {o : Opcode} {d rest : List ℕ} {is : List (Opcode × Item)}
      → get_op (b ∷ pc) ≡ some (o, d, rest)
      → Parses rest is
      → Parses (b ∷ pc) ((o, d) ∷ is)

-- The conditionals from depth `n` on are closed in order, none before it is opened, and end at `k`.
abbrev pub Nested : ℕ → ℕ → List (Opcode × Item) → Type 0
Nested k n [] = n ≡ k
Nested k n ((o, d) ∷ is) = (n' : ℕ) × (depth_after o n ≡ some n') × Nested k n' is

abbrev pub counted : List (Opcode × Item) → ℕ
counted [] = 0
counted ((o, d) ∷ is) = (if is_counted o then 1 else 0) + counted is

abbrev pub IsAllowed : Opcode × Item → Type 0
IsAllowed (o, d) = (length d ≤ 520) × (is_disabled o ≡ false)

-- The run of a script from a machine, as a proof of what it met.
abbrev Met : List ℕ → Machine → Machine → Type 0
Met script m m' =
    (is : List (Opcode × Item)) × Parses script is
    × All IsAllowed is
    × Nested (length m'.exec) (length m.exec) is
    × (m.op_count + counted is ≤ m'.op_count)
    × (m'.op_count ≤ 201)
    × (length m'.stack + length m'.alt ≤ max 1000 (length m.stack + length m.alt))

finish-ne-out_of_fuel : (r : Outcome Machine) → r ≢ out_of_fuel → finish r ≢ out_of_fuel
unfolding finish
finish-ne-out_of_fuel r h e = ground arith

finish-eq-accepted :
    (r : Outcome Machine) (s : List Item)
    → finish r ≡ accepted s
    → (m : Machine) × (r ≡ accepted m) × (length m.exec ≡ 0) × (m.stack ≡ s)
unfolding finish
finish-eq-accepted (accepted m) s e = (m, refl, ground arith, ground arith)
finish-eq-accepted rejected s e = cc
finish-eq-accepted out_of_fuel s e = cc

abbrev pub WithinLimits : List ℕ → List Item → List Item → Type 0
WithinLimits script s s' =
    (is : List (Opcode × Item)) × Parses script is
    × (length script ≤ 10000)
    × All IsAllowed is
    × Nested 0 0 is
    × (counted is ≤ 201)
    × (length s' ≤ max 1000 (length s))

Met-WithinLimits :
    (script : List ℕ) (s s' : List Item) (m : Machine)
    → length script ≤ 10000
    → length m.exec ≡ 0
    → m.stack ≡ s'
    → Met script (start s script) m
    → WithinLimits script s s'
Met-WithinLimits script s s' m short closed left (is, parsed, fine, nested, ops, most, fits) =
    (is, parsed, short, fine, rw closed at nested, omega arith, omega (arith, ap length left))

module _ (cx : Context) where
  -- One round ends the run, or goes on behind an instruction that was read and carried out.
  eval_loop-cases :
      (fuel b : ℕ) (pc : List ℕ) (m : Machine)
      → (eval_loop cx (suc fuel) (b ∷ pc) m ≡ rejected)
        ⊎ ((o : Opcode) × (d rest : List ℕ) × (m' : Machine) × (get_op (b ∷ pc) ≡ some (o, d, rest))
            × (step cx o d rest m ≡ some m')
            × (eval_loop cx (suc fuel) (b ∷ pc) m ≡ eval_loop cx fuel rest m'))
  unfolding eval_loop
  eval_loop-cases fuel b pc m = elim (Option-cases (get_op (b ∷ pc))) [
    | inl bad ↦ inl (rw (bad, eval_loop))
    | inr ((o, d, rest), read) ↦ elim (Option-cases (step cx o d rest m)) [
      | inl stop ↦ inl (rw (read, eval_loop) (rw stop))
      | inr (m', go) ↦ inr (o, d, rest, m', read, go, rw (read, eval_loop) (rw go))
    ]
  ]

  eval_loop-Met :
      (fuel : ℕ) (script : List ℕ) (m m' : Machine)
      → m.op_count ≤ 201
      → eval_loop cx fuel script m ≡ accepted m'
      → Met script m m'
  unfolding eval_loop
  eval_loop-Met fuel [] m m' h e =
      ([], end, tt, ground arith, ground arith, ground arith, ground arith)
  eval_loop-Met zero (b ∷ pc) m m' h e = cc
  eval_loop-Met (suc fuel) (b ∷ pc) m m' h e = elim (eval_loop-cases fuel b pc m) [
    | inl stop ↦ cc
    | inr (o, d, rest, m1, read, go, run) ↦
        let (short, enabled, depth, counts, few, small) = step_limits cx o d rest m m1 go h in
        let (is, parsed, fine, nested, ops, most, fits) = eval_loop-Met fuel rest m1 m' few (cc) in
        (
          (o, d) ∷ is,
          next read parsed,
          ((short, enabled), fine),
          (length m1.exec, depth, nested),
          omega arith,
          most,
          omega arith,
        )
  ]

  eval_loop-ne-out_of_fuel :
      (fuel : ℕ) (script : List ℕ) (m : Machine)
      → length script ≤ fuel
      → eval_loop cx fuel script m ≢ out_of_fuel
  unfolding eval_loop
  eval_loop-ne-out_of_fuel fuel [] m h e = cc
  eval_loop-ne-out_of_fuel zero (b ∷ pc) m h e = absurd (omega arith)
  eval_loop-ne-out_of_fuel (suc fuel) (b ∷ pc) m h e = elim (eval_loop-cases fuel b pc m) [
    | inl stop ↦ cc
    | inr (o, d, rest, m1, read, go, run) ↦
        eval_loop-ne-out_of_fuel fuel rest m1 (get_op_fuel fuel (b ∷ pc) o d rest read h) (cc)
  ]

  -- EvalScript ends on every script and stack: its loop never runs out of fuel.
  pub eval_script-ne-out_of_fuel :
      (s : List Item) (script : List ℕ) → eval_script cx s script ≢ out_of_fuel
  unfolding eval_script
  eval_script-ne-out_of_fuel s script e = ground (
    arith,
    finish-ne-out_of_fuel (eval_loop cx (length script) script (start s script)),
    eval_loop-ne-out_of_fuel (length script) script (start s script) (omega arith),
  )

  -- A script that EvalScript accepts has at most 10,000 bytes and can be read to its end; every
  -- operand has at most 520 bytes, no opcode is disabled, in whatever branch it stands, its
  -- conditionals are nested and closed, at most 201 operations are counted, and the stack that it
  -- leaves holds at most 1,000 items, unless more were there at the start.
  pub eval_script_limits :
      (s s' : List Item) (script : List ℕ)
      → eval_script cx s script ≡ accepted s'
      → WithinLimits script s s'
  unfolding eval_script
  eval_script_limits s s' script e = elim (Bool-cases (ltb 10000 (length script))) [
    | inl long ↦ cc (rw (long, eval_script) at e)
    | inr short ↦
        let (m, run, closed, left) = finish-eq-accepted _ s' (rw (short, eval_script) at e) in
        let met = eval_loop-Met (length script) script (start s script) m (omega arith) run in
        Met-WithinLimits script s s' m (ground arith) closed left met
  ]
