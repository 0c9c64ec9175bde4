-- ===== src/Script/Eval/Step.antt =====
-- What one instruction does to the conditionals and to the count of operations.
use tetra.Prelude.{
  ℕ, zero, suc, ◌+◌, ◌≤◌, ◌≡◌, refl, Bool, true, false, ◌&&◌, List, Option, none, some, arith, leb,
  if◌then◌else◌, length, max,
}
use tetra.Script.Opcode.{Opcode, value}
use tetra.Script.Walk.{is_counted}
use tetra.Script.Machine.{Item, Machine, Context, if_op, else_op, endif_op, to_alt, from_alt}
use tetra.Script.Compute.{multisig_op}
use tetra.Script.Eval.{execute, dispatch, step, count_op, is_disabled, all_true}

-- How the number of open conditionals goes on behind an opcode; `none` without one to close.
unfoldable pub depth_after : Opcode → ℕ → Option ℕ
depth_after Opcode.op_if n = some (suc n)
depth_after Opcode.op_notif n = some (suc n)
depth_after Opcode.op_else zero = none
depth_after Opcode.op_else (suc n) = some (suc n)
depth_after Opcode.op_endif zero = none
depth_after Opcode.op_endif (suc n) = some n
depth_after o n = some n

if_op-depth :
    (negate running : Bool) (m m' : Machine)
    → if_op negate running m ≡ some m'
    → (length m'.exec ≡ suc (length m.exec)) × (m'.op_count ≡ m.op_count)
unfolding if_op
if_op-depth negate running m m' e = ground arith

else_op-depth :
    (m m' : Machine)
    → else_op m ≡ some m'
    → (depth_after Opcode.op_else (length m.exec) ≡ some (length m'.exec))
      × (m'.op_count ≡ m.op_count)
unfolding else_op depth_after
else_op-depth m m' e = ground arith

endif_op-depth :
    (m m' : Machine)
    → endif_op m ≡ some m'
    → (depth_after Opcode.op_endif (length m.exec) ≡ some (length m'.exec))
      × (m'.op_count ≡ m.op_count)
unfolding endif_op depth_after
endif_op-depth m m' e = ground arith

alt-keeps :
    (m m' : Machine)
    → (to_alt m ≡ some m' → (m'.exec ≡ m.exec) × (m'.op_count ≡ m.op_count))
      × (from_alt m ≡ some m' → (m'.exec ≡ m.exec) × (m'.op_count ≡ m.op_count))
unfolding to_alt from_alt
alt-keeps m m' = ((λ e. ground arith), (λ e. ground arith))

multisig_op-keeps :
    (cx : Context) (verify : Bool) (m m' : Machine)
    → multisig_op cx verify m ≡ some m'
    → (m'.exec ≡ m.exec) × (m.op_count ≤ m'.op_count) × (m'.op_count ≤ 201)
unfolding multisig_op
multisig_op-keeps cx verify m m' e = ground arith

-- Outside IF to ENDIF an opcode leaves the conditionals alone, so one that is not run may be skipped.
depth_after-skipped :
    (o : Opcode) (n : ℕ)
    → (leb 0x63 (value o) && leb (value o) 0x68) ≡ false
    → depth_after o n ≡ some n
unfolding value depth_after
depth_after-skipped Opcode.op_if n h = cc
depth_after-skipped Opcode.op_notif n h = cc
depth_after-skipped Opcode.op_else n h = cc
depth_after-skipped Opcode.op_endif n h = cc
depth_after-skipped _ n h = refl

depth_after-push : (o : Opcode) (n : ℕ) → leb (value o) 0x4e ≡ true → depth_after o n ≡ some n
unfolding value depth_after
depth_after-push Opcode.op_if n h = cc
depth_after-push Opcode.op_notif n h = cc
depth_after-push Opcode.op_else n h = cc
depth_after-push Opcode.op_endif n h = cc
depth_after-push _ n h = refl

module _ (cx : Context) where
  execute-keeps :
      (o : Opcode) (running : Bool) (pc : List ℕ) (m m' : Machine)
      → execute cx o running pc m ≡ some m'
      → (depth_after o (length m.exec) ≡ some (length m'.exec))
        × (m.op_count ≤ m'.op_count)
        × (m'.op_count ≤ max m.op_count 201)
  unfolding execute depth_after
  execute-keeps Opcode.op_if running pc m m' e = ground (arith, if_op-depth false running m m')
  execute-keeps Opcode.op_notif running pc m m' e = ground (arith, if_op-depth true running m m')
  execute-keeps Opcode.op_else running pc m m' e = ground (arith, else_op-depth m m')
  execute-keeps Opcode.op_endif running pc m m' e = ground (arith, endif_op-depth m m')
  execute-keeps Opcode.op_toaltstack running pc m m' e = ground (arith, (alt-keeps m m').0)
  execute-keeps Opcode.op_fromaltstack running pc m m' e = ground (arith, (alt-keeps m m').1)
  execute-keeps Opcode.op_checkmultisig running pc m m' e =
      ground (arith, multisig_op-keeps cx false m m')
  execute-keeps Opcode.op_checkmultisigverify running pc m m' e =
      ground (arith, multisig_op-keeps cx true m m')
  execute-keeps _ running pc m m' e = ground arith

  dispatch-keeps :
      (o : Opcode) (d : Item) (pc : List ℕ) (m m' : Machine)
      → dispatch cx o d pc m ≡ some m'
      → (depth_after o (length m.exec) ≡ some (length m'.exec))
        × (m.op_count ≤ m'.op_count)
        × (m'.op_count ≤ max m.op_count 201)
  unfolding dispatch
  dispatch-keeps o d pc m m' e = ground (
    arith,
    depth_after-push o (length m.exec),
    depth_after-skipped o (length m.exec),
    execute-keeps o (all_true m.exec) pc m m',
  )

  -- The limits that a successful round has met, and its effect on the conditionals.
  pub step_limits :
      (o : Opcode) (d : Item) (pc : List ℕ) (m m' : Machine)
      → step cx o d pc m ≡ some m'
      → m.op_count ≤ 201
      → (length d ≤ 520)
        × (is_disabled o ≡ false)
        × (depth_after o (length m.exec) ≡ some (length m'.exec))
        × (m.op_count + (if is_counted o then 1 else 0) ≤ m'.op_count)
        × (m'.op_count ≤ 201)
        × (length m'.stack + length m'.alt ≤ 1000)
  unfolding step count_op
  step_limits o d pc m m' e h = ground (arith, dispatch-keeps o d pc (count_op o m) m')
