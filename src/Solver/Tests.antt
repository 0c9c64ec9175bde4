-- ===== src/Solver/Tests.antt =====
-- Runs of `Solver`, and the theorems at concrete inputs.
use tetra.Prelude.{ℕ, ◌≡◌, refl, true, List, [], ◌∷◌, some, ◌>>=◌, arith, map, replicate, take}
use tetra.PubKey.{get_id}
use tetra.Script.Parse.{script_for_key_id}
use tetra.Script.Machine.{Item}
use tetra.Solver.{TxnOutType, solver}
use tetra.Solver.Shapes.{solver-script_for_key_id}
use tetra.Solver.Destination.{TxDestination, set_multisig, extract_destinations}
use tetra.Solver.RoundTrip.{extract_destinations-set_multisig}
use tetra.Solver.Sound.{IsSolution, solver-IsSolution}

abbrev a_pub_key : Item
a_pub_key = 2 ∷ replicate 32 5

abbrev b_pub_key : Item
b_pub_key = 3 ∷ replicate 32 6

abbrev first_bytes : Item → Item
first_bytes d = take 20 d

extract_destinations-set_multisig_example :
    (set_multisig 1 (a_pub_key ∷ b_pub_key ∷ []) >>= extract_destinations first_bytes)
    ≡ some (
      TxnOutType.tx_multisig,
      map (λ key. TxDestination.key_id (get_id first_bytes key)) (a_pub_key ∷ b_pub_key ∷ []),
      1,
    )
extract_destinations-set_multisig_example =
    extract_destinations-set_multisig first_bytes 1 (a_pub_key ∷ b_pub_key ∷ []) (omega arith)
      (omega arith) (omega arith) (omega arith)

abbrev a_script : List ℕ
a_script = script_for_key_id (replicate 20 9)

a_script-ok : (solver a_script).ok ≡ true
a_script-ok = rw (solver-script_for_key_id (replicate 20 9) refl) refl

solver-IsSolution_example : IsSolution (solver a_script).type_ret (solver a_script).solutions
solver-IsSolution_example = solver-IsSolution a_script a_script-ok
