-- ===== src/Inputs/Queued.antt =====
-- The script checks of CheckInputs, run at once or handed to the check queue (src/main.cpp).
use tetra.Prelude.{
  ℕ, suc, ◌+◌, ◌≡◌, ◌≢◌, ◌↔◌, refl, ◌∙◌, sym, ap, subst, get_elem?, some, Bool, true, false, List,
  [], ◌∷◌, arith, All, Bool-cases, inl, inr, ◌⊎◌,
}
use tetra.Cash.{Cash, empty}
use tetra.Transaction.{TxIn, Transaction, is_coin_base}
use tetra.Script.Machine.{Context, Item}
use tetra.Script.Eval.{accepted}
use tetra.Script.Eval.Returns.{Returns, verify_script-Returns}
use tetra.Coins.Cache.{Entries, View, get_coins, through}
use tetra.Inputs.{
  CheckResult, Flags, ScriptCheck, check_fees, sum_inputs, run_check, on_failure, check_scripts,
  check_inputs,
}
use tetra.Inputs.Reads.{
  IsThere, Reads, Reads-get_coins, IsSum, available-get_elem?, have_inputs_lem, sum_inputs_lem,
}
use tetra.Inputs.Sound.{⊎-cases}

module _ (cx : Context) (check_sig : Transaction → ℕ → Item → Item → List ℕ → Bool) where
  -- The check runs to its end, and passes.
  abbrev pub Passes : ScriptCheck → Type 0
  Passes k = run_check cx check_sig k ≡ accepted true

module _ (cx : Context) (check_sig : Transaction → ℕ → Item → Item → List ℕ → Bool)
    (base v : View) where
  -- The checks of a loop are given back, and run to their end, and when run at once they pass if all of them do.
  abbrev IsChecked :
      CheckResult × List ScriptCheck × Entries → CheckResult × List ScriptCheck × Entries → Type 0
  IsChecked now later =
      (later.0 ≡ CheckResult.passed)
      × ((now.0 ≡ CheckResult.passed) ↔ All (Passes cx check_sig) later.1)
      × (now.0 ≢ CheckResult.aborted)
      × Reads base v now.2
      × Reads base v later.2
      × All (λ k. Returns (run_check cx check_sig k)) later.1

  run_check-Returns :
      (k : ScriptCheck) (i : TxIn)
      → get_elem? k.tx_to.vin k.n_in ≡ some i
      → Returns (run_check cx check_sig k)
  unfolding run_check
  run_check-Returns k i at =
      rw (run_check, at) (verify_script-Returns _ k.flags.p2sh i.script_sig k.script_pub_key)

  on_failure_lem :
      (k : ScriptCheck) (i : TxIn)
      → get_elem? k.tx_to.vin k.n_in ≡ some i
      → (on_failure cx check_sig k ≢ CheckResult.passed)
        × (on_failure cx check_sig k ≢ CheckResult.aborted)
  unfolding on_failure
  on_failure_lem k i at =
      let (b, e) =
        run_check-Returns (record k { flags = record k.flags { strict = false } }) i at in
      ground (arith, e)

  check_scripts_lem :
      (flags : Flags) (tx : Transaction) (is : List TxIn) (n : ℕ) (m m' : Entries)
      → Reads base v m
      → Reads base v m'
      → All (IsThere v) is
      → ((j : ℕ) (i : TxIn) → get_elem? is j ≡ some i → get_elem? tx.vin (n + j) ≡ some i)
      → IsChecked
          (check_scripts cx check_sig base false flags tx is n m)
          (check_scripts cx check_sig base true flags tx is n m')
  unfolding check_scripts
  check_scripts_lem flags tx [] n m m' h h' there inputs =
      (refl, ((λ e. tt), (λ a. refl)), (λ e. cc), h, h', tt)
  check_scripts_lem flags tx (i ∷ is) n m m' h h' ((c, o, is_c, is_o), there) inputs =
      let (here, later) = Reads-get_coins base v i.prevout.hash m h in
      let (here', later') = Reads-get_coins base v i.prevout.hash m' h' in
      let is_out = available-get_elem? i.prevout.n c.vout o is_o in
      let k : ScriptCheck = record {
        script_pub_key = o.script_pub_key;
        tx_to = tx;
        n_in = n;
        flags = flags;
      } in
      let m1 = (get_coins base i.prevout.hash m).1 in
      let m1' = (get_coins base i.prevout.hash m').1 in
      let now = check_scripts cx check_sig base false flags tx is (suc n) m1 in
      let queue = check_scripts cx check_sig base true flags tx is (suc n) m1' in
      let queued : check_scripts cx check_sig base true flags tx (i ∷ is) n m'
          ≡ (queue.0, k ∷ queue.1, queue.2) =
        ground (arith, here', is_out) in
      let same_n : n + 0 ≡ n = omega arith in
      let own : get_elem? tx.vin n ≡ some i =
        subst (λ x. get_elem? tx.vin x ≡ some i) same_n (inputs 0 i refl) in
      let (passes, agree, runs, reads, reads', end) =
        check_scripts_lem flags tx is (suc n) m1 m1' later later' there (λ j i' at.
          let next : n + suc j ≡ suc n + j = omega arith in
          subst (λ x. get_elem? tx.vin x ≡ some i') next (inputs (suc j) i' at)) in
      let whole : CheckResult × List ScriptCheck × Entries = (queue.0, k ∷ queue.1, queue.2) in
      let loop = check_scripts cx check_sig base false flags tx (i ∷ is) n m in
      let (b, ran) = run_check-Returns k i own in
      subst (IsChecked loop) (sym queued) (elim (Bool-cases b) [
        | inl good ↦
            let fine : Passes cx check_sig k = ran ∙ ap (λ x. accepted x) good in
            subst (λ r. IsChecked r whole) {x = now} {y = loop} (ground (arith, fine))
              (
                passes,
                ((λ e. (fine, agree.0 e)), (λ a. agree.1 a.1)),
                runs,
                reads,
                reads',
                ((b, ran), end),
              )
        | inr bad ↦
            let failed : run_check cx check_sig k ≡ accepted false =
              ran ∙ ap (λ x. accepted x) bad in
            subst (λ r. IsChecked r whole) {x = (on_failure cx check_sig k, [], m1)} {y = loop}
              (ground (arith, failed))
              (
                passes,
                (
                  (λ e. absurd ((on_failure_lem k i own).0 e)),
                  (λ a.
                      (let both : accepted true ≡ accepted false = sym a.0 ∙ failed in
                        absurd (ground arith))),
                ),
                (on_failure_lem k i own).1,
                later,
                reads',
                ((b, ran), end),
              )
      ])

CheckResult-cases : (r : CheckResult) → (r ≡ CheckResult.passed) ⊎ (r ≢ CheckResult.passed)
CheckResult-cases CheckResult.passed = inl refl
CheckResult-cases CheckResult.invalid = inr (λ e. cc)
CheckResult-cases (CheckResult.dos n) = inr (λ e. cc)
CheckResult-cases CheckResult.thrown = inr (λ e. cc)
CheckResult-cases CheckResult.aborted = inr (λ e. cc)

passed-ne-aborted : CheckResult.passed ≢ CheckResult.aborted
passed-ne-aborted e = cc

check_fees-ne-aborted : (t : Cash) (tx : Transaction) → check_fees t tx ≢ CheckResult.aborted
unfolding check_fees
check_fees-ne-aborted t tx e = ground arith

module _ (cx : Context) (check_sig : Transaction → ℕ → Item → Item → List ℕ → Bool)
    (base : View) where
  -- CheckInputs either comes to its scripts or has its result, whoever is to run them.
  check_inputs-cases :
      (script_checks : Bool) (flags : Flags) (tip_height : ℕ) (tx : Transaction) (m : Entries)
      → ((m' : Entries) × Reads base (through base m) m'
          × All (IsThere (through base m)) tx.vin
          × ((queued : Bool)
              → check_inputs cx check_sig base queued script_checks flags tip_height tx m
                ≡ check_scripts cx check_sig base queued flags tx tx.vin 0 m'))
        ⊎ ((r : CheckResult) × (m' : Entries) × Reads base (through base m) m'
            × (r ≢ CheckResult.aborted)
            × ((queued : Bool)
                → check_inputs cx check_sig base queued script_checks flags tip_height tx m
                  ≡ (r, [], m')))
  unfolding check_inputs
  check_inputs-cases script_checks flags tip_height tx m = elim (Bool-cases (is_coin_base tx.vin)) [
    | inl minted ↦ inr (CheckResult.passed, m, (λ k. refl), (λ e. cc), (λ queued. ground arith))
    | inr ordinary ↦
        (let v = through base m in
          let (b, m1, is_b, reads, there) = have_inputs_lem base v tx m ordinary (λ k. refl) in
          elim (Bool-cases b) [
            | inr gone ↦
                inr (CheckResult.invalid, m1, reads, (λ e. cc), (λ queued. ground (arith, is_b)))
            | inl all ↦
                (let (after, sum) =
                    sum_inputs_lem base v (suc tip_height) tx.vin empty m1 reads (there all) in
                  let r = (sum_inputs base (suc tip_height) tx.vin empty m1).0 in
                  let m2 = (sum_inputs base (suc tip_height) tx.vin empty m1).1 in
                  elim (⊎-cases r) [
                    | inl (k, is_k) ↦ inr (
                      k,
                      m2,
                      after,
                      (subst (IsSum base v (suc tip_height) tx.vin empty) is_k sum).0,
                      (λ queued. ground (arith, is_b)),
                    )
                    | inr (t, is_t) ↦ elim (CheckResult-cases (check_fees t tx)) [
                      | inr failed ↦ inr (
                        check_fees t tx,
                        m2,
                        after,
                        check_fees-ne-aborted t tx,
                        (λ queued. ground (arith, is_b)),
                      )
                      | inl fine ↦ elim (Bool-cases script_checks) [
                        | inr skipped ↦ inr (
                          CheckResult.passed,
                          m2,
                          after,
                          (λ e. cc),
                          (λ queued. ground (arith, is_b)),
                        )
                        | inl wanted ↦ inl (m2, after, there all, (λ queued. ground (arith, is_b)))
                      ]
                    ]
                  ])
          ])
  ]

  -- What running the scripts at once and handing them over have in common.
  abbrev pub Agree :
      Entries
      → CheckResult × List ScriptCheck × Entries
      → CheckResult × List ScriptCheck × Entries
      → Type 0
  Agree m now later =
      ((now.0 ≡ CheckResult.passed)
        ↔ ((later.0 ≡ CheckResult.passed) × All (Passes cx check_sig) later.1))
      × (now.0 ≢ CheckResult.aborted)
      × (later.0 ≢ CheckResult.aborted)
      × ((k : ℕ) → through base now.2 k ≡ through base m k)
      × ((k : ℕ) → through base later.2 k ≡ through base m k)
      × All (λ k. Returns (run_check cx check_sig k)) later.1

  IsChecked-Agree :
      (m : Entries) (now later : CheckResult × List ScriptCheck × Entries)
      → IsChecked cx check_sig base (through base m) now later
      → Agree m now later
  IsChecked-Agree m now later (passes, agree, runs, after, after', end) = (
    ((λ e. (passes, agree.0 e)), (λ a. agree.1 a.1)),
    runs,
    (λ e. passed-ne-aborted (sym passes ∙ e)),
    after,
    after',
    end,
  )

  -- CheckInputs accepts a transaction when it runs the scripts exactly when it accepts it with the
  -- checks handed over, and all of these pass. Either way it fails no assertion, and neither do the
  -- checks that are handed over, which all run to their end; and whatever can be read through the
  -- cache stays as it is.
  pub check_inputs-queued :
      (script_checks : Bool) (flags : Flags) (tip_height : ℕ) (tx : Transaction) (m : Entries)
      → Agree m
          (check_inputs cx check_sig base false script_checks flags tip_height tx m)
          (check_inputs cx check_sig base true script_checks flags tip_height tx m)
  check_inputs-queued script_checks flags tip_height tx m =
      elim (check_inputs-cases script_checks flags tip_height tx m) [
        | inl (m', reads, there, scripts) ↦
            rw (scripts false, scripts true)
              (IsChecked-Agree m (check_scripts cx check_sig base false flags tx tx.vin 0 m')
                (check_scripts cx check_sig base true flags tx tx.vin 0 m')
                (check_scripts_lem cx check_sig base (through base m) flags tx tx.vin 0 m' m' reads
                  reads there
                  (λ j i at.
                    let same_j : j ≡ 0 + j = omega arith in
                    subst (λ x. get_elem? tx.vin x ≡ some i) same_j at)))
        | inr (r, m', reads, runs, ends) ↦
            rw (ends false, ends true) (((λ e. (e, tt)), (λ a. a.0)), runs, runs, reads, reads, tt)
      ]
