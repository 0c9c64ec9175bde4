-- ===== src/CheckQueue/Sections.antt =====
-- The sections of Loop under the mutex (src/checkqueue.h) keep the invariant of the check queue.
use tetra.Prelude.{
  ℕ, zero, suc, ◌+◌, ◌-◌, ◌≤◌, ◌<◌, ◌≡◌, ◌≢◌, refl, subst, Bool, true, ◌&&◌, ◌||◌, List, [], ◌∷◌,
  some, arith, ◌==◌, if◌then◌else◌, length, get_elem?, set, take, drop, length-drop, Bool-cases,
  inl, inr, ◌⊎◌,
}
use tetra.CheckQueue.{Pc, Shared, System, Label, batch_of, proceed, go_on}
use tetra.CheckQueue.Counts.{weigh, weigh-set, le-weigh, batch_of_bounds, all_pass, all_pass-split}
use tetra.CheckQueue.Invariant.{load, is_void, waits, is_inside, is_bad, Inv, after}

List-cases : {T : Type 0} (xs : List T) → (xs ≡ []) ⊎ (0 < length xs)
List-cases [] = inl refl
List-cases (x ∷ xs) = inr (omega arith)

-- A batch takes its part of the verdict along.
shared_verdict :
    (ok here there all said : Bool) (w w' b : ℕ)
    → all ≡ (here && there)
    → w' + b ≡ w + (if ok && here then 0 else 1)
    → b ≤ w
    → (ok && all && (w == b)) ≡ said
    → (ok && there && (w' == 0)) ≡ said
shared_verdict ok here there all said w w' b split m le h = ground arith

module _ {T : Type 0} (pass : T → Bool) where
  abbrev bad : Pc T → ℕ
  bad = is_bad pass

  -- The state in a section of thread i, which was at p and counts as inside and with no batch.
  pub record Ready (i : ℕ) (p : Pc T) (work : List T) (s : Shared T) (ts : List (Pc T))
      : Type 0 where
    pub todo : s.n_todo + load p ≡ length s.queue + weigh load ts
    pub batches : weigh is_void ts ≡ 0
    pub idle : s.n_idle + waits p ≡ weigh waits ts
    pub total : s.n_total + is_inside p ≡ weigh is_inside ts + 1
    pub verdict :
        (s.all_ok && all_pass pass s.queue && (weigh bad ts == bad p)) ≡ all_pass pass work
    pub master : i ≢ 0 → get_elem? ts 0 ≡ some Pc.asleep → (0 < s.n_todo) × (s.queue ≡ [])

  -- The sums after thread i has gone from p to q.
  abbrev pub Moved : Pc T → Pc T → List (Pc T) → List (Pc T) → Type 0
  Moved p q ts ts' =
      (weigh load ts' + load p ≡ weigh load ts + load q)
      × (weigh is_void ts' + is_void p ≡ weigh is_void ts + is_void q)
      × (weigh waits ts' + waits p ≡ weigh waits ts + waits q)
      × (weigh is_inside ts' + is_inside p ≡ weigh is_inside ts + is_inside q)
      × (weigh bad ts' + bad p ≡ weigh bad ts + bad q)

  pub moved :
      (i : ℕ) (p q : Pc T) (ts : List (Pc T)) → get_elem? ts i ≡ some p → Moved p q ts (set ts i q)
  moved i p q ts e = (
    weigh-set load i p q ts e,
    weigh-set is_void i p q ts e,
    weigh-set waits i p q ts e,
    weigh-set is_inside i p q ts e,
    weigh-set bad i p q ts e,
  )

  -- Where no check is left no thread is bad.
  bad_le : (p : Pc T) → bad p ≤ load p + is_void p
  bad_le Pc.outside = omega arith
  bad_le Pc.asleep = omega arith
  bad_le Pc.awake = omega arith
  bad_le (Pc.running zero ok rest) = ground arith
  bad_le (Pc.running (suc n) ok rest) = ground arith

  weigh-bad_le : (ts : List (Pc T)) → weigh bad ts ≤ weigh load ts + weigh is_void ts
  weigh-bad_le [] = omega arith
  weigh-bad_le (p ∷ ts) = omega (arith, bad_le p, weigh-bad_le ts)

  -- Who sleeps as the master after thread i has gone on.
  pub sleeper :
      (i : ℕ) (p q : Pc T) (ts : List (Pc T))
      → get_elem? ts i ≡ some p
      → get_elem? (set ts i q) 0 ≡ some Pc.asleep
      → ((i ≡ 0) × (q ≡ Pc.asleep)) ⊎ ((i ≢ 0) × (get_elem? ts 0 ≡ some Pc.asleep))
  sleeper i p q [] at e = cc
  sleeper zero p q (x ∷ ts) at e = inl (refl, ground arith)
  sleeper (suc i) p q (x ∷ ts) at e = inr ((λ z. omega arith), e)

  returned :
      (ok b : Bool) {said : Bool}
      → ◌≡◌ {A = Label T} (Label.returns ok) (Label.returns b)
      → ok ≡ said
      → b ≡ said
  returned ok b e h = cc

  abbrev pub IsRight : List T → System T × Label T → Type 0
  IsRight work r =
      Inv pass (after r.1 work) r.0.shared r.0.threads
      × ((b : Bool) → r.1 ≡ Label.returns b → (b ≡ all_pass pass work) × (r.0.shared.n_todo ≡ 0))

  module _ (batch_size i : ℕ) (p : Pc T) (work : List T) (s : Shared T) (ts : List (Pc T))
      (at : get_elem? ts i ≡ some p) (ready : Ready i p work s ts) where
    open ready use {todo, batches, idle, total, verdict, master}

    -- The last thread leaves with the verdict.
    none_bad : s.queue ≡ [] → s.n_todo ≡ 0 → weigh bad (set ts i Pc.outside) ≡ 0
    none_bad empty zero_left =
        let m = moved i p Pc.outside ts at in
        let most = weigh-bad_le (set ts i Pc.outside) in ground arith

    said : s.queue ≡ [] → s.n_todo ≡ 0 → s.all_ok ≡ all_pass pass work
    said empty zero_left =
        let m = moved i p Pc.outside ts at in let none = none_bad empty zero_left in ground arith

    left :
        (ok : Bool) (work' : List T)
        → s.queue ≡ []
        → s.n_todo ≡ 0
        → ok ≡ all_pass pass work'
        → Inv pass work' (record s { n_total = s.n_total - 1; all_ok = ok }) (set ts i Pc.outside)
    left ok work' empty zero_left says =
        let m = moved i p Pc.outside ts at in
        let none = none_bad empty zero_left in
        record {
          todo = ground arith;
          batches = omega arith;
          idle = omega arith;
          total = omega arith;
          verdict = ground arith;
          master = λ e. elim (sleeper i p Pc.outside ts at e) [
            | inl (z, f) ↦ cc
            | inr other ↦ master other.0 other.1
          ];
        }

    slept :
        s.queue ≡ []
        → (i ≡ 0 → 0 < s.n_todo)
        → Inv pass work (record s { n_idle = s.n_idle + 1 }) (set ts i Pc.asleep)
    slept empty more =
        let m = moved i p Pc.asleep ts at in
        record {
          todo = ground arith;
          batches = omega arith;
          idle = omega arith;
          total = omega arith;
          verdict = ground arith;
          master = λ e. elim (sleeper i p Pc.asleep ts at e) [
            | inl own ↦ (more own.0, empty)
            | inr other ↦ master other.0 other.1
          ];
        }

    took :
        (n : ℕ)
        → 0 < n
        → n ≤ length s.queue
        → Inv pass work
            (record s { queue = drop n s.queue })
            (set ts i (Pc.running n s.all_ok (take n s.queue)))
    took n some_check enough =
        let q = Pc.running n s.all_ok (take n s.queue) in
        let m = moved i p q ts at in
        let split = all_pass-split pass n s.queue in
        record {
          todo = omega (arith, length-drop n s.queue);
          batches = ground arith;
          idle = omega arith;
          total = omega arith;
          verdict =
              shared_verdict s.all_ok (all_pass pass (take n s.queue))
                (all_pass pass (drop n s.queue)) (all_pass pass s.queue) (all_pass pass work)
                (weigh bad ts) (weigh bad (set ts i q)) (bad p) split m.4 (le-weigh bad i p ts at)
                verdict;
          master = λ e. elim (sleeper i p q ts at e) [
            | inl (z, f) ↦ cc
            | inr other ↦ absurd (ground (arith, master other.0 other.1))
          ];
        }

    pub go_on-IsRight : IsRight work (go_on batch_size i s ts)
    unfolding go_on proceed
    go_on-IsRight =
        let here = go_on batch_size i s ts in
        elim (List-cases s.queue) [
          | inl empty ↦ elim (Bool-cases ((i == 0 || s.quit) && s.n_todo == 0)) [
            | inr goes_on ↦
                subst (IsRight work)
                  {x = (
                    record {
                      shared = record s { n_idle = s.n_idle + 1 };
                      threads = set ts i Pc.asleep;
                    },
                    Label.quiet,
                  )}
                  {y = here} (ground arith) (slept empty (λ z. ground arith), λ b e. cc)
            | inl done ↦ elim (Bool-cases (i == 0)) [
              | inl master_i ↦
                  subst (IsRight work)
                    {x = (
                      record {
                        shared = record s { n_total = s.n_total - 1; all_ok = true };
                        threads = set ts i Pc.outside;
                      },
                      Label.returns s.all_ok,
                    )}
                    {y = here} (ground arith)
                    (
                      left true [] empty (ground arith) refl,
                      λ b e. (returned s.all_ok b e (said empty (ground arith)), ground arith),
                    )
              | inr worker ↦
                  subst (IsRight work)
                    {x = (
                      record {
                        shared = record s { n_total = s.n_total - 1; all_ok = s.all_ok };
                        threads = set ts i Pc.outside;
                      },
                      Label.quiet,
                    )}
                    {y = here} (ground arith)
                    (left s.all_ok work empty (ground arith) (said empty (ground arith)), λ b e. cc)
            ]
          ]
          | inr more ↦
              (let n = batch_of batch_size s in
                let bounds = batch_of_bounds batch_size s more in
                subst (IsRight work)
                  {x = (
                    record {
                      shared = record s { queue = drop n s.queue };
                      threads = set ts i (Pc.running n s.all_ok (take n s.queue));
                    },
                    Label.quiet,
                  )}
                  {y = here} (ground arith) (took n bounds.0 bounds.1, λ b e. cc))
        ]
