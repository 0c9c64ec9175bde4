-- ===== src/CheckQueue/Steps.antt =====
-- Every step of the check queue (src/checkqueue.h) keeps its invariant.
use tetra.Prelude.{
  ℕ, zero, suc, ◌+◌, ◌-◌, ◌<◌, ◌≡◌, ◌≢◌, refl, ◌∙◌, subst, Bool, ◌&&◌, List, [], ◌∷◌, ◌++◌, some,
  arith, ◌==◌, length, get_elem?, set, Bool-cases, inl, inr,
}
use tetra.CheckQueue.{
  Pc, Shared, System, wake, wake_at, clean_up, notifies, go_on, section, push_back_all,
  notify_workers,
}
use tetra.CheckQueue.Counts.{
  weigh, le-weigh, weigh-wake_at, weigh-notify_workers, notify_workers-master, all_pass-append,
  all_pass-push_back_all, length-push_back_all,
}
use tetra.CheckQueue.Invariant.{load, is_void, waits, is_inside, is_bad, Inv}
use tetra.CheckQueue.Sections.{Ready, moved, sleeper, IsRight, go_on-IsRight}

module _ {T : Type 0} where
  wake_at-asleep :
      (i j : ℕ) (ts : List (Pc T))
      → get_elem? (wake_at i ts) j ≡ some Pc.asleep
      → get_elem? ts j ≡ some Pc.asleep
  unfolding wake_at wake
  wake_at-asleep i j [] e = cc
  wake_at-asleep zero zero (p ∷ ts) e = ground arith
  wake_at-asleep zero (suc j) (p ∷ ts) e = e
  wake_at-asleep (suc i) zero (p ∷ ts) e = e
  wake_at-asleep (suc i) (suc j) (p ∷ ts) e = wake_at-asleep i j ts e

  wake_at-other :
      (j : ℕ) (ts : List (Pc T)) → get_elem? (wake_at 0 ts) (suc j) ≡ get_elem? ts (suc j)
  unfolding wake_at
  wake_at-other j [] = refl
  wake_at-other j (p ∷ ts) = refl

  wake_at-master : (ts : List (Pc T)) → get_elem? (wake_at 0 ts) 0 ≢ some Pc.asleep
  unfolding wake_at wake
  wake_at-master [] e = cc
  wake_at-master (p ∷ ts) e = ground arith

module _ {T : Type 0} (pass : T → Bool) where
  pub entered :
      (i : ℕ) (work : List T) (s : Shared T) (ts : List (Pc T))
      → get_elem? ts i ≡ some Pc.outside
      → Inv pass work s ts
      → Ready pass i Pc.outside work (record s { n_total = s.n_total + 1 }) ts
  entered i work s ts at inv = record {
    todo = ground (arith, inv.todo);
    batches = inv.batches;
    idle = ground (arith, inv.idle);
    total = ground (arith, inv.total);
    verdict = inv.verdict;
    master = λ z e. inv.master e;
  }

  pub resumed :
      (i : ℕ) (work : List T) (s : Shared T) (ts : List (Pc T))
      → get_elem? ts i ≡ some Pc.awake
      → Inv pass work s ts
      → Ready pass i Pc.awake work (record s { n_idle = s.n_idle - 1 }) ts
  resumed i work s ts at inv = record {
    todo = ground (arith, inv.todo);
    batches = inv.batches;
    idle = ground (arith, inv.idle, le-weigh waits i Pc.awake ts at);
    total = ground (arith, inv.total);
    verdict = inv.verdict;
    master = λ z e. inv.master e;
  }

  -- The sums do not change when the master is notified.
  abbrev pub Alike : List (Pc T) → List (Pc T) → Type 0
  Alike ts' ts =
      (weigh load ts' ≡ weigh load ts)
      × (weigh is_void ts' ≡ weigh is_void ts)
      × (weigh waits ts' ≡ weigh waits ts)
      × (weigh is_inside ts' ≡ weigh is_inside ts)
      × (weigh (is_bad pass) ts' ≡ weigh (is_bad pass) ts)

  Alike-wake : (i : ℕ) (ts : List (Pc T)) → Alike (wake_at i ts) ts
  Alike-wake i ts = (
    weigh-wake_at load i ts refl,
    weigh-wake_at is_void i ts refl,
    weigh-wake_at waits i ts refl,
    weigh-wake_at is_inside i ts refl,
    weigh-wake_at (is_bad pass) i ts refl,
  )

  finished :
      (i n : ℕ) (ok : Bool) (work : List T) (s : Shared T) (ts ts' : List (Pc T))
      → get_elem? ts i ≡ some (Pc.running n ok [])
      → Alike ts' ts
      → (i ≢ 0 → get_elem? ts' 0 ≡ some Pc.asleep → (0 < s.n_todo - n) × (s.queue ≡ []))
      → Inv pass work s ts
      → Ready pass i
          (Pc.running n ok [])
          work
          (record s { all_ok = s.all_ok && ok; n_todo = s.n_todo - n })
          ts'
  finished i n ok work s ts ts' at alike more inv =
      let p : Pc T = Pc.running n ok [] in
      record {
        todo = omega (arith, inv.todo, le-weigh load i p ts at, alike.0);
        batches = omega (arith, inv.batches, alike.1);
        idle = omega (arith, inv.idle, alike.2);
        total = omega (arith, inv.total, alike.3);
        verdict = ground (arith, inv.verdict, le-weigh (is_bad pass) i p ts at, alike.4);
        master = more;
      }

  -- The section after a batch, for the master and for a worker.
  pub finished-IsRight :
      (batch_size i n : ℕ) (ok : Bool) (work : List T) (s : System T)
      → get_elem? s.threads i ≡ some (Pc.running n ok [])
      → Inv pass work s.shared s.threads
      → IsRight pass work (section batch_size i n ok s)
  unfolding section notifies clean_up
  finished-IsRight batch_size i zero ok work s at inv =
      absurd (omega (arith, inv.batches, le-weigh is_void i (Pc.running zero ok []) s.threads at))
  finished-IsRight batch_size zero (suc n) ok work s at inv =
      let p : Pc T = Pc.running (suc n) ok [] in
      let cleaned : Shared T = record s.shared {
        all_ok = s.shared.all_ok && ok;
        n_todo = s.shared.n_todo - suc n;
      } in
      let here = section batch_size 0 (suc n) ok s in
      subst (IsRight pass work) {x = go_on batch_size 0 cleaned s.threads} {y = here} (ground arith)
        (go_on-IsRight pass batch_size 0 p work cleaned s.threads at (
          finished 0 (suc n) ok work s.shared s.threads s.threads at (refl, refl, refl, refl, refl)
            (λ z. absurd (z refl)) inv))
  finished-IsRight batch_size (suc i) (suc n) ok work s at inv =
      let p : Pc T = Pc.running (suc n) ok [] in
      let cleaned : Shared T = record s.shared {
        all_ok = s.shared.all_ok && ok;
        n_todo = s.shared.n_todo - suc n;
      } in
      let woken = wake_at 0 s.threads in
      let here = section batch_size (suc i) (suc n) ok s in
      elim (Bool-cases (s.shared.n_todo - suc n == 0)) [
        | inl last ↦
            (let at' : get_elem? woken (suc i) ≡ some p = wake_at-other i s.threads ∙ at in
              subst (IsRight pass work) {x = go_on batch_size (suc i) cleaned woken} {y = here}
                (ground arith)
                (go_on-IsRight pass batch_size (suc i) p work cleaned woken at' (
                  finished (suc i) (suc n) ok work s.shared s.threads woken at
                    (Alike-wake 0 s.threads) (λ z e. absurd (wake_at-master s.threads e)) inv)))
        | inr more ↦
            subst (IsRight pass work) {x = go_on batch_size (suc i) cleaned s.threads} {y = here}
              (ground arith)
              (go_on-IsRight pass batch_size (suc i) p work cleaned s.threads at (
                finished (suc i) (suc n) ok work s.shared s.threads s.threads at
                  (refl, refl, refl, refl, refl) (λ z e. (ground arith, (inv.master e).1)) inv))
      ]

  pub moves :
      (i : ℕ) (p q : Pc T) (work : List T) (s : Shared T) (ts : List (Pc T))
      → get_elem? ts i ≡ some p
      → Alike (p ∷ []) (q ∷ [])
      → (q ≢ Pc.asleep)
      → Inv pass work s ts
      → Inv pass work s (set ts i q)
  moves i p q work s ts at same up inv =
      let m = moved pass i p q ts at in
      record {
        todo = omega (arith, inv.todo);
        batches = omega (arith, inv.batches);
        idle = omega (arith, inv.idle);
        total = omega (arith, inv.total);
        verdict = ground (arith, inv.verdict);
        master = λ e. elim (sleeper pass i p q ts at e) [
          | inl own ↦ absurd (up own.1)
          | inr other ↦ inv.master other.1
        ];
      }

  pub added :
      (cs : List T) (pick : ℕ) (work : List T) (s : Shared T) (ts ts' : List (Pc T))
      → get_elem? ts 0 ≡ some Pc.outside
      → notify_workers (length cs) pick ts ≡ some ts'
      → Inv pass work s ts
      → Inv pass
          (work ++ cs)
          (record s { queue = push_back_all cs s.queue; n_todo = s.n_todo + length cs })
          ts'
  added cs pick work s ts ts' at note inv =
      let n = length cs in
      record {
        todo = omega (
          arith,
          inv.todo,
          length-push_back_all cs s.queue,
          weigh-notify_workers load n pick ts ts' refl note,
        );
        batches = omega (arith, inv.batches, weigh-notify_workers is_void n pick ts ts' refl note);
        idle = omega (arith, inv.idle, weigh-notify_workers waits n pick ts ts' refl note);
        total = omega (arith, inv.total, weigh-notify_workers is_inside n pick ts ts' refl note);
        verdict = ground (
          arith,
          inv.verdict,
          all_pass-push_back_all pass cs s.queue,
          all_pass-append pass work cs,
          weigh-notify_workers (is_bad pass) n pick ts ts' refl note,
        );
        master = λ e. absurd (ground (arith, notify_workers-master n pick ts ts' note));
      }

  pub stirred :
      (i : ℕ) (work : List T) (s : Shared T) (ts : List (Pc T))
      → Inv pass work s ts
      → Inv pass work s (wake_at i ts)
  stirred i work s ts inv =
      let alike = Alike-wake i ts in
      record {
        todo = omega (arith, inv.todo);
        batches = omega (arith, inv.batches);
        idle = omega (arith, inv.idle);
        total = omega (arith, inv.total);
        verdict = ground (arith, inv.verdict);
        master = λ e. inv.master (wake_at-asleep i 0 ts e);
      }
