-- ===== src/CheckQueue/Runs.antt =====
-- Runs of the check queue from its construction (src/checkqueue.h), with any number of workers.
use tetra.Prelude.{
  ℕ, zero, suc, ◌+◌, ◌-◌, ◌≡◌, refl, sym, subst, Bool, true, false, List, [], ◌∷◌, some, arith,
  if◌then◌else◌, length, get_elem?, set, replicate, Option-cases, inl, inr,
}
use tetra.CheckQueue.{
  Pc, Shared, System, Label, Event, unused, wake_at, clean_up, notifies, go_on, section, fire,
  push_back_all, notify_workers,
}
use tetra.CheckQueue.Counts.{weigh}
use tetra.CheckQueue.Invariant.{load, is_void, waits, is_inside, is_bad, Inv, after}
use tetra.CheckQueue.Sections.{IsRight, go_on-IsRight}
use tetra.CheckQueue.Steps.{Alike, entered, resumed, finished-IsRight, stirred, moves, added}

module _ {T : Type 0} (pass : T → Bool) (batch_size : ℕ) where
  quiet-IsRight :
      (work : List T) (s : System T)
      → Inv pass work s.shared s.threads
      → IsRight pass work (s, Label.quiet)
  quiet-IsRight work s inv = (inv, λ b e. cc)

  module _ (i : ℕ) (work : List T) (s : System T) (r : System T × Label T)
      (inv : Inv pass work s.shared s.threads) where
    enter-IsRight :
        (p : Pc T)
        → get_elem? s.threads i ≡ some p
        → fire pass batch_size (Event.enter i) s ≡ some r
        → IsRight pass work r
    unfolding fire section clean_up notifies
    enter-IsRight Pc.outside at h =
        subst (IsRight pass work) {x = section batch_size i 0 true s} {y = r} (ground arith) (
          go_on-IsRight pass batch_size i Pc.outside work _ s.threads at
            (entered pass i work s.shared s.threads at inv))
    enter-IsRight p at h = absurd (ground arith)

    check-IsRight :
        (p : Pc T)
        → get_elem? s.threads i ≡ some p
        → fire pass batch_size (Event.check i) s ≡ some r
        → IsRight pass work r
    unfolding fire
    check-IsRight (Pc.running n ok (c ∷ rest)) at h =
        let p : Pc T = Pc.running n ok (c ∷ rest) in
        let q : Pc T = Pc.running n (if ok then pass c else false) rest in
        let same : Alike pass (p ∷ []) (q ∷ []) = (refl, ground arith, refl, refl, ground arith) in
        subst (IsRight pass work) {x = (record s { threads = set s.threads i q }, Label.quiet)}
          {y = r} (ground arith)
          (quiet-IsRight work (record s { threads = set s.threads i q })
            (moves pass i p q work s.shared s.threads at same (λ e. cc) inv))
    check-IsRight p at h = absurd (ground arith)

    finish-IsRight :
        (p : Pc T)
        → get_elem? s.threads i ≡ some p
        → fire pass batch_size (Event.finish i) s ≡ some r
        → IsRight pass work r
    unfolding fire
    finish-IsRight (Pc.running n ok []) at h =
        subst (IsRight pass work) {x = section batch_size i n ok s} {y = r} (ground arith)
          (finished-IsRight pass batch_size i n ok work s at inv)
    finish-IsRight p at h = absurd (ground arith)

    resume-IsRight :
        (p : Pc T)
        → get_elem? s.threads i ≡ some p
        → fire pass batch_size (Event.resume i) s ≡ some r
        → IsRight pass work r
    unfolding fire
    resume-IsRight Pc.awake at h =
        let less : Shared T = record s.shared { n_idle = s.shared.n_idle - 1 } in
        subst (IsRight pass work) {x = go_on batch_size i less s.threads} {y = r} (ground arith) (
          go_on-IsRight pass batch_size i Pc.awake work less s.threads at
            (resumed pass i work s.shared s.threads at inv))
    resume-IsRight p at h = absurd (ground arith)

    stir-IsRight :
        (p : Pc T)
        → get_elem? s.threads i ≡ some p
        → fire pass batch_size (Event.stir i) s ≡ some r
        → IsRight pass work r
    unfolding fire
    stir-IsRight Pc.asleep at h =
        let s' : System T = record s { threads = wake_at i s.threads } in
        subst (IsRight pass work) {x = (s', Label.quiet)} {y = r} (ground arith)
          (quiet-IsRight work s' (stirred pass i work s.shared s.threads inv))
    stir-IsRight p at h = absurd (ground arith)

  add-IsRight :
      (cs : List T) (pick : ℕ) (work : List T) (s : System T) (r : System T × Label T)
      → Inv pass work s.shared s.threads
      → (p : Pc T) → get_elem? s.threads 0 ≡ some p
      → fire pass batch_size (Event.add cs pick) s ≡ some r
      → IsRight pass work r
  unfolding fire
  add-IsRight cs pick work s r inv Pc.outside at h =
      elim (Option-cases (notify_workers (length cs) pick s.threads)) [
        | inl nobody ↦ absurd (ground arith)
        | inr (ts, note) ↦
            (let s' : System T = record {
              shared = record s.shared {
                queue = push_back_all cs s.shared.queue;
                n_todo = s.shared.n_todo + length cs;
              };
              threads = ts;
            } in
              subst (IsRight pass work) {x = (s', Label.adds cs)} {y = r} (ground arith)
                (added pass cs pick work s.shared s.threads ts at note inv, λ b e. cc))
      ]
  add-IsRight cs pick work s r inv p at h = absurd (ground arith)

  -- Every step is right.
  pub fire-IsRight :
      (e : Event T) (work : List T) (s : System T) (r : System T × Label T)
      → Inv pass work s.shared s.threads
      → fire pass batch_size e s ≡ some r
      → IsRight pass work r
  unfolding fire
  fire-IsRight (Event.enter i) work s r inv h = elim (Option-cases (get_elem? s.threads i)) [
    | inl nobody ↦ absurd (ground arith)
    | inr (p, at) ↦ enter-IsRight i work s r inv p at h
  ]
  fire-IsRight (Event.check i) work s r inv h = elim (Option-cases (get_elem? s.threads i)) [
    | inl nobody ↦ absurd (ground arith)
    | inr (p, at) ↦ check-IsRight i work s r inv p at h
  ]
  fire-IsRight (Event.finish i) work s r inv h = elim (Option-cases (get_elem? s.threads i)) [
    | inl nobody ↦ absurd (ground arith)
    | inr (p, at) ↦ finish-IsRight i work s r inv p at h
  ]
  fire-IsRight (Event.resume i) work s r inv h = elim (Option-cases (get_elem? s.threads i)) [
    | inl nobody ↦ absurd (ground arith)
    | inr (p, at) ↦ resume-IsRight i work s r inv p at h
  ]
  fire-IsRight (Event.stir i) work s r inv h = elim (Option-cases (get_elem? s.threads i)) [
    | inl nobody ↦ absurd (ground arith)
    | inr (p, at) ↦ stir-IsRight i work s r inv p at h
  ]
  fire-IsRight (Event.add cs pick) work s r inv h = elim (Option-cases (get_elem? s.threads 0)) [
    | inl nobody ↦ absurd (ground arith)
    | inr (p, at) ↦ add-IsRight cs pick work s r inv p at h
  ]

  -- The threads outside Loop, and nothing done.
  abbrev pub start : ℕ → System T
  start workers = record { shared = unused; threads = replicate (suc workers) Pc.outside }

  -- A run to a state, with the checks that were added since Wait last returned.
  pub data Run (workers : ℕ) : List T → System T → Type 0 where
    begin : Run workers [] (start workers)
    next :
        {work : List T} {s : System T} {s' : System T} {l : Label T} (e : Event T)
        → Run workers work s
        → fire pass batch_size e s ≡ some (s', l)
        → Run workers (after l work) s'

  weigh-replicate : (f : Pc T → ℕ) (n : ℕ) → f Pc.outside ≡ 0 → weigh f (replicate n Pc.outside) ≡ 0
  weigh-replicate f zero e = refl
  weigh-replicate f (suc n) e = omega (arith, weigh-replicate f n e)

  -- In every run, nTodo counts the checks in the queue and in the batches, nIdle and nTotal count the
  -- threads that wait and those in Loop; the verdict so far, with that on the checks that are left, is
  -- the verdict on all that were added; and a master that sleeps has something to wait for.
  pub Run-Inv :
      (workers : ℕ) {work : List T} {s : System T}
      → Run workers work s
      → Inv pass work s.shared s.threads
  Run-Inv workers begin = record {
    todo = omega (arith, weigh-replicate load (suc workers) refl);
    batches = weigh-replicate is_void (suc workers) refl;
    idle = sym (weigh-replicate waits (suc workers) refl);
    total = sym (weigh-replicate is_inside (suc workers) refl);
    verdict = ground (arith, weigh-replicate (is_bad pass) (suc workers) refl);
    master = λ e. cc;
  }
  Run-Inv workers (next {work = work} {s = s} {s' = s'} {l = l} e run h) =
      (fire-IsRight e work s (s', l) (Run-Inv workers run) h).0
