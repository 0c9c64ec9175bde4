-- ===== src/CheckQueue/Wait.antt =====
-- What Wait returns, and that it is never stuck (src/checkqueue.h).
use tetra.Prelude.{
  ℕ, zero, suc, ◌-◌, ◌<◌, ◌≡◌, ◌≢◌, refl, subst, Bool, true, false, List, [], ◌∷◌, some, arith,
  if◌then◌else◌, get_elem?, set,
}
use tetra.CheckQueue.{Pc, System, Label, Event, go_on, section, fire}
use tetra.CheckQueue.Counts.{weigh, all_pass}
use tetra.CheckQueue.Invariant.{load, is_void, waits, is_inside}
use tetra.CheckQueue.Runs.{fire-IsRight, Run, Run-Inv}

module _ {T : Type 0} where
  -- Without load all threads in Loop wait.
  waits-is_inside : (p : Pc T) → load p ≡ 0 → is_void p ≡ 0 → is_inside p ≡ waits p
  waits-is_inside Pc.outside h k = refl
  waits-is_inside Pc.asleep h k = refl
  waits-is_inside Pc.awake h k = refl
  waits-is_inside (Pc.running n ok rest) h k = absurd (ground arith)

  weigh-waits-is_inside :
      (ts : List (Pc T))
      → weigh load ts ≡ 0
      → weigh is_void ts ≡ 0
      → weigh is_inside ts ≡ weigh waits ts
  weigh-waits-is_inside [] h k = refl
  weigh-waits-is_inside (p ∷ ts) h k = omega (
    arith,
    waits-is_inside p (omega arith) (omega arith),
    weigh-waits-is_inside ts (omega arith) (omega arith),
  )

  -- A thread with a batch, where there is load.
  busy :
      (ts : List (Pc T))
      → 0 < weigh load ts
      → (i : ℕ) × (n : ℕ) × (ok : Bool) × (rest : List T) × (get_elem? ts i
          ≡ some (Pc.running n ok rest))
  busy [] h = absurd (omega arith)
  busy (Pc.running n ok rest ∷ ts) h = (0, n, ok, rest, refl)
  busy (Pc.outside ∷ ts) h =
      let (i, n, ok, rest, e) = busy ts (omega arith) in (suc i, n, ok, rest, e)
  busy (Pc.asleep ∷ ts) h =
      let (i, n, ok, rest, e) = busy ts (omega arith) in (suc i, n, ok, rest, e)
  busy (Pc.awake ∷ ts) h =
      let (i, n, ok, rest, e) = busy ts (omega arith) in (suc i, n, ok, rest, e)

  -- What a thread with a batch does next: the first check that is left, or the end of the batch.
  abbrev pub next_of : ℕ → List T → Event T
  next_of i [] = Event.finish i
  next_of i (c ∷ rest) = Event.check i

  -- The event is the work of the thread that can go on while the master is at `p` in Wait: the master
  -- itself, when it was notified or has a batch, and a worker with a batch while the master sleeps.
  unfoldable pub GoesOn : Pc T → List (Pc T) → Event T → Type 0
  GoesOn Pc.outside ts e = ¬ Unit {0}
  GoesOn Pc.awake ts e = e ≡ Event.resume 0
  GoesOn (Pc.running n ok rest) ts e = e ≡ next_of 0 rest
  GoesOn Pc.asleep ts e =
      (i : ℕ) × (n : ℕ) × (ok : Bool) × (rest : List T) × (get_elem? ts (suc i)
        ≡ some (Pc.running n ok rest))
      × (e ≡ next_of (suc i) rest)

  -- A thread with a batch is a worker while the master sleeps.
  busy_worker :
      (ts : List (Pc T)) (i n : ℕ) (ok : Bool) (rest : List T)
      → get_elem? ts 0 ≡ some Pc.asleep
      → get_elem? ts i ≡ some (Pc.running n ok rest)
      → (j : ℕ) × (i ≡ suc j)
  busy_worker ts zero n ok rest sleeps at =
      let both : Pc.asleep ≡ Pc.running n ok rest = ground (arith, sleeps, at) in
      absurd (ground arith)
  busy_worker ts (suc j) n ok rest sleeps at = (j, refl)

module _ {T : Type 0} (pass : T → Bool) (batch_size : ℕ) where
  -- Whatever the order of the steps and the number of workers, Wait returns whether all checks pass
  -- that were added since it last returned. The queue is then as CCheckQueueControl asks for: nTodo is
  -- 0, all threads in Loop wait, and fAllOk is set.
  pub fire-returns :
      (workers : ℕ) {work : List T} {s s' : System T} {b : Bool} (e : Event T)
      → Run pass batch_size workers work s
      → fire pass batch_size e s ≡ some (s', Label.returns b)
      → (b ≡ all_pass pass work)
        × (s'.shared.n_todo ≡ 0)
        × (s'.shared.n_total ≡ s'.shared.n_idle)
        × (s'.shared.all_ok ≡ true)
  fire-returns workers {work} {s} {s'} {b} e run h =
      let (inv, said) =
        fire-IsRight pass batch_size e work s (s', Label.returns b)
          (Run-Inv pass batch_size workers run) h in
      let (right, none_left) = said b refl in
      let idle = weigh-waits-is_inside s'.threads (omega (arith, inv.todo)) inv.batches in
      (right, none_left, omega (arith, inv.idle, inv.total), ground (arith, inv.verdict))

  runs :
      (i n : ℕ) (ok : Bool) (rest : List T) (s : System T)
      → get_elem? s.threads i ≡ some (Pc.running n ok rest)
      → (r : System T × Label T) × (fire pass batch_size (next_of i rest) s ≡ some r)
  unfolding fire
  runs i n ok [] s at = (section batch_size i n ok s, ground arith)
  runs i n ok (c ∷ rest) s at = (
    (
      record s { threads = set s.threads i (Pc.running n (if ok then pass c else false) rest) },
      Label.quiet,
    ),
    ground arith,
  )

  -- While the master is in Wait, a thread can go on with its work: when the master was notified, it goes on
  -- with Loop; when it has a batch, with the next check or the end of the batch; and while it sleeps,
  -- there is a worker with a batch, which goes on with that. So no notification of the master is lost.
  pub fire_progress :
      (workers : ℕ) {work : List T} {s : System T} (p : Pc T)
      → Run pass batch_size workers work s
      → get_elem? s.threads 0 ≡ some p
      → p ≢ Pc.outside
      → (e : Event T) × (r : System T × Label T) × GoesOn p s.threads e
        × (fire pass batch_size e s ≡ some r)
  unfolding fire GoesOn
  fire_progress workers Pc.outside run at inside = absurd (inside refl)
  fire_progress workers {s = s} Pc.awake run at inside = (
    Event.resume 0,
    go_on batch_size 0 (record s.shared { n_idle = s.shared.n_idle - 1 }) s.threads,
    refl,
    ground arith,
  )
  fire_progress workers {s = s} (Pc.running n ok rest) run at inside =
      let (r, fires) = runs 0 n ok rest s at in (next_of 0 rest, r, refl, fires)
  fire_progress workers {s = s} Pc.asleep run at inside =
      let inv = Run-Inv pass batch_size workers run in
      let (more, empty) = inv.master at in
      let (i, n, ok, rest, there) = busy s.threads (ground (arith, inv.todo)) in
      let (j, worker) = busy_worker s.threads i n ok rest at there in
      let found = subst (λ k. get_elem? s.threads k ≡ some (Pc.running n ok rest)) worker there in
      let (r, fires) = runs (suc j) n ok rest s found in
      (next_of (suc j) rest, r, (j, n, ok, rest, found, refl), fires)
