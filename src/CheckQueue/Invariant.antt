-- ===== src/CheckQueue/Invariant.antt =====
-- What holds between the steps of the check queue (src/checkqueue.h), with the checks that were added
-- since the master last returned.
use tetra.Prelude.{
  ℕ, zero, ◌+◌, ◌<◌, ◌≡◌, Bool, ◌&&◌, List, [], ◌++◌, some, ◌==◌, if◌then◌else◌, length, get_elem?,
}
use tetra.CheckQueue.{Pc, Shared, Label}
use tetra.CheckQueue.Counts.{weigh, all_pass}

module _ {T : Type 0} where
  -- The checks of a thread's batch that nTodo counts; a batch of none; whether a thread is in
  -- `cond.wait`, and in Loop.
  abbrev pub load : Pc T → ℕ
  load (Pc.running n ok rest) = n
  load p = 0

  abbrev pub is_void : Pc T → ℕ
  is_void (Pc.running zero ok rest) = 1
  is_void p = 0

  abbrev pub waits : Pc T → ℕ
  waits Pc.asleep = 1
  waits Pc.awake = 1
  waits p = 0

  abbrev pub is_inside : Pc T → ℕ
  is_inside Pc.outside = 0
  is_inside p = 1

  -- The checks added since the master last returned.
  abbrev pub after : Label T → List T → List T
  after Label.quiet work = work
  after (Label.adds cs) work = work ++ cs
  after (Label.returns b) work = []

module _ {T : Type 0} (pass : T → Bool) where
  -- A thread that has found a check that fails, or is to run one.
  abbrev pub is_bad : Pc T → ℕ
  is_bad (Pc.running n ok rest) = if ok && all_pass pass rest then 0 else 1
  is_bad p = 0

  -- The counters count what they say; the verdict on all checks is the one so far, and that on the
  -- checks that are left; and a master that sleeps has something to wait for.
  pub record Inv (work : List T) (s : Shared T) (ts : List (Pc T)) : Type 0 where
    pub todo : s.n_todo ≡ length s.queue + weigh load ts
    pub batches : weigh is_void ts ≡ 0
    pub idle : s.n_idle ≡ weigh waits ts
    pub total : s.n_total ≡ weigh is_inside ts
    pub verdict : (s.all_ok && all_pass pass s.queue && (weigh is_bad ts == 0)) ≡ all_pass pass work
    pub master : get_elem? ts 0 ≡ some Pc.asleep → (0 < s.n_todo) × (s.queue ≡ [])
