-- ===== src/CheckQueue.antt =====
-- The queue of script checks (src/checkqueue.h): a master that adds checks and then waits, and workers.
-- Each section under the mutex is one step, each check that a thread runs is another, and the steps of
-- the threads come in any order. Thread 0 is the master. The head of the queue is its back.
pub mod Counts
pub mod Invariant
pub mod Sections
pub mod Steps
pub mod Runs
pub mod Wait
mod Tests
use tetra.Prelude.{
  ℕ, zero, suc, ◌+◌, ◌-◌, ◌/◌, min, max, Bool, true, false, not, ◌&&◌, ◌||◌, List, [], ◌∷◌, map,
  Option, none, some, ◌==◌, if◌then◌else◌, length, get_elem?, set, take, drop,
}

-- Where a thread is: not in Loop, in `cond.wait`, there but notified, or with a batch of a size, its
-- fOk, and the checks that are left.
pub data Pc (T : Type 0) : Type 0 where
  outside : Pc T
  asleep : Pc T
  awake : Pc T
  running : ℕ → Bool → List T → Pc T

pub record Shared (T : Type 0) : Type 0 where
  pub queue : List T
  pub n_idle : ℕ
  pub n_total : ℕ
  pub all_ok : Bool
  pub n_todo : ℕ
  pub quit : Bool

pub record System (T : Type 0) : Type 0 where
  pub shared : Shared T
  pub threads : List (Pc T)

-- What a step says to the caller of Add and Wait.
pub data Label (T : Type 0) : Type 0 where
  quiet : Label T
  adds : List T → Label T
  returns : Bool → Label T

-- Thread i calls Thread or Wait, runs a check, is done with its batch, goes on after a notification, or
-- wakes up without one; or the master calls Add, where `notify_one` picks a worker.
pub data Event (T : Type 0) : Type 0 where
  enter : ℕ → Event T
  check : ℕ → Event T
  finish : ℕ → Event T
  resume : ℕ → Event T
  stir : ℕ → Event T
  add : List T → ℕ → Event T

module _ {T : Type 0} where
  -- The constructor.
  abbrev pub unused : Shared T
  unused = record { queue = []; n_idle = 0; n_total = 0; all_ok = true; n_todo = 0; quit = false }

  unfoldable pub wake : Pc T → Pc T
  wake Pc.asleep = Pc.awake
  wake p = p

  unfoldable pub wake_at : ℕ → List (Pc T) → List (Pc T)
  wake_at i [] = []
  wake_at zero (p ∷ ps) = wake p ∷ ps
  wake_at (suc i) (p ∷ ps) = p ∷ wake_at i ps

  unfoldable pub any_asleep : List (Pc T) → Bool
  any_asleep [] = false
  any_asleep (Pc.asleep ∷ ps) = true
  any_asleep (p ∷ ps) = any_asleep ps

  -- The loop of Add.
  unfoldable pub push_back_all : List T → List T → List T
  push_back_all [] q = q
  push_back_all (c ∷ cs) q = push_back_all cs (c ∷ q)

  -- The clean-up of the previous run of the loop.
  unfoldable pub clean_up : ℕ → Bool → Shared T → Shared T
  clean_up n_now ok s =
      if n_now == 0
      then record s { n_total = s.n_total + 1 }
      else record s { all_ok = s.all_ok && ok; n_todo = s.n_todo - n_now }

  -- Whether that notifies the master.
  unfoldable pub notifies : Bool → ℕ → Shared T → Bool
  notifies master n_now s = not (n_now == 0) && s.n_todo == 0 && not master

  -- `notify_one` or `notify_all` after n checks were added, with the worker that the former picks;
  -- `none` where it sleeps but another is picked.
  unfoldable pub notify_workers : ℕ → ℕ → List (Pc T) → Option (List (Pc T))
  notify_workers n pick [] = some []
  notify_workers n pick (m ∷ ws) =
      if n == 0
      then some (m ∷ ws)
      else if n == 1
      then (elim (get_elem? ws pick) [
        | some Pc.asleep ↦ some (m ∷ wake_at pick ws)
        | _ ↦ if any_asleep ws then none else some (m ∷ ws)
      ])
      else some (m ∷ map wake ws)

module _ {T : Type 0} (batch_size : ℕ) where
  unfoldable pub batch_of : Shared T → ℕ
  batch_of s = max 1 (min batch_size (length s.queue / (s.n_total + s.n_idle + 1)))

  -- From `while (queue.empty())` to the end of the section.
  unfoldable pub proceed : Bool → Shared T → Shared T × Pc T × Label T
  proceed master s = elim s.queue [
    | [] ↦
        if (master || s.quit) && s.n_todo == 0
        then (
          record s { n_total = s.n_total - 1; all_ok = if master then true else s.all_ok },
          Pc.outside,
          if master then Label.returns s.all_ok else Label.quiet,
        )
        else (record s { n_idle = s.n_idle + 1 }, Pc.asleep, Label.quiet)
    | c ∷ q ↦ (
      record s { queue = drop (batch_of s) s.queue },
      Pc.running (batch_of s) s.all_ok (take (batch_of s) s.queue),
      Label.quiet,
    )
  ]

  -- The rest of a section, for thread i.
  unfoldable pub go_on : ℕ → Shared T → List (Pc T) → System T × Label T
  go_on i s ts =
      let (s', p, l) = proceed (i == 0) s in (record { shared = s'; threads = set ts i p }, l)

  unfoldable pub section : ℕ → ℕ → Bool → System T → System T × Label T
  section i n_now ok s =
      let cleaned = clean_up n_now ok s.shared in
      go_on i cleaned (if notifies (i == 0) n_now cleaned then wake_at 0 s.threads else s.threads)

module _ {T : Type 0} (pass : T → Bool) (batch_size : ℕ) where
  -- What an event does; `none` where it cannot come.
  unfoldable pub fire : Event T → System T → Option (System T × Label T)
  fire (Event.enter i) s = elim (get_elem? s.threads i) [
    | some Pc.outside ↦ some (section batch_size i 0 true s)
    | _ ↦ none
  ]
  fire (Event.check i) s = elim (get_elem? s.threads i) [
    | some (Pc.running n ok (c ∷ rest)) ↦ some (
      record s { threads = set s.threads i (Pc.running n (if ok then pass c else false) rest) },
      Label.quiet,
    )
    | _ ↦ none
  ]
  fire (Event.finish i) s = elim (get_elem? s.threads i) [
    | some (Pc.running n ok []) ↦ some (section batch_size i n ok s)
    | _ ↦ none
  ]
  fire (Event.resume i) s = elim (get_elem? s.threads i) [
    | some Pc.awake ↦
        some (go_on batch_size i (record s.shared { n_idle = s.shared.n_idle - 1 }) s.threads)
    | _ ↦ none
  ]
  fire (Event.stir i) s = elim (get_elem? s.threads i) [
    | some Pc.asleep ↦ some (record s { threads = wake_at i s.threads }, Label.quiet)
    | _ ↦ none
  ]
  fire (Event.add cs pick) s = elim (get_elem? s.threads 0) [
    | some Pc.outside ↦ elim (notify_workers (length cs) pick s.threads) [
      | none ↦ none
      | some ts ↦ some (
        record {
          shared = record s.shared {
            queue = push_back_all cs s.shared.queue;
            n_todo = s.shared.n_todo + length cs;
          };
          threads = ts;
        },
        Label.adds cs,
      )
    ]
    | _ ↦ none
  ]
