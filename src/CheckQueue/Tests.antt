-- ===== src/CheckQueue/Tests.antt =====
-- A run of the check queue with one worker and two checks, one of which fails.
use tetra.Prelude.{ℕ, ◌≡◌, refl, not, Bool, true, false, [], ◌∷◌, some, ◌==◌}
use tetra.CheckQueue.{
  Pc, System, Label, Event, wake, wake_at, any_asleep, notify_workers, push_back_all, clean_up,
  notifies, batch_of, proceed, go_on, section, fire,
}
use tetra.CheckQueue.Counts.{all_pass}
use tetra.CheckQueue.Runs.{Run, begin, next, Run-Inv}
use tetra.CheckQueue.Invariant.{Inv}
use tetra.CheckQueue.Wait.{GoesOn, fire-returns, fire_progress}

abbrev passes : ℕ → Bool
passes n = not (n == 0)

-- The worker waits, two checks are added, the master takes one of them and the worker the other; the
-- worker sleeps again, and the master has run its own.
abbrev before_last : System ℕ
before_last = record {
  shared = record { queue = []; n_idle = 1; n_total = 2; all_ok = true; n_todo = 1; quit = false };
  threads = Pc.running 1 false [] ∷ Pc.asleep ∷ [];
}

ran : Run passes 10 1 (5 ∷ 0 ∷ []) before_last
unfolding fire section go_on clean_up notifies proceed batch_of notify_workers push_back_all wake
    wake_at any_asleep
ran =
    next (Event.finish 1)
      (next (Event.check 0)
        (next (Event.check 1)
          (next (Event.resume 1)
            (next (Event.enter 0)
              (next (Event.add (5 ∷ 0 ∷ []) 0) (next (Event.enter 1) begin refl) refl) refl)
            refl)
          refl)
        refl)
      refl

abbrev last : System ℕ
last = record {
  shared = record { queue = []; n_idle = 1; n_total = 1; all_ok = true; n_todo = 0; quit = false };
  threads = Pc.outside ∷ Pc.asleep ∷ [];
}

returned : fire passes 10 (Event.finish 0) before_last ≡ some (last, Label.returns false)
unfolding fire section go_on clean_up notifies proceed batch_of wake wake_at
returned = refl

fire-returns_example :
    (false ≡ all_pass passes (5 ∷ 0 ∷ []))
    × (last.shared.n_todo ≡ 0)
    × (last.shared.n_total ≡ last.shared.n_idle)
    × (last.shared.all_ok ≡ true)
fire-returns_example = fire-returns passes 10 1 (Event.finish 0) ran returned

fire_progress_example :
    (e : Event ℕ) × (r : System ℕ × Label ℕ) × GoesOn (Pc.running 1 false []) before_last.threads e
    × (fire passes 10 e before_last ≡ some r)
fire_progress_example = fire_progress passes 10 1 (Pc.running 1 false []) ran refl (λ e. cc)

Run-Inv_example : Inv passes (5 ∷ 0 ∷ []) before_last.shared before_last.threads
Run-Inv_example = Run-Inv passes 10 1 ran
