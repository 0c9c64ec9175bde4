-- ===== src/CheckQueue/Counts.antt =====
-- Sums over the threads of the check queue, and how a change of one of them changes these.
use tetra.Prelude.{
  ℕ, zero, suc, ◌+◌, ◌≤◌, ◌<◌, ◌≡◌, refl, Bool, true, ◌&&◌, List, [], ◌∷◌, ◌++◌, map, some, arith,
  length, get_elem?, set, take, drop,
}
use native.Mathlib.Nat.{div-le_of_le-mul}
use tetra.CheckQueue.{Pc, Shared, wake, wake_at, push_back_all, notify_workers, batch_of}

module _ {T : Type 0} where
  abbrev pub weigh : (Pc T → ℕ) → List (Pc T) → ℕ
  weigh f [] = 0
  weigh f (p ∷ ps) = f p + weigh f ps

  pub weigh-set :
      (f : Pc T → ℕ) (i : ℕ) (p q : Pc T) (ts : List (Pc T))
      → get_elem? ts i ≡ some p
      → weigh f (set ts i q) + f p ≡ weigh f ts + f q
  weigh-set f i p q [] e = cc
  weigh-set f zero p q (x ∷ ts) e = ground arith
  weigh-set f (suc i) p q (x ∷ ts) e = ground (arith, weigh-set f i p q ts e)

  pub le-weigh :
      (f : Pc T → ℕ) (i : ℕ) (p : Pc T) (ts : List (Pc T))
      → get_elem? ts i ≡ some p
      → f p ≤ weigh f ts
  le-weigh f i p [] e = cc
  le-weigh f zero p (x ∷ ts) e = ground arith
  le-weigh f (suc i) p (x ∷ ts) e = ground (arith, le-weigh f i p ts e)

  -- A sum that does not tell a thread that sleeps from one that is notified.
  weigh-wake : (f : Pc T → ℕ) → f Pc.asleep ≡ f Pc.awake → (p : Pc T) → f (wake p) ≡ f p
  unfolding wake
  weigh-wake f e Pc.outside = refl
  weigh-wake f e Pc.asleep = ground arith
  weigh-wake f e Pc.awake = refl
  weigh-wake f e (Pc.running n ok rest) = refl

  pub weigh-wake_at :
      (f : Pc T → ℕ) (i : ℕ) (ts : List (Pc T))
      → f Pc.asleep ≡ f Pc.awake
      → weigh f (wake_at i ts) ≡ weigh f ts
  unfolding wake_at
  weigh-wake_at f i [] e = refl
  weigh-wake_at f zero (p ∷ ts) e = ground (arith, weigh-wake f e p)
  weigh-wake_at f (suc i) (p ∷ ts) e = ground (arith, weigh-wake_at f i ts e)

  weigh-map-wake :
      (f : Pc T → ℕ) (ts : List (Pc T))
      → f Pc.asleep ≡ f Pc.awake
      → weigh f (map wake ts) ≡ weigh f ts
  weigh-map-wake f [] e = refl
  weigh-map-wake f (p ∷ ts) e = ground (arith, weigh-wake f e p, weigh-map-wake f ts e)

  pub weigh-notify_workers :
      (f : Pc T → ℕ) (n pick : ℕ) (ts ts' : List (Pc T))
      → f Pc.asleep ≡ f Pc.awake
      → notify_workers n pick ts ≡ some ts'
      → weigh f ts' ≡ weigh f ts
  unfolding notify_workers
  weigh-notify_workers f n pick [] ts' e h = ground arith
  weigh-notify_workers f n pick (m ∷ ws) ts' e h =
      ground (arith, weigh-wake_at f pick ws e, weigh-map-wake f ws e)

  pub notify_workers-master :
      (n pick : ℕ) (ts ts' : List (Pc T))
      → notify_workers n pick ts ≡ some ts'
      → get_elem? ts' 0 ≡ get_elem? ts 0
  unfolding notify_workers
  notify_workers-master n pick [] ts' h = ground arith
  notify_workers-master n pick (m ∷ ws) ts' h = ground arith

  -- A batch has at least one check, and no more than the queue.
  pub batch_of_bounds :
      (batch_size : ℕ) (s : Shared T)
      → 0 < length s.queue
      → (0 < batch_of batch_size s) × (batch_of batch_size s ≤ length s.queue)
  unfolding batch_of
  batch_of_bounds batch_size s h =
      let most =
        div-le_of_le-mul (s.n_total + s.n_idle + 1) {m = length s.queue} {n = length s.queue}
          (omega arith) in
      (omega arith, omega (arith, most))

-- All checks of a list pass.
abbrev pub all_pass : {T : Type 0} → (T → Bool) → List T → Bool
all_pass pass [] = true
all_pass pass (c ∷ cs) = pass c && all_pass pass cs

module _ {T : Type 0} (pass : T → Bool) where
  pub all_pass-append :
      (xs ys : List T) → all_pass pass (xs ++ ys) ≡ (all_pass pass xs && all_pass pass ys)
  all_pass-append [] ys = refl
  all_pass-append (x ∷ xs) ys = ground (arith, all_pass-append xs ys)

  pub all_pass-push_back_all :
      (xs ys : List T)
      → all_pass pass (push_back_all xs ys) ≡ (all_pass pass ys && all_pass pass xs)
  unfolding push_back_all
  all_pass-push_back_all [] ys = ground arith
  all_pass-push_back_all (x ∷ xs) ys = ground (arith, all_pass-push_back_all xs (x ∷ ys))

  pub all_pass-split :
      (n : ℕ) (xs : List T)
      → all_pass pass xs ≡ (all_pass pass (take n xs) && all_pass pass (drop n xs))
  all_pass-split zero xs = ground arith
  all_pass-split (suc n) [] = refl
  all_pass-split (suc n) (x ∷ xs) = ground (arith, all_pass-split n xs)

pub length-push_back_all :
    {T : Type 0} (xs ys : List T) → length (push_back_all xs ys) ≡ length xs + length ys
unfolding push_back_all
length-push_back_all [] ys = omega arith
length-push_back_all (x ∷ xs) ys = omega (arith, length-push_back_all xs (x ∷ ys))
