-- ===== src/Coins/RoundTrip.antt =====
-- Undoing a transaction gives back what could be read before it.
use tetra.Prelude.{
  ℕ, ◌≡◌, ◌≢◌, refl, sym, ◌∙◌, inl, inr, Bool-cases, true, false, List, [], ◌∷◌, Option, none, some,
  arith, >>=-eq-some, ◌==◌, ==_iff, subst, if◌then◌else◌,
}
use tetra.Transaction.{TxIn}
use tetra.Coins.{Coins, available, is_pruned, Undo, spend, restore}
use tetra.Coins.Spend.{Same, restore-spend, spend-height, restore_clean}
use tetra.Coins.Cache.{
  Entries, View, get_coins, set_coins, through, get_coins_lem, through-get_coins, through-set_coins,
}
use tetra.Coins.Update.{or_none, spend_inputs, restore_input, restore_inputs}

-- Every output that can be spent, and where it is from, is the same.
abbrev pub SameView : View → View → Type 0
SameView v w = (k : ℕ) → Same (v k) (w k)

-- Only the genesis block has the height 0, and its output is not among the coins.
abbrev pub IsHigh : View → Type 0
IsHigh v = (k : ℕ) (c : Coins) → v k ≡ some c → c.height ≢ 0

Same-or_none : (a : Option Coins) → Same (some (or_none a)) a
unfolding or_none available is_pruned
Same-or_none none = ((λ n. refl), refl)
Same-or_none (some c) = ((λ n. refl), refl)

pub Same-trans : (a b c : Option Coins) → Same a b → Same b c → Same a c
Same-trans a b c h k = ((λ n. h.0 n ∙ k.0 n), h.1 ∙ k.1)

pub if_self : (h : ℕ) (a b : Option Coins) → (if h == h then a else b) ≡ a
if_self h a b = ground arith

pub if_other : (h k : ℕ) (a b : Option Coins) → (h == k) ≡ false → (if h == k then a else b) ≡ b
if_other h k a b e = ground arith

module _ (base : View) where
  pub read_restored :
      (i : TxIn) (u : Undo) (m : Entries) (k : ℕ)
      → through base (restore_input base i u m).0 k ≡ (
          if i.prevout.hash == k
          then some (restore i.prevout.n u (or_none (through base m i.prevout.hash))).0
          else through base m k)
  unfolding restore_input
  read_restored i u m k =
      let h = i.prevout.hash in
      let (found, m') = get_coins base h m in
      through-set_coins base h k (restore i.prevout.n u (or_none found)).0 m'
      ∙ rw (get_coins_lem base h m, through-get_coins base h k m) refl

  restored_fine :
      (i : TxIn) (u : Undo) (m : Entries)
      → (restore_input base i u m).1
        ≡ (restore i.prevout.n u (or_none (through base m i.prevout.hash))).1
  unfolding restore_input
  restored_fine i u m = rw (get_coins_lem base i.prevout.hash m) refl

  -- One input spent, in what can be read.
  pub read_spent :
      (h k : ℕ) (c' : Coins) (m : Entries)
      → through base (set_coins h c' (get_coins base h m).1) k
        ≡ (if h == k then some c' else through base m k)
  read_spent h k c' m =
      through-set_coins base h k c' (get_coins base h m).1 ∙ rw (through-get_coins base h k m) refl

  -- A spent input that is restored, on what looks like the coins after it was spent.
  pub restore_one :
      (i : TxIn) (u : Undo) (c c' : Coins) (m t : Entries)
      → c.height ≢ 0
      → through base m i.prevout.hash ≡ some c
      → spend i.prevout.n c ≡ some (u, c')
      → SameView
          (through base t)
          (through base (set_coins i.prevout.hash c' (get_coins base i.prevout.hash m).1))
      → SameView (through base (restore_input base i u t).0) (through base m)
        × ((restore_input base i u t).1 ≡ true)
  restore_one i u c c' m t high there spent same =
      let h = i.prevout.hash in
      let d = or_none (through base t h) in
      let like : Same (some d) (some c') =
        Same-trans (some d) (through base t h) (some c') (Same-or_none (through base t h))
          (rw (read_spent h h c' m ∙ if_self h (some c') (through base m h)) at (same h)) in
      let back = restore-spend i.prevout.n c c' d u high spent like in
      let here : Same (through base (restore_input base i u t).0 h) (through base m h) =
        rw
          (
            read_restored i u t h ∙ if_self h (some (restore i.prevout.n u d).0) (through base t h),
            there,
          )
          back in
      (
        λ k. elim (Bool-cases (h == k)) [
          | inl at_h ↦
              subst (λ j. Same (through base (restore_input base i u t).0 j) (through base m j))
                ((==_iff h k).0 at_h) (here)
          | inr other ↦
              let was = same k in
              rw
                (read_restored i u t k
                  ∙ if_other h k (some (restore i.prevout.n u d).0) (through base t k) other)
                (rw (read_spent h k c' m ∙ if_other h k (some c') (through base m k) other) at was)
        ],
        restored_fine i u t ∙ restore_clean i.prevout.n c c' d u high spent like,
      )

  -- A step of `spend_inputs` that succeeds, in its parts.
  pub spend_step :
      (i : TxIn) (is : List TxIn) (vs : List Undo) (m m'' : Entries)
      → spend_inputs base (i ∷ is) m ≡ some (vs, m'')
      → (c : Coins) × (u : Undo) × (c' : Coins) × (us : List Undo) × (through base m i.prevout.hash
          ≡ some c)
        × (spend i.prevout.n c ≡ some (u, c'))
        × (spend_inputs base is (set_coins i.prevout.hash c' (get_coins base i.prevout.hash m).1)
            ≡ some (us, m''))
        × (vs ≡ u ∷ us)
  unfolding spend_inputs
  spend_step i is vs m m'' e =
      let h = i.prevout.hash in
      let (c, found, e1) = >>=-eq-some (get_coins base h m).0 _ e in
      let ((u, c'), spent, e2) = >>=-eq-some (spend i.prevout.n c) _ e1 in
      let ((us, m3), others, e3) =
        >>=-eq-some (spend_inputs base is (set_coins h c' (get_coins base h m).1)) _ e2 in
      (c, u, c', us, sym (get_coins_lem base h m) ∙ found, spent, ground arith, ground arith)

  pub IsHigh-spent :
      (h : ℕ) (c' : Coins) (m : Entries)
      → IsHigh (through base m)
      → c'.height ≢ 0
      → IsHigh (through base (set_coins h c' (get_coins base h m).1))
  IsHigh-spent h c' m high height k c e = ground (arith, read_spent h k c' m, high k c)

  -- All inputs restored, on what looks like the coins after they were spent.
  pub restore_all :
      (is : List TxIn) (vs : List Undo) (m m'' t : Entries)
      → IsHigh (through base m)
      → spend_inputs base is m ≡ some (vs, m'')
      → SameView (through base t) (through base m'')
      → (t' : Entries) × (restore_inputs base is vs t ≡ some (t', true))
        × SameView (through base t') (through base m)
  unfolding spend_inputs restore_inputs
  restore_all [] [] m m'' t high e same = let e' : m ≡ m'' = cc in (t, refl, rw e' same)
  restore_all [] (v ∷ vs) m m'' t high e same = cc
  restore_all (i ∷ is) [] m m'' t high e same =
      let (c, u, c', us, there, spent, others, made) = spend_step i is [] m m'' e in cc
  restore_all (i ∷ is) (v ∷ vs) m m'' t high e same =
      let (c, u, c', us, there, spent, others, made) = spend_step i is (v ∷ vs) m m'' e in
      let m' = set_coins i.prevout.hash c' (get_coins base i.prevout.hash m).1 in
      let height = high i.prevout.hash c there in
      let high' =
        IsHigh-spent i.prevout.hash c' m high
          (ground (arith, spend-height i.prevout.n c c' u spent)) in
      let (t', run, like) = restore_all is us m' m'' t high' others same in
      let (back, fine) = restore_one i u c c' m t' height there spent like in
      ((restore_input base i u t').0, ground (arith, run, fine), back)
