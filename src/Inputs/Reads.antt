-- ===== src/Inputs/Reads.antt =====
-- What HaveInputs and the loop over the amounts see of the coins (src/main.cpp), whatever the cache
-- holds of them already.
use tetra.Prelude.{
  ℕ, ◌≤◌, length, ◌≡◌, ◌≢◌, refl, ◌∙◌, ap, sym, subst, Bool, true, false, ◌&&◌, List, [], ◌∷◌, none,
  some, arith, All, Option-cases, Bool-cases, inl, inr, ◌⊎◌, get_elem?,
}
use tetra.Cash.{Cash, plus_assign}
use tetra.Cash.Range.{money_range}
use tetra.Transaction.{TxIn, TxOut, Transaction, is_coin_base}
use tetra.Coins.{Coins, available, is_available}
use tetra.Coins.Cache.{
  Entries, View, get_coins, have_coins, through, get_coins_lem, through-get_coins,
}
use tetra.Inputs.{CheckResult, is_immature, have_all_coins, are_available, have_inputs, sum_inputs}
use tetra.Inputs.Totals.{plus_all}

-- The input's output can be spent in a view of the coins.
abbrev pub IsThere : View → TxIn → Type 0
IsThere v i =
    (c : Coins) × (o : TxOut) × (v i.prevout.hash ≡ some c)
    × (available i.prevout.n c.vout ≡ some o)

-- The outputs that inputs spend.
abbrev pub spent : View → List TxIn → List TxOut
spent v [] = []
spent v (i ∷ is) = elim (v i.prevout.hash) [
  | none ↦ spent v is
  | some c ↦ elim (available i.prevout.n c.vout) [ none ↦ spent v is | some o ↦ o ∷ spent v is ]
]

-- No coins of a coin base that are too young.
abbrev pub IsMature : View → ℕ → TxIn → Type 0
IsMature v spend_height i =
    (c : Coins) → v i.prevout.hash ≡ some c → is_immature spend_height c ≡ false

pub available-get_elem? :
    (n : ℕ) (vout : List TxOut) (o : TxOut) → available n vout ≡ some o → get_elem? vout n ≡ some o
unfolding available
available-get_elem? n vout o e = ground arith

pub length-spent : (v : View) (is : List TxIn) → length (spent v is) ≤ length is
length-spent v [] = omega arith
length-spent v (i ∷ is) = ground (arith, length-spent v is)

pub spent_cons :
    (v : View) (i : TxIn) (is : List TxIn) (c : Coins) (o : TxOut)
    → v i.prevout.hash ≡ some c
    → available i.prevout.n c.vout ≡ some o
    → spent v (i ∷ is) ≡ o ∷ spent v is
spent_cons v i is c o is_c is_o = ground arith

module _ (base v : View) where
  abbrev pub Reads : Entries → Type 0
  Reads m = (k : ℕ) → through base m k ≡ v k

  pub Reads-get_coins :
      (k : ℕ) (m : Entries)
      → Reads m
      → ((get_coins base k m).0 ≡ v k) × Reads (get_coins base k m).1
  Reads-get_coins k m h = (get_coins_lem base k m ∙ h k, λ j. through-get_coins base k j m ∙ h j)

  have_all_coins_lem :
      (is : List TxIn) (m : Entries)
      → Reads m
      → Reads (have_all_coins base is m).1
        × ((have_all_coins base is m).0 ≡ true → All (λ i. v i.prevout.hash ≢ none) is)
  unfolding have_all_coins have_coins
  have_all_coins_lem [] m h = (h, λ e. tt)
  have_all_coins_lem (i ∷ is) m h =
      let (here, later) = Reads-get_coins i.prevout.hash m h in
      let rest = have_all_coins_lem is (get_coins base i.prevout.hash m).1 later in
      elim (Option-cases (v i.prevout.hash)) [
        | inl nowhere ↦
            (let stop : have_all_coins base (i ∷ is) m
                  ≡ (false, (get_coins base i.prevout.hash m).1) =
                ground (arith, here) in
              rw (have_all_coins, stop) (later, λ e. cc))
        | inr (c, is_c) ↦
            (let go : have_all_coins base (i ∷ is) m
                  ≡ have_all_coins base is (get_coins base i.prevout.hash m).1 =
                ground (arith, here) in
              rw (have_all_coins, go) (rest.0, λ e. ((λ nowhere. cc), rest.1 e)))
      ]

  are_available_lem :
      (is : List TxIn) (m : Entries)
      → Reads m
      → All (λ i. v i.prevout.hash ≢ none) is
      → (b : Bool) × (m' : Entries) × (are_available base is m ≡ some (b, m'))
        × Reads m'
        × (b ≡ true → All (IsThere v) is)
  unfolding are_available is_available
  are_available_lem [] m h found = (true, m, refl, h, λ e. tt)
  are_available_lem (i ∷ is) m h found =
      let (here, later) = Reads-get_coins i.prevout.hash m h in
      let (b, m', e, after, there) =
        are_available_lem is (get_coins base i.prevout.hash m).1 later found.1 in
      elim (Option-cases (v i.prevout.hash)) [
        | inl nowhere ↦ absurd (found.0 nowhere)
        | inr (c, is_c) ↦ elim (Option-cases (available i.prevout.n c.vout)) [
          | inl gone ↦ (false, (get_coins base i.prevout.hash m).1, ground arith, later, λ f. cc)
          | inr (o, is_o) ↦ (b, m', ground arith, after, λ f. ((c, o, is_c, is_o), there f))
        ]
      ]

  -- HaveInputs fails no assertion, and what it says is so.
  pub have_inputs_lem :
      (tx : Transaction) (m : Entries)
      → is_coin_base tx.vin ≡ false
      → Reads m
      → (b : Bool) × (m' : Entries) × (have_inputs base tx m ≡ some (b, m'))
        × Reads m'
        × (b ≡ true → All (IsThere v) tx.vin)
  unfolding have_inputs
  have_inputs_lem tx m ordinary h =
      let (reads, found) = have_all_coins_lem tx.vin m h in
      elim (Bool-cases (have_all_coins base tx.vin m).0) [
        | inr missing ↦ (false, (have_all_coins base tx.vin m).1, ground arith, reads, λ f. cc)
        | inl all ↦
            (let (b, m', e, after, there) =
                are_available_lem tx.vin (have_all_coins base tx.vin m).1 reads (found all) in
              (b, m', ground arith, after, there))
      ]

  -- What the loop over the amounts ends with, where the outputs are there.
  abbrev pub IsSum : ℕ → List TxIn → Cash → CheckResult ⊎ Cash → Type 0
  IsSum spend_height is total (inl r) = (r ≢ CheckResult.aborted) × (r ≢ CheckResult.passed)
  IsSum spend_height is total (inr t) =
      (t ≡ plus_all (spent v is) total) × All (IsMature v spend_height) is

  IsSum-step :
      (spend_height : ℕ) (i : TxIn) (is : List TxIn) (total : Cash) (r : CheckResult ⊎ Cash)
      → (there : IsThere v i) → IsMature v spend_height i
      → IsSum spend_height is (plus_assign total there.1.value) r
      → IsSum spend_height (i ∷ is) total r
  IsSum-step spend_height i is total (inl r) there mature h = h
  IsSum-step spend_height i is total (inr t) (c, o, is_c, is_o) mature h =
      (h.0 ∙ ap (λ os. plus_all os total) (sym (spent_cons v i is c o is_c is_o)), (mature, h.1))

  pub sum_inputs_lem :
      (spend_height : ℕ) (is : List TxIn) (total : Cash) (m : Entries)
      → Reads m
      → All (IsThere v) is
      → Reads (sum_inputs base spend_height is total m).1
        × IsSum spend_height is total (sum_inputs base spend_height is total m).0
  unfolding sum_inputs
  sum_inputs_lem spend_height [] total m h there = (h, (refl, tt))
  sum_inputs_lem spend_height (i ∷ is) total m h ((c, o, is_c, is_o), there) =
      let (here, later) = Reads-get_coins i.prevout.hash m h in
      let m' = (get_coins base i.prevout.hash m).1 in
      let sum = plus_assign total o.value in
      let (reads, rest) = sum_inputs_lem spend_height is sum m' later there in
      let is_out = available-get_elem? i.prevout.n c.vout o is_o in
      let P : (CheckResult ⊎ Cash) × Entries → Type 0 =
        λ r. Reads r.1 × IsSum spend_height (i ∷ is) total r.0 in
      elim (Bool-cases (is_immature spend_height c)) [
        | inl young ↦
            subst P {x = (inl CheckResult.invalid, m')} (ground arith)
              (later, ((λ e. cc), (λ e. cc)))
        | inr mature ↦ elim (Bool-cases (money_range o.value && money_range sum)) [
          | inr out ↦
              subst P {x = (inl (CheckResult.dos 100), m')} (ground arith)
                (later, ((λ e. cc), (λ e. cc)))
          | inl fine ↦ subst P {x = sum_inputs base spend_height is sum m'} (ground arith) (
            reads,
            IsSum-step spend_height i is total (sum_inputs base spend_height is sum m').0
                (c, o, is_c, is_o) (λ d is_d. ground arith) rest,
          )
        ]
      ]
