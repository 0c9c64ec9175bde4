-- ===== src/Pool/Accept/Stages.antt =====
-- What it takes for each part of `CTxMemPool::accept` not to refuse a transaction (src/main.cpp).
use tetra.Prelude.{
  Bool, All, ℕ, zero, suc, ◌-◌, ◌^◌, ◌≤◌, ◌≡◌, ◌≢◌, ◌∙◌, sym, ap, true, false, not, ◌&&◌, ◌||◌,
  List, [], ◌∷◌, none, some, arith, get_elem?, All-map, Bool-cases, Option-cases, inl, inr,
}
use tetra.Coins.Cache.{Entries, View, have_coins}
use tetra.Inputs.Reads.{IsThere, Reads, have_inputs_lem}
use tetra.Pool.Accept.Reads.{
  Reads-nothing, Reads-have_coins, have_coins-none, Reads-inputs_exist, Reads-get_value_in,
  Reads-are_inputs_standard,
}
use tetra.Inputs.{CheckResult, check_inputs, get_value_in, get_value_out}
use tetra.Cash.{minus}
use tetra.Policy.{is_standard_tx, are_inputs_standard}
use tetra.Transaction.{Transaction, TxIn, Verdict, same_out_point, is_coin_base, check_transaction}
use tetra.Transaction.Sound.{AreDistinct}
use tetra.Pool.{TxMemPool, tx_at, spender}
use tetra.Pool.Consistent.{Distinct, same_out_point-eq}
use tetra.Pool.Accept.{
  Refusal, fees_ok, inputs_exist, has_conflict, Node, Asked, early_result, inputs_result,
  standard_result, fees_result, scripts_result, pool_view,
}

pub AreDistinct-Distinct : (vin : List TxIn) → AreDistinct vin → Distinct vin
AreDistinct-Distinct [] h = tt
AreDistinct-Distinct (i ∷ vin) (others, rest) = (
  All-map (λ j. i.prevout ≢ j.prevout) (λ j. same_out_point j.prevout i.prevout ≡ false) vin
      (λ j differ. (elim (Bool-cases (same_out_point j.prevout i.prevout)) [
        | inl equal ↦ absurd (differ (sym (same_out_point-eq j.prevout i.prevout equal)))
        | inr other ↦ other
      ]))
      others,
  AreDistinct-Distinct vin rest,
)

has_conflict-go :
    (j : TxIn) (vin : List TxIn) (pool : TxMemPool)
    → spender j.prevout pool ≡ none
    → ((k : ℕ) (i : TxIn) → get_elem? vin k ≡ some i → spender i.prevout pool ≡ none)
    → (k : ℕ) (i : TxIn) → get_elem? (j ∷ vin) k ≡ some i
    → spender i.prevout pool ≡ none
has_conflict-go j vin pool unspent later zero i at =
    let first : j ≡ i = ground arith in ap (λ x. spender x.prevout pool) (sym first) ∙ unspent
has_conflict-go j vin pool unspent later (suc k) i at = later k i at

pub has_conflict-none :
    (vin : List TxIn) (pool : TxMemPool)
    → has_conflict vin pool ≡ false
    → (k : ℕ) (i : TxIn) → get_elem? vin k ≡ some i
    → spender i.prevout pool ≡ none
unfolding has_conflict
has_conflict-none [] pool e k i at = cc
has_conflict-none (j ∷ vin) pool e k i at = elim (Option-cases (spender j.prevout pool)) [
  | inr (q, found) ↦ (let both : true ≡ false = rw (has_conflict, found) at e in cc)
  | inl unspent ↦
      has_conflict-go j vin pool unspent
        (has_conflict-none vin pool (rw (has_conflict, unspent) at e)) k i at
]

module _ (node : Node) (asked : Asked) (tx : Transaction) (pool : TxMemPool) where
  open node use {get_hash, serialize_size, cx, check_sig, tip, best_height, now, test_net}

  pub early_result-none :
      early_result node asked tx pool ≡ none
      → (check_transaction serialize_size tx ≡ Verdict.valid)
        × (is_coin_base tx.vin ≡ false)
        × (tx.lock_time ≤ 2 ^ 31 - 1)
        × ((test_net || is_standard_tx serialize_size best_height now tx) ≡ true)
        × (tx_at (get_hash tx) pool ≡ none)
        × (has_conflict tx.vin pool ≡ false)
  unfolding early_result
  early_result-none e =
      (ground arith, ground arith, ground arith, ground arith, ground arith, ground arith)

  -- The coins of the view: there are none under the transaction's own hash, and its inputs' outputs are there. From
  -- caches that hold nothing but what the view has, its inputs are standard but on the test net, and
  -- CheckInputs passes it and its scripts.
  abbrev pub InputsPass : View → Type 0
  InputsPass base =
      (base (get_hash tx) ≡ none)
      × All (IsThere base) tx.vin
      × ((m : Entries) × (m' : Entries) × (standard : Bool) × Reads base base m
          × (are_inputs_standard cx (check_sig tx) base tx m ≡ some (standard, m'))
          × ((test_net || standard) ≡ true))
      × ((m : Entries) × Reads base base m
          × ((check_inputs cx check_sig base false true (record { p2sh = true; strict = true })
                best_height tx m).0
              ≡ CheckResult.passed))

  -- The last part of that.
  abbrev ScriptsPass : View → Type 0
  ScriptsPass base =
      (m : Entries) × Reads base base m
      × ((check_inputs cx check_sig base false true (record { p2sh = true; strict = true })
            best_height tx m).0
          ≡ CheckResult.passed)

  scripts_result-none :
      (base : View) (m : Entries)
      → Reads base base m
      → scripts_result node asked base tx m ≡ none
      → ScriptsPass base
  unfolding scripts_result
  scripts_result-none base m h e = (m, h, ground arith)

  fees_result-none :
      (base : View) (m : Entries)
      → Reads base base m
      → fees_result node asked base tx m ≡ none
      → ScriptsPass base
  unfolding fees_result
  fees_result-none base m h e = elim (Option-cases (get_value_in base tx m)) [
    | inl stop ↦
        (let both : some (Refusal.failed CheckResult.aborted) ≡ none =
            rw (fees_result, stop) at e in
          cc)
    | inr ((value_in, m'), read) ↦ elim (Option-cases (get_value_out tx)) [
      | inl stop ↦
          (let both : some (Refusal.failed CheckResult.thrown) ≡ none =
              rw (fees_result, read, stop) at e in
            cc)
      | inr (value_out, sum) ↦
          elim (Bool-cases (fees_ok node asked tx (minus value_in value_out))) [
            | inl fine ↦
                scripts_result-none base m' (Reads-get_value_in base tx value_in m m' h read)
                  (rw (fees_result, read, sum, fine) at e)
            | inr low ↦
                (let both : some Refusal.refused ≡ none = rw (fees_result, read, sum, low) at e in
                  cc)
          ]
    ]
  ]

  standard_result-none :
      (base : View) (m : Entries)
      → Reads base base m
      → standard_result node asked base tx m ≡ none
      → ((m' : Entries) × (standard : Bool) × (are_inputs_standard cx (check_sig tx) base tx m
            ≡ some (standard, m'))
          × ((test_net || standard) ≡ true))
        × ScriptsPass base
  unfolding standard_result
  standard_result-none base m h e =
      elim (Option-cases (are_inputs_standard cx (check_sig tx) base tx m)) [
        | inl stop ↦
            (let both : some (Refusal.failed CheckResult.aborted) ≡ none =
                rw (standard_result, stop) at e in
              cc)
        | inr ((standard, m'), read) ↦ elim (Bool-cases (not standard && not test_net)) [
          | inl odd ↦
              (let both : some Refusal.refused ≡ none = rw (standard_result, read, odd) at e in cc)
          | inr fine ↦ (
            (m', standard, read, ground arith),
            fees_result-none base m'
                (Reads-are_inputs_standard base cx (check_sig tx) tx standard m m' h read)
                (rw (standard_result, read, fine) at e),
          )
        ]
      ]

  pub inputs_result-none :
      is_coin_base tx.vin ≡ false
      → inputs_result node asked tx pool ≡ none
      → InputsPass (pool_view tip pool)
  unfolding inputs_result
  inputs_result-none ordinary e =
      let base = pool_view tip pool in
      let first = have_coins base (get_hash tx) [] in
      let second = inputs_exist base tx.vin first.1 in
      let reads1 = Reads-have_coins base (get_hash tx) [] (Reads-nothing base) in
      let reads2 = Reads-inputs_exist base tx.vin first.1 reads1 in
      let (unspent, m3, read, reads3, there3) =
        have_inputs_lem base base tx second.1 ordinary reads2 in
      elim (Bool-cases first.0) [
        | inl known ↦
            (let both : some Refusal.refused ≡ none = rw (inputs_result, known) at e in cc)
        | inr new ↦ elim (Bool-cases second.0) [
          | inr absent ↦
              (let both : some Refusal.missing ≡ none = rw (inputs_result, new, absent) at e in cc)
          | inl there ↦ elim (Bool-cases unspent) [
            | inr spent ↦
                (let both : some (Refusal.failed CheckResult.invalid) ≡ none =
                    rw (inputs_result, new, there, read, spent) at e in
                  cc)
            | inl fine ↦
                let ((m', standard, odd, allowed), scripts) =
                  standard_result-none base m3 reads3
                    (rw (inputs_result, new, there, read, fine) at e) in
                (
                  have_coins-none base (get_hash tx) [] (Reads-nothing base) new,
                  there3 fine,
                  (m3, m', standard, reads3, odd, allowed),
                  scripts,
                )
          ]
        ]
      ]
