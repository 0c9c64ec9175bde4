-- ===== src/Pool/Accept/Reads.antt =====
-- What `CTxMemPool::accept` reads of the coins, whatever its cache holds of them already (src/main.cpp).
use tetra.Prelude.{
  ℕ, suc, ◌≡◌, refl, Bool, false, List, [], ◌∷◌, none, some, arith, Bool-cases, Option-cases, inl,
  inr,
}
use tetra.Cash.{Cash, plus_assign, empty}
use tetra.Coins.Cache.{Entries, View, get_coins, have_coins, through, lookup}
use tetra.Inputs.{get_output_for, value_in_loop, get_value_in}
use tetra.Inputs.Reads.{Reads, Reads-get_coins}
use tetra.Policy.{standard_input, standard_prevouts, are_inputs_standard}
use tetra.Script.Machine.{Context, Item}
use tetra.Transaction.{Transaction, TxIn, TxOut, is_coin_base}
use tetra.Pool.Accept.{inputs_exist}

module _ (base : View) where
  pub Reads-nothing : Reads base base []
  unfolding through lookup
  Reads-nothing k = refl

  -- What HaveCoins says and what it leaves.
  pub Reads-have_coins :
      (k : ℕ) (m : Entries) → Reads base base m → Reads base base (have_coins base k m).1
  unfolding have_coins
  Reads-have_coins k m h = (Reads-get_coins base base k m h).1

  pub have_coins-none :
      (k : ℕ) (m : Entries) → Reads base base m → (have_coins base k m).0 ≡ false → base k ≡ none
  unfolding have_coins
  have_coins-none k m h e = let (here, _) = Reads-get_coins base base k m h in ground (arith, here)

  pub Reads-inputs_exist :
      (vin : List TxIn) (m : Entries)
      → Reads base base m
      → Reads base base (inputs_exist base vin m).1
  unfolding inputs_exist
  Reads-inputs_exist [] m h = h
  Reads-inputs_exist (i ∷ vin) m h =
      let next = Reads-have_coins i.prevout.hash m h in
      let rest = Reads-inputs_exist vin (have_coins base i.prevout.hash m).1 next in
      elim (Bool-cases (have_coins base i.prevout.hash m).0) [
        | inl there ↦ rw (inputs_exist, there) rest
        | inr absent ↦ rw (inputs_exist, absent) next
      ]

  Reads-get_output_for :
      (i : TxIn) (m m' : Entries) (o : TxOut)
      → Reads base base m
      → get_output_for base i m ≡ some (o, m')
      → Reads base base m'
  unfolding get_output_for
  Reads-get_output_for i m m' o h e =
      let later = (Reads-get_coins base base i.prevout.hash m h).1 in
      let left : (get_coins base i.prevout.hash m).1 ≡ m' = ground arith in rw left at later

  Reads-value_in_loop :
      (vin : List TxIn) (total value : Cash) (m m' : Entries)
      → Reads base base m
      → value_in_loop base vin total m ≡ some (value, m')
      → Reads base base m'
  unfolding value_in_loop
  Reads-value_in_loop [] total value m m' h e = let left : m ≡ m' = ground arith in rw left at h
  Reads-value_in_loop (i ∷ vin) total value m m' h e =
      elim (Option-cases (get_output_for base i m)) [
        | inl stop ↦ (let both : none ≡ some (value, m') = rw (value_in_loop, stop) at e in cc)
        | inr ((o, m1), read) ↦
            Reads-value_in_loop vin (plus_assign total o.value) value m1 m'
              (Reads-get_output_for i m m1 o h read) (rw (value_in_loop, read) at e)
      ]

  pub Reads-get_value_in :
      (tx : Transaction) (value : Cash) (m m' : Entries)
      → Reads base base m
      → get_value_in base tx m ≡ some (value, m')
      → Reads base base m'
  unfolding get_value_in
  Reads-get_value_in tx value m m' h e = elim (Bool-cases (is_coin_base tx.vin)) [
    | inl minted ↦ (let left : m ≡ m' = ground arith in rw left at h)
    | inr ordinary ↦
        Reads-value_in_loop tx.vin empty value m m' h (rw (get_value_in, ordinary) at e)
  ]

  module _ (cx : Context) (check_sig : ℕ → Item → Item → List ℕ → Bool) where
    Reads-standard_prevouts :
        (n : ℕ) (vin : List TxIn) (standard : Bool) (m m' : Entries)
        → Reads base base m
        → standard_prevouts cx check_sig base n vin m ≡ some (standard, m')
        → Reads base base m'
    unfolding standard_prevouts
    Reads-standard_prevouts n [] standard m m' h e =
        let left : m ≡ m' = ground arith in rw left at h
    Reads-standard_prevouts n (i ∷ vin) standard m m' h e =
        elim (Option-cases (get_output_for base i m)) [
          | inl stop ↦
              (let both : none ≡ some (standard, m') = rw (standard_prevouts, stop) at e in cc)
          | inr ((o, m1), read) ↦
              let next = Reads-get_output_for i m m1 o h read in
              elim (Bool-cases (standard_input cx check_sig base n i o.script_pub_key)) [
                | inl fine ↦
                    Reads-standard_prevouts (suc n) vin standard m1 m' next
                      (rw (standard_prevouts, read, fine) at e)
                | inr odd ↦
                    let whole : some (false, m1) ≡ some (standard, m') =
                      rw (standard_prevouts, read, odd) at e in
                    let left : m1 ≡ m' = ground arith in rw left at next
              ]
        ]

    pub Reads-are_inputs_standard :
        (tx : Transaction) (standard : Bool) (m m' : Entries)
        → Reads base base m
        → are_inputs_standard cx check_sig base tx m ≡ some (standard, m')
        → Reads base base m'
    unfolding are_inputs_standard
    Reads-are_inputs_standard tx standard m m' h e = elim (Bool-cases (is_coin_base tx.vin)) [
      | inl minted ↦ (let left : m ≡ m' = ground arith in rw left at h)
      | inr ordinary ↦
          Reads-standard_prevouts 0 tx.vin standard m m' h (rw (are_inputs_standard, ordinary) at e)
    ]
