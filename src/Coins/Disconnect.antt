-- ===== src/Coins/Disconnect.antt =====
-- A block that is disconnected leaves the coins as they were before it was connected.
use tetra.Prelude.{
  ℕ, ◌≡◌, ◌≢◌, Bool, true, false, ◌&&◌, List, [], ◌∷◌, Option, none, some, arith, >>=-eq-some, refl,
  sym, ◌∙◌, inl, inr, Bool-cases, ◌==◌, ==_iff, subst, All, All-map, All-both,
}
use tetra.Transaction.{TxIn, Transaction, is_coin_base}
use tetra.Coins.{Coins, no_coins, coins_of, available, is_pruned, Undo}
use tetra.Coins.Spend.{Same, spend_inverted, spend-height}
use tetra.Coins.Cache.{Entries, View, get_coins, set_coins, through, through-set_coins}
use tetra.Coins.Update.{spend_inputs, update_coins, remove_outputs, disconnect}
use tetra.Coins.RoundTrip.{
  SameView, IsHigh, IsHigh-spent, read_spent, spend_step, restore_all, if_other,
}
use tetra.Coins.Block.{Txs, connect_txs, disconnect_txs, disconnect_block}

-- No output is left of a transaction, or it is not known.
abbrev pub IsGone : View → ℕ → Type 0
IsGone v k = Same (v k) none

gone_no_coins : (a : Option Coins) → Same a none → Same (some no_coins) a
unfolding available is_pruned
gone_no_coins a gone = ((λ n. sym (gone.0 n)), sym gone.1)

-- No two transactions have the same hash.
abbrev pub HaveOwnHashes : Txs → Type 0
HaveOwnHashes [] = Unit {0}
HaveOwnHashes ((tx, h) ∷ txs) = All (λ p. h ≢ p.1) txs × HaveOwnHashes txs

module _ (base : View) where
  spend_inputs-IsGone :
      (is : List TxIn) (vs : List Undo) (m m'' : Entries) (k : ℕ)
      → spend_inputs base is m ≡ some (vs, m'')
      → IsGone (through base m) k
      → IsGone (through base m'') k
  unfolding spend_inputs
  spend_inputs-IsGone [] vs m m'' k e gone = let e' : m ≡ m'' = cc in rw (← e') gone
  spend_inputs-IsGone (i ∷ is) vs m m'' k e gone =
      let (c, u, c', us, there, spent, others, made) = spend_step base i is vs m m'' e in
      let h = i.prevout.hash in
      let found = (spend_inverted i.prevout.n c c' u spent).0 in
      let empty = gone.0 i.prevout.n in
      spend_inputs-IsGone is us (set_coins h c' (get_coins base h m).1) m'' k others
        (elim (Bool-cases (h == k)) [
          | inl at_h ↦
              let there' : through base m k ≡ some c = rw ((==_iff h k).0 at_h) at there in
              let none_there : available i.prevout.n c.vout ≡ none = rw there' at empty in
              absurd (ground arith)
          | inr other ↦
              rw (read_spent base h k c' m ∙ if_other h k (some c') (through base m k) other) gone
        ])

  spend_inputs-IsHigh :
      (is : List TxIn) (vs : List Undo) (m m'' : Entries)
      → spend_inputs base is m ≡ some (vs, m'')
      → IsHigh (through base m)
      → IsHigh (through base m'')
  unfolding spend_inputs
  spend_inputs-IsHigh [] vs m m'' e high = let e' : m ≡ m'' = cc in rw (← e') high
  spend_inputs-IsHigh (i ∷ is) vs m m'' e high =
      let (c, u, c', us, there, spent, others, made) = spend_step base i is vs m m'' e in
      let h = i.prevout.hash in
      let height = high h c there in
      spend_inputs-IsHigh is us (set_coins h c' (get_coins base h m).1) m'' others
        (IsHigh-spent base h c' m high (ground (arith, spend-height i.prevout.n c c' u spent)))

  -- The inputs of a transaction are spent, and then its outputs are added.
  update_step :
      (tx : Transaction) (height h : ℕ) (us : List Undo) (m m' : Entries)
      → is_coin_base tx.vin ≡ false
      → update_coins base tx height h m ≡ some (us, m')
      → (m1 : Entries) × (spend_inputs base tx.vin m ≡ some (us, m1))
        × (m' ≡ set_coins h (coins_of tx height) m1)
  unfolding update_coins
  update_step tx height h us m m' plain e =
      let ((us', m1), spent, made) = >>=-eq-some (spend_inputs base tx.vin m) _ (rw plain at e) in
      (m1, ground arith, ground arith)

  module _ (height : ℕ) (high_block : height ≢ 0) where
    made_IsHigh :
        (tx : Transaction) (h : ℕ) (m1 : Entries)
        → IsHigh (through base m1)
        → IsHigh (through base (set_coins h (coins_of tx height) m1))
    unfolding coins_of
    made_IsHigh tx h m1 high k c e =
        ground (arith, through-set_coins base h k (coins_of tx height) m1, high k c)

    made_IsGone :
        (tx : Transaction) (h k : ℕ) (m1 : Entries)
        → h ≢ k
        → IsGone (through base m1) k
        → IsGone (through base (set_coins h (coins_of tx height) m1)) k
    made_IsGone tx h k m1 ne gone =
        let other : (h == k) ≡ false = ground arith in
        rw
          (through-set_coins base h k (coins_of tx height) m1
            ∙ if_other h k (some (coins_of tx height)) (through base m1 k) other)
          gone

    -- Taking the outputs away from what looks like the coins with them.
    removed :
        (tx : Transaction) (h : ℕ) (m1 t : Entries)
        → IsGone (through base m1) h
        → SameView (through base t) (through base (set_coins h (coins_of tx height) m1))
        → SameView (through base (remove_outputs base tx height h t).0) (through base m1)
    unfolding remove_outputs
    removed tx h m1 t gone same k =
        let t1 = (get_coins base h t).1 in
        elim (Bool-cases (h == k)) [
          | inl at_h ↦
              let read : through base (set_coins h no_coins t1) k ≡ some no_coins =
                read_spent base h k no_coins t ∙ rw at_h refl in
              rw read (
                gone_no_coins (through base m1 k)
                  (subst (λ j. Same (through base m1 j) none) ((==_iff h k).0 at_h) gone))
          | inr other ↦
              let was = same k in
              rw
                (read_spent base h k no_coins t
                  ∙ if_other h k (some no_coins) (through base t k) other)
                (rw
                  (through-set_coins base h k (coins_of tx height) m1
                    ∙ if_other h k (some (coins_of tx height)) (through base m1 k) other)
                  at was)
        ]

    -- One transaction behind the coin base.
    disconnect_one :
        (tx : Transaction) (h : ℕ) (us : List Undo) (m m' t : Entries)
        → IsHigh (through base m)
        → IsGone (through base m) h
        → is_coin_base tx.vin ≡ false
        → update_coins base tx height h m ≡ some (us, m')
        → SameView (through base t) (through base m')
        → (t' : Entries) × (fine : Bool) × (disconnect base tx height h us t ≡ some (t', fine))
          × SameView (through base t') (through base m)
    unfolding disconnect
    disconnect_one tx h us m m' t high gone plain e same =
        let (m1, spent, made) = update_step tx height h us m m' plain e in
        let without =
          removed tx h m1 t (spend_inputs-IsGone tx.vin us m m1 h spent gone) (rw made at same) in
        let (t', run, like) =
          restore_all base tx.vin us m m1 (remove_outputs base tx height h t).0 high spent
            without in
        (t', (remove_outputs base tx height h t).1 && true, rw run refl, like)

    connect_step :
        (tx : Transaction) (h : ℕ) (txs : Txs) (vss : List (List Undo)) (m m'' : Entries)
        → is_coin_base tx.vin ≡ false
        → connect_txs base height ((tx, h) ∷ txs) m ≡ some (vss, m'')
        → (us : List Undo) × (uss : List (List Undo)) × (m' : Entries) × (update_coins base tx
              height h m
            ≡ some (us, m'))
          × (connect_txs base height txs m' ≡ some (uss, m''))
          × (vss ≡ us ∷ uss)
    unfolding connect_txs
    connect_step tx h txs vss m m'' plain e =
        let ((us, m'), made, e1) = >>=-eq-some (update_coins base tx height h m) _ e in
        let ((uss, m3), others, e2) = >>=-eq-some (connect_txs base height txs m') _ e1 in
        (us, uss, m', made, ground arith, ground arith)

    -- The transactions behind the coin base, undone from the last to the first.
    disconnect_others :
        (txs : Txs) (vss : List (List Undo)) (m m'' t : Entries)
        → IsHigh (through base m)
        → All (λ p. is_coin_base p.0.vin ≡ false) txs
        → All (λ p. IsGone (through base m) p.1) txs
        → HaveOwnHashes txs
        → connect_txs base height txs m ≡ some (vss, m'')
        → SameView (through base t) (through base m'')
        → (t' : Entries) × (fine : Bool) × (disconnect_txs base height txs vss t ≡ some (t', fine))
          × SameView (through base t') (through base m)
    unfolding connect_txs disconnect_txs
    disconnect_others [] [] m m'' t high plain gone own e same =
        let e' : m ≡ m'' = cc in (t, true, refl, rw e' same)
    disconnect_others [] (vs ∷ vss) m m'' t high plain gone own e same = cc
    disconnect_others ((tx, h) ∷ txs) [] m m'' t high plain gone own e same =
        let (us, uss, m', made, others, shape) = connect_step tx h txs [] m m'' plain.0 e in cc
    disconnect_others ((tx, h) ∷ txs) (vs ∷ vss) m m'' t high plain gone own e same =
        let (us, uss, m', made, others, shape) = connect_step tx h txs (vs ∷ vss) m m'' plain.0 e in
        let (m1, spent, added) = update_step tx height h us m m' plain.0 made in
        let high1 = spend_inputs-IsHigh tx.vin us m m1 spent high in
        let high' : IsHigh (through base m') = rw added (made_IsHigh tx h m1 high1) in
        let gone' : All (λ p. IsGone (through base m') p.1) txs =
          All-map (λ p. (h ≢ p.1) × IsGone (through base m) p.1) (λ p. IsGone (through base m') p.1)
            txs
            (λ p both. rw added (
              made_IsGone tx h p.1 m1 both.0 (spend_inputs-IsGone tx.vin us m m1 p.1 spent both.1)))
            (All-both (λ p. h ≢ p.1) (λ p. IsGone (through base m) p.1) txs own.0 gone.1) in
        let (t1, fine1, run1, like1) =
          disconnect_others txs uss m' m'' t high' plain.1 gone' own.1 others same in
        let (t2, fine2, run2, like2) =
          disconnect_one tx h us m m' t1 high gone.0 plain.0 made like1 in
        (t2, fine1 && fine2, ground (arith, run1, run2), like2)

    coin_base_step :
        (tx : Transaction) (h : ℕ) (txs : Txs) (uss : List (List Undo)) (m m'' : Entries)
        → is_coin_base tx.vin ≡ true
        → connect_txs base height ((tx, h) ∷ txs) m ≡ some (uss, m'')
        → connect_txs base height txs (set_coins h (coins_of tx height) m) ≡ some (uss, m'')
    unfolding connect_txs update_coins
    coin_base_step tx h txs uss m m'' mint e =
        let m' = set_coins h (coins_of tx height) m in
        let ((uss', m3), others, e1) =
          >>=-eq-some (connect_txs base height txs m') _ (rw mint at e) in
        ground arith

    -- A block that is connected and then disconnected leaves every output that can be spent, and where
    -- it is from, as before. The block starts with its only coin base, its transactions have different
    -- hashes, none of them with outputs left in the view (what ConnectBlock tests), and the heights of
    -- the block and of all coins are not 0. The view that is undone need only look like the one after
    -- the block.
    pub disconnect_block-connect_txs :
        (tx : Transaction) (h : ℕ) (txs : Txs) (uss : List (List Undo)) (m m'' t : Entries)
        → IsHigh (through base m)
        → is_coin_base tx.vin ≡ true
        → All (λ p. is_coin_base p.0.vin ≡ false) txs
        → All (λ p. IsGone (through base m) p.1) ((tx, h) ∷ txs)
        → HaveOwnHashes ((tx, h) ∷ txs)
        → connect_txs base height ((tx, h) ∷ txs) m ≡ some (uss, m'')
        → SameView (through base t) (through base m'')
        → (t' : Entries) × (fine : Bool) × (disconnect_block base height ((tx, h) ∷ txs) uss t
            ≡ some (t', fine))
          × SameView (through base t') (through base m)
    unfolding disconnect_block
    disconnect_block-connect_txs tx h txs uss m m'' t high mint plain gone own e same =
        let m' = set_coins h (coins_of tx height) m in
        let others = coin_base_step tx h txs uss m m'' mint e in
        let gone' =
          All-map (λ p. (h ≢ p.1) × IsGone (through base m) p.1) (λ p. IsGone (through base m') p.1)
            txs (λ p both. made_IsGone tx h p.1 m both.0 both.1)
            (All-both (λ p. h ≢ p.1) (λ p. IsGone (through base m) p.1) txs own.0 gone.1) in
        let (t1, fine1, run1, like1) =
          disconnect_others txs uss m' m'' t (made_IsHigh tx h m high) plain gone' own.1 others
            same in
        (
          (remove_outputs base tx height h t1).0,
          fine1 && (remove_outputs base tx height h t1).1,
          rw run1 refl,
          removed tx h m t1 gone.0 like1,
        )
