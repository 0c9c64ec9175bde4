-- ===== src/Inputs/Value.antt =====
-- GetValueIn (src/main.cpp): the sum of what a transaction spends.
use Prim.Native.String.{String}
use tetra.Prelude.{ℕ, ◌≤◌, ◌≡◌, refl, false, List, [], ◌∷◌, some, arith, All, length}
use tetra.Prelude.Int.{pos}
use tetra.Cash.{Cash, empty, plus_assign, find}
use tetra.Transaction.{TxIn, Transaction, is_coin_base}
use tetra.Coins.Cache.{Entries, View, get_coins, through}
use tetra.Inputs.{get_output_for, value_in_loop, get_value_in}
use tetra.Inputs.Totals.{IsGood, total, plus_all, read, read-plus_all}
use tetra.Inputs.Reads.{IsThere, Reads, Reads-get_coins, spent, spent_cons, length-spent}

module _ (base v : View) where
  value_in_loop_lem :
      (is : List TxIn) (t : Cash) (m : Entries)
      → Reads base v m
      → All (IsThere v) is
      → (m' : Entries) × (value_in_loop base is t m ≡ some (plus_all (spent v is) t, m'))
        × Reads base v m'
  unfolding value_in_loop get_output_for
  value_in_loop_lem [] t m h there = (m, refl, h)
  value_in_loop_lem (i ∷ is) t m h ((c, o, is_c, is_o), there) =
      let (here, later) = Reads-get_coins base v i.prevout.hash m h in
      let (m', e, reads) =
        value_in_loop_lem is (plus_assign t o.value) (get_coins base i.prevout.hash m).1 later
          there in
      (m', ground (arith, here, spent_cons v i is c o is_c is_o), reads)

module _ (base : View) where
  -- GetValueIn of a transaction whose inputs' outputs are there fails no assertion; it has, for every
  -- circuit, the whole amount of these outputs, and changes nothing that can be read through the
  -- cache. The outputs have, for each circuit, one amount between 0 and MAX_MONEY, and there are at
  -- most a million.
  get_value_in-total :
      (tx : Transaction) (m : Entries) (circuit : String)
      → is_coin_base tx.vin ≡ false
      → All (IsThere (through base m)) tx.vin
      → All IsGood (spent (through base m) tx.vin)
      → length tx.vin ≤ 1000000
      → (value : Cash) × (m' : Entries) × (get_value_in base tx m ≡ some (value, m'))
        × (read circuit value.local ≡ pos (total circuit (spent (through base m) tx.vin)))
        × ((k : ℕ) → through base m' k ≡ through base m k)
  unfolding get_value_in find
  get_value_in-total tx m circuit ordinary there good few =
      let v = through base m in
      let fewer = length-spent v tx.vin in
      let (m', e, reads) = value_in_loop_lem base v tx.vin empty m (λ k. refl) there in
      let (sum, map, bound) =
        read-plus_all circuit (spent v tx.vin) empty 0 0 good tt refl (omega arith) (omega arith) in
      (plus_all (spent v tx.vin) empty, m', ground arith, ground arith, reads)
