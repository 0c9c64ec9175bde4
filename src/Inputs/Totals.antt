-- ===== src/Inputs/Totals.antt =====
-- The amount of one circuit in a sum of outputs (src/cash.cpp, src/main.cpp): no sum of a million
-- amounts within MAX_MONEY leaves the 64 bits.
use Prim.Native.String.{String}
use text.Mathlib.TextEquality.{eq_iff}
use tetra.Prelude.{
  ℕ, suc, ◌+◌, ◌*◌, ◌≤◌, ◌≡◌, refl, false, List, [], ◌∷◌, none, some, arith, All, length,
  Option-cases, inl, inr,
}
use tetra.Prelude.Int.{ℤ, pos, negsuc, ◌+ℤ◌, ◌-ℤ◌, ◌≤ℤ◌, pos_part}
use tetra.Prelude.Word.{add64, sub64, neg64, wrap}
use tetra.Cash.{Cash, Entries, find, plus_assign, minus, lt_int, min_value}
use tetra.Cash.Lookup.{IsMap, find-plus_entries, IsMap-plus_entries, find-minus}
use tetra.Cash.Range.{max_money}
use tetra.Transaction.{TxOut}
use tetra.Transaction.Sound.{IsBounded, min_entries-All}

-- The amount of a circuit, 0 where there is none.
abbrev pub read : String → Entries → ℤ
read j l = elim (find j l) [ some a ↦ a | none ↦ pos 0 ]

-- Outputs that a transaction can have: a map of amounts between 0 and MAX_MONEY.
abbrev pub IsGood : TxOut → Type 0
IsGood o = IsMap o.value.local × IsBounded o

-- The whole amount of a circuit; the amounts of good outputs are not negative.
abbrev pub total : String → List TxOut → ℕ
total j [] = 0
total j (o ∷ os) = pos_part (read j o.value.local) + total j os

abbrev pub plus_all : List TxOut → Cash → Cash
plus_all [] acc = acc
plus_all (o ∷ os) acc = plus_all os (plus_assign acc o.value)

find-lower :
    (j : String) (a : ℤ) (l : Entries) → All (λ e. pos 0 ≤ℤ e.1) l → find j l ≡ some a → pos 0 ≤ℤ a
unfolding find
find-lower j a [] h e = cc
find-lower j a ((k, v) ∷ l) h e = ground (arith, eq_iff k j, find-lower j a l h.1)

find-bounds :
    (j : String) (a : ℤ) (l : Entries)
    → All (λ e. (pos 0 ≤ℤ e.1) × (e.1 ≤ℤ max_money)) l
    → find j l ≡ some a
    → (pos 0 ≤ℤ a) × (a ≤ℤ max_money)
unfolding find
find-bounds j a [] h e = cc
find-bounds j a ((k, v) ∷ l) h e = ground (arith, eq_iff k j, find-bounds j a l h.1)

natural : (a : ℤ) → pos 0 ≤ℤ a → a ≤ℤ max_money → (n : ℕ) × (a ≡ pos n) × (n ≤ 1840000000000)
natural (pos n) low high = (n, refl, omega arith)
natural (negsuc n) low high = absurd (omega arith)

read-IsBounded :
    (j : String) (o : TxOut)
    → IsBounded o
    → (n : ℕ) × (read j o.value.local ≡ pos n) × (n ≤ 1840000000000)
read-IsBounded j o h = elim (Option-cases (find j o.value.local)) [
  | inl missing ↦ (0, ground arith, omega arith)
  | inr (a, found) ↦
      (let both = find-bounds j a o.value.local h found in
        let (n, e, bound) = natural a both.0 both.1 in (n, ground arith, bound))
]

read-plus_assign :
    (j : String) (acc x : Cash) (s n : ℕ)
    → IsMap x.local
    → read j acc.local ≡ pos s
    → read j x.local ≡ pos n
    → s + n ≤ 2000000000000000000
    → read j (plus_assign acc x).local ≡ pos (s + n)
unfolding plus_assign add64 ◌+ℤ◌ wrap
read-plus_assign j acc x s n map es en h = ground (arith, find-plus_entries j x.local acc.local map)

-- The sum has what was there and the whole amount of the outputs, and one entry for a name.
pub read-plus_all :
    (j : String) (os : List TxOut) (acc : Cash) (s k : ℕ)
    → All IsGood os
    → IsMap acc.local
    → read j acc.local ≡ pos s
    → s ≤ k * 1840000000000
    → k + length os ≤ 1000000
    → (read j (plus_all os acc).local ≡ pos (s + total j os))
      × IsMap (plus_all os acc).local
      × (s + total j os ≤ 2000000000000000000)
unfolding plus_assign
read-plus_all j [] acc s k good map e h room = (ground arith, map, omega arith)
read-plus_all j (o ∷ os) acc s k good map e h room =
    let (n, en, bound) = read-IsBounded j o good.0.1 in
    let (here, map', bound') =
      read-plus_all j os (plus_assign acc o.value) (s + n) (suc k) good.1
        (IsMap-plus_entries o.value.local acc.local map)
        (read-plus_assign j acc o.value s n good.0.0 e en (omega arith)) (omega arith)
        (omega arith) in
    (ground arith, map', ground arith)

-- Where no circuit's difference is negative, none is greater on the right.
pub total_le :
    (j : String) (x y : Cash) (s t : ℕ)
    → IsMap x.local
    → IsMap y.local
    → read j x.local ≡ pos s
    → read j y.local ≡ pos t
    → s ≤ 2000000000000000000
    → t ≤ 2000000000000000000
    → lt_int (minus x y) (pos 0) ≡ false
    → t ≤ s
unfolding lt_int min_value sub64 neg64 wrap ◌-ℤ◌
total_le j x y s t mx my ex ey hs ht fine =
    let least = min_entries-All (minus x y).local (minus x y).fixed (pos 0) (ground arith) in
    elim (Option-cases (find j (minus x y).local)) [
      | inl none_left ↦ ground (arith, find-minus x y j mx my)
      | inr (d, found) ↦
          ground (arith, find-minus x y j mx my, find-lower j d (minus x y).local least found)
    ]
