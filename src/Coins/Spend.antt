-- ===== src/Coins/Spend.antt =====
-- Spending an output and restoring it, up to what can be seen of coins.
use tetra.Prelude.{
  ◌⊎◌, inl, inr, Option-cases, Bool-cases, ℕ, ◌≡◌, ◌≢◌, refl, ◌∙◌, Bool, true, false, not, ◌&&◌,
  List, [], ◌∷◌, Option, none, some, arith, ◌==◌, if◌then◌else◌, set,
}
use tetra.Prelude.Int.{ℤ}
use tetra.Transaction.{TxOut}
use tetra.Coins.{
  null_out, is_null_out, Coins, cleanup, available, is_available, is_pruned, Undo, spend, assign,
  restore,
}
use tetra.Coins.Outputs.{
  available-cleanup, available-set, available-assign, not_pruned, cleanup-not_pruned,
  available-ne-null,
}

-- An output that is left, and where the coins come from if one is: their coin base, height and version.
abbrev pub unspent : ℕ → Option Coins → Option TxOut
unspent n none = none
unspent n (some c) = available n c.vout

abbrev pub origin : Option Coins → Option (Bool × ℕ × ℤ)
origin none = none
origin (some c) = if is_pruned c.vout then none else some (c.coin_base, c.height, c.version)

abbrev pub Same : Option Coins → Option Coins → Type 0
Same a b = ((n : ℕ) → unspent n a ≡ unspent n b) × (origin a ≡ origin b)

-- How an output was spent: it was the last, or there are others left.
pub data Spent (n : ℕ) (c : Coins) (u : Undo) (c' : Coins) : Type 0 where
  last :
      cleanup (set c.vout n null_out) ≡ []
      → u ≡ record {
        txout = u.txout;
        coin_base = c.coin_base;
        height = c.height;
        version = c.version;
      }
      → c' ≡ record c { vout = [] }
      → Spent n c u c'
  left :
      (p : TxOut) (ps : List TxOut)
      → cleanup (set c.vout n null_out) ≡ p ∷ ps
      → u.height ≡ 0
      → c' ≡ record c { vout = p ∷ ps }
      → Spent n c u c'

List-cases : (l : List TxOut) → (l ≡ []) ⊎ ((p : TxOut) × (ps : List TxOut) × (l ≡ p ∷ ps))
List-cases [] = inl refl
List-cases (p ∷ ps) = inr (p, ps, refl)

pub spend_inverted :
    (n : ℕ) (c c' : Coins) (u : Undo)
    → spend n c ≡ some (u, c')
    → (available n c.vout ≡ some u.txout) × Spent n c u c'
unfolding spend
spend_inverted n c c' u h = elim (Option-cases (available n c.vout)) [
  | inl missing ↦ ground arith
  | inr (o, there) ↦ elim (List-cases (cleanup (set c.vout n null_out))) [
    | inl none_left ↦ (ground arith, last none_left (ground arith) (ground arith))
    | inr (p, ps, some_left) ↦ (ground arith, left p ps some_left (ground arith) (ground arith))
  ]
]

-- What `spend` leaves: all but the one output.
pub spend-unspent :
    (n m : ℕ) (c c' : Coins) (u : Undo)
    → spend n c ≡ some (u, c')
    → available m c'.vout ≡ (if n == m then none else available m c.vout)
unfolding spend
spend-unspent n m c c' u h =
    ground (arith, available-cleanup m (set c.vout n null_out), available-set m n c.vout)

available_nil : (m : ℕ) → available m [] ≡ none
unfolding available
available_nil m = refl

is_pruned_nil : is_pruned [] ≡ true
unfolding is_pruned
is_pruned_nil = refl

restore_last :
    (n : ℕ) (u : Undo) (d : Coins)
    → u.height ≢ 0
    → restore n u d ≡ (
      record {
        coin_base = u.coin_base;
        vout = assign n u.txout [];
        height = u.height;
        version = u.version;
      },
      is_pruned d.vout && not (is_available n []),
    )
unfolding restore
restore_last n u d h = ground arith

restore_left :
    (n : ℕ) (u : Undo) (d : Coins)
    → u.height ≡ 0
    → restore n u d ≡ (
      record d { vout = assign n u.txout d.vout },
      not (is_pruned d.vout) && not (is_available n d.vout),
    )
unfolding restore
restore_left n u d h = ground arith

-- Coins without outputs have no origin, and the others have one.
origin_parts :
    (d c : Coins)
    → Same (some d) (some c)
    → is_pruned c.vout ≡ false
    → (is_pruned d.vout ≡ false)
      × (d.coin_base ≡ c.coin_base)
      × (d.height ≡ c.height)
      × (d.version ≡ c.version)
origin_parts d c same h =
    let e = same.1 in
    elim (Bool-cases (is_pruned d.vout)) [ inl gone ↦ ground arith | inr there ↦ ground arith ]

pub spend-height :
    (n : ℕ) (c c' : Coins) (u : Undo) → spend n c ≡ some (u, c') → c'.height ≡ c.height
spend-height n c c' u h = elim (spend_inverted n c c' u h).1 [
  | last none_left eu ec ↦ ground arith
  | left p ps some_left eu ec ↦ ground arith
]

module _ (n : ℕ) (c c' d : Coins) (u : Undo) (high : c.height ≢ 0)
    (spent : spend n c ≡ some (u, c')) (same : Same (some d) (some c')) where
  whole : is_null_out u.txout ≡ false
  whole = available-ne-null n c.vout u.txout (spend_inverted n c c' u spent).0

  -- Restoring an output on what looks like the coins after it was spent gives the coins before.
  unspent-restore : (m : ℕ) → available m (restore n u d).0.vout ≡ available m c.vout
  unspent-restore m =
      let found = (spend_inverted n c c' u spent).0 in
      elim (spend_inverted n c c' u spent).1 [
        | last none_left eu ec ↦ ground (
          arith,
          restore_last n u d (ground arith),
          available-assign m n u.txout [] whole,
          spend-unspent n m c c' u spent,
          available_nil m,
        )
        | left p ps some_left eu ec ↦ ground (
          arith,
          restore_left n u d eu,
          available-assign m n u.txout d.vout whole,
          spend-unspent n m c c' u spent,
          same.0 m,
        )
      ]

  restored_not_pruned : is_pruned (restore n u d).0.vout ≡ false
  restored_not_pruned =
      not_pruned n u.txout (restore n u d).0.vout
        (unspent-restore n ∙ (spend_inverted n c c' u spent).0)

  origin-restore : origin (some (restore n u d).0) ≡ origin (some c)
  origin-restore =
      let kept = not_pruned n u.txout c.vout (spend_inverted n c c' u spent).0 in
      elim (spend_inverted n c c' u spent).1 [
        | last none_left eu ec ↦
            ground (arith, restored_not_pruned, kept, restore_last n u d (ground arith))
        | left p ps some_left eu ec ↦ ground (
          arith,
          restored_not_pruned,
          kept,
          restore_left n u d eu,
          origin_parts d c' same
              (ground (arith, cleanup-not_pruned (set c.vout n null_out) p ps some_left)),
        )
      ]

  -- What looks like the coins after an output was spent becomes what looks like the coins before.
  pub restore-spend : Same (some (restore n u d).0) (some c)
  restore-spend = (unspent-restore, origin-restore)

  -- And nothing is found amiss.
  pub restore_clean : (restore n u d).1 ≡ true
  unfolding is_available
  restore_clean =
      let gone = spend-unspent n n c c' u spent in
      elim (spend_inverted n c c' u spent).1 [
        | last none_left eu ec ↦
            ground
              (arith, restore_last n u d (ground arith), available_nil n, is_pruned_nil, same.1)
        | left p ps some_left eu ec ↦ ground (
          arith,
          restore_left n u d eu,
          gone,
          same.0 n,
          origin_parts d c' same
              (ground (arith, cleanup-not_pruned (set c.vout n null_out) p ps some_left)),
        )
      ]
