-- ===== src/Coins/Cache.antt =====
-- CCoinsViewCache (src/main.cpp): coins by transaction, over the view below, which is a function here. A
-- std::map is a list of entries with distinct keys.
use tetra.Prelude.{
  inl, inr, Option-cases, ℕ, ◌≡◌, refl, Bool, true, false, List, [], ◌∷◌, Option, none, some, arith,
  ◌==◌, if◌then◌else◌, length,
}
use tetra.Coins.{Coins}

abbrev pub Entries : Type 0
Entries = List (ℕ × Coins)

abbrev pub View : Type 0
View = ℕ → Option Coins

unfoldable pub lookup : ℕ → Entries → Option Coins
lookup k [] = none
lookup k ((j, c) ∷ m) = if j == k then some c else lookup k m

-- `cacheCoins[k] = c`
unfoldable pub insert : ℕ → Coins → Entries → Entries
insert k c [] = (k, c) ∷ []
insert k c ((j, d) ∷ m) = if j == k then (k, c) ∷ m else (j, d) ∷ insert k c m

-- `GetCoins`, which is `FetchCoins` too: what the cache has, or what the view below has, which is kept.
unfoldable pub get_coins : View → ℕ → Entries → Option Coins × Entries
get_coins base k m = elim (lookup k m) [
  | some c ↦ (some c, m)
  | none ↦ elim (base k) [ some c ↦ (some c, insert k c m) | none ↦ (none, m) ]
]

unfoldable pub have_coins : View → ℕ → Entries → Bool × Entries
have_coins base k m =
    let r = get_coins base k m in (elim r.0 as (λ o. Bool) [ some c ↦ true | none ↦ false ], r.1)

unfoldable pub set_coins : ℕ → Coins → Entries → Entries
set_coins k c m = insert k c m

-- `BatchWrite` into this cache, from the entries of one above it.
unfoldable pub batch_write : Entries → Entries → Entries
batch_write [] m = m
batch_write ((k, c) ∷ above) m = batch_write above (insert k c m)

-- A cache with its best block; `none` is a null pointer.
pub record Cache : Type 0 where
  pub coins : Entries
  pub tip : Option ℕ

unfoldable pub get_best_block : Option ℕ → Cache → Option ℕ × Cache
get_best_block base m = elim m.tip [ some b ↦ (some b, m) | none ↦ (base, record m { tip = base }) ]

unfoldable pub set_best_block : Option ℕ → Cache → Cache
set_best_block b m = record m { tip = b }

-- `Flush` into another cache, which takes the entries and the best block, and never fails.
unfoldable pub flush : Cache → Cache → Cache × Cache
flush m below =
    (record m { coins = [] }, record { coins = batch_write m.coins below.coins; tip = m.tip })

unfoldable pub get_cache_size : Cache → ℕ
get_cache_size m = length m.coins

-- What can be read through a cache.
unfoldable pub through : View → Entries → View
through base m k = elim (lookup k m) [ some c ↦ some c | none ↦ base k ]

abbrev pub IsMap : Entries → Type 0
IsMap [] = Unit {0}
IsMap ((k, c) ∷ m) = (lookup k m ≡ none) × IsMap m

pub lookup-insert :
    (k j : ℕ) (c : Coins) (m : Entries)
    → lookup j (insert k c m) ≡ (if k == j then some c else lookup j m)
unfolding lookup insert
lookup-insert k j c [] = refl
lookup-insert k j c ((i, d) ∷ m) = ground (arith, lookup-insert k j c m)

pub insert-IsMap : (k : ℕ) (c : Coins) (m : Entries) → IsMap m → IsMap (insert k c m)
unfolding lookup insert
insert-IsMap k c [] h = (refl, tt)
insert-IsMap k c ((j, d) ∷ m) h = ground (arith, insert-IsMap k c m h.1, lookup-insert k j c m)

-- Reading gives what is there, and changes nothing of it.
pub get_coins_lem : (base : View) (k : ℕ) (m : Entries) → (get_coins base k m).0 ≡ through base m k
unfolding get_coins through
get_coins_lem base k m = ground arith

pub through-get_coins :
    (base : View) (k j : ℕ) (m : Entries) → through base (get_coins base k m).1 j ≡ through base m j
unfolding get_coins through
through-get_coins base k j m = elim (Option-cases (lookup k m)) [
  | inr (c, cached) ↦ ground arith
  | inl missing ↦ elim (Option-cases (base k)) [
    | inr (c, below) ↦ ground (arith, lookup-insert k j c m)
    | inl nowhere ↦ ground arith
  ]
]

pub through-set_coins :
    (base : View) (k j : ℕ) (c : Coins) (m : Entries)
    → through base (set_coins k c m) j ≡ (if k == j then some c else through base m j)
unfolding set_coins through
through-set_coins base k j c m = ground (arith, lookup-insert k j c m)

lookup-batch_write :
    (j : ℕ) (above m : Entries)
    → IsMap above
    → lookup j (batch_write above m)
      ≡ (elim (lookup j above) [ some c ↦ some c | none ↦ lookup j m ])
unfolding lookup batch_write
lookup-batch_write j [] m h = refl
lookup-batch_write j ((k, c) ∷ above) m h =
    ground (arith, lookup-insert k j c m, lookup-batch_write j above (insert k c m) h.1)

-- Flushing leaves the upper cache without coins, and what was read through it before, which has one entry for
-- a transaction, is read through the lower one afterwards, and through both. The lower cache takes the
-- best block of the upper one, which reads as before through both. Where the upper one has none, the
-- lower one has none afterwards either, and reads that of the view below.
pub through-flush :
    (base : View) (best : Option ℕ) (m below : Cache) (j : ℕ)
    → IsMap m.coins
    → (get_cache_size (flush m below).0 ≡ 0)
      × (through base (flush m below).1.coins j ≡ through (through base below.coins) m.coins j)
      × (through (through base (flush m below).1.coins) (flush m below).0.coins j
          ≡ through (through base below.coins) m.coins j)
      × ((b : ℕ)
          → m.tip ≡ some b
          → ((get_best_block best (flush m below).1).0 ≡ some b)
            × ((get_best_block (get_best_block best (flush m below).1).0 (flush m below).0).0
                ≡ (get_best_block (get_best_block best below).0 m).0))
      × (m.tip ≡ none
          → ((flush m below).1.tip ≡ none) × ((get_best_block best (flush m below).1).0 ≡ best))
unfolding flush lookup through get_best_block get_cache_size
through-flush base best m below j h =
    let read = lookup-batch_write j m.coins below.coins h in
    (
      refl,
      ground (arith, read),
      ground (arith, read),
      λ b e. (rw e refl, rw e refl),
      λ e. (e, rw e refl),
    )
