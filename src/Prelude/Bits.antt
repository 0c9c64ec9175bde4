-- ===== src/Prelude/Bits.antt =====
-- A test run on every number below a bound, by evaluation: for the tables over one byte.
use tetra.Prelude.{ℕ, zero, suc, ◌<◌, ◌≡◌, Bool, true, false, arith, if◌then◌else◌}

unfoldable pub passes : (ℕ → Bool) → ℕ → Bool
passes test zero = true
passes test (suc k) = let others = passes test k in if test k then others else false

pub passes-at : (test : ℕ → Bool) (k b : ℕ) → b < k → passes test k ≡ true → test b ≡ true
unfolding passes
passes-at test zero b below done = absurd (omega arith)
passes-at test (suc k) b below done = ground (arith, passes-at test k b)
