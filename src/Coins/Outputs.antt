-- ===== src/Coins/Outputs.antt =====
-- The outputs that are available, after each operation on coins.
use tetra.Prelude.{
  ℕ, zero, suc, ◌≡◌, refl, true, false, List, [], ◌∷◌, none, some, arith, ◌==◌, if◌then◌else◌, set,
}
use tetra.Transaction.{TxOut}
use tetra.Coins.{null_out, is_null_out, cleanup, available, is_pruned, assign}

pub available-cleanup : (m : ℕ) (vout : List TxOut) → available m (cleanup vout) ≡ available m vout
unfolding available cleanup
available-cleanup m [] = refl
available-cleanup zero (o ∷ os) = ground (arith, available-cleanup zero os)
available-cleanup (suc m) (o ∷ os) = ground (arith, available-cleanup m os)

pub available-set :
    (m n : ℕ) (vout : List TxOut)
    → available m (set vout n null_out) ≡ (if n == m then none else available m vout)
unfolding available is_null_out
available-set m n [] = ground arith
available-set zero zero (o ∷ os) = refl
available-set (suc m) zero (o ∷ os) = ground arith
available-set zero (suc n) (o ∷ os) = ground arith
available-set (suc m) (suc n) (o ∷ os) = ground (arith, available-set m n os)

pub available-assign :
    (m n : ℕ) (o : TxOut) (vout : List TxOut)
    → is_null_out o ≡ false
    → available m (assign n o vout) ≡ (if n == m then some o else available m vout)
unfolding available assign is_null_out
available-assign zero zero o [] h = ground arith
available-assign (suc m) zero o [] h = ground arith
available-assign zero zero o (x ∷ xs) h = ground arith
available-assign (suc m) zero o (x ∷ xs) h = ground arith
available-assign zero (suc n) o [] h = ground arith
available-assign (suc m) (suc n) o [] h = ground (arith, available-assign m n o [] h)
available-assign zero (suc n) o (x ∷ xs) h = ground arith
available-assign (suc m) (suc n) o (x ∷ xs) h = ground (arith, available-assign m n o xs h)

-- Pruned coins have no output left, and others have one.
pub available-is_pruned :
    (m : ℕ) (vout : List TxOut) → is_pruned vout ≡ true → available m vout ≡ none
unfolding available is_pruned
available-is_pruned m [] h = refl
available-is_pruned zero (o ∷ os) h = ground arith
available-is_pruned (suc m) (o ∷ os) h = ground (arith, available-is_pruned m os)

pub not_pruned :
    (m : ℕ) (o : TxOut) (vout : List TxOut) → available m vout ≡ some o → is_pruned vout ≡ false
not_pruned m o vout h = ground (arith, available-is_pruned m vout)

pub cleanup-is_pruned : (vout : List TxOut) → is_pruned vout ≡ true → cleanup vout ≡ []
unfolding is_pruned cleanup
cleanup-is_pruned [] h = refl
cleanup-is_pruned (o ∷ os) h = ground (arith, cleanup-is_pruned os)

pub available-ne-null :
    (n : ℕ) (vout : List TxOut) (o : TxOut) → available n vout ≡ some o → is_null_out o ≡ false
unfolding available
available-ne-null n vout o h = ground arith

is_pruned-cleanup : (vout : List TxOut) → is_pruned (cleanup vout) ≡ is_pruned vout
unfolding is_pruned cleanup
is_pruned-cleanup [] = refl
is_pruned-cleanup (o ∷ os) = ground (arith, is_pruned-cleanup os)

pub cleanup-not_pruned :
    (vout : List TxOut) (p : TxOut) (ps : List TxOut)
    → cleanup vout ≡ p ∷ ps
    → is_pruned (p ∷ ps) ≡ false
cleanup-not_pruned vout p ps e = ground (arith, is_pruned-cleanup vout, cleanup-is_pruned vout)
