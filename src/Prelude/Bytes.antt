-- ===== src/Prelude/Bytes.antt =====
-- Numbers as little-endian bytes, the memory layout that the source copies by `memcpy`.
use native.Mathlib.Nat.{pow-suc}
use tetra.Prelude.{
  ℕ, zero, suc, ◌+◌, ◌*◌, ◌/◌, ◌%◌, ◌^◌, ◌<◌, ◌≡◌, refl, List, [], ◌∷◌, ◌++◌, Option, none, some,
  arith, leb, if◌then◌else◌, length, length-append, length-drop, take, drop, ap, All,
}

abbrev pub IsByte : ℕ → Type 0
IsByte b = b < 256

-- The low `k` bytes of `n`, lowest first.
unfoldable pub le_bytes : ℕ → ℕ → List ℕ
le_bytes zero n = []
le_bytes (suc k) n = (n % 256) ∷ le_bytes k (n / 256)

unfoldable pub le_value : List ℕ → ℕ
le_value [] = 0
le_value (b ∷ bs) = b + 256 * le_value bs

-- Reads `k` bytes as a number; fails where fewer are left.
unfoldable pub read_le : ℕ → List ℕ → Option (ℕ × List ℕ)
read_le k pc = if leb k (length pc) then some (le_value (take k pc), drop k pc) else none

pub length-le_bytes : (k n : ℕ) → length (le_bytes k n) ≡ k
unfolding le_bytes
length-le_bytes zero n = refl
length-le_bytes (suc k) n = ap suc (length-le_bytes k (n / 256))

pub le_bytes-IsByte : (k n : ℕ) → All IsByte (le_bytes k n)
unfolding le_bytes
le_bytes-IsByte zero n = tt
le_bytes-IsByte (suc k) n = (omega arith, le_bytes-IsByte k (n / 256))

pub le_value-le_bytes : (k n : ℕ) → n < 256 ^ k → le_value (le_bytes k n) ≡ n
unfolding le_bytes le_value
le_value-le_bytes zero n h = omega arith
le_value-le_bytes (suc k) n h =
    omega (arith, le_value-le_bytes k (n / 256) (omega (arith, pow-suc 256 k)))

pub take-append {ℓ} : {A : Type ℓ} (xs ys : List A) → take (length xs) (xs ++ ys) ≡ xs
take-append [] ys = refl
take-append (x ∷ xs) ys = ap (λ r. x ∷ r) (take-append xs ys)

pub drop-append {ℓ} : {A : Type ℓ} (xs ys : List A) → drop (length xs) (xs ++ ys) ≡ ys
drop-append [] ys = refl
drop-append (x ∷ xs) ys = drop-append xs ys

pub read_le-append :
    (xs rest : List ℕ) → read_le (length xs) (xs ++ rest) ≡ some (le_value xs, rest)
unfolding read_le
read_le-append xs rest =
    ground (arith, length-append xs rest, take-append xs rest, drop-append xs rest)

-- Reading back what was written, with anything behind it.
pub read_le-le_bytes :
    (k n : ℕ) (rest : List ℕ) → n < 256 ^ k → read_le k (le_bytes k n ++ rest) ≡ some (n, rest)
read_le-le_bytes k n rest h =
    let read = read_le-append (le_bytes k n) rest in
    rw (length-le_bytes k n, le_value-le_bytes k n h) at read

-- A read takes exactly `k` bytes.
pub length-read_le :
    (k : ℕ) (pc : List ℕ) (n : ℕ) (rest : List ℕ)
    → read_le k pc ≡ some (n, rest)
    → length rest + k ≡ length pc
unfolding read_le
length-read_le k pc n rest e = ground (arith, length-drop k pc)
