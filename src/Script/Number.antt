-- ===== src/Script/Number.antt =====
-- `CBigNum` (src/bignum.h) over OpenSSL's BIGNUM, and the casts of stack elements (src/script.cpp).
use Prim.Native.Nat.{Ordering}
use tetra.Prelude.{
  ℕ, zero, suc, ◌+◌, ◌-◌, ◌*◌, ◌/◌, ◌%◌, ◌^◌, Bool, true, false, not, ◌&&◌, List, [], ◌∷◌, ◌++◌,
  reverse, Option, some, ◌>>◌, guard, leb, ltb, ◌==◌, if◌then◌else◌, length, drop,
}
use tetra.Prelude.Int.{ℤ, pos, negsuc}

-- The calls of OpenSSL that the scripts' numbers are made of. `cmp` is the sign that BN_cmp returns.
pub record Bignum : Type 1 where
  pub Num : Type 0
  pub mpi2bn : List ℕ → Num
  pub bn2mpi : Num → List ℕ
  pub set_word : ℕ → Num
  pub get_word : Num → ℕ
  pub is_negative : Num → Bool
  pub set_negative : Num → Bool → Num
  pub add : Num → Num → Num
  pub sub : Num → Num → Num
  pub cmp : Num → Num → Ordering

-- Four bytes of size, highest first, in front of an MPI.
unfoldable pub mpi_size : ℕ → List ℕ
mpi_size n = (n / 2 ^ 24 % 256) ∷ (n / 2 ^ 16 % 256) ∷ (n / 2 ^ 8 % 256) ∷ (n % 256) ∷ []

-- The loop of `setint64` over the bytes of the magnitude, highest first. For a byte `c & 0x80` is
-- `0x80 <= c`, and `c |= 0x80` below that adds 0x80.
unfoldable pub mpi_bytes : Bool → ℕ → ℕ → Bool → List ℕ
mpi_bytes negative zero n leading = []
mpi_bytes negative (suc rounds) n leading =
    let c = n / 2 ^ 56 % 256 in
    let skipped = mpi_bytes negative rounds (n * 2 ^ 8 % 2 ^ 64) true in
    let rest = mpi_bytes negative rounds (n * 2 ^ 8 % 2 ^ 64) false in
    if leading
    then (if c == 0
        then skipped
        else if leb 0x80 c
        then (if negative then 0x80 else 0) ∷ c ∷ rest
        else (if negative then c + 0x80 else c) ∷ rest)
    else c ∷ rest

-- CastToBool: any byte but zero counts, except for a last byte 0x80 (negative zero).
unfoldable pub cast_to_bool : List ℕ → Bool
cast_to_bool [] = false
cast_to_bool (b ∷ bs) = if b == 0 then cast_to_bool bs else not (length bs == 0 && b == 0x80)

-- nMaxNumSize
abbrev pub max_num_size : ℕ
max_num_size = 4

abbrev pub int_max : ℕ
int_max = 0x7fff_ffff

module _ (bn : Bignum) where
  open bn use {Num, mpi2bn, bn2mpi, set_word, get_word, is_negative}

  -- `CBigNum::setvch` (the size is an unsigned int).
  unfoldable pub setvch : List ℕ → Num
  setvch vch = mpi2bn (mpi_size (length vch) ++ reverse vch)

  -- `CBigNum::getvch`
  unfoldable pub getvch : Num → List ℕ
  getvch n = let mpi = bn2mpi n in if leb (length mpi) 4 then [] else reverse (drop 4 mpi)

  -- `CBigNum::setint64`: the magnitude as an MPI with its sign bit.
  unfoldable pub setint64 : ℤ → Num
  setint64 (pos n) =
      let bytes = mpi_bytes false 8 n true in mpi2bn (mpi_size (length bytes) ++ bytes)
  setint64 (negsuc n) =
      let bytes = mpi_bytes true 8 (n + 1) true in mpi2bn (mpi_size (length bytes) ++ bytes)

  -- `CBigNum(int n)`
  unfoldable pub of_int : ℤ → Num
  of_int (pos n) = set_word n
  of_int (negsuc n) = setint64 (negsuc n)

  -- `CBigNum::getint`: values out of the range of an int are cut off at its ends.
  unfoldable pub getint : Num → ℤ
  getint n =
      let word = get_word n in
      if not (is_negative n)
      then (if ltb int_max word then pos int_max else pos word)
      else (if ltb int_max word
          then negsuc int_max
          else (if word == 0 then pos 0 else negsuc (word - 1)))

  -- CastToBigNum; `none` is the exception.
  unfoldable pub cast_to_bignum : List ℕ → Option Num
  cast_to_bignum vch = do guard (leb (length vch) max_num_size); some (setvch (getvch (setvch vch)))
