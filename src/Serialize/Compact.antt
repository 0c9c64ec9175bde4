-- ===== src/Serialize/Compact.antt =====
-- WriteCompactSize and ReadCompactSize of src/serialize.h.
use tetra.Prelude.{
  ℕ, ◌<◌, ◌^◌, ◌≡◌, List, [], ◌∷◌, ◌++◌, Option, none, some, arith, ltb, leb, ◌==◌, if◌then◌else◌,
  length, ◌>>=◌,
}
use tetra.Prelude.Bytes.{le_bytes, read_le, read_le-le_bytes, length-le_bytes}

-- A size above it is refused by the reader.
abbrev pub max_size : ℕ
max_size = 0x02000000

unfoldable pub get_size_of_compact_size : ℕ → ℕ
get_size_of_compact_size n =
    if ltb n 253 then 1 else if leb n 0xffff then 3 else if leb n 0xffffffff then 5 else 9

unfoldable pub write_compact_size : ℕ → List ℕ
write_compact_size n =
    if ltb n 253
    then n ∷ []
    else if leb n 0xffff
    then 253 ∷ le_bytes 2 n
    else if leb n 0xffffffff
    then 254 ∷ le_bytes 4 n
    else 255 ∷ le_bytes 8 n

-- The number behind the first byte.
unfoldable pub read_size : ℕ → List ℕ → Option (ℕ × List ℕ)
read_size b s =
    if ltb b 253
    then some (b, s)
    else if b == 253
    then read_le 2 s
    else if b == 254
    then read_le 4 s
    else read_le 8 s

unfoldable pub read_compact_size : List ℕ → Option (ℕ × List ℕ)
read_compact_size [] = none
read_compact_size (b ∷ s) = read_size b s >>= λ r. if ltb max_size r.0 then none else some r

-- What WriteCompactSize writes has the size that GetSizeOfCompactSize announces.
length-write_compact_size : (n : ℕ) → length (write_compact_size n) ≡ get_size_of_compact_size n
unfolding write_compact_size get_size_of_compact_size
length-write_compact_size n =
    ground (arith, length-le_bytes 2 n, length-le_bytes 4 n, length-le_bytes 8 n)

-- A number of 64 bits that was written is read back, whatever follows it, if it is at most MAX_SIZE;
-- the reader refuses it otherwise.
pub read_compact_size-write_compact_size :
    (n : ℕ) (rest : List ℕ)
    → n < 2 ^ 64
    → read_compact_size (write_compact_size n ++ rest)
      ≡ (if leb n max_size then some (n, rest) else none)
unfolding write_compact_size read_compact_size read_size
read_compact_size-write_compact_size n rest h =
    ground (arith, read_le-le_bytes 2 n rest, read_le-le_bytes 4 n rest, read_le-le_bytes 8 n rest)
