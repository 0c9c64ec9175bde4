-- ===== src/Serialize/VarInt.antt =====
-- WriteVarInt, ReadVarInt and GetSizeOfVarInt of src/serialize.h, on uint64.
use tetra.Prelude.{
  ℕ, zero, suc, ◌+◌, ◌-◌, ◌*◌, ◌/◌, ◌%◌, ◌^◌, ◌<◌, ◌≡◌, refl, List, [], ◌∷◌, ◌++◌, Option, none,
  some, arith, ltb, leb, if◌then◌else◌, length, ◌>>=◌,
}
use native.Mathlib.Nat.{pow-suc}

abbrev high_bit : List ℕ → ℕ
high_bit [] = 0
high_bit (d ∷ out) = 0x80

-- The digits as `tmp` holds them, the last that was put in first; `room` is what is left of `tmp`, and
-- `none` is a write behind its end.
unfoldable pub put_digits : ℕ → ℕ → List ℕ → Option (List ℕ)
put_digits zero n out = none
put_digits (suc room) n out =
    let next = (n % 128 + high_bit out) ∷ out in
    let rest = put_digits room (n / 128 - 1) next in if leb n 0x7f then some next else rest

-- The bytes of `tmp`, the last first. There are (64 + 6) / 7 of them.
unfoldable pub write_var_int : ℕ → Option (List ℕ)
write_var_int n = put_digits 10 n []

unfoldable pub size_loop : ℕ → ℕ → Option ℕ
size_loop zero n = none
size_loop (suc fuel) n =
    let rest = size_loop fuel (n / 128 - 1) in
    if leb n 0x7f then some 1 else rest >>= λ k. some (suc k)

unfoldable pub get_size_of_var_int : ℕ → Option ℕ
get_size_of_var_int n = size_loop 10 n

unfoldable pub read_digits : ℕ → List ℕ → Option (ℕ × List ℕ)
read_digits n [] = none
read_digits n (b ∷ s) =
    let m = (n * 128 + b % 128) % 2 ^ 64 in
    let rest = read_digits ((m + 1) % 2 ^ 64) s in if ltb b 0x80 then some (m, s) else rest

unfoldable pub read_var_int : List ℕ → Option (ℕ × List ℕ)
read_var_int s = read_digits 0 s

-- Reading the digits put in before those of `out` leaves the reader one above `n`.
read_digits-put_digits :
    (room n d : ℕ) (out rest : List ℕ)
    → n < 2 ^ 63
    → n + 1 < 128 ^ room
    → (put_digits room n (d ∷ out) >>= λ w. read_digits 0 (w ++ rest))
      ≡ read_digits (n + 1) ((d ∷ out) ++ rest)
unfolding put_digits read_digits
read_digits-put_digits zero n d out rest h k = ground arith
read_digits-put_digits (suc room) n d out rest h k =
    let next : 127 < n → n / 128 - 1 + 1 < 128 ^ room = λ big. omega (arith, pow-suc 128 room) in
    ground (arith, read_digits-put_digits room (n / 128 - 1) (n % 128 + 128) (d ∷ out) rest)

read_digits-put_first :
    (room n : ℕ) (rest : List ℕ)
    → n < 2 ^ 64
    → n + 1 < 128 ^ suc room
    → (put_digits (suc room) n [] >>= λ w. read_digits 0 (w ++ rest)) ≡ some (n, rest)
unfolding put_digits read_digits
read_digits-put_first room n rest h k =
    let next : 127 < n → n / 128 - 1 + 1 < 128 ^ room = λ big. omega (arith, pow-suc 128 room) in
    ground (arith, read_digits-put_digits room (n / 128 - 1) (n % 128 + 0) [] rest)

-- A number of 64 bits fits in `tmp`, and is read back from what is written, whatever follows it.
pub read_var_int-write_var_int :
    (n : ℕ) (rest : List ℕ)
    → n < 2 ^ 64
    → (write_var_int n >>= λ w. read_var_int (w ++ rest)) ≡ some (n, rest)
unfolding write_var_int read_var_int
read_var_int-write_var_int n rest h = read_digits-put_first 9 n rest h (omega arith)

length-put_digits :
    (room n : ℕ) (out : List ℕ)
    → (put_digits room n out >>= λ w. some (length w))
      ≡ (size_loop room n >>= λ k. some (k + length out))
unfolding put_digits size_loop
length-put_digits zero n out = refl
length-put_digits (suc room) n out =
    ground (arith, length-put_digits room (n / 128 - 1) ((n % 128 + high_bit out) ∷ out))

-- What WriteVarInt writes has the size that GetSizeOfVarInt announces.
length-write_var_int : (n : ℕ) → (write_var_int n >>= λ w. some (length w)) ≡ get_size_of_var_int n
unfolding write_var_int get_size_of_var_int
length-write_var_int n = ground (arith, length-put_digits 10 n [])
