-- ===== src/Cash/Amount.antt =====
-- CompressAmount and DecompressAmount of src/cash.cpp, on uint64.
use tetra.Prelude.{
  ℕ, zero, suc, ◌+◌, ◌-◌, ◌*◌, ◌/◌, ◌%◌, ◌^◌, ◌<◌, ◌≤◌, ◌≡◌, refl, ap, Option, none, some, arith,
  ltb, ◌>>=◌, ◌==◌, if◌then◌else◌,
}

-- The loop that takes off zeros at the end, `rounds` at most: what is left, and how many were taken.
unfoldable pub strip : ℕ → ℕ → ℕ × ℕ
strip zero n = (n, 0)
strip (suc rounds) n =
    let rest = strip rounds (n / 10) in if n % 10 == 0 then (rest.0, suc rest.1) else (n, 0)

-- `none` is the assertion on the last digit, failed.
unfoldable pub compress_amount : ℕ → Option ℕ
compress_amount n =
    if n == 0
    then some 0
    else (let s = strip 9 n in
        if ltb s.1 9
        then (let d = s.0 % 10 in
            if d == 0 then none else some ((1 + (s.0 / 10 * 9 + d - 1) * 10 + s.1) % 2 ^ 64))
        else some ((1 + (s.0 - 1) * 10 + 9) % 2 ^ 64))

-- The loop that puts the zeros back.
unfoldable pub raise : ℕ → ℕ → ℕ
raise zero n = n
raise (suc e) n = raise e (n * 10 % 2 ^ 64)

unfoldable pub decompress_amount : ℕ → ℕ
decompress_amount x =
    if x == 0
    then 0
    else (let e = (x - 1) % 10 in
        let y = (x - 1) / 10 in
        raise e (if ltb e 9 then (y / 9 * 10 + (y % 9 + 1)) % 2 ^ 64 else (y + 1) % 2 ^ 64))

raise_last : (e n : ℕ) → raise e (n * 10 % 2 ^ 64) ≡ raise e n * 10 % 2 ^ 64
unfolding raise
raise_last zero n = refl
raise_last (suc e) n = raise_last e (n * 10 % 2 ^ 64)

raise-strip : (r n : ℕ) → n < 2 ^ 64 → raise (strip r n).1 (strip r n).0 ≡ n
unfolding strip raise
raise-strip zero n h = refl
raise-strip (suc r) n h = ground (
  arith,
  raise-strip r (n / 10) (omega arith),
  raise_last (strip r (n / 10)).1 (strip r (n / 10)).0,
)

-- What the loop leaves is not zero, not above the start, and ends in a digit that is not zero unless
-- all rounds were used.
strip_pos : (r n : ℕ) → 0 < n → 0 < (strip r n).0
unfolding strip
strip_pos zero n h = h
strip_pos (suc r) n h = ground (arith, strip_pos r (n / 10))

strip_le : (r n : ℕ) → (strip r n).0 ≤ n
unfolding strip
strip_le zero n = omega arith
strip_le (suc r) n = ground (arith, strip_le r (n / 10))

strip_rounds : (r n : ℕ) → (strip r n).1 ≤ r
unfolding strip
strip_rounds zero n = omega arith
strip_rounds (suc r) n = ground (arith, strip_rounds r (n / 10))

strip_digit : (r n : ℕ) → (strip r n).1 < r → 0 < (strip r n).0 % 10
unfolding strip
strip_digit zero n h = ground arith
strip_digit (suc r) n h = ground (arith, strip_digit r (n / 10))

-- The number that the compressed form stands for, from what the loop gives.
decompress_short :
    (m e : ℕ)
    → 0 < m % 10
    → e < 9
    → m * 10 < 2 ^ 64
    → decompress_amount ((1 + (m / 10 * 9 + m % 10 - 1) * 10 + e) % 2 ^ 64) ≡ raise e m
unfolding decompress_amount
decompress_short m e d h b =
    let x = (1 + (m / 10 * 9 + m % 10 - 1) * 10 + e) % 2 ^ 64 in
    let last : (x - 1) % 10 ≡ e = omega arith in
    let rest : (x - 1) / 10 ≡ m / 10 * 9 + m % 10 - 1 = omega arith in
    let high : (m / 10 * 9 + m % 10 - 1) / 9 ≡ m / 10 = omega arith in
    let low : (m / 10 * 9 + m % 10 - 1) % 9 + 1 ≡ m % 10 = omega arith in ground arith

decompress_long :
    (m : ℕ)
    → 0 < m
    → m * 10 < 2 ^ 64
    → decompress_amount ((1 + (m - 1) * 10 + 9) % 2 ^ 64) ≡ raise 9 m
unfolding decompress_amount
decompress_long m d b =
    let x = (1 + (m - 1) * 10 + 9) % 2 ^ 64 in
    let last : (x - 1) % 10 ≡ 9 = omega arith in
    let rest : (x - 1) / 10 ≡ m - 1 = omega arith in ground arith

decompress_zero : decompress_amount 0 ≡ 0
unfolding decompress_amount
decompress_zero = refl

-- An amount below a tenth of 2^64, as any up to MAX_MONEY is, comes back from its
-- compressed form, and the assertion in CompressAmount holds on it.
pub decompress_amount-compress_amount :
    (n : ℕ) → n * 10 < 2 ^ 64 → (compress_amount n >>= λ x. some (decompress_amount x)) ≡ some n
unfolding compress_amount
decompress_amount-compress_amount zero h = ap some decompress_zero
decompress_amount-compress_amount (suc n) h =
    let m = (strip 9 (suc n)).0 in
    let e = (strip 9 (suc n)).1 in
    let positive : 0 < m = strip_pos 9 (suc n) (omega arith) in
    let small : m ≤ suc n = strip_le 9 (suc n) in
    let whole : raise e m ≡ suc n = raise-strip 9 (suc n) (omega arith) in
    ground (
      arith,
      strip_digit 9 (suc n),
      strip_rounds 9 (suc n),
      decompress_short m e,
      decompress_long m,
    )
