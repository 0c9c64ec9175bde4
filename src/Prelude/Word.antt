-- ===== src/Prelude/Word.antt =====
-- Signed 64-bit integers: every operation wraps round, as the two's complement does.
use tetra.Prelude.{
  ℕ, ◌+◌, ◌-◌, ◌/◌, ◌%◌, ◌^◌, ◌≤◌, ◌<◌, ◌≡◌, Bool, false, arith, ltb, ◌==◌, if◌then◌else◌, ◌⊎◌, inl,
  inr, refl,
}
use tetra.Prelude.Int.{
  ℤ, pos, negsuc, pos_part, neg_part, ◌+ℤ◌, ◌-ℤ◌, ◌*ℤ◌, +ℤ_parts, -ℤ_parts, eq_of_parts,
}

-- The residue of 2^64 that an int64 has the bits of, and the int64 with these bits.
abbrev residue : ℤ → ℕ
residue (pos n) = n % 2 ^ 64
residue (negsuc n) = 2 ^ 64 - 1 - n % 2 ^ 64

abbrev of_residue : ℕ → ℤ
of_residue n = if ltb n (2 ^ 63) then pos n else negsuc (2 ^ 64 - 1 - n)

unfoldable pub wrap : ℤ → ℤ
wrap a = of_residue (residue a)

abbrev pub IsInt64 : ℤ → Type 0
IsInt64 a = (pos_part a < 2 ^ 63) × (neg_part a ≤ 2 ^ 63)

unfoldable pub add64 : ℤ → ℤ → ℤ
add64 a b = wrap (a +ℤ b)

unfoldable pub sub64 : ℤ → ℤ → ℤ
sub64 a b = wrap (a -ℤ b)

unfoldable pub neg64 : ℤ → ℤ
neg64 a = wrap (pos 0 -ℤ a)

unfoldable pub mul64 : ℤ → ℤ → ℤ
mul64 a b = wrap (a *ℤ b)

-- Division cuts off towards zero.
unfoldable pub div64 : ℤ → ℤ → ℤ
div64 a b =
    let q = (pos_part a + neg_part a) / (pos_part b + neg_part b) in
    wrap (
      if (neg_part a == 0)
      then (if neg_part b == 0 then pos q else pos 0 -ℤ pos q)
      else (if neg_part b == 0 then pos 0 -ℤ pos q else pos q))

abbrev pub is_zero : ℤ → Bool
is_zero (pos n) = n == 0
is_zero (negsuc n) = false

-- One of the two parts of an integer is zero.
ℤ_sides : (a : ℤ) → (pos_part a ≡ 0) ⊎ (neg_part a ≡ 0)
ℤ_sides (pos n) = inr refl
ℤ_sides (negsuc n) = inl refl

pub wrap-IsInt64 : (a : ℤ) → IsInt64 (wrap a)
unfolding wrap
wrap-IsInt64 (pos n) = ground arith
wrap-IsInt64 (negsuc n) = ground arith

pub wrap_lem : (a : ℤ) → IsInt64 a → wrap a ≡ a
unfolding wrap
wrap_lem (pos n) h = ground arith
wrap_lem (negsuc n) h = ground arith

-- Where an operation on two words leaves their range, the result is 2^64 away.
pub wrap_parts :
    (a : ℤ)
    → pos_part a ≤ 2 ^ 64
    → neg_part a ≤ 2 ^ 64
    → (pos_part (wrap a) + neg_part a ≡ neg_part (wrap a) + pos_part a)
      ⊎ ((pos_part (wrap a) + neg_part a + 2 ^ 64 ≡ neg_part (wrap a) + pos_part a)
          ⊎ (pos_part (wrap a) + neg_part a ≡ neg_part (wrap a) + pos_part a + 2 ^ 64))
unfolding wrap
wrap_parts (pos n) h k = ground arith
wrap_parts (negsuc n) h k = ground arith

-- Adding a word and taking it away again gives the word back, with overflow or without.
pub sub64-add64 : (a b : ℤ) → IsInt64 a → IsInt64 b → sub64 (add64 a b) b ≡ a
unfolding add64 sub64
sub64-add64 a b ha hb =
    let c = wrap (a +ℤ b) in
    eq_of_parts _ a (
      omega (
        arith,
        ℤ_sides a,
        ℤ_sides b,
        ℤ_sides (a +ℤ b),
        ℤ_sides c,
        ℤ_sides (c -ℤ b),
        ℤ_sides (wrap (c -ℤ b)),
        +ℤ_parts a b,
        -ℤ_parts c b,
        wrap-IsInt64 (a +ℤ b),
        wrap-IsInt64 (c -ℤ b),
        wrap_parts (a +ℤ b) (omega (arith, +ℤ_parts a b, ℤ_sides (a +ℤ b)))
            (omega (arith, +ℤ_parts a b, ℤ_sides (a +ℤ b))),
        wrap_parts (c -ℤ b) (omega (arith, -ℤ_parts c b, ℤ_sides (c -ℤ b), wrap-IsInt64 (a +ℤ b)))
            (omega (arith, -ℤ_parts c b, ℤ_sides (c -ℤ b), wrap-IsInt64 (a +ℤ b))),
      ))
