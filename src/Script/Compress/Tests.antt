-- ===== src/Script/Compress/Tests.antt =====
-- A stand-in for the curve, where the second half of a point is 31 zeros and a bit, and a script that
-- pays to a point of it.
use tetra.Prelude.{
  ℕ, ◌+◌, ◌-◌, ◌%◌, ◌≡◌, refl, List, [], ◌∷◌, ◌++◌, Option, none, some, get_or, take, drop,
  replicate, length, arith, true,
}
use tetra.Script.Machine.{same}
use tetra.Script.Compress.{
  Curve, compress, decompress, is_to_key_id, is_to_script_id, is_to_pub_key, short_pub_key,
  long_pub_key, compress_key, get_special_size,
}
use tetra.Script.Compress.RoundTrip.{HasShortForms, decompress-compress}
use tetra.Script.Opcode.{value}

abbrev point : ℕ → List ℕ → List ℕ
point bit x = 4 ∷ (x ++ (replicate 31 0 ++ bit ∷ []))

abbrev short_point : List ℕ → Option (List ℕ)
short_point [] = none
short_point (p ∷ x) = some (point (p - 2) x)

abbrev toy : Curve
toy = record {
  is_fully_valid = λ key. same key (point (get_or key 64 0 % 2) (take 32 (drop 1 key)));
  decompress_key = short_point;
}

same_sound : (x y : List ℕ) → same x y ≡ true → x ≡ y
unfolding same
same_sound [] [] h = refl
same_sound [] (b ∷ y) h = cc
same_sound (a ∷ x) [] h = cc
same_sound (a ∷ x) (b ∷ y) h = ground (arith, same_sound x y)

toy-HasShortForms : HasShortForms toy
toy-HasShortForms xy size valid =
    let bit = get_or xy 63 0 % 2 in
    let back : 2 + bit - 2 ≡ bit = omega arith in
    let shape : 4 ∷ xy ≡ point bit (take 32 xy) =
      same_sound (4 ∷ xy) (point bit (take 32 xy)) valid in
    rw (back, shape) refl

abbrev x_part : List ℕ
x_part = replicate 32 9

abbrev pays_to_point : List ℕ
pays_to_point = 65 ∷ (point 1 x_part ++ 0xac ∷ [])

pays_to_point-compress : compress toy pays_to_point ≡ some (5 ∷ x_part)
unfolding compress is_to_key_id is_to_script_id is_to_pub_key short_pub_key long_pub_key
    compress_key value same
pays_to_point-compress = refl

decompress-compress_example :
    (n : ℕ) × (bytes : List ℕ) × (5 ∷ x_part ≡ n ∷ bytes)
    × (length bytes ≡ get_special_size n)
    × (decompress toy n bytes ≡ some pays_to_point)
decompress-compress_example =
    decompress-compress toy toy-HasShortForms pays_to_point (5 ∷ x_part) pays_to_point-compress
