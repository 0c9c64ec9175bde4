-- ===== src/Script/Compress/RoundTrip.antt =====
-- What `Decompress` makes of what `Compress` wrote.
use tetra.Prelude.{
  ℕ, zero, suc, Option-cases, ◌+◌, ◌%◌, ◌≡◌, ◌⊎◌, inl, inr, refl, ap, sym, Bool, true, false, ◌&&◌,
  List, [], ◌∷◌, ◌++◌, none, some, ◌==◌, ==_iff, ◌∙◌, if◌then◌else◌, length, length-take, get_or,
  take, arith,
}
use tetra.Script.Opcode.{value}
use tetra.Script.Compress.{
  Curve, is_to_key_id, is_to_script_id, short_pub_key, long_pub_key, compress_key, get_special_size,
  is_to_pub_key, compress, decompress,
}

-- The bytes of a script in front of its last one, or of its last two.
split_one : (n : ℕ) (xs : List ℕ) → length xs ≡ suc n → take n xs ++ get_or xs n 0 ∷ [] ≡ xs
split_one n [] h = ground arith
split_one zero (x ∷ []) h = refl
split_one zero (x ∷ y ∷ xs) h = ground arith
split_one (suc n) (x ∷ xs) h = ap (λ r. x ∷ r) (split_one n xs (omega arith))

split_two :
    (n : ℕ) (xs : List ℕ)
    → length xs ≡ suc (suc n)
    → take n xs ++ get_or xs n 0 ∷ get_or xs (suc n) 0 ∷ [] ≡ xs
split_two n [] h = ground arith
split_two zero (x ∷ []) h = ground arith
split_two zero (x ∷ y ∷ []) h = refl
split_two zero (x ∷ y ∷ z ∷ xs) h = ground arith
split_two (suc n) (x ∷ xs) h = ap (λ r. x ∷ r) (split_two n xs (omega arith))

-- The scripts that are recognized.
key_id_shape :
    (s h : List ℕ)
    → is_to_key_id s ≡ some h
    → (s ≡ 0x76 ∷ 0xa9 ∷ 20 ∷ (h ++ 0x88 ∷ 0xac ∷ [])) × (length h ≡ 20)
unfolding is_to_key_id value
key_id_shape [] h e = cc
key_id_shape (a ∷ []) h e = cc
key_id_shape (a ∷ b ∷ []) h e = cc
key_id_shape (a ∷ b ∷ c ∷ r) h e = ground (arith, split_two 20 r, length-take 20 r)

script_id_shape :
    (s h : List ℕ)
    → is_to_script_id s ≡ some h
    → (s ≡ 0xa9 ∷ 20 ∷ (h ++ 0x87 ∷ [])) × (length h ≡ 20)
unfolding is_to_script_id value
script_id_shape [] h e = cc
script_id_shape (a ∷ []) h e = cc
script_id_shape (a ∷ b ∷ r) h e = ground (arith, split_one 20 r, length-take 20 r)

short_shape :
    (s key : List ℕ)
    → short_pub_key s ≡ some key
    → (p : ℕ) × (x : List ℕ) × ((p ≡ 2) ⊎ (p ≡ 3))
      × (length x ≡ 32)
      × (key ≡ p ∷ x)
      × (s ≡ 33 ∷ p ∷ (x ++ 0xac ∷ []))
unfolding short_pub_key value
short_shape [] key e = cc
short_shape (a ∷ []) key e = cc
short_shape (a ∷ b ∷ r) key e = (
  b,
  take 32 r,
  ground arith,
  ground (arith, length-take 32 r),
  ground arith,
  ground (arith, split_one 32 r),
)

some_branch :
    (test : Bool) (x y : List ℕ)
    → (if test then some x else none) ≡ some y
    → (test ≡ true) × (x ≡ y)
some_branch true x y e = (refl, ground (arith, e))
some_branch false x y e = cc

four_hold :
    (p q r s : Bool) → (p && q && r && s) ≡ true → (p ≡ true) × (q ≡ true) × (r ≡ true) × (s ≡ true)
four_hold p q r s h = ground arith

long_shape :
    (s key : List ℕ)
    → long_pub_key s ≡ some key
    → (xy : List ℕ) × (length xy ≡ 64) × (key ≡ 4 ∷ xy) × (s ≡ 65 ∷ 4 ∷ (xy ++ 0xac ∷ []))
unfolding long_pub_key value
long_shape [] key e = cc
long_shape (a ∷ []) key e = cc
long_shape (a ∷ b ∷ r) key e =
    let (holds, taken) = some_branch _ (b ∷ take 64 r) key e in
    let (size, first, last, point) =
      four_hold (length (a ∷ b ∷ r) == 67) (a == 65) (get_or r 64 0 == 0xac) (b == 4) holds in
    let full : length r ≡ 65 = omega (arith, (==_iff (length (a ∷ b ∷ r)) 67).0 size) in
    let is_4 : b ≡ 4 = (==_iff b 4).0 point in
    let is_65 : a ≡ 65 = (==_iff a 65).0 first in
    let is_checksig : get_or r 64 0 ≡ 0xac = (==_iff (get_or r 64 0) 0xac).0 last in
    let whole = split_one 64 r full in
    (
      take 64 r,
      omega (arith, length-take 64 r),
      sym taken ∙ ap (λ x. x ∷ take 64 r) is_4,
      rw (is_65, is_4) (ap (λ x. 65 ∷ 4 ∷ x) (sym (rw is_checksig at whole))),
    )

parity : (n : ℕ) → (n % 2 ≡ 0) ⊎ (n % 2 ≡ 1)
parity n = omega arith

take_all : (n : ℕ) (xs : List ℕ) → length xs ≡ n → take n xs ≡ xs
take_all zero [] h = refl
take_all zero (x ∷ xs) h = ground arith
take_all (suc n) [] h = refl
take_all (suc n) (x ∷ xs) h = ap (λ r. x ∷ r) (take_all n xs (omega arith))

module _ (curve : Curve) where
  open curve use {is_fully_valid, decompress_key}

  -- The point of a valid key has one short form, the parity of its last byte and its first half.
  abbrev pub HasShortForms : Type 0
  HasShortForms =
      (xy : List ℕ)
      → length xy ≡ 64
      → is_fully_valid (4 ∷ xy) ≡ true
      → decompress_key ((2 + get_or xy 63 0 % 2) ∷ take 32 xy) ≡ some (4 ∷ xy)

  decompress_key_id :
      (h : List ℕ)
      → length h ≡ 20
      → (get_special_size 0 ≡ 20)
        × (decompress curve 0 h ≡ some (0x76 ∷ 0xa9 ∷ 20 ∷ (h ++ 0x88 ∷ 0xac ∷ [])))
  unfolding decompress get_special_size value
  decompress_key_id h size = (refl, rw (take_all 20 h size) refl)

  decompress_script_id :
      (h : List ℕ)
      → length h ≡ 20
      → (get_special_size 1 ≡ 20) × (decompress curve 1 h ≡ some (0xa9 ∷ 20 ∷ (h ++ 0x87 ∷ [])))
  unfolding decompress get_special_size value
  decompress_script_id h size = (refl, rw (take_all 20 h size) refl)

  decompress_short :
      (p : ℕ) (x : List ℕ)
      → (p ≡ 2) ⊎ (p ≡ 3)
      → length x ≡ 32
      → (get_special_size p ≡ 32)
        × (decompress curve p x ≡ some (33 ∷ p ∷ (x ++ 0xac ∷ [])))
        × (compress_key (p ∷ x) ≡ p ∷ x)
  unfolding decompress get_special_size value compress_key
  decompress_short p x (inl e) size =
      rw e (refl, rw (take_all 32 x size) refl, rw (take_all 32 x size) refl)
  decompress_short p x (inr e) size =
      rw e (refl, rw (take_all 32 x size) refl, rw (take_all 32 x size) refl)

  decompress_long :
      HasShortForms
      → (xy : List ℕ) → length xy ≡ 64
      → is_fully_valid (4 ∷ xy) ≡ true
      → (q : ℕ) × (compress_key (4 ∷ xy) ≡ q ∷ take 32 xy)
        × (get_special_size q ≡ 32)
        × (decompress curve q (take 32 xy) ≡ some (65 ∷ 4 ∷ (xy ++ 0xac ∷ [])))
  unfolding decompress get_special_size value compress_key
  decompress_long forms xy size valid =
      let form = forms xy size valid in
      let half : take 32 (take 32 xy) ≡ take 32 xy =
        take_all 32 (take 32 xy) (omega (arith, length-take 32 xy)) in
      elim (parity (get_or xy 63 0)) [
        | inl even ↦ (4, rw even refl, refl, rw (half, rw even at form, size) refl)
        | inr odd ↦ (5, rw odd refl, refl, rw (half, rw odd at form, size) refl)
      ]

  -- A script that is compressed comes back, where the points of valid keys have short forms that give
  -- them back: the first byte tells how many bytes follow it, and decompressing these gives the script.
  pub decompress-compress :
      HasShortForms
      → (s out : List ℕ) → compress curve s ≡ some out
      → (n : ℕ) × (bytes : List ℕ) × (out ≡ n ∷ bytes)
        × (length bytes ≡ get_special_size n)
        × (decompress curve n bytes ≡ some s)
  unfolding compress is_to_pub_key
  decompress-compress forms s out e = elim (Option-cases (is_to_key_id s)) [
    | inr (h, key_id) ↦
        let (shape, size) = key_id_shape s h key_id in
        let (special, back) = decompress_key_id h size in
        (0, h, ground arith, size ∙ sym special, back ∙ ap some (sym shape))
    | inl no_key_id ↦ elim (Option-cases (is_to_script_id s)) [
      | inr (h, script_id) ↦
          let (shape, size) = script_id_shape s h script_id in
          let (special, back) = decompress_script_id h size in
          (1, h, ground arith, size ∙ sym special, back ∙ ap some (sym shape))
      | inl no_script_id ↦ elim (Option-cases (short_pub_key s)) [
        | inr (key, short) ↦
            let (p, x, which, size, is_key, shape) = short_shape s key short in
            let (special, back, form) = decompress_short p x which size in
            (p, x, ground arith, size ∙ sym special, back ∙ ap some (sym shape))
        | inl no_short ↦ elim (Option-cases (long_pub_key s)) [
          | inr (key, long) ↦
              let (xy, size, is_key, shape) = long_shape s key long in
              let valid : is_fully_valid (4 ∷ xy) ≡ true = ground arith in
              let (q, form, special, back) = decompress_long forms xy size valid in
              let half : length (take 32 xy) ≡ 32 = omega (arith, length-take 32 xy) in
              (q, take 32 xy, ground arith, half ∙ sym special, back ∙ ap some (sym shape))
          | inl no_long ↦ ground arith
        ]
      ]
    ]
  ]
