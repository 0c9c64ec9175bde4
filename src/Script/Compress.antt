-- ===== src/Script/Compress.antt =====
-- CScriptCompressor (src/script.cpp): short forms of the standard scripts. A CPubKey is the list of its
-- bytes. Whether a key is a point of the curve, and the point for the short form of a key, are OpenSSL's.
use tetra.Prelude.{
  ℕ, ◌+◌, ◌-◌, ◌%◌, ◌≡◌, Bool, true, false, ◌&&◌, ◌||◌, List, [], ◌∷◌, ◌++◌, Option, none, some,
  ◌==◌, if◌then◌else◌, length, get_or, take, drop,
}
use tetra.Script.Opcode.{Opcode, value}
pub mod RoundTrip
mod Tests

pub record Curve : Type 0 where
  pub is_fully_valid : List ℕ → Bool
  pub decompress_key : List ℕ → Option (List ℕ)

unfoldable pub is_to_key_id : List ℕ → Option (List ℕ)
is_to_key_id s =
    if length s == 25
      && get_or s 0 0 == value Opcode.op_dup
      && get_or s 1 0 == value Opcode.op_hash160
      && get_or s 2 0 == 20
      && get_or s 23 0 == value Opcode.op_equalverify
      && get_or s 24 0 == value Opcode.op_checksig
    then some (take 20 (drop 3 s))
    else none

unfoldable pub is_to_script_id : List ℕ → Option (List ℕ)
is_to_script_id s =
    if length s == 23
      && get_or s 0 0 == value Opcode.op_hash160
      && get_or s 1 0 == 20
      && get_or s 22 0 == value Opcode.op_equal
    then some (take 20 (drop 2 s))
    else none

unfoldable pub short_pub_key : List ℕ → Option (List ℕ)
short_pub_key s =
    if length s == 35
      && get_or s 0 0 == 33
      && get_or s 34 0 == value Opcode.op_checksig
      && (get_or s 1 0 == 0x02 || get_or s 1 0 == 0x03)
    then some (take 33 (drop 1 s))
    else none

unfoldable pub long_pub_key : List ℕ → Option (List ℕ)
long_pub_key s =
    if length s == 67
      && get_or s 0 0 == 65
      && get_or s 66 0 == value Opcode.op_checksig
      && get_or s 1 0 == 0x04
    then some (take 65 (drop 1 s))
    else none

-- The key of a script, in the short form and in the long one, as `Compress` writes it.
unfoldable pub compress_key : List ℕ → List ℕ
compress_key key =
    (if get_or key 0 0 == 0x04 then 4 + get_or key 64 0 % 2 else get_or key 0 0)
    ∷ take 32 (drop 1 key)

unfoldable pub get_special_size : ℕ → ℕ
get_special_size n =
    if n == 0 || n == 1 then 20 else if n == 2 || n == 3 || n == 4 || n == 5 then 32 else 0

module _ (curve : Curve) where
  open curve use {is_fully_valid, decompress_key}

  unfoldable pub is_to_pub_key : List ℕ → Option (List ℕ)
  is_to_pub_key s = elim (short_pub_key s) [
    | some key ↦ some key
    | none ↦ elim (long_pub_key s) [
      | some key ↦ if is_fully_valid key then some key else none
      | none ↦ none
    ]
  ]

  unfoldable pub compress : List ℕ → Option (List ℕ)
  compress s = elim (is_to_key_id s) [
    | some h ↦ some (0x00 ∷ h)
    | none ↦ elim (is_to_script_id s) [
      | some h ↦ some (0x01 ∷ h)
      | none ↦ elim (is_to_pub_key s) [ some key ↦ some (compress_key key) | none ↦ none ]
    ]
  ]

  -- The assertion on the size of the key fails as `none`.
  unfoldable pub decompress : ℕ → List ℕ → Option (List ℕ)
  decompress n bytes =
      if n == 0x00
      then some (
          value Opcode.op_dup
          ∷ value Opcode.op_hash160
          ∷ 20
          ∷ (take 20 bytes ++ value Opcode.op_equalverify ∷ value Opcode.op_checksig ∷ []))
      else if n == 0x01
      then some (value Opcode.op_hash160 ∷ 20 ∷ (take 20 bytes ++ value Opcode.op_equal ∷ []))
      else if n == 0x02 || n == 0x03
      then some (33 ∷ n ∷ (take 32 bytes ++ value Opcode.op_checksig ∷ []))
      else if n == 0x04 || n == 0x05
      then elim (decompress_key ((n - 2) ∷ take 32 bytes)) [
        | some key ↦
            if length key == 65 then some (65 ∷ (key ++ value Opcode.op_checksig ∷ [])) else none
        | none ↦ none
      ]
      else none
