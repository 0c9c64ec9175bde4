-- ===== src/Signing/Deleted.antt =====
-- `FindAndDelete` on a script of `SetDestination` that the signature does not stand in (src/script.h).
use tetra.Prelude.{
  ℕ, zero, suc, ◌-◌, ◌≤◌, ◌≡◌, ◌≢◌, refl, ◌∙◌, ap, false, List, [], ◌∷◌, ◌++◌, some, arith, ◌==◌,
  length, length-append,
}
use tetra.Prelude.Bytes.{take-append}
use tetra.Script.Opcode.{Opcode, opcode_of}
use tetra.Script.Parse.{get_op, push_data, push_prefix, script_for_key_id}
use tetra.Script.Parse.Laws.{get_op-short, get_op-plain}
use tetra.Script.Walk.{strip_prefix, erase_copies, delete_loop, find_and_delete}
use tetra.Script.Machine.{Item}
use tetra.Script.Eval.Standard.{script_for_key_id-shape}

module _ (b : ℕ) (bs : List ℕ) where
  erase_copies-other :
      (fuel c : ℕ) (pc : List ℕ)
      → (b == c) ≡ false
      → erase_copies fuel (b ∷ bs) (c ∷ pc) ≡ (c ∷ pc, 0)
  unfolding erase_copies strip_prefix
  erase_copies-other zero c pc other = refl
  erase_copies-other (suc fuel) c pc other = ground (arith, other)

  erase_copies-end : (fuel : ℕ) → erase_copies fuel (b ∷ bs) [] ≡ ([], 0)
  unfolding erase_copies strip_prefix
  erase_copies-end zero = refl
  erase_copies-end (suc fuel) = refl

  -- One instruction that is kept.
  delete_loop-keep :
      (fuel c : ℕ) (front rest : List ℕ) (o : Opcode) (d : List ℕ)
      → get_op (c ∷ (front ++ rest)) ≡ some (o, d, rest)
      → (b == c) ≡ false
      → delete_loop fuel (b ∷ bs) rest ≡ (rest, 0)
      → delete_loop (suc fuel) (b ∷ bs) (c ∷ (front ++ rest)) ≡ (c ∷ (front ++ rest), 0)
  unfolding delete_loop
  delete_loop-keep fuel c front rest o d read other later =
      let kept : suc (length (front ++ rest)) - length rest ≡ suc (length front) =
        omega (arith, length-append front rest) in
      rw
        (
          delete_loop,
          erase_copies-other (suc (length (front ++ rest))) c (front ++ rest) other,
          read,
          later,
          erase_copies-other (suc (length (front ++ rest))) c (front ++ rest) other,
          kept,
          take-append front rest,
        )
        refl

  delete_loop-end : (fuel : ℕ) → delete_loop fuel (b ∷ bs) [] ≡ ([], 0)
  unfolding delete_loop get_op erase_copies strip_prefix
  delete_loop-end zero = erase_copies-end 0
  delete_loop-end (suc fuel) = refl

-- A push of `n` bytes does not start as an instruction of the script does.
pub IsOther : ℕ → Type 0
IsOther b =
    ((b == 0x76) ≡ false)
    × ((b == 0xa9) ≡ false)
    × ((b == 20) ≡ false)
    × ((b == 0x88) ≡ false)
    × ((b == 0xac) ≡ false)

delete_from_key_id :
    (b : ℕ) (bs h : List ℕ)
    → IsOther b
    → length h ≡ 20
    → find_and_delete (script_for_key_id h) (b ∷ bs) ≡ (script_for_key_id h, 0)
unfolding IsOther find_and_delete opcode_of
delete_from_key_id b bs h (o1, o2, o3, o4, o5) size =
    let tail : List ℕ = 0x88 ∷ 0xac ∷ [] in
    let whole = script_for_key_id-shape h in
    let bytes : length (script_for_key_id h) ≡ 25 =
      omega (arith, ap length whole, length-append h tail) in
    let last =
      delete_loop-keep b bs 20 0xac [] [] _ [] (get_op-plain 0xac [] (omega arith)) o5
        (delete_loop-end b bs 20) in
    let fourth =
      delete_loop-keep b bs 21 0x88 [] (0xac ∷ []) _ []
        (get_op-plain 0x88 (0xac ∷ []) (omega arith)) o4 last in
    let third =
      delete_loop-keep b bs 22 20 h tail _ h (get_op-short 20 h tail size (omega arith)) o3
        fourth in
    let second =
      delete_loop-keep b bs 23 0xa9 [] (20 ∷ (h ++ tail)) _ [] (get_op-plain 0xa9 _ (omega arith))
        o2 third in
    let first =
      delete_loop-keep b bs 24 0x76 [] (0xa9 ∷ 20 ∷ (h ++ tail)) _ []
        (get_op-plain 0x76 _ (omega arith)) o1 second in
    rw (bytes, whole) first

push_prefix-IsOther :
    (sig : Item)
    → length sig ≢ 20
    → length sig ≤ 75
    → (b : ℕ) × (bs : List ℕ) × (push_data [] sig ≡ b ∷ bs) × IsOther b
unfolding push_data push_prefix IsOther
push_prefix-IsOther sig other small = (
  length sig,
  sig,
  ground arith,
  (ground arith, ground arith, ground arith, ground arith, ground arith),
)

-- A signature of at most 75 bytes, but for 20, is not found in the script of a CKeyID.
pub find_and_delete-script_for_key_id :
    (sig h : Item)
    → length sig ≢ 20
    → length sig ≤ 75
    → length h ≡ 20
    → (find_and_delete (script_for_key_id h) (push_data [] sig)).0 ≡ script_for_key_id h
find_and_delete-script_for_key_id sig h other small size =
    let (b, bs, shape, apart) = push_prefix-IsOther sig other small in
    ap (λ p. (find_and_delete (script_for_key_id h) p).0) shape
    ∙ ap (λ r. r.0) (delete_from_key_id b bs h apart size)
