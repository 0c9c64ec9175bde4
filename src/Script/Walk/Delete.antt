-- ===== src/Script/Walk/Delete.antt =====
-- `CScript::FindAndDelete` (src/script.h).
use tetra.Prelude.{
  ℕ, zero, suc, ◌+◌, ◌-◌, ◌*◌, ◌≡◌, List, [], ◌∷◌, some, arith, length, length-append, length-take,
  take, Option-cases, inl, inr,
}
use tetra.Script.Parse.{get_op}
use tetra.Script.Parse.Laws.{get_op_takes}
use tetra.Script.Walk.{strip_prefix, erase_copies, delete_loop, find_and_delete}

strip_prefix-length :
    (b pc rest : List ℕ) → strip_prefix b pc ≡ some rest → length rest + length b ≡ length pc
unfolding strip_prefix
strip_prefix-length [] pc rest e = ground arith
strip_prefix-length (x ∷ b) [] rest e = cc
strip_prefix-length (x ∷ b) (y ∷ pc) rest e = ground (arith, strip_prefix-length b pc rest)

erase_copies-length :
    (fuel : ℕ) (b pc : List ℕ)
    → length (erase_copies fuel b pc).0 + (erase_copies fuel b pc).1 * length b ≡ length pc
unfolding erase_copies
erase_copies-length zero b pc = omega arith
erase_copies-length (suc fuel) b pc = elim (Option-cases (strip_prefix b pc)) [
  | inl other ↦ rw (other, erase_copies) (omega arith)
  | inr (rest, copy) ↦
      rw (copy, erase_copies)
        (omega (arith, erase_copies-length fuel b rest, strip_prefix-length b pc rest copy))
]

delete_loop-length :
    (fuel : ℕ) (b pc : List ℕ)
    → length (delete_loop fuel b pc).0 + (delete_loop fuel b pc).1 * length b ≡ length pc
unfolding delete_loop
delete_loop-length zero b pc = erase_copies-length (length pc) b pc
delete_loop-length (suc fuel) b pc =
    let here = erase_copies (length pc) b pc in
    elim (Option-cases (get_op here.0)) [
      | inl end ↦ rw (end, delete_loop) (erase_copies-length (length pc) b pc)
      | inr ((o, d, rest), read) ↦
          let r = delete_loop fuel b rest in
          rw (read, delete_loop)
            (omega (
              arith,
              erase_copies-length (length pc) b pc,
              delete_loop-length fuel b rest,
              get_op_takes here.0 o d rest read,
              length-append (take (length here.0 - length rest) here.0) r.0,
              length-take (length here.0 - length rest) here.0,
            ))
    ]

-- FindAndDelete takes away the bytes of the copies that it counts, and no others.
find_and_delete-length :
    (s b : List ℕ) → length (find_and_delete s b).0 + (find_and_delete s b).1 * length b ≡ length s
unfolding find_and_delete
find_and_delete-length s [] = omega arith
find_and_delete-length s (x ∷ b) = delete_loop-length (length s) (x ∷ b) s
