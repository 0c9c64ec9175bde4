-- ===== src/Script/Compute/Multisig.antt =====
-- The matching loop of OP_CHECKMULTISIG (src/script.cpp): greedy, in one pass over the keys.
use tetra.Prelude.{
  ℕ, ◌≤◌, ◌≡◌, refl, Bool, true, false, List, [], ◌∷◌, arith, length, Bool-cases, inl, inr, ◌↔◌,
}
use tetra.Script.Machine.{Item, Context}
use tetra.Script.Compute.{check, match_sigs}

-- The signatures check, in their order, against keys taken in their order.
pub data Matches (ok : Item → Item → Bool) : List Item → List Item → Type 0 where
  all_matched : {keys : List Item} → Matches ok [] keys
  use_key :
      {sig key : Item} {sigs keys : List Item}
      → ok sig key ≡ true
      → Matches ok sigs keys
      → Matches ok (sig ∷ sigs) (key ∷ keys)
  skip_key :
      {key : Item} {sigs keys : List Item} → Matches ok sigs keys → Matches ok sigs (key ∷ keys)

Matches-le :
    {ok : Item → Item → Bool} {sigs keys : List Item}
    → Matches ok sigs keys
    → length sigs ≤ length keys
Matches-le all_matched = omega arith
Matches-le (use_key h m) = omega (arith, Matches-le m)
Matches-le (skip_key m) = omega (arith, Matches-le m)

-- Fewer signatures match too.
Matches-tail :
    {ok : Item → Item → Bool} {sig : Item} {sigs keys : List Item}
    → Matches ok (sig ∷ sigs) keys
    → Matches ok sigs keys
Matches-tail (use_key h m) = skip_key m
Matches-tail (skip_key m) = skip_key (Matches-tail m)

-- A key that the first signature passes may be spent on it: nothing is lost.
Matches-greedy :
    {ok : Item → Item → Bool} {sig key : Item} {sigs keys : List Item}
    → Matches ok (sig ∷ sigs) (key ∷ keys)
    → Matches ok sigs keys
Matches-greedy (use_key h m) = m
Matches-greedy (skip_key m) = Matches-tail m

-- A key that it fails can only be skipped.
Matches-skipped :
    {ok : Item → Item → Bool} {sig key : Item} {sigs keys : List Item}
    → ok sig key ≡ false
    → Matches ok (sig ∷ sigs) (key ∷ keys)
    → Matches ok (sig ∷ sigs) keys
Matches-skipped fails (use_key h m) = cc
Matches-skipped fails (skip_key m) = m

module _ (cx : Context) (code : List ℕ) where
  match_sigs_sound :
      (sigs keys : List Item)
      → match_sigs cx code sigs keys ≡ true
      → Matches (check cx code) sigs keys
  unfolding match_sigs
  match_sigs_sound [] keys e = all_matched
  match_sigs_sound (sig ∷ sigs) [] e = cc
  match_sigs_sound (sig ∷ sigs) (key ∷ keys) e = elim (Bool-cases (check cx code sig key)) [
    | inl passes ↦ use_key passes (match_sigs_sound sigs keys (ground arith))
    | inr fails ↦ skip_key (match_sigs_sound (sig ∷ sigs) keys (ground arith))
  ]

  match_sigs_complete :
      (sigs keys : List Item)
      → Matches (check cx code) sigs keys
      → match_sigs cx code sigs keys ≡ true
  unfolding match_sigs
  match_sigs_complete [] keys m = refl
  match_sigs_complete (sig ∷ sigs) [] m = absurd (omega (arith, Matches-le m))
  match_sigs_complete (sig ∷ sigs) (key ∷ keys) m = elim (Bool-cases (check cx code sig key)) [
    | inl passes ↦
        let m' = Matches-greedy m in
        ground (arith, passes, Matches-le m', match_sigs_complete sigs keys m')
    | inr fails ↦
        let m' = Matches-skipped fails m in
        ground (arith, fails, Matches-le m', match_sigs_complete (sig ∷ sigs) keys m')
  ]

  -- The loop of OP_CHECKMULTISIG succeeds exactly when the signatures check, in their order,
  -- against some of the keys in theirs: taking the first key that passes and giving up early lose
  -- nothing.
  pub match_sigs_iff :
      (sigs keys : List Item)
      → (match_sigs cx code sigs keys ≡ true) ↔ Matches (check cx code) sigs keys
  match_sigs_iff sigs keys = (match_sigs_sound sigs keys, match_sigs_complete sigs keys)
