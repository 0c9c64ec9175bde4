-- ===== src/Merkle/Levels.antt =====
-- The vector that BuildMerkleTree fills (src/main.h) is the levels of the tree, each the pairs of the one
-- before.
use tetra.Prelude.{
  ℕ, zero, suc, ◌+◌, ◌-◌, ◌/◌, ◌≤◌, ◌<◌, ◌≡◌, refl, ◌∙◌, ap, sym, subst, min, List, [], ◌∷◌, ◌++◌,
  some, arith, ltb, if◌then◌else◌, length, length-append, get_elem?, drop, length-drop, Bool-cases,
  ◌⊎◌, inl, inr,
}
use tetra.Merkle.{back, level_loop, tree_loop, build_merkle_tree}

get_elem?-append : (xs ys : List ℕ) (i : ℕ) → get_elem? (xs ++ ys) (length xs + i) ≡ get_elem? ys i
get_elem?-append [] ys i = ground arith
get_elem?-append (x ∷ xs) ys i = ground (arith, get_elem?-append xs ys i)

pub append_assoc : (xs ys zs : List ℕ) → (xs ++ ys) ++ zs ≡ xs ++ (ys ++ zs)
append_assoc [] ys zs = refl
append_assoc (x ∷ xs) ys zs = ap (λ l. x ∷ l) (append_assoc xs ys zs)

pub get_elem?-front :
    (xs ys : List ℕ) (i : ℕ) (h : ℕ) → get_elem? xs i ≡ some h → get_elem? (xs ++ ys) i ≡ some h
get_elem?-front [] ys i h e = cc
get_elem?-front (x ∷ xs) ys zero h e = e
get_elem?-front (x ∷ xs) ys (suc i) h e = get_elem?-front xs ys i h e

-- The hash at a place of a level that stands in the vector.
pub get_elem?-level :
    (pre xs post : List ℕ) (i h : ℕ)
    → get_elem? xs i ≡ some h
    → get_elem? (pre ++ (xs ++ post)) (length pre + i) ≡ some h
get_elem?-level pre xs post i h e =
    get_elem?-append pre (xs ++ post) i ∙ get_elem?-front xs post i h e

append_nil : (xs : List ℕ) → xs ++ [] ≡ xs
append_nil [] = refl
append_nil (x ∷ xs) = ap (λ l. x ∷ l) (append_nil xs)

uncons : (xs : List ℕ) → (xs ≡ []) ⊎ ((x : ℕ) × (ys : List ℕ) × (xs ≡ x ∷ ys))
uncons [] = inl refl
uncons (x ∷ xs) = inr (x, xs, refl)

drop_all : (i : ℕ) (xs : List ℕ) → length xs ≤ i → drop i xs ≡ []
drop_all zero [] h = refl
drop_all zero (x ∷ xs) h = absurd (omega arith)
drop_all (suc i) [] h = refl
drop_all (suc i) (x ∷ xs) h = drop_all i xs (omega arith)

drop_cons :
    (i : ℕ) (xs : List ℕ) (x : ℕ) (ys : List ℕ)
    → drop i xs ≡ x ∷ ys
    → (get_elem? xs i ≡ some x) × (drop (suc i) xs ≡ ys)
drop_cons zero [] x ys e = cc
drop_cons zero (z ∷ xs) x ys e = ground arith
drop_cons (suc i) [] x ys e = cc
drop_cons (suc i) (z ∷ xs) x ys e = drop_cons i xs x ys e

module _ (hash_of : ℕ → ℕ → ℕ) where
  -- The level above: the pairs, the last hash with itself where it is alone.
  abbrev pub pairs : List ℕ → List ℕ
  pairs [] = []
  pairs (x ∷ []) = hash_of x x ∷ []
  pairs (x ∷ y ∷ ys) = hash_of x y ∷ pairs ys

  abbrev pub levels : ℕ → List ℕ → List ℕ
  levels zero xs = xs
  levels (suc n) xs = if ltb 1 (length xs) then xs ++ levels n (pairs xs) else xs

  -- The root by itself.
  abbrev pub root : ℕ → List ℕ → ℕ
  root zero xs = back xs
  root (suc n) xs = if ltb 1 (length xs) then root n (pairs xs) else back xs

  pub length-pairs : (xs : List ℕ) → length (pairs xs) ≡ (length xs + 1) / 2
  length-pairs [] = omega arith
  length-pairs (x ∷ []) = omega arith
  length-pairs (x ∷ y ∷ ys) = omega (arith, length-pairs ys)

  -- One pair.
  paired :
      (fuel : ℕ) (pre xs out : List ℕ) (i x y : ℕ) (zs : List ℕ)
      → get_elem? xs i ≡ some x
      → get_elem? xs (min (i + 1) (length xs - 1)) ≡ some y
      → i < length xs
      → drop (i + 2) xs ≡ zs
      → pairs (drop i xs) ≡ hash_of x y ∷ pairs zs
      → level_loop hash_of fuel
          (pre ++ (xs ++ (out ++ (hash_of x y ∷ []))))
          (length pre)
          (length xs)
          (i + 2)
        ≡ some (pre ++ (xs ++ ((out ++ (hash_of x y ∷ [])) ++ pairs (drop (i + 2) xs))))
      → level_loop hash_of (suc fuel) (pre ++ (xs ++ out)) (length pre) (length xs) i
        ≡ some (pre ++ (xs ++ (out ++ pairs (drop i xs))))
  unfolding level_loop
  paired fuel pre xs out i x y zs at at' lt next all rest =
      let h = hash_of x y in
      let grown : (pre ++ (xs ++ out)) ++ (h ∷ []) ≡ pre ++ (xs ++ (out ++ (h ∷ []))) =
        append_assoc pre (xs ++ out) (h ∷ []) ∙ ap (λ l. pre ++ l) (append_assoc xs out (h ∷ [])) in
      let tail : (out ++ (h ∷ [])) ++ pairs zs ≡ out ++ (h ∷ pairs zs) =
        append_assoc out (h ∷ []) (pairs zs) in
      ground (
        arith,
        get_elem?-level pre xs out i x at,
        get_elem?-level pre xs out (min (i + 1) (length xs - 1)) y at',
      )

  -- The loop over a level, from the place i on.
  level_loop_lem :
      (fuel : ℕ) (pre xs out : List ℕ) (i : ℕ)
      → length xs ≤ fuel + i
      → level_loop hash_of fuel (pre ++ (xs ++ out)) (length pre) (length xs) i
        ≡ some (pre ++ (xs ++ (out ++ pairs (drop i xs))))
  unfolding level_loop
  level_loop_lem zero pre xs out i h = rw (drop_all i xs (omega arith), append_nil out) refl
  level_loop_lem (suc fuel) pre xs out i h = elim (uncons (drop i xs)) [
    | inl end ↦ ground (arith, length-drop i xs, append_nil out)
    | inr (x, ys, e) ↦
        (let (at, next) = drop_cons i xs x ys e in
          let size : length xs - i ≡ suc (length ys) = ground (arith, length-drop i xs) in
          elim (uncons ys) [
            | inl end ↦
                paired fuel pre xs out i x x [] at (ground (arith, length-drop i xs))
                  (omega (arith, size)) (ground (arith, drop_all (i + 2) xs)) (ground arith)
                  (level_loop_lem fuel pre xs (out ++ (hash_of x x ∷ [])) (i + 2) (omega arith))
            | inr (y, zs, f) ↦
                (let (at', next') = drop_cons (suc i) xs y zs (next ∙ f) in
                  paired fuel pre xs out i x y zs at (ground (arith, length-drop i xs))
                    (omega (arith, size)) (ground arith) (ground arith)
                    (level_loop_lem fuel pre xs (out ++ (hash_of x y ∷ [])) (i + 2) (omega arith)))
          ])
  ]

  -- The loop over the levels, with those before in the vector.
  pub tree_loop_lem :
      (fuel : ℕ) (pre xs : List ℕ)
      → tree_loop hash_of fuel (pre ++ xs) (length pre) (length xs) ≡ some (pre ++ levels fuel xs)
  unfolding tree_loop
  tree_loop_lem zero pre xs = refl
  tree_loop_lem (suc fuel) pre xs = elim (Bool-cases (ltb 1 (length xs))) [
    | inr single ↦ ground arith
    | inl more ↦
        (let level : level_loop hash_of (length xs) (pre ++ xs) (length pre) (length xs) 0
              ≡ some ((pre ++ xs) ++ pairs xs) =
            subst
              (λ l.
                level_loop hash_of (length xs) (pre ++ l) (length pre) (length xs) 0
                ≡ some ((pre ++ xs) ++ pairs xs))
              (append_nil xs)
              (level_loop_lem (length xs) pre xs [] 0 (omega arith)
                ∙ ap some (sym (append_assoc pre xs (pairs xs)))) in
          let rest = tree_loop_lem fuel (pre ++ xs) (pairs xs) in
          ground (
            arith,
            length-append pre xs,
            length-pairs xs,
            append_assoc pre xs (levels fuel (pairs xs)),
          ))
  ]

  -- BuildMerkleTree reads nothing out of bounds, and fills the vector with the levels.
  pub build_merkle_tree-levels :
      (txs : List ℕ) → build_merkle_tree hash_of txs ≡ some (levels (length txs) txs)
  unfolding build_merkle_tree
  build_merkle_tree-levels txs = tree_loop_lem (length txs) [] txs

  back-append : (xs ys : List ℕ) → 0 < length ys → back (xs ++ ys) ≡ back ys
  unfolding back
  back-append [] ys h = refl
  back-append (x ∷ []) [] h = absurd (omega arith)
  back-append (x ∷ []) (y ∷ ys) h = refl
  back-append (x ∷ z ∷ xs) ys h = back-append (z ∷ xs) ys h

  length-levels : (fuel : ℕ) (xs : List ℕ) → length xs ≤ length (levels fuel xs)
  length-levels zero xs = omega arith
  length-levels (suc fuel) xs = ground (arith, length-append xs (levels fuel (pairs xs)))

  -- The back of the vector is the root.
  pub back-levels : (fuel : ℕ) (xs : List ℕ) → back (levels fuel xs) ≡ root fuel xs
  back-levels zero xs = refl
  back-levels (suc fuel) xs = ground (
    arith,
    back-append xs (levels fuel (pairs xs)),
    back-levels fuel (pairs xs),
    length-levels fuel (pairs xs),
    length-pairs xs,
  )
