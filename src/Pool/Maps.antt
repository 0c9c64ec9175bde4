-- ===== src/Pool/Maps.antt =====
-- Association lists that stand for a std::map: the last entry stored under a key is the first found.
use tetra.Prelude.{
  ◌≡◌, refl, ◌∙◌, ap, Bool, true, false, List, [], ◌∷◌, Option, none, some, if◌then◌else◌,
  Bool-cases, inl, inr,
}

module _ {ℓ κ} {K : Type ℓ} {V : Type κ} (same : K → K → Bool) where
  -- `find`
  unfoldable pub lookup : K → List (K × V) → Option V
  lookup k [] = none
  lookup k ((j, v) ∷ m) = if same j k then some v else lookup k m

  -- `m[k] = v`
  unfoldable pub store : K → V → List (K × V) → List (K × V)
  store k v [] = (k, v) ∷ []
  store k v ((j, w) ∷ m) = if same j k then (k, v) ∷ m else (j, w) ∷ store k v m

  -- `m.erase(k)`
  unfoldable pub erase : K → List (K × V) → List (K × V)
  erase k [] = []
  erase k ((j, v) ∷ m) = if same j k then erase k m else (j, v) ∷ erase k m

  -- The keys are compared by an equality.
  module _ (same_eq : (a b : K) → same a b ≡ true → a ≡ b)
      (same_refl : (a : K) → same a a ≡ true) where
    pub lookup-store_self : (k : K) (v : V) (m : List (K × V)) → lookup k (store k v m) ≡ some v
    unfolding lookup store
    lookup-store_self k v [] = rw (same_refl k) refl
    lookup-store_self k v ((j, w) ∷ m) = elim (Bool-cases (same j k)) [
      | inl here ↦ rw (here, same_refl k) refl
      | inr other ↦ rw (other, other) (lookup-store_self k v m)
    ]

    pub lookup-store_other :
        (k l : K) (v : V) (m : List (K × V))
        → same k l ≡ false
        → lookup l (store k v m) ≡ lookup l m
    unfolding lookup store
    lookup-store_other k l v [] apart = rw apart refl
    lookup-store_other k l v ((j, w) ∷ m) apart = elim (Bool-cases (same j k)) [
      | inl here ↦
          let other : same j l ≡ false = ap (λ x. same x l) (same_eq j k here) ∙ apart in
          rw (here, apart, other) refl
      | inr other ↦
          rw other (ap (λ r. if same j l then some w else r) (lookup-store_other k l v m apart))
    ]

    pub lookup-erase_self : (k : K) (m : List (K × V)) → lookup k (erase k m) ≡ none
    unfolding lookup erase
    lookup-erase_self k [] = refl
    lookup-erase_self k ((j, v) ∷ m) = elim (Bool-cases (same j k)) [
      | inl here ↦ rw here (lookup-erase_self k m)
      | inr other ↦ rw (other, other) (lookup-erase_self k m)
    ]

    pub lookup-erase_other :
        (k l : K) (m : List (K × V)) → same k l ≡ false → lookup l (erase k m) ≡ lookup l m
    unfolding lookup erase
    lookup-erase_other k l [] apart = refl
    lookup-erase_other k l ((j, v) ∷ m) apart = elim (Bool-cases (same j k)) [
      | inl here ↦
          let other : same j l ≡ false = ap (λ x. same x l) (same_eq j k here) ∙ apart in
          rw (here, other) (lookup-erase_other k l m apart)
      | inr other ↦
          rw other (ap (λ r. if same j l then some v else r) (lookup-erase_other k l m apart))
    ]
