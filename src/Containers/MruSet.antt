-- ===== src/Containers/MruSet.antt =====
-- mruset of src/mruset.h. The elements' equality is a parameter. A std::set is a list of distinct
-- elements, a std::deque the list of its elements, the front first.
use tetra.Prelude.{
  ℕ, zero, suc, ◌-◌, ◌<◌, ◌≤◌, ◌≡◌, ◌↔◌, ◌⊎◌, inl, inr, refl, Bool, true, false, not, ◌&&◌, ◌||◌,
  List, [], ◌∷◌, ◌++◌, arith, ltb, ◌==◌, if◌then◌else◌, Bool-cases, length, length-append,
  length-drop, drop,
}

pub record MruSet {ℓ} (A : Type ℓ) : Type ℓ where
  pub elements : List A
  pub queue : List A
  pub max_size : ℕ

abbrev pub new {ℓ} : {A : Type ℓ} → ℕ → MruSet A
new n = record { elements = []; queue = []; max_size = n }

module _ {ℓ} {A : Type ℓ} (same : A → A → Bool) where
  unfoldable pub member : A → List A → Bool
  member x [] = false
  member x (y ∷ ys) = same x y || member x ys

  unfoldable pub erase : A → List A → List A
  erase x [] = []
  erase x (y ∷ ys) = if same x y then erase x ys else y ∷ erase x ys

  -- `set.erase(queue.front()); queue.pop_front();`
  unfoldable pub pop_oldest : MruSet A → MruSet A
  pop_oldest s = elim s.queue [
    | [] ↦ s
    | q ∷ qs ↦ record { elements = erase q s.elements; queue = qs; max_size = s.max_size }
  ]

  -- `insert`, with whether the element is new.
  unfoldable pub insert : A → MruSet A → MruSet A × Bool
  insert x s =
      if member x s.elements
      then (s, false)
      else (let added : MruSet A = record {
        elements = x ∷ s.elements;
        queue = s.queue;
        max_size = s.max_size;
      } in
          let room =
            if not (s.max_size == 0) && length s.queue == s.max_size
            then pop_oldest added
            else added in
          (
            record {
              elements = room.elements;
              queue = room.queue ++ x ∷ [];
              max_size = s.max_size;
            },
            true,
          ))

  -- The loop of `max_size(s)`, on the queue.
  unfoldable pub shrink : ℕ → List A → List A → List A × List A
  shrink n elements [] = (elements, [])
  shrink n elements (q ∷ qs) =
      let rest = shrink n (erase q elements) qs in
      if ltb n (length (q ∷ qs)) then rest else (elements, q ∷ qs)

  unfoldable pub set_max_size : ℕ → MruSet A → MruSet A
  set_max_size zero s = record { elements = s.elements; queue = s.queue; max_size = 0 }
  set_max_size (suc n) s =
      let r = shrink (suc n) s.elements s.queue in
      record { elements = r.0; queue = r.1; max_size = suc n }

  abbrev pub Distinct : List A → Type 0
  Distinct [] = Unit {0}
  Distinct (x ∷ xs) = (member x xs ≡ false) × Distinct xs

  -- What a queue of the latest `n` elements keeps; 0 is no bound.
  abbrev pub latest : ℕ → List A → List A
  latest n l = if n == 0 then l else drop (length l - n) l

  -- The set and the queue hold the same elements, each once, and no more than the bound.
  abbrev pub IsConsistent : MruSet A → Type ℓ
  IsConsistent s =
      Distinct s.elements
      × Distinct s.queue
      × ((x : A) → member x s.elements ≡ member x s.queue)
      × ((s.max_size ≡ 0) ⊎ (length s.queue ≤ s.max_size))

  module _ (same_iff : (x y : A) → (same x y ≡ true) ↔ (x ≡ y)) where
    member-erase : (x y : A) (l : List A) → member x (erase y l) ≡ not (same y x) && member x l
    unfolding member erase
    member-erase x y [] = ground arith
    member-erase x y (z ∷ l) =
        ground (arith, same_iff y x, same_iff y z, same_iff x z, member-erase x y l)

    erase-Distinct : (y : A) (l : List A) → Distinct l → Distinct (erase y l)
    unfolding erase
    erase-Distinct y [] h = tt
    erase-Distinct y (z ∷ l) h = ground (arith, erase-Distinct y l h.1, member-erase z y l)

    member-append : (x : A) (l r : List A) → member x (l ++ r) ≡ member x l || member x r
    unfolding member
    member-append x [] r = refl
    member-append x (z ∷ l) r = ground (arith, member-append x l r)

    append-Distinct :
        (l : List A) (x : A) → Distinct l → member x l ≡ false → Distinct (l ++ x ∷ [])
    unfolding member
    append-Distinct [] x h k = ground arith
    append-Distinct (z ∷ l) x h k =
        ground
          (arith, same_iff x z, same_iff z x, append-Distinct l x h.1, member-append z l (x ∷ []))

    -- A new element where there is room, and where the oldest makes way.
    add-IsConsistent :
        (x : A) (e q : List A) (n : ℕ)
        → IsConsistent (record { elements = e; queue = q; max_size = n })
        → member x e ≡ false
        → (n ≡ 0) ⊎ (length q < n)
        → IsConsistent (record { elements = x ∷ e; queue = q ++ x ∷ []; max_size = n })
    unfolding member
    add-IsConsistent x e q n h fresh room = (
      (fresh, h.0),
      append-Distinct q x h.1 (ground (arith, h.2 x)),
      λ y. ground (arith, h.2 y, member-append y q (x ∷ [])),
      ground (arith, length-append q (x ∷ [])),
    )

    replace-IsConsistent :
        (x o : A) (e q : List A) (n : ℕ)
        → IsConsistent (record { elements = e; queue = o ∷ q; max_size = n })
        → member x e ≡ false
        → IsConsistent (record { elements = erase o (x ∷ e); queue = q ++ x ∷ []; max_size = n })
    unfolding member
    replace-IsConsistent x o e q n h fresh = (
      erase-Distinct o (x ∷ e) (fresh, h.0),
      append-Distinct q x h.1.1 (ground (arith, h.2 x)),
      λ y. ground (
        arith,
        same_iff o y,
        same_iff y o,
        same_iff y x,
        h.2 y,
        h.2 x,
        member-append y q (x ∷ []),
        member-erase y o (x ∷ e),
      ),
      ground (arith, length-append q (x ∷ [])),
    )

    room :
        (q : List A) (n : ℕ)
        → (n ≡ 0) ⊎ (length q ≤ n)
        → ((n ≡ 0) ⊎ (length q < n)) ⊎ ((length q ≡ n) × (0 < n))
    room q n h = ground arith

    insert_cases :
        (x : A) (e q : List A) (n : ℕ)
        → IsConsistent (record { elements = e; queue = q; max_size = n })
        → member x e ≡ false
        → (r : MruSet A) × (insert x (record { elements = e; queue = q; max_size = n }) ≡ (r, true))
          × IsConsistent r
          × (r.queue ≡ latest n (q ++ x ∷ []))
          × (member x r.elements ≡ true)
    unfolding insert pop_oldest member
    insert_cases x e [] n h fresh = (
      record { elements = x ∷ e; queue = x ∷ []; max_size = n },
      ground arith,
      add-IsConsistent x e [] n h fresh (ground arith),
      ground arith,
      ground (arith, same_iff x x),
    )
    insert_cases x e (o ∷ q) n h fresh = elim (room (o ∷ q) n h.3) [
      | inl some_room ↦ (
        record { elements = x ∷ e; queue = o ∷ q ++ x ∷ []; max_size = n },
        ground arith,
        add-IsConsistent x e (o ∷ q) n h fresh some_room,
        ground (arith, length-append q (x ∷ [])),
        ground (arith, same_iff x x),
      )
      | inr full ↦ (
        record { elements = erase o (x ∷ e); queue = q ++ x ∷ []; max_size = n },
        ground arith,
        replace-IsConsistent x o e q n h fresh,
        ground (arith, length-append q (x ∷ [])),
        ground (arith, same_iff x x, same_iff o x, member-erase x o (x ∷ e), h.2 x),
      )
    ]

    insert_old : (x : A) (s : MruSet A) → member x s.elements ≡ true → insert x s ≡ (s, false)
    unfolding insert
    insert_old x s h = rw h refl

    -- On a consistent set, `insert` keeps the set and the queue together and within the bound,
    -- leaves the element in the set, says whether it is new, and keeps the latest elements in the
    -- order of their arrival.
    pub insert-latest :
        (x : A) (s : MruSet A)
        → IsConsistent s
        → IsConsistent (insert x s).0
          × (member x (insert x s).0.elements ≡ true)
          × ((insert x s).1 ≡ not (member x s.queue))
          × ((insert x s).0.queue
              ≡ (if member x s.queue then s.queue else latest s.max_size (s.queue ++ x ∷ [])))
    insert-latest x s h = elim (Bool-cases (member x s.elements)) [
      | inl old ↦ rw (insert_old x s old) (h, old, ground (arith, h.2 x), ground (arith, h.2 x))
      | inr fresh ↦
          let c = insert_cases x s.elements s.queue s.max_size h fresh in
          rw c.1 (c.2, c.4, ground (arith, h.2 x), ground (arith, h.2 x, c.3))
    ]

    step_drop :
        (n l : ℕ)
        → ((ltb n (suc l) ≡ true) × (suc l - n ≡ suc (l - n)))
          ⊎ ((ltb n (suc l) ≡ false) × (suc l - n ≡ 0))
    step_drop n l = ground arith

    shrink_lem :
        (n : ℕ) (e q : List A)
        → Distinct e
        → Distinct q
        → ((x : A) → member x e ≡ member x q)
        → Distinct (shrink n e q).0
          × Distinct (shrink n e q).1
          × ((x : A) → member x (shrink n e q).0 ≡ member x (shrink n e q).1)
          × ((shrink n e q).1 ≡ drop (length q - n) q)
    unfolding shrink member
    shrink_lem n e [] de dq both = (de, dq, both, ground arith)
    shrink_lem n e (o ∷ q) de dq both =
        let rest =
          shrink_lem n (erase o e) q (erase-Distinct o e de) dq.1
            (λ x. ground (arith, both x, same_iff o x, same_iff x o, member-erase x o e)) in
        (
          ground (arith, rest.0, de),
          ground (arith, rest.1, dq),
          λ x. ground (arith, rest.2 x, both x),
          elim (step_drop n (length q)) [
            | inl (big, e1) ↦ rw e1 (ground (arith, rest.3))
            | inr (small, e1) ↦ rw e1 (ground arith)
          ],
        )

    -- On a consistent set, a new bound keeps the latest elements, in the set and in the queue.
    set_max_size-latest :
        (n : ℕ) (s : MruSet A)
        → IsConsistent s
        → IsConsistent (set_max_size n s) × ((set_max_size n s).queue ≡ latest n s.queue)
    unfolding set_max_size
    set_max_size-latest zero s h = ((h.0, h.1, h.2, inl refl), refl)
    set_max_size-latest (suc n) s h =
        let r = shrink_lem (suc n) s.elements s.queue h.0 h.1 h.2 in
        (
          (
            r.0,
            r.1,
            r.2,
            inr (rw r.3 (omega (arith, length-drop (length s.queue - suc n) s.queue))),
          ),
          ground (arith, r.3),
        )
