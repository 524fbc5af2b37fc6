-- ===== src/Scanner/Order.antt =====
-- The order of a query, as an insertion sort, and the filter of one.
use saros_dlmm_indexer.Base.{
  true, ap, sym, ◌∙◌, Bool-cases, inl, inr, Bool, false, ◌≡◌, refl, Option, none, some, List, [],
  ◌∷◌, ◌++◌, if◌then◌else◌, All,
}

module _ {A : Type 0} where
  unfoldable pub insert : (A → A → Bool) → A → List A → List A
  insert le x [] = x ∷ []
  insert le x (y ∷ ys) = let rest = insert le x ys in if le x y then x ∷ y ∷ ys else y ∷ rest

  -- Equal elements keep their order.
  unfoldable pub sort : (A → A → Bool) → List A → List A
  unfolding insert
  sort le [] = []
  sort le (x ∷ xs) = insert le x (sort le xs)

  unfoldable pub filter : (A → Bool) → List A → List A
  filter p [] = []
  filter p (x ∷ xs) = if p x then x ∷ filter p xs else filter p xs

  unfoldable pub first : List A → Option A
  first [] = none
  first (x ∷ xs) = some x

  -- What nothing comes before is the first.
  pub first-sort :
      (le : A → A → Bool) (xs : List A) (z : A)
      → All (λ x. le x z ≡ false) xs
      → (rest : List A) × (sort le (xs ++ (z ∷ [])) ≡ z ∷ rest)
  unfolding sort insert
  first-sort le [] z h = ([], refl)
  first-sort le (x ∷ xs) z (p, h) =
      let (rest, e) = first-sort le xs z h in (insert le x rest, rw (e, p) refl)

  -- Every element comes before those behind it.
  abbrev pub IsSorted : (A → A → Bool) → List A → Type 0
  IsSorted le [] = Unit
  IsSorted le (x ∷ xs) = All (λ y. le x y ≡ true) xs × IsSorted le xs

  All-insert :
      (P : A → Type 0) (le : A → A → Bool) (x : A) (ys : List A)
      → P x
      → All P ys
      → All P (insert le x ys)
  unfolding insert
  All-insert P le x [] p h = (p, tt)
  All-insert P le x (y ∷ ys) p (q, h) = elim (Bool-cases (le x y)) [
    | inl before ↦ rw before (p, (q, h))
    | inr after ↦ rw after (q, All-insert P le x ys p h)
  ]

  All-filter : (P : A → Type 0) (p : A → Bool) (xs : List A) → All P xs → All P (filter p xs)
  unfolding filter
  All-filter P p [] h = tt
  All-filter P p (x ∷ xs) (q, h) = elim (Bool-cases (p x)) [
    | inl kept ↦ rw kept (q, All-filter P p xs h)
    | inr out ↦ rw out (All-filter P p xs h)
  ]

  insert_front :
      (le : A → A → Bool) (x : A) (ys : List A)
      → All (λ y. le x y ≡ true) ys
      → insert le x ys ≡ x ∷ ys
  unfolding insert
  insert_front le x [] h = refl
  insert_front le x (y ∷ ys) (before, h) = rw before refl

  module _ (le : A → A → Bool) (trans : (x y z : A) → le x y ≡ true → le y z ≡ true → le x z ≡ true)
      (total : (x y : A) → le x y ≡ false → le y x ≡ true) where
    All-trans :
        (x y : A) (ys : List A)
        → le x y ≡ true
        → All (λ z. le y z ≡ true) ys
        → All (λ z. le x z ≡ true) ys
    All-trans x y [] xy h = tt
    All-trans x y (z ∷ zs) xy (yz, h) = (trans x y z xy yz, All-trans x y zs xy h)

    insert-IsSorted : (x : A) (ys : List A) → IsSorted le ys → IsSorted le (insert le x ys)
    unfolding insert
    insert-IsSorted x [] h = (tt, tt)
    insert-IsSorted x (y ∷ ys) (first_is, h) = elim (Bool-cases (le x y)) [
      | inl before ↦ rw before ((before, All-trans x y ys before first_is), (first_is, h))
      | inr after ↦ rw after (
        All-insert (λ z. le y z ≡ true) le x ys (total x y after) first_is,
        insert-IsSorted x ys h,
      )
    ]

    sort-IsSorted : (xs : List A) → IsSorted le (sort le xs)
    unfolding sort
    sort-IsSorted [] = tt
    sort-IsSorted (x ∷ xs) = insert-IsSorted x (sort le xs) (sort-IsSorted xs)

    filter-insert :
        (p : A → Bool) (x : A) (ys : List A)
        → IsSorted le ys
        → filter p (insert le x ys) ≡ (if p x then insert le x (filter p ys) else filter p ys)
    unfolding filter insert
    filter-insert p x [] h = refl
    filter-insert p x (y ∷ ys) (first_is, h) = elim (Bool-cases (le x y)) [
      | inl before ↦
          let front = insert_front le x (filter p (y ∷ ys)) (
            All-filter (λ z. le x z ≡ true) p (y ∷ ys)
              (before, All-trans x y ys before first_is)) in
          elim (Bool-cases (p x)) [
            | inl kept ↦ rw (before, kept) (sym front)
            | inr out ↦ rw (before, out) refl
          ]
      | inr after ↦
          let kept_ys = filter p ys in
          let rest = λ (b : Bool) (e : p x ≡ b).
            filter-insert p x ys h ∙ ap (λ b. if b then insert le x kept_ys else kept_ys) e in
          let behind = ap (λ b. if b then x ∷ y ∷ kept_ys else y ∷ insert le x kept_ys) after in
          elim (Bool-cases (p x)) [
            | inl kept ↦ elim (Bool-cases (p y)) [
              | inl stays ↦ rw (after, kept, stays) (ap (◌∷◌ y) (rest true kept) ∙ sym behind)
              | inr leaves ↦ rw (after, kept, leaves) (rest true kept)
            ]
            | inr out ↦ rw (after, out) (ap (λ l. if p y then y ∷ l else l) (rest false out))
          ]
    ]

    pub filter-sort : (p : A → Bool) (xs : List A) → filter p (sort le xs) ≡ sort le (filter p xs)
    unfolding filter sort
    filter-sort p [] = refl
    filter-sort p (x ∷ xs) = elim (Bool-cases (p x)) [
      | inl kept ↦
          filter-insert p x (sort le xs) (sort-IsSorted xs)
          ∙ rw kept (ap (insert le x) (filter-sort p xs))
      | inr out ↦ filter-insert p x (sort le xs) (sort-IsSorted xs) ∙ rw out (filter-sort p xs)
    ]
