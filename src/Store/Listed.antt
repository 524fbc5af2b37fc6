-- ===== src/Store/Listed.antt =====
-- A collection kept in a list, which shows that the documented behaviour can be met. The first
-- document with an id is the one that counts; tests and examples run on it.
use mathlib.Core.Option
use saros_dlmm_indexer.Base.{
  ℕ, ◌≡◌, refl, ◌≢◌, ap, Bool, true, false, not, ◌&&◌, ◌||◌, Option, none, some, if◌then◌else◌,
  is_some, List, [], ◌∷◌, arith, Bool-cases, Option-cases, ◌∙◌, ◌⊎◌, inl, inr,
}
use saros_dlmm_indexer.Text.{Text, eq_text, eq_text_iff, eq_text_refl}
use saros_dlmm_indexer.Store.{Collection, keep}

abbrev mem_text : Text → List Text → Bool
mem_text k [] = false
mem_text k (j ∷ ks) = eq_text j k || mem_text k ks

module _ {D : Type 0} (key : D → Text) where
  unfoldable pub find_one : Text → List D → Option D
  find_one k [] = none
  find_one k (d ∷ s) = if eq_text (key d) k then some d else find_one k s

  unfoldable pub update_one : Text → (D → D) → List D → List D
  update_one k f [] = []
  update_one k f (d ∷ s) = if eq_text (key d) k then f d ∷ s else d ∷ update_one k f s

  unfoldable pub create : D → List D → Option (List D)
  create d s = elim (find_one (key d) s) [ none ↦ some (d ∷ s) | some e ↦ none ]

  insert_rest : List D → Option (List D) → (List D → Bool × List D) → Bool × List D
  insert_rest s none rest = (false, s)
  insert_rest s (some t) rest = rest t

  insert_many : List D → List D → Bool × List D
  unfolding insert_rest create
  insert_many [] s = (true, s)
  insert_many (d ∷ ds) s = insert_rest s (create d s) (insert_many ds)

  unfoldable pub delete_key : Text → List D → List D
  delete_key k [] = []
  delete_key k (d ∷ s) = if eq_text (key d) k then delete_key k s else d ∷ delete_key k s

  unfoldable pub delete_one : Text → List D → ℕ × List D
  delete_one k s = (if is_some (find_one k s) then 1 else 0, delete_key k s)

  unfoldable pub delete_many : (D → Bool) → List D → List D
  delete_many p [] = []
  delete_many p (d ∷ s) =
      let rest = delete_many p s in if p d then delete_key (key d) rest else d ∷ rest

  -- The ids seen so far hide later documents.
  unfoldable pub exists_from : List Text → (D → Bool) → List D → Bool
  exists_from seen p [] = false
  exists_from seen p (d ∷ s) =
      (not (mem_text (key d) seen) && p d) || exists_from (key d ∷ seen) p s

  -- The id of the first visible document that matches.
  first_match : List Text → (D → Bool) → List D → Option Text
  first_match seen p [] = none
  first_match seen p (d ∷ s) =
      if not (mem_text (key d) seen) && p d then some (key d) else first_match (key d ∷ seen) p s

  update_where : (D → Bool) → (D → D) → List D → List D
  update_where p f s = elim (first_match [] p s) [ none ↦ s | some k ↦ update_one k f s ]

  find_one-key : (k : Text) (s : List D) {d : D} → find_one k s ≡ some d → key d ≡ k
  unfolding find_one
  find_one-key k [] h = cc
  find_one-key k (e ∷ s) h = elim (Bool-cases (eq_text (key e) k)) [
    | inl same ↦ ground (arith, eq_text_iff (key e) k)
    | inr other ↦ find_one-key k s (rw other at h)
  ]

  find_one-update_one :
      (k j : Text) (f : D → D) (s : List D)
      → ((d : D) → key (f d) ≡ key d)
      → find_one j (update_one k f s)
        ≡ (if eq_text k j then Option.map f (find_one j s) else find_one j s)
  unfolding find_one update_one
  find_one-update_one k j f [] h = ground arith
  find_one-update_one k j f (d ∷ s) h = ground (
    arith,
    h d,
    eq_text_iff (key d) k,
    eq_text_iff (key d) j,
    eq_text_iff k j,
    find_one-update_one k j f s h,
  )

  create_fresh :
      (d : D) (s : List D)
      → find_one (key d) s ≡ none
      → (t : List D) × (create d s ≡ some t)
        × ((j : Text) → find_one j t ≡ (if eq_text (key d) j then some d else find_one j s))
  unfolding find_one create
  create_fresh d s h = (d ∷ s, rw (h, create), λ j. refl)

  create_duplicate : (d : D) (s : List D) → find_one (key d) s ≢ none → create d s ≡ none
  unfolding create
  create_duplicate d s h = ground arith

  find_one-delete_key :
      (k j : Text) (s : List D)
      → find_one j (delete_key k s) ≡ (if eq_text k j then none else find_one j s)
  unfolding find_one delete_key
  find_one-delete_key k j [] = ground arith
  find_one-delete_key k j (d ∷ s) = ground (
    arith,
    eq_text_iff (key d) k,
    eq_text_iff (key d) j,
    eq_text_iff k j,
    find_one-delete_key k j s,
  )

  find_one-delete_many :
      (p : D → Bool) (j : Text) (s : List D) → find_one j (delete_many p s) ≡ keep p (find_one j s)
  unfolding find_one delete_many
  find_one-delete_many p j [] = refl
  find_one-delete_many p j (d ∷ s) =
      ground (arith, find_one-delete_key (key d) j (delete_many p s), find_one-delete_many p j s)

  exists_from_sound :
      (seen : List Text) (p : D → Bool) (s : List D)
      → exists_from seen p s ≡ true
      → (k : Text) × (d : D) × (find_one k s ≡ some d) × (p d ≡ true) × (mem_text k seen ≡ false)
  unfolding exists_from find_one
  exists_from_sound seen p [] h = cc
  exists_from_sound seen p (d ∷ s) h = elim (Bool-cases (not (mem_text (key d) seen) && p d)) [
    | inl here ↦ (key d, d, rw (eq_text_refl (key d)), ground arith, ground arith)
    | inr later ↦
        let (k, e, found, holds, unseen) = exists_from_sound (key d ∷ seen) p s (rw later at h) in
        (k, e, ground arith, holds, ground arith)
  ]

  exists_from_complete :
      (seen : List Text) (p : D → Bool) (s : List D) (k : Text) (d : D)
      → find_one k s ≡ some d
      → p d ≡ true
      → mem_text k seen ≡ false
      → exists_from seen p s ≡ true
  unfolding exists_from find_one
  exists_from_complete seen p [] k d found holds unseen = cc
  exists_from_complete seen p (e ∷ s) k d found holds unseen =
      ground (arith, eq_text_iff (key e) k, exists_from_complete (key e ∷ seen) p s k d)

  exists_from-first_match :
      (seen : List Text) (p : D → Bool) (s : List D)
      → exists_from seen p s ≡ is_some (first_match seen p s)
  unfolding exists_from first_match
  exists_from-first_match seen p [] = refl
  exists_from-first_match seen p (d ∷ s) =
      ground (arith, exists_from-first_match (key d ∷ seen) p s)

  first_match_sound :
      (seen : List Text) (p : D → Bool) (s : List D) {k : Text}
      → first_match seen p s ≡ some k
      → (d : D) × (find_one k s ≡ some d) × (p d ≡ true) × (mem_text k seen ≡ false)
  unfolding first_match find_one
  first_match_sound seen p [] h = cc
  first_match_sound seen p (d ∷ s) {k} h = elim (Bool-cases (not (mem_text (key d) seen) && p d)) [
    | inl here ↦
        let same : key d ≡ k = ground arith in
        (d, rw (same, eq_text_refl k), ground arith, ground arith)
    | inr later ↦
        let (e, found, holds, unseen) = first_match_sound (key d ∷ seen) p s (rw later at h) in
        (e, ground arith, holds, ground arith)
  ]

  update_where_lem :
      (p : D → Bool) (f : D → D) (s : List D)
      → ((exists_from [] p s ≡ false) × (update_where p f s ≡ s))
        ⊎ ((k : Text) × (d : D) × (find_one k s ≡ some d)
            × (p d ≡ true)
            × (update_where p f s ≡ update_one k f s))
  unfolding update_where
  update_where_lem p f s = elim (Option-cases (first_match [] p s)) [
    | inl missing ↦
        inl (exists_from-first_match [] p s ∙ ap is_some missing, rw (missing, update_where))
    | inr (k, found) ↦
        let (d, stored, holds, unseen) = first_match_sound [] p s found in
        inr (k, d, stored, holds, rw (found, update_where))
  ]

  insert_many_created :
      (d : D) (ds s : List D) {t : List D}
      → create d s ≡ some t
      → insert_many (d ∷ ds) s ≡ insert_many ds t
  unfolding insert_many insert_rest
  insert_many_created d ds s made = ap (λ o. insert_rest s o (insert_many ds)) made

  insert_many_refused :
      (d : D) (ds s : List D) → create d s ≡ none → insert_many (d ∷ ds) s ≡ (false, s)
  unfolding insert_many insert_rest
  insert_many_refused d ds s refused = ap (λ o. insert_rest s o (insert_many ds)) refused

  unfoldable pub listed : Collection D key
  unfolding find_one update_one create insert_many delete_one exists_from delete_many delete_key
      find_one-key find_one-update_one insert_many_created insert_many_refused create_fresh
      create_duplicate find_one-delete_key find_one-delete_many exists_from_sound
      exists_from_complete update_where update_where_lem first_match exists_from-first_match
      first_match_sound
  listed = record {
    State = List D;
    find_one = find_one;
    update_one = update_one;
    create = create;
    update_where = update_where;
    update_where_lem = update_where_lem;
    insert_many = insert_many;
    insert_many_nil = λ s. refl;
    insert_many_created = insert_many_created;
    insert_many_refused = insert_many_refused;
    delete_one = delete_one;
    delete_many = delete_many;
    exists_where = exists_from [];
    find_one-key = find_one-key;
    find_one-update_one = find_one-update_one;
    create_fresh = create_fresh;
    create_duplicate = create_duplicate;
    delete_one_count = λ k s. refl;
    find_one-delete_one = λ k j s. find_one-delete_key k j s;
    find_one-delete_many = find_one-delete_many;
    exists_where_iff = λ p s. (
      λ h. let (k, d, found, holds, unseen) = exists_from_sound [] p s h in (k, d, found, holds),
      λ w. exists_from_complete [] p s w.0 w.1 w.2 w.3 refl,
    );
  }
