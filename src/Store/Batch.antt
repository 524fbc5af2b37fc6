-- ===== src/Store/Batch.antt =====
-- What `insertMany(documents)` leaves, of documents that a loop has numbered.
use saros_dlmm_indexer.Base.{
  ℕ, zero, suc, ◌+◌, ◌≤◌, ◌<◌, ◌≡◌, ◌≢◌, ◌∙◌, refl, subst, inl, inr, true, none, some, List, [],
  ◌∷◌, arith, if◌then◌else◌, Nat-cases, Option-cases, is_some,
}
use saros_dlmm_indexer.Text.{Text, eq_text, eq_text_iff, eq_text_refl}
use saros_dlmm_indexer.Store.{Collection}

-- A loop that fills a list with the documents of the indices from `i` on.
pub docs_from : {D : Type 0} → (ℕ → D) → ℕ → ℕ → List D
docs_from doc i zero = []
docs_from doc i (suc n) = doc i ∷ docs_from doc (suc i) n

module _ {D : Type 0} {key : D → Text} (c : Collection D key) (doc : ℕ → D) where
  -- None of the documents of these indices is stored.
  abbrev pub FreshFrom : ℕ → ℕ → c.State → Type 0
  FreshFrom i n s = (k : ℕ) → i ≤ k → k < i + n → c.find_one (key (doc k)) s ≡ none

  -- They all are, and every other document is as before.
  pub record Added (i n : ℕ) (s s' : c.State) : Type 0 where
    pub new : (k : ℕ) → i ≤ k → k < i + n → c.find_one (key (doc k)) s' ≡ some (doc k)
    pub old :
        (j : Text)
        → ((k : ℕ) → i ≤ k → k < i + n → key (doc k) ≢ j)
        → c.find_one j s' ≡ c.find_one j s

  module _ (key_injective : (i j : ℕ) → key (doc i) ≡ key (doc j) → i ≡ j) where
    still_fresh :
        (i n : ℕ) (s s₁ : c.State)
        → FreshFrom i (suc n) s
        → ((j : Text)
            → c.find_one j s₁ ≡ (if eq_text (key (doc i)) j then some (doc i) else c.find_one j s))
        → FreshFrom (suc i) n s₁
    still_fresh i n s s₁ fresh looks k le lt = ground (
      arith,
      looks (key (doc k)),
      fresh k (omega arith) (omega arith),
      eq_text_iff (key (doc i)) (key (doc k)),
      key_injective i k,
    )

    added :
        (i n : ℕ) (s s₁ s₂ : c.State)
        → ((j : Text)
            → c.find_one j s₁ ≡ (if eq_text (key (doc i)) j then some (doc i) else c.find_one j s))
        → Added (suc i) n s₁ s₂
        → Added i (suc n) s s₂
    added i n s s₁ s₂ looks rest = record {
      new = λ k le lt. elim (Nat-cases i k) [
        | inl same ↦
            subst (λ k. c.find_one (key (doc k)) s₂ ≡ some (doc k)) same
              (rest.old (key (doc i)) (λ k le lt e. ground (arith, key_injective k i e))
                ∙ looks (key (doc i))
                ∙ rw (eq_text_refl (key (doc i))) refl)
        | inr other ↦ rest.new k (omega arith) (omega arith)
      ];
      old = λ j ne.
          rest.old j (λ k le lt. ne k (omega arith) (omega arith))
          ∙ ground (arith, looks j, eq_text_iff (key (doc i)) j, ne i (omega arith) (omega arith));
    }

    -- Where none of the documents is stored and their ids differ, all are inserted.
    pub insert_many-docs_from :
        (i n : ℕ) (s : c.State)
        → FreshFrom i n s
        → (s' : c.State) × (c.insert_many (docs_from doc i n) s ≡ (true, s')) × Added i n s s'
    unfolding docs_from
    insert_many-docs_from i zero s fresh = (
      s,
      c.insert_many_nil s,
      record { new = λ k le lt. absurd (omega arith); old = λ j ne. refl },
    )
    insert_many-docs_from i (suc n) s fresh =
        let (s₁, made, looks) = c.create_fresh (doc i) s (fresh i (omega arith) (omega arith)) in
        let (s₂, rest, more) =
          insert_many-docs_from (suc i) n s₁ (still_fresh i n s s₁ fresh looks) in
        (
          s₂,
          c.insert_many_created (doc i) (docs_from doc (suc i) n) s made ∙ rest,
          added i n s s₁ s₂ looks more,
        )

module _ {D : Type 0} {key : D → Text} (c : Collection D key) where
  -- What is stored stays stored, wherever the insertion stops.
  pub insert_many-keeps :
      (ds : List D) (s : c.State) (k : Text)
      → is_some (c.find_one k s) ≡ true
      → is_some (c.find_one k (c.insert_many ds s).1) ≡ true
  insert_many-keeps [] s k there = rw (c.insert_many_nil s) there
  insert_many-keeps (d ∷ ds) s k there = elim (Option-cases (c.find_one (key d) s)) [
    | inr (e, seen) ↦
        let refused = c.create_duplicate d s (λ absent. ground arith) in
        rw (c.insert_many_refused d ds s refused) there
    | inl absent ↦
        let (t, made, looks) = c.create_fresh d s absent in
        rw (c.insert_many_created d ds s made) (insert_many-keeps ds t k (ground (arith, looks k)))
  ]

  pub insert_many-first :
      (d : D) (ds : List D) (s : c.State)
      → c.find_one (key d) s ≡ none
      → is_some (c.find_one (key d) (c.insert_many (d ∷ ds) s).1) ≡ true
  insert_many-first d ds s absent =
      let (t, made, looks) = c.create_fresh d s absent in
      rw (c.insert_many_created d ds s made)
        (insert_many-keeps ds t (key d) (rw (looks (key d), eq_text_refl (key d)) refl))

pub docs_from-suc :
    {D : Type 0} (doc : ℕ → D) (i n : ℕ) → docs_from doc i (suc n) ≡ doc i ∷ docs_from doc (suc i) n
unfolding docs_from
docs_from-suc doc i n = refl
