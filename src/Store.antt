-- ===== src/Store.antt =====
-- The database as the processors see it. MongoDB and mongoose are not part of the repository: a
-- collection enters as a parameter, a `Collection`, with the documented behaviour of the calls that
-- the program makes. Every schema has a unique index on `id`, so a collection is seen through
-- `find_one`, which looks a document up by its id. The one other unique index, on the mint of a
-- position, is checked where positions are written, in Positions.Create.
pub mod Listed
pub mod World
pub mod Lemmas
pub mod Keeps
pub mod Batch
use mathlib.Core.Option
use saros_dlmm_indexer.Base.{
  ℕ, ◌≡◌, ◌≢◌, ◌↔◌, ◌⊎◌, Bool, true, false, Option, none, some, if◌then◌else◌, is_some, List, [],
  ◌∷◌,
}
use saros_dlmm_indexer.Text.{Text, eq_text}

-- What `deleteMany` leaves of a document.
abbrev pub keep {ℓ} : {D : Type ℓ} → (D → Bool) → Option D → Option D
keep p none = none
keep p (some d) = if p d then none else some d

pub record Collection (D : Type 0) (key : D → Text) : Type 1 where
  pub State : Type 0
  -- `findOne({ id })`
  pub find_one : Text → State → Option D
  -- `updateOne({ id }, patch)`: nothing happens if no document has the id
  pub update_one : Text → (D → D) → State → State
  -- `updateOne(filter, patch)`: at most one document that matches
  pub update_where : (D → Bool) → (D → D) → State → State
  -- `create(document)`: `none` is the duplicate key error of the unique index
  pub create : D → State → Option State
  -- `insertMany(documents)`, ordered: up to the first duplicate; the flag tells whether it got to the
  -- end or threw
  pub insert_many : List D → State → Bool × State
  -- `deleteOne({ id })`, with the count that it returns
  pub delete_one : Text → State → ℕ × State
  -- `deleteMany(filter)`
  pub delete_many : (D → Bool) → State → State
  -- `exists(filter)`
  pub exists_where : (D → Bool) → State → Bool
  pub find_one-key : (k : Text) (s : State) {d : D} → find_one k s ≡ some d → key d ≡ k
  pub find_one-update_one :
      (k j : Text) (f : D → D) (s : State)
      → ((d : D) → key (f d) ≡ key d)
      → find_one j (update_one k f s)
        ≡ (if eq_text k j then Option.map f (find_one j s) else find_one j s)
  pub update_where_lem :
      (p : D → Bool) (f : D → D) (s : State)
      → ((exists_where p s ≡ false) × (update_where p f s ≡ s))
        ⊎ ((k : Text) × (d : D) × (find_one k s ≡ some d)
            × (p d ≡ true)
            × (update_where p f s ≡ update_one k f s))
  pub create_fresh :
      (d : D) (s : State)
      → find_one (key d) s ≡ none
      → (t : State) × (create d s ≡ some t)
        × ((j : Text) → find_one j t ≡ (if eq_text (key d) j then some d else find_one j s))
  pub create_duplicate : (d : D) (s : State) → find_one (key d) s ≢ none → create d s ≡ none
  pub insert_many_nil : (s : State) → insert_many [] s ≡ (true, s)
  pub insert_many_created :
      (d : D) (ds : List D) (s : State) {t : State}
      → create d s ≡ some t
      → insert_many (d ∷ ds) s ≡ insert_many ds t
  pub insert_many_refused :
      (d : D) (ds : List D) (s : State) → create d s ≡ none → insert_many (d ∷ ds) s ≡ (false, s)
  pub delete_one_count :
      (k : Text) (s : State) → (delete_one k s).0 ≡ (if is_some (find_one k s) then 1 else 0)
  pub find_one-delete_one :
      (k j : Text) (s : State)
      → find_one j (delete_one k s).1 ≡ (if eq_text k j then none else find_one j s)
  pub find_one-delete_many :
      (p : D → Bool) (j : Text) (s : State) → find_one j (delete_many p s) ≡ keep p (find_one j s)
  pub exists_where_iff :
      (p : D → Bool) (s : State)
      → (exists_where p s ≡ true) ↔ ((k : Text) × (d : D) × (find_one k s ≡ some d) × (p d ≡ true))
