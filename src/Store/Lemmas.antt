-- ===== src/Store/Lemmas.antt =====
-- Consequences of a collection's behaviour that every processor uses.
use saros_dlmm_indexer.Base.{◌≡◌, is_some, Bool-cases, Option-cases, inl, inr}
use saros_dlmm_indexer.Text.{Text, eq_text, eq_text_iff}
use saros_dlmm_indexer.Store.{Collection}

module _ {D : Type 0} {key : D → Text} (c : Collection D key) where
  -- `exists({ id })` looks the id up.
  pub exists_where_id :
      (k : Text) (s : c.State)
      → c.exists_where (λ d. eq_text (key d) k) s ≡ is_some (c.find_one k s)
  exists_where_id k s = elim (Option-cases (c.find_one k s)) [
    | inl missing ↦ rw missing (elim (Bool-cases (c.exists_where (λ d. eq_text (key d) k) s)) [
      | inr absent ↦ absent
      | inl present ↦
          let (j, d, found, same) = (c.exists_where_iff (λ d. eq_text (key d) k) s).0 present in
          cc (c.find_one-key j s found, (eq_text_iff (key d) k).0 same)
    ])
    | inr (d, found) ↦ rw found (
        (c.exists_where_iff (λ d. eq_text (key d) k) s).1
          (k, d, found, (eq_text_iff (key d) k).1 (c.find_one-key k s found)))
  ]
