-- ===== src/Rpc/Creator/Pages.antt =====
-- The pages of a history end, and the last signature read is the oldest.
use mathlib.Core.Option
use saros_dlmm_indexer.Base.{
  ℕ, zero, suc, ◌<◌, ◌≡◌, ◌∙◌, refl, sym, ap, inl, inr, Option, none, some, List, [], ◌∷◌, ◌++◌,
  length, take, drop, take-drop, append_assoc, drop_le, arith, ltb, if◌then◌else◌, Bool-cases,
}
use saros_dlmm_indexer.Text.{Text}
use saros_dlmm_indexer.Store.World.{Result, ok}
use saros_dlmm_indexer.Rpc.Creator.{
  page_limit, last_or, paginate, first_key, creator_of, get_account_creator,
}

module _ {A : Type 0} where
  take_all : (n : ℕ) (xs : List A) → length (take n xs) < n → take n xs ≡ xs
  take_all zero xs h = absurd (omega (arith, h))
  take_all (suc n) [] h = refl
  take_all (suc n) (x ∷ xs) h = ap (◌∷◌ x) (take_all n xs (omega (arith, h)))

  last_or-append :
      (o : Option A) (xs ys : List A) → last_or o (xs ++ ys) ≡ last_or (last_or o xs) ys
  last_or-append o [] ys = refl
  last_or-append o (x ∷ xs) ys = last_or-append (some x) xs ys

  -- A list that is not empty has a last element.
  pub split_last :
      (x : A) (xs : List A)
      → (init : List A) × (s : A) × (x ∷ xs ≡ init ++ (s ∷ [])) × (last_or (some x) xs ≡ some s)
  split_last x [] = ([], x, refl, refl)
  split_last x (y ∷ xs) = let (init, s, e, l) = split_last y xs in (x ∷ init, s, ap (◌∷◌ x) e, l)

-- The RPC's `getSignaturesForAddress` on a history, newest first: a page is the first signatures of the
-- history, or of what stands behind `before`.
pub record Serves (limit : ℕ) (history : List Text) (get : Option Text → Result (List Text))
    : Type 0 where
  pub first_page : get none ≡ ok (take limit history)
  pub next_page :
      (newer : List Text) (s : Text) (older : List Text)
      → history ≡ newer ++ (s ∷ older)
      → get (some s) ≡ ok (take limit older)

module _ (n : ℕ) (history : List Text) (get : Option Text → Result (List Text))
    (serves : Serves (suc n) history get) where
  step_eq :
      (fuel : ℕ) (before oldest : Option Text) (s : Text) (ss : List Text)
      → get before ≡ ok (s ∷ ss)
      → paginate (suc n) get (suc fuel) before oldest ≡ (
          if ltb (length (s ∷ ss)) (suc n)
          then some (ok (last_or (some s) ss))
          else paginate (suc n) get fuel (last_or (some s) ss) (last_or (some s) ss))
  unfolding paginate
  step_eq fuel before oldest s ss h = rw (h, paginate) refl

  paginate_rest :
      (fuel : ℕ) (newer rest : List Text) (before oldest : Option Text)
      → history ≡ newer ++ rest
      → get before ≡ ok (take (suc n) rest)
      → length rest < fuel
      → paginate (suc n) get fuel before oldest ≡ some (ok (last_or oldest rest))
  unfolding paginate
  paginate_rest zero newer rest before oldest e h lt = absurd (omega (arith, lt))
  paginate_rest (suc fuel) newer [] before oldest e h lt = rw (h, paginate) refl
  paginate_rest (suc fuel) newer (x ∷ xs) before oldest e h lt =
      let later = drop n xs in
      let (init, s, split, is_last) = split_last x (take n xs) in
      let behind : history ≡ (newer ++ init) ++ (s ∷ later) =
        e
        ∙ ap (◌++◌ newer) (
            sym (take-drop (suc n) (x ∷ xs))
            ∙ ap (λ p. p ++ later) split
            ∙ append_assoc init (s ∷ []) later)
        ∙ sym (append_assoc newer init (s ∷ later)) in
      let end : last_or (some s) later ≡ last_or (some x) xs =
        ap (λ o. last_or o later) (sym is_last)
        ∙ sym (last_or-append (some x) (take n xs) later)
        ∙ ap (last_or (some x)) (take-drop n xs) in
      elim (Bool-cases (ltb (length (x ∷ take n xs)) (suc n))) [
        | inl short ↦
            step_eq fuel before oldest x (take n xs) h
            ∙ rw short
                (ap (λ l. some (ok (last_or (some x) l))) (take_all n xs (ground (arith, short))))
        | inr full ↦
            step_eq fuel before oldest x (take n xs) h
            ∙ rw (full, is_last)
                (paginate_rest fuel ((newer ++ init) ++ (s ∷ [])) later (some s) (some s)
                    (behind ∙ sym (append_assoc (newer ++ init) (s ∷ []) later))
                    (serves.next_page (newer ++ init) s later behind)
                    (omega (arith, lt, drop_le n xs))
                  ∙ ap (λ o. some (ok o)) end)
      ]

-- Where the node serves a history, newest first, one round of the loop more than it has signatures is
-- enough, and the creator found is the first account key of the oldest signature's transaction.
pub get_account_creator-oldest :
    (newer : List Text) (oldest key : Text) (keys : List Text)
    (get_signatures : Option Text → Result (List Text))
    (get_account_keys : Text → Result (Option (List Text)))
    → Serves page_limit (newer ++ (oldest ∷ [])) get_signatures
    → get_account_keys oldest ≡ ok (some (key ∷ keys))
    → get_account_creator get_signatures get_account_keys (suc (length (newer ++ (oldest ∷ []))))
      ≡ some (ok (some key))
unfolding get_account_creator creator_of first_key
get_account_creator-oldest newer oldest key keys get_signatures get_account_keys serves found =
    let history = newer ++ (oldest ∷ []) in
    let pages : paginate page_limit get_signatures (suc (length history)) none none
        ≡ some (ok (last_or none history)) =
      paginate_rest 999 history get_signatures serves (suc (length history)) [] history none none
        refl serves.first_page (omega arith) in
    let oldest_read : last_or none history ≡ some oldest =
      last_or-append none newer (oldest ∷ []) in
    ap (Option.map (creator_of get_signatures get_account_keys))
      (pages ∙ ap (λ o. some (ok o)) oldest_read)
    ∙ ap (λ r. some (first_key get_signatures get_account_keys r)) found
