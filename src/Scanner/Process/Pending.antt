-- ===== src/Scanner/Process/Pending.antt =====
-- The pending documents in their order, and what is left of them after some have been marked.

use saros_dlmm_indexer.Base.{
  ℕ, ◌≡◌, ◌∙◌, refl, sym, ap, Bool, true, false, not, ◌&&◌, List, [], ◌∷◌, ◌++◌, map, All, arith,
  Bool-cases, inl, inr, if◌then◌else◌,
}
use saros_dlmm_indexer.Scanner.{Stored, oldest_first, is_pending}
use saros_dlmm_indexer.Scanner.Order.{filter}
use saros_dlmm_indexer.Scanner.Model.{mem, patch}
use saros_dlmm_indexer.Scanner.Process.{set_queued}

pub oldest_first_trans :
    (x y z : Stored) → oldest_first x y ≡ true → oldest_first y z ≡ true → oldest_first x z ≡ true
unfolding oldest_first
oldest_first_trans x y z h k = ground arith

pub oldest_first_total : (x y : Stored) → oldest_first x y ≡ false → oldest_first y x ≡ true
unfolding oldest_first
oldest_first_total x y h = ground arith

abbrev pub oids : List Stored → List ℕ
oids ds = map (λ d. d.oid) ds

-- No `_id` stands twice.
abbrev pub IsDistinct : List ℕ → Type 0
IsDistinct [] = Unit
IsDistinct (n ∷ ns) = (mem n ns ≡ false) × IsDistinct ns

abbrev pub unmarked : List ℕ → Stored → Bool
unmarked ids d = not (mem d.oid ids)

patch_marked :
    (ids : List ℕ) (d : Stored) → mem d.oid ids ≡ true → is_pending (patch ids set_queued d) ≡ false
unfolding patch set_queued is_pending
patch_marked ids d h =
    ap is_pending (ap (λ b. if b then record d { event = set_queued d.event } else d) h)
    ∙ elim (Bool-cases d.event.processed) [
      | inl done ↦ ap (λ b. not b && not true) done
      | inr waits ↦ ap (λ b. not b && not true) waits
    ]

patch_left : (ids : List ℕ) (d : Stored) → mem d.oid ids ≡ false → patch ids set_queued d ≡ d
unfolding patch
patch_left ids d h = ap (λ b. if b then record d { event = set_queued d.event } else d) h

filter_out :
    (p q : Stored → Bool) (d : Stored) (ds : List Stored)
    → q d ≡ false
    → filter q (filter p (d ∷ ds)) ≡ filter q (filter p ds)
unfolding filter
filter_out p q d ds h = elim (Bool-cases (p d)) [
  | inl kept ↦ rw (kept, h) refl
  | inr out ↦ rw out refl
]

filter_in :
    (p q : Stored → Bool) (d : Stored) (ds : List Stored)
    → q d ≡ true
    → filter q (filter p (d ∷ ds))
      ≡ (if p d then d ∷ filter q (filter p ds) else filter q (filter p ds))
unfolding filter
filter_in p q d ds h = elim (Bool-cases (p d)) [
  | inl kept ↦ rw (kept, h) refl
  | inr out ↦ rw out refl
]

-- The pending documents after a batch has been marked are the others.
pub filter-patch :
    (ids : List ℕ) (ds : List Stored)
    → filter is_pending (map (patch ids set_queued) ds)
      ≡ filter (unmarked ids) (filter is_pending ds)
unfolding filter patch set_queued is_pending
filter-patch ids [] = refl
filter-patch ids (d ∷ ds) = elim (Bool-cases (mem d.oid ids)) [
  | inl marked ↦
      ap (λ b. if b then patch ids set_queued d ∷ after else after) (patch_marked ids d marked)
      ∙ filter-patch ids ds
      ∙ sym (filter_out is_pending (unmarked ids) d ds (ap not marked))
  | inr stays ↦
      ap (λ e. if is_pending e then e ∷ after else after) (patch_left ids d stays)
      ∙ ap (λ l. if is_pending d then d ∷ l else l) (filter-patch ids ds)
      ∙ sym (filter_in is_pending (unmarked ids) d ds (ap not stays))
]
  where
    after : List Stored
    after = filter is_pending (map (patch ids set_queued) ds)

filter-All : (p : Stored → Bool) (ds : List Stored) → All (λ d. p d ≡ true) ds → filter p ds ≡ ds
unfolding filter
filter-All p [] h = refl
filter-All p (d ∷ ds) (q, h) = rw q (ap (◌∷◌ d) (filter-All p ds h))

filter_same :
    (p q : Stored → Bool) (ds : List Stored) → All (λ d. p d ≡ q d) ds → filter p ds ≡ filter q ds
unfolding filter
filter_same p q [] h = refl
filter_same p q (d ∷ ds) (e, h) = rw (e, filter_same p q ds h) refl

unmarked_more :
    (n : ℕ) (ids : List ℕ) (ds : List Stored)
    → mem n (oids ds) ≡ false
    → All (λ d. unmarked (n ∷ ids) d ≡ unmarked ids d) ds
unfolding mem
unmarked_more n ids [] h = tt
unmarked_more n ids (d ∷ ds) h = (ground (arith, h), unmarked_more n ids ds (ground (arith, h)))

All-true : (ds : List Stored) → All (λ d. true ≡ true) ds
All-true [] = tt
All-true (d ∷ ds) = (refl, All-true ds)

pub filter-taken :
    (xs ys : List Stored)
    → IsDistinct (oids (xs ++ ys))
    → filter (unmarked (oids xs)) (xs ++ ys) ≡ ys
unfolding filter mem
filter-taken [] ys h = filter-All (unmarked []) ys (All-true ys)
filter-taken (x ∷ xs) ys (new, h) =
    let out : unmarked (oids (x ∷ xs)) x ≡ false = ground arith in
    let same =
      filter_same (unmarked (oids (x ∷ xs))) (unmarked (oids xs)) (xs ++ ys)
        (unmarked_more x.oid (oids xs) (xs ++ ys) new) in
    rw out (same ∙ filter-taken xs ys h)
