-- ===== src/Scanner/Insert/Indexed.antt =====
-- What an insertion of signatures adds to the stored events.
use mathlib.Core.List.{reverse, reverse-cons, reverse-append, map-append}
use saros_dlmm_indexer.Base.{◌≡◌, ◌∙◌, refl, sym, ap, List, [], ◌∷◌, ◌++◌, Bool-cases, inl, inr}
use saros_dlmm_indexer.Schemas.{TransactionEvent}
use saros_dlmm_indexer.Scanner.{ConfirmedSignatureInfo, Services, Scanner}
use saros_dlmm_indexer.Scanner.Insert.{events_of, insert_batch_transaction_event}
use saros_dlmm_indexer.Scanner.Model.{Working, events, events-number, next_oid}

pub events_of-append :
    (xs ys : List ConfirmedSignatureInfo) → events_of (xs ++ ys) ≡ events_of xs ++ events_of ys
unfolding events_of
events_of-append [] ys = refl
events_of-append (x ∷ xs) ys = elim (Bool-cases x.has_err) [
  | inl out ↦ rw (out, events_of-append xs ys) refl
  | inr kept ↦ rw (kept, events_of-append xs ys) refl
]

events_of-one : (x : ConfirmedSignatureInfo) → reverse (events_of (x ∷ [])) ≡ events_of (x ∷ [])
unfolding events_of
events_of-one x = elim (Bool-cases x.has_err) [ inl out ↦ rw out refl | inr kept ↦ rw kept refl ]

pub events_of-reverse :
    (xs : List ConfirmedSignatureInfo) → events_of (reverse xs) ≡ reverse (events_of xs)
unfolding events_of
events_of-reverse [] = refl
events_of-reverse (x ∷ xs) =
    ap events_of (reverse-cons x xs)
    ∙ events_of-append (reverse xs) (x ∷ [])
    ∙ ap (λ l. l ++ events_of (x ∷ [])) (events_of-reverse xs)
    ∙ ap (λ l. reverse (events_of xs) ++ l) (sym (events_of-one x))
    ∙ sym (reverse-append (events_of (x ∷ [])) (events_of xs))
    ∙ ap reverse (sym (events_of-append (x ∷ []) xs))

module _ (services : Services) (working : Working services) where
  -- The events that are stored.
  abbrev pub indexed : Scanner services → List TransactionEvent
  indexed s = events (working.docs s.outside)

  pub indexed-insert :
      (sigs : List ConfirmedSignatureInfo) (s : Scanner services)
      → indexed (insert_batch_transaction_event services sigs s) ≡ indexed s ++ events_of sigs
  unfolding insert_batch_transaction_event
  indexed-insert sigs s =
      ap events (working.insert_many_lem (events_of sigs) s.outside)
      ∙ map-append (λ d. d.event) (working.docs s.outside) _
      ∙ ap (λ l. indexed s ++ l) (events-number (next_oid (working.docs s.outside)) _)
