-- ===== src/Scanner/Backward/Complete.antt =====
-- The backward scan gets to the first signature, and stores every signature on its way.
use mathlib.Core.List.{append-nil, reverse, reverse_perm, Perm}
use mathlib.Core.List.Perm
use saros_dlmm_indexer.Base.{
  suc, ◌≡◌, refl, sym, subst, true, false, Option, some, List, ◌++◌, length, append_assoc,
}
use saros_dlmm_indexer.Text.{Text}
use saros_dlmm_indexer.Store.World.{ok}
use saros_dlmm_indexer.Scanner.{ConfirmedSignatureInfo, Node, Services, Scanner}
use saros_dlmm_indexer.Scanner.Insert.{
  events_of, insert_batch_transaction_event, get_oldest_transaction_local,
}
use saros_dlmm_indexer.Scanner.Model.{Working, Behind, Rounds}
use saros_dlmm_indexer.Scanner.Backward.{set_complete, run_backward_scan}
use saros_dlmm_indexer.Scanner.Insert.Indexed.{
  events_of-append, events_of-reverse, indexed, indexed-insert,
}
use saros_dlmm_indexer.Scanner.Backward.Rounds.{run_backward_scan-Ends}

module _ (services : Services) (working : Working services) where
  -- What is stored after the signatures of `older` have been read.
  abbrev Adds : Scanner services → List ConfirmedSignatureInfo → Scanner services → Type 0
  Adds s older s' =
      Perm (indexed services working s') (indexed services working s ++ events_of older)

  page-Adds :
      (page later : List ConfirmedSignatureInfo) (s s' : Scanner services)
      → Adds (insert_batch_transaction_event services (reverse page) s) later s'
      → Adds s (page ++ later) s'
  page-Adds page later s s' perm =
      let stored = indexed services working s in
      Perm.trans perm (
        rw
          (
            indexed-insert services working (reverse page) s,
            events_of-reverse page,
            events_of-append page later,
            append_assoc stored (reverse (events_of page)) (events_of later),
          )
          (Perm.append_left stored
            (Perm.append_right (events_of later) (reverse_perm (events_of page)))))

  -- Where the collection accepts what is written, and `older` is the part of the program's history
  -- that stands behind the oldest stored event, or all of it where none is stored, a backward scan
  -- that is not complete completes: it is enough that one more call of the node is served than
  -- `older` has signatures, whichever calls fail in between. What is stored then is, up to its
  -- order, what was stored before with an event for each signature of `older` that did not fail.
  pub run_backward_scan_completes :
      (history older : List ConfirmedSignatureInfo) (nodes : List Node) (s : Scanner services)
      (before : Option Text)
      → get_oldest_transaction_local services s ≡ ok before
      → Behind history before older
      → s.is_backward_scan_complete ≡ false
      → Rounds history (suc (length older)) nodes
      → (s' : Scanner services) × (run_backward_scan services nodes s ≡ some (ok tt, s'))
        × (s'.is_backward_scan_complete ≡ true)
        × Perm (indexed services working s') (indexed services working s ++ events_of older)
  unfolding events_of
  run_backward_scan_completes history older nodes s before o b h r =
      let nothing_added = λ (t : Scanner services).
        subst (Perm (indexed services working t)) (sym (append-nil (indexed services working t)))
          (Perm.refl (indexed services working t)) in
      let (s', e, perm) =
        run_backward_scan-Ends services Adds nothing_added page-Adds history older nodes s before o
          b h r in
      (set_complete services s', e, refl, perm)
