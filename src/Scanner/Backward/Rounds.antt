-- ===== src/Scanner/Backward/Rounds.antt =====
-- The loop of the backward scan, by what each of its rounds keeps.
use mathlib.Core.List.{reverse, reverse-append}
use mathlib.Core.Option
use saros_dlmm_indexer.Base.{
  suc, ◌≡◌, ◌∙◌, refl, sym, ap, subst, true, false, Option, none, some, List, [], ◌∷◌, ◌++◌, length,
  take, drop, take-drop, append_assoc, drop_le, arith, if◌then◌else◌,
}
use saros_dlmm_indexer.Text.{Text}
use saros_dlmm_indexer.Store.World.{ok}
use saros_dlmm_indexer.Scanner.{ConfirmedSignatureInfo, Node, Services, Scanner}
use saros_dlmm_indexer.Scanner.Insert.{insert_batch_transaction_event, get_oldest_transaction_local}
use saros_dlmm_indexer.Scanner.Model.{Behind, IsDown, Rounds, served, failed, fewer}
use saros_dlmm_indexer.Rpc.Creator.Pages.{split_last}
use saros_dlmm_indexer.Scanner.Backward.{
  cursor_of, page_before, set_complete, after_answer, backward_round, backward_loop, backward_from,
  run_backward_scan,
}

page-Behind :
    (history : List ConfirmedSignatureInfo) (before : Option Text)
    (older init later : List ConfirmedSignatureInfo) (l : ConfirmedSignatureInfo)
    → Behind history before older
    → older ≡ (init ++ (l ∷ [])) ++ later
    → Behind history (some l.signature) later
page-Behind history none older init later l b e =
    (init, l, b ∙ e ∙ append_assoc init (l ∷ []) later, refl)
page-Behind history (some c) older init later l (newer, sig, b, _) e = (
  newer ++ (sig ∷ init),
  l,
  b
      ∙ ap (λ o. newer ++ (sig ∷ o)) (e ∙ append_assoc init (l ∷ []) later)
      ∙ sym (append_assoc newer (sig ∷ init) (l ∷ later)),
  refl,
)

module _ (services : Services) where
  pub loop_done :
      (nodes : List Node) (before : Option Text) (s : Scanner services)
      → s.is_backward_scan_complete ≡ true
      → backward_loop services nodes before s ≡ some s
  unfolding backward_loop
  loop_done [] before s h = rw h refl
  loop_done (node ∷ nodes) before s h = rw h refl

  loop_next :
      (node : Node) (nodes : List Node) (before next : Option Text) (s s' : Scanner services)
      → s.is_backward_scan_complete ≡ false
      → backward_round services node before s ≡ (next, s')
      → backward_loop services (node ∷ nodes) before s ≡ backward_loop services nodes next s'
  unfolding backward_loop
  loop_next node nodes before next s s' h e =
      let r = backward_round services node before s in
      ap (λ b. if b then some s else backward_loop services nodes r.0 r.1) h
      ∙ ap (λ r. backward_loop services nodes r.0 r.1) e

  round_end :
      (node : Node) (before : Option Text) (s : Scanner services)
      → node (page_before before) ≡ ok []
      → backward_round services node before s ≡ (before, set_complete services s)
  unfolding backward_round after_answer
  round_end node before s h = ap (after_answer services before s) h

  round_down :
      (node : Node) (before : Option Text) (s : Scanner services)
      → IsDown node
      → backward_round services node before s ≡ (before, s)
  unfolding backward_round after_answer
  round_down node before s down = ap (after_answer services before s) (down (page_before before))

  -- A page moves the cursor to its last signature, the oldest.
  round_page :
      (node : Node) (before : Option Text) (s : Scanner services) (x : ConfirmedSignatureInfo)
      (xs init : List ConfirmedSignatureInfo) (l : ConfirmedSignatureInfo)
      → node (page_before before) ≡ ok (x ∷ xs)
      → x ∷ xs ≡ init ++ (l ∷ [])
      → backward_round services node before s
        ≡ (some l.signature, insert_batch_transaction_event services (reverse (x ∷ xs)) s)
  unfolding backward_round after_answer cursor_of
  round_page node before s x xs init l h e =
      let oldest : cursor_of (reverse (x ∷ xs)) ≡ some l.signature =
        ap (λ p. cursor_of (reverse p)) e ∙ ap cursor_of (reverse-append init (l ∷ [])) in
      ap (after_answer services before s) h
      ∙ ap (λ c. (c, insert_batch_transaction_event services (reverse (x ∷ xs)) s)) oldest

-- `Reaches s older s'`: reading the signatures of `older` leads from `s` to `s'`.
module _ (services : Services)
    (Reaches : Scanner services → List ConfirmedSignatureInfo → Scanner services → Type 0)
    (ends : (s : Scanner services) → Reaches s [] (set_complete services s))
    (turn : (page later : List ConfirmedSignatureInfo) (s s' : Scanner services)
      → Reaches (insert_batch_transaction_event services (reverse page) s) later s'
      → Reaches s (page ++ later) s') where
  abbrev pub Ends :
      Option (Scanner services) → Scanner services → List ConfirmedSignatureInfo → Type 0
  Ends r s older =
      (s' : Scanner services) × (r ≡ some s')
      × (s'.is_backward_scan_complete ≡ true)
      × Reaches s older s'

  pub backward_loop-Ends :
      (history : List ConfirmedSignatureInfo) (nodes : List Node) (before : Option Text)
      (older : List ConfirmedSignatureInfo) (s : Scanner services)
      → Behind history before older
      → s.is_backward_scan_complete ≡ false
      → Rounds history (suc (length older)) nodes
      → Ends (backward_loop services nodes before s) s older
  unfolding insert_batch_transaction_event
  backward_loop-Ends history [] before older s b h r = elim r [ ]
  backward_loop-Ends history (node ∷ nodes) before older s b h (failed down r) =
      subst (λ e. Ends e s older)
        (sym (
          loop_next services node nodes before before s s h
            (round_down services node before s down)))
        (backward_loop-Ends history nodes before older s b h r)
  backward_loop-Ends history (node ∷ nodes) before [] s b h (served serves r) =
      let s' = set_complete services s in
      let page = serves.before_page 1000 before [] b in
      (
        s',
        loop_next services node nodes before before s s' h (round_end services node before s page)
            ∙ loop_done services nodes before s' refl,
        refl,
        ends s,
      )
  backward_loop-Ends history (node ∷ nodes) before (x ∷ xs) s b h (served serves r) =
      let later = drop 999 xs in
      let page = x ∷ take 999 xs in
      let s' = insert_batch_transaction_event services (reverse page) s in
      let whole : page ++ later ≡ x ∷ xs = take-drop 1000 (x ∷ xs) in
      let (init, l, split, _) = split_last x (take 999 xs) in
      let behind =
        page-Behind history before (x ∷ xs) init later l b
          (sym whole ∙ ap (λ p. p ++ later) split) in
      let next = loop_next services node nodes before (some l.signature) s s' h (
        round_page services node before s x (take 999 xs) init l
          (serves.before_page 1000 before (x ∷ xs) b) split) in
      let (s2, e, done, reached) =
        backward_loop-Ends history nodes (some l.signature) later s' behind h
          (fewer (suc (length later)) (omega (arith, drop_le 999 xs)) r) in
      (s2, next ∙ e, done, subst (λ o. Reaches s o s2) whole (turn page later s s2 reached))

  pub run_backward_scan-Ends :
      (history older : List ConfirmedSignatureInfo) (nodes : List Node) (s : Scanner services)
      (before : Option Text)
      → get_oldest_transaction_local services s ≡ ok before
      → Behind history before older
      → s.is_backward_scan_complete ≡ false
      → Rounds history (suc (length older)) nodes
      → (s' : Scanner services) × (run_backward_scan services nodes s
          ≡ some (ok tt, set_complete services s'))
        × Reaches s older s'
  unfolding run_backward_scan backward_from
  run_backward_scan-Ends history older nodes s before o b h r =
      let (s', e, _, reached) = backward_loop-Ends history nodes before older s b h r in
      (
        s',
        ap (λ c. backward_from services nodes c s) o
            ∙ ap (Option.map (λ (t : Scanner services). (ok tt, set_complete services t))) e,
        reached,
      )
