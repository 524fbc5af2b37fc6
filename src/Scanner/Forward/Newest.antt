-- ===== src/Scanner/Forward/Newest.antt =====
-- A forward scan stores one page of what is new, and the newest signature is found from then on.

use mathlib.Core.List.{reverse, reverse-cons}
use saros_dlmm_indexer.Base.{
  ℕ, zero, suc, ◌+◌, ◌≤◌, ◌<◌, ◌≡◌, ◌∙◌, refl, sym, ap, subst, false, some, List, [], ◌∷◌, ◌++◌,
  length, take, append_assoc, All, All-append, arith, Bool-cases, inl, inr, if◌then◌else◌,
}
use saros_dlmm_indexer.Text.{Text}
use saros_dlmm_indexer.Schemas.{TransactionEvent}
use saros_dlmm_indexer.Store.World.{ok}
use saros_dlmm_indexer.Scanner.{
  ConfirmedSignatureInfo, Node, Stored, Services, Scanner, newest_first, oldest_first,
}
use saros_dlmm_indexer.Scanner.Order.{sort, first, first-sort}
use saros_dlmm_indexer.Scanner.Insert.{
  new_transaction_event, events_of, insert_batch_transaction_event, get_newest_transaction_local,
  signature_of,
}
use saros_dlmm_indexer.Scanner.Insert.Indexed.{events_of-append, indexed, indexed-insert}
use saros_dlmm_indexer.Scanner.Model.{Working, number, next_oid, Serves}
use saros_dlmm_indexer.Scanner.Forward.{page_until, insert_page, scan_from, scan_forwards}

number-append :
    (n : ℕ) (xs : List TransactionEvent) (e : TransactionEvent)
    → number n (xs ++ (e ∷ [])) ≡ number n xs ++ (record { oid = n + length xs; event = e } ∷ [])
unfolding number
number-append n [] e = let same : n ≡ n + 0 = omega arith in rw (← same) refl
number-append n (x ∷ xs) e =
    let same : suc n + length xs ≡ n + suc (length xs) = omega arith in
    rw (← same) (ap (◌∷◌ (record { oid = n; event = x })) (number-append (suc n) xs e))

-- What a later document with at least the block of all others is compared to.
abbrev IsBelow : ℕ → ℕ → Stored → Type 0
IsBelow n block d = (d.oid < n) × (d.event.block_number ≤ block)

IsBelow-widen :
    (m n block : ℕ) (ds : List Stored) → m ≤ n → All (IsBelow m block) ds → All (IsBelow n block) ds
IsBelow-widen m n block [] le h = tt
IsBelow-widen m n block (d ∷ ds) le ((lt, b), h) =
    ((omega (arith, lt, le), b), IsBelow-widen m n block ds le h)

next_oid-grows :
    (d : Stored) (ds : List Stored)
    → (d.oid < next_oid (d ∷ ds)) × (next_oid ds ≤ next_oid (d ∷ ds))
unfolding next_oid
next_oid-grows d ds = (ground arith, ground arith)

next_oid-IsBelow :
    (block : ℕ) (ds : List Stored)
    → All (λ d. d.event.block_number ≤ block) ds
    → All (IsBelow (next_oid ds) block) ds
next_oid-IsBelow block [] h = tt
next_oid-IsBelow block (d ∷ ds) (b, h) =
    let (above, grows) = next_oid-grows d ds in
    (
      (above, b),
      IsBelow-widen (next_oid ds) (next_oid (d ∷ ds)) block ds grows (next_oid-IsBelow block ds h),
    )

number-IsBelow :
    (n block : ℕ) (es : List TransactionEvent)
    → All (λ e. e.block_number ≤ block) es
    → All (IsBelow (n + length es) block) (number n es)
unfolding number
number-IsBelow n block [] h = tt
number-IsBelow n block (e ∷ es) (b, h) = (
  (omega arith, b),
  IsBelow-widen (suc n + length es) (n + suc (length es)) block (number (suc n) es) (omega arith)
      (number-IsBelow (suc n) block es h),
)

below_last :
    (n : ℕ) (e : TransactionEvent) (ds : List Stored)
    → All (IsBelow n e.block_number) ds
    → All (λ d. newest_first d (record { oid = n; event = e }) ≡ false) ds
unfolding newest_first oldest_first
below_last n e [] h = tt
below_last n e (d ∷ ds) ((lt, b), h) = (ground (arith, lt, b), below_last n e ds h)

events_of-All :
    (block : ℕ) (sigs : List ConfirmedSignatureInfo)
    → All (λ g. g.slot ≤ block) sigs
    → All (λ e. e.block_number ≤ block) (events_of sigs)
unfolding events_of new_transaction_event
events_of-All block [] h = tt
events_of-All block (g ∷ sigs) (b, h) = elim (Bool-cases g.has_err) [
  | inl out ↦ rw out (events_of-All block sigs h)
  | inr kept ↦ rw kept (b, events_of-All block sigs h)
]

All-take : {A : Type 0} (P : A → Type 0) (n : ℕ) (xs : List A) → All P xs → All P (take n xs)
All-take P zero xs h = tt
All-take P (suc n) [] h = tt
All-take P (suc n) (x ∷ xs) (p, h) = (p, All-take P n xs h)

All-reverse : {A : Type 0} (P : A → Type 0) (xs : List A) → All P xs → All P (reverse xs)
All-reverse P [] h = tt
All-reverse P (x ∷ xs) (p, h) =
    rw (reverse-cons x xs) (All-append P (reverse xs) (x ∷ []) (All-reverse P xs h) (p, tt))

module _ (services : Services) (working : Working services) where
  newest-insert :
      (g : ConfirmedSignatureInfo) (page : List ConfirmedSignatureInfo) (s : Scanner services)
      → g.has_err ≡ false
      → All (λ d. d.event.block_number ≤ g.slot) (working.docs s.outside)
      → All (λ h. h.slot ≤ g.slot) page
      → get_newest_transaction_local services
          (insert_batch_transaction_event services (reverse (g ∷ page)) s)
        ≡ ok (some g.signature)
  unfolding get_newest_transaction_local insert_batch_transaction_event new_transaction_event
      events_of first
  newest-insert g page s good old new =
      let ds = working.docs s.outside in
      let k = next_oid ds in
      let es = events_of (reverse page) in
      let e = new_transaction_event g in
      let z : Stored = record { oid = k + length es; event = e } in
      let batch : events_of (reverse (g ∷ page)) ≡ es ++ (e ∷ []) =
        ap events_of (reverse-cons g page)
        ∙ events_of-append (reverse page) (g ∷ [])
        ∙ ap (λ b. es ++ (if b then [] else e ∷ [])) good in
      let docs : working.docs (services.insert_many (events_of (reverse (g ∷ page))) s.outside).1
          ≡ (ds ++ number k es) ++ (z ∷ []) =
        working.insert_many_lem _ s.outside
        ∙ ap (λ l. ds ++ number k l) batch
        ∙ ap (λ l. ds ++ l) (number-append k es e)
        ∙ sym (append_assoc ds (number k es) (z ∷ [])) in
      let below =
        All-append (IsBelow (k + length es) g.slot) ds (number k es)
          (IsBelow-widen k (k + length es) g.slot ds (omega arith) (next_oid-IsBelow g.slot ds old))
          (number-IsBelow k g.slot es
            (events_of-All g.slot (reverse page) (All-reverse _ page new))) in
      let (rest, sorted) =
        first-sort newest_first (ds ++ number k es) z (below_last (k + length es) e _ below) in
      ap signature_of (
        working.find_one_lem newest_first _
        ∙ ap (λ l. ok (first (sort newest_first l))) docs
        ∙ ap (λ l. ok (first l)) sorted)

  scan-page :
      (node : Node) (newest : Text) (page : List ConfirmedSignatureInfo) (s : Scanner services)
      → get_newest_transaction_local services s ≡ ok (some newest)
      → node (page_until newest) ≡ ok page
      → scan_forwards services node s ≡ insert_page services (ok page) s
  unfolding scan_forwards scan_from
  scan-page node newest page s h k =
      ap (scan_from services node s) h ∙ ap (λ p. insert_page services p s) k

  -- Let the newest stored event be that of `sig`, and `g`, which did not fail, the newest signature of
  -- the program, of a slot that is at least that of everything stored and new. Then a forward scan
  -- whose call is served stores, oldest first, the signatures that did not fail of the newest 1000
  -- after `sig`; its newest event is that of `g`; and no further scan on the same history changes
  -- anything, although what is new beyond 1000 has not been stored.
  pub scan_forwards_page :
      (newer older : List ConfirmedSignatureInfo) (g sig : ConfirmedSignatureInfo)
      (node again : Node) (s : Scanner services)
      → Serves ((g ∷ newer) ++ (sig ∷ older)) node
      → Serves ((g ∷ newer) ++ (sig ∷ older)) again
      → get_newest_transaction_local services s ≡ ok (some sig.signature)
      → g.has_err ≡ false
      → All (λ d. d.event.block_number ≤ g.slot) (working.docs s.outside)
      → All (λ h. h.slot ≤ g.slot) newer
      → let s' = scan_forwards services node s in
        (indexed services working s'
          ≡ indexed services working s ++ events_of (reverse (take 1000 (g ∷ newer))))
        × (get_newest_transaction_local services s' ≡ ok (some g.signature))
        × (scan_forwards services again s' ≡ s')
  unfolding insert_page
  scan_forwards_page newer older g sig node again s serves later newest good old new =
      let page = take 999 newer in
      let s' = insert_batch_transaction_event services (reverse (g ∷ page)) s in
      let scanned : scan_forwards services node s ≡ s' =
        scan-page node sig.signature (g ∷ page) s newest
          (serves.until_page 1000 (g ∷ newer) older sig refl) in
      let found = newest-insert g page s good old (All-take _ 999 newer new) in
      let idle : scan_forwards services again s' ≡ s' =
        scan-page again g.signature [] s' found
          (later.until_page 1000 [] (newer ++ (sig ∷ older)) g refl) in
      subst
        (λ t.
          (indexed services working t
            ≡ indexed services working s ++ events_of (reverse (take 1000 (g ∷ newer))))
          × (get_newest_transaction_local services t ≡ ok (some g.signature))
          × (scan_forwards services again t ≡ t))
        (sym scanned) (indexed-insert services working (reverse (g ∷ page)) s, found, idle)
