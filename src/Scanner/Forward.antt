-- ===== src/Scanner/Forward.antt =====
-- `scanForwards`: the signatures newer than the newest stored one, at most a page of them.

pub mod Newest
use mathlib.Core.List.{reverse}
use saros_dlmm_indexer.Base.{ℕ, Option, none, some, List, [], ◌∷◌}
use saros_dlmm_indexer.Text.{Text}
use saros_dlmm_indexer.Store.World.{Result, ok, err}
use saros_dlmm_indexer.Scanner.{ConfirmedSignatureInfo, SignaturesOptions, Node, Services, Scanner}
use saros_dlmm_indexer.Scanner.Insert.{insert_batch_transaction_event, get_newest_transaction_local}

-- `SCAN_LIMITS.FORWARD`
abbrev pub forward_limit : ℕ
forward_limit = 1000

abbrev pub page_until : Text → SignaturesOptions
page_until s = record { limit = forward_limit; before = none; until = some s }

module _ (services : Services) where
  unfoldable pub insert_page :
      Result (List ConfirmedSignatureInfo) → Scanner services → Scanner services
  insert_page (err x) s = s
  insert_page (ok []) s = s
  insert_page (ok (sig ∷ sigs)) s = insert_batch_transaction_event services (reverse (sig ∷ sigs)) s

  unfoldable pub scan_from : Node → Scanner services → Result (Option Text) → Scanner services
  unfolding insert_page
  scan_from get_signatures s (err x) = s
  scan_from get_signatures s (ok none) = s
  scan_from get_signatures s (ok (some newest)) = insert_page (get_signatures (page_until newest)) s

  unfoldable pub scan_forwards : Node → Scanner services → Scanner services
  scan_forwards get_signatures s =
      scan_from get_signatures s (get_newest_transaction_local services s)
