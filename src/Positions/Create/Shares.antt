-- ===== src/Positions/Create/Shares.antt =====
-- The 64 shares of a new position.
use saros_dlmm_indexer.Base.{⊤, ℕ, ◌≡◌, ap, Bool, if◌then◌else◌}
use saros_dlmm_indexer.Text.{Text}
use saros_dlmm_indexer.Store.Batch.{FreshFrom, Added, insert_many-docs_from}
use saros_dlmm_indexer.Store.World.{Db, World, Result, ok, err, duplicate_key}
use saros_dlmm_indexer.Positions.Update.Ids.{share_id-injective}
use saros_dlmm_indexer.Positions.Create.{new_share, shares_from, insert_shares}

module _ (db : Db) where
  -- No share of the position from an index on is stored.
  abbrev pub SharesFresh : Text → ℕ → ℕ → db.shares.State → Type 0
  SharesFresh p i n s = FreshFrom db.shares (new_share p) i n s

  -- These shares are stored, with balance 0, and all others are as before.
  abbrev pub SharesAdded : Text → ℕ → ℕ → db.shares.State → db.shares.State → Type 0
  SharesAdded p i n s s' = Added db.shares (new_share p) i n s s'

  -- Creating the shares of a position of which none is stored succeeds.
  pub insert_shares-shares_from :
      (p : Text) (i n : ℕ) (w : World db)
      → SharesFresh p i n w.shares
      → (s : db.shares.State) × (insert_shares (shares_from p i n) w
          ≡ (ok tt, record w { shares = s }))
        × SharesAdded p i n w.shares s
  unfolding insert_shares
  insert_shares-shares_from p i n w fresh =
      let (s, runs, more) =
        insert_many-docs_from db.shares (new_share p) (λ i j e. share_id-injective p i j e) i n
          w.shares fresh in
      (s, ap finish runs, more)
    where
      finish : Bool × db.shares.State → Result ⊤ × World db
      finish r = (if r.0 then ok tt else err duplicate_key, record w { shares = r.1 })
