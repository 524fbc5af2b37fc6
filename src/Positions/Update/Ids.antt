-- ===== src/Positions/Update/Ids.antt =====
-- The ids of shares and bins tell indices apart.
use saros_dlmm_indexer.Base.{ℕ, ◌≡◌}
use saros_dlmm_indexer.Text.{Text}
use saros_dlmm_indexer.Text.Decimal.{nat_to_text, nat_to_text-injective}
use saros_dlmm_indexer.Text.Join.{join-cancel}
use saros_dlmm_indexer.Positions.Update.{share_id, bin_id}

pub share_id-injective : (p : Text) (i j : ℕ) → share_id p i ≡ share_id p j → i ≡ j
unfolding share_id
share_id-injective p i j e =
    nat_to_text-injective i j (join-cancel p (nat_to_text i) (nat_to_text j) e)

pub bin_id-injective : (p : Text) (i j : ℕ) → bin_id p i ≡ bin_id p j → i ≡ j
unfolding bin_id
bin_id-injective p i j e =
    nat_to_text-injective i j (join-cancel p (nat_to_text i) (nat_to_text j) e)
