-- ===== src/Pairs/Create/Created.antt =====
-- What an initialization of a pair leaves.
use saros_dlmm_indexer.Base.{some, if◌then◌else◌}
use saros_dlmm_indexer.Text.{Text, eq_text}
use saros_dlmm_indexer.Schemas.{TokenMint}
use saros_dlmm_indexer.Store.World.{Db, World}
use saros_dlmm_indexer.Pairs.Create.Mints.{Chain, TokenInfo}
use saros_dlmm_indexer.Pairs.Create.Mints.Handled.{mint_for}
use saros_dlmm_indexer.Pairs.Create.{InitializePairDecoded}

module _ {db : Db} (chain : Chain) (d : InitializePairDecoded) where
  -- The mints of both sides, the second read after the first was stored.
  abbrev pub mint_x : TokenInfo → World db → TokenMint
  mint_x info w =
      mint_for chain d.token_mint_x info (db.token_mints.find_one d.token_mint_x w.token_mints)

  abbrev pub mint_y : TokenInfo → TokenInfo → World db → TokenMint
  mint_y info_x info_y w = mint_for chain d.token_mint_y info_y (
      if eq_text d.token_mint_x d.token_mint_y
      then some (mint_x info_x w)
      else db.token_mints.find_one d.token_mint_y w.token_mints)
