-- ===== src/Positions/Create/Refused.antt =====
-- An instruction of a position whose mint another position has already.
use saros_dlmm_indexer.Base.{◌≡◌, true}
use saros_dlmm_indexer.Text.{Text}
use saros_dlmm_indexer.Schemas.{clashes}
use saros_dlmm_indexer.Store.World.{Db, World}

module _ {db : Db} where
  -- Another position has the mint.
  abbrev pub MintTaken : Text → Text → World db → Type 0
  MintTaken id mint w = db.positions.exists_where (clashes id mint) w.positions ≡ true
