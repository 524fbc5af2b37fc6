-- ===== src/Pairs/Create/Mints.antt =====
-- The token mints of a pair in initialize-pair.processor.ts (`handleTokenMint` and what it calls). The
-- RPC call for the account of a mint and the lookups of its metadata are parameters.

pub mod Handled
use saros_dlmm_indexer.Base.{ℕ, Option, none, some, List, [], ◌∷◌, ◌++◌, take, ◌==◌, if◌then◌else◌}
use saros_dlmm_indexer.Text.{Text, codes}
use saros_dlmm_indexer.Schemas.{TokenMint}
use saros_dlmm_indexer.Store.World.{
  Db, World, Action, Error, Result, ok, err, duplicate_key, rpc_failed,
}

-- The data of a mint's account: parsed by the node, or not.
pub data MintData : Type 0 where
  parsed : Option Text → Option ℕ → MintData
  raw : MintData

pub record TokenInfo : Type 0 where
  pub supply : Option Text
  pub decimals : Option ℕ

pub record TokenMetadata : Type 0 where
  pub name : Option Text
  pub symbol : Option Text

-- `a || b` on strings
abbrev pub or_text : Option Text → Text → Text
or_text none d = d
or_text (some []) d = d
or_text (some (c ∷ cs)) d = c ∷ cs

abbrev or_zero : Option ℕ → ℕ
or_zero none = 0
or_zero (some n) = n

-- `replace(/\0/g, '')`
unfoldable pub drop_nulls : Text → Text
drop_nulls [] = []
drop_nulls (c ∷ cs) = if c == 0 then drop_nulls cs else c ∷ drop_nulls cs

-- `fetchTokenInfo`; an error is an object with a message.
unfoldable pub fetch_token_info : Result (Option MintData) → Result TokenInfo
fetch_token_info (err x) = err rpc_failed
fetch_token_info (ok none) = err rpc_failed
fetch_token_info (ok (some (parsed supply decimals))) =
    ok (record { supply = supply; decimals = decimals })
fetch_token_info (ok (some raw)) = ok (record { supply = none; decimals = none })

abbrev pub with_names : Text → TokenMetadata → TokenMetadata
with_names id m = record {
  name = some (or_text m.name (codes "Token " ++ take 8 id));
  symbol = some (or_text m.symbol (codes "TK" ++ take 4 id));
}

-- `fetchTokenMetadataFallback`, and what stands for its result where it throws.
unfoldable pub fetch_token_metadata_fallback : Text → Result (Option TokenMetadata) → TokenMetadata
fetch_token_metadata_fallback id (err x) = record {
  name = some (codes "Unknown");
  symbol = some (codes "UNKNOWN");
}
fetch_token_metadata_fallback id (ok none) = with_names id (record { name = none; symbol = none })
fetch_token_metadata_fallback id (ok (some m)) = with_names id m

unfoldable pub fetch_token_metadata :
    Text → Result TokenMetadata → Result (Option TokenMetadata) → TokenMetadata
unfolding fetch_token_metadata_fallback
fetch_token_metadata id (ok m) account = with_names id m
fetch_token_metadata id (err x) account = fetch_token_metadata_fallback id account

-- `tokenMintData`
unfoldable pub new_token_mint : Text → TokenInfo → TokenMetadata → TokenMint
unfolding drop_nulls
new_token_mint id info m = record {
  id = id;
  supply = or_text info.supply (codes "0");
  decimals = or_zero info.decimals;
  name = drop_nulls (or_text m.name (codes "Unknown"));
  symbol = drop_nulls (or_text m.symbol (codes "UNKNOWN"));
}

-- The node's account of a mint, Metaplex' metadata of it, and the names read from its metadata account.
pub record Chain : Type 0 where
  pub get_parsed_account_info : Text → Result (Option MintData)
  pub find_by_mint : Text → Result TokenMetadata
  pub get_metadata_account : Text → Result (Option TokenMetadata)

module _ {db : Db} where
  unfoldable pub add_token_mint :
      TokenMint → World db → Option (db.token_mints.State) → Result TokenMint × World db
  add_token_mint mint w none = (err duplicate_key, w)
  add_token_mint mint w (some s) = (ok mint, record w { token_mints = s })

  unfoldable pub insert_with_info : Chain → Text → Result TokenInfo → Action db TokenMint
  unfolding add_token_mint
  insert_with_info chain id (err x) w = (err x, w)
  insert_with_info chain id (ok info) w =
      let mint =
        new_token_mint id info
          (fetch_token_metadata id (chain.find_by_mint id) (chain.get_metadata_account id)) in
      add_token_mint mint w (db.token_mints.create mint w.token_mints)

  unfoldable pub insert_new_token_mint : Chain → Text → Action db TokenMint
  unfolding insert_with_info
  insert_new_token_mint chain id =
      insert_with_info chain id (fetch_token_info (chain.get_parsed_account_info id))

  unfoldable pub mint_or_insert : Chain → Text → Option TokenMint → Action db TokenMint
  unfolding insert_new_token_mint
  mint_or_insert chain id (some existing) w = (ok existing, w)
  mint_or_insert chain id none w = insert_new_token_mint chain id w

  unfoldable pub handle_token_mint : Chain → Text → Action db TokenMint
  unfolding mint_or_insert
  handle_token_mint chain id w =
      mint_or_insert chain id (db.token_mints.find_one id w.token_mints) w
