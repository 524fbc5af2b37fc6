-- ===== src/Pairs/QuoteAssets.antt =====
-- quote-asset.processor.ts: quote assets are stored on one event, and switched on and off on another.
pub mod Status
use saros_dlmm_indexer.Base.{
  ⊤, ℕ, Bool, true, false, Option, none, some, List, [], ◌∷◌, if◌then◌else◌,
}
use saros_dlmm_indexer.Text.{Text, codes, eq_text}
use saros_dlmm_indexer.Schemas.{
  QuoteAsset, QuoteAssetStatus, enabled, disabled, other, ParsedInstructionMessage,
}
use saros_dlmm_indexer.Store.World.{
  Db, World, Action, Result, ok, err, ◌>>=◌, ◌>>◌, pure, throw, gets, modify, duplicate_key,
  decode_failed, range_error, no_quote_asset,
}
use saros_dlmm_indexer.Library.{event_identifier, split_at, decode_type}
use saros_dlmm_indexer.Instruction.{
  quote_asset, Check, already_processed, inserted, check_and_insert_instruction,
}

abbrev quote_asset_init_event_discriminator : List ℕ
quote_asset_init_event_discriminator = 202 ∷ 110 ∷ 93 ∷ 186 ∷ 165 ∷ 96 ∷ 200 ∷ 27 ∷ []

abbrev quote_asset_update_event_discriminator : List ℕ
quote_asset_update_event_discriminator = 102 ∷ 149 ∷ 171 ∷ 236 ∷ 123 ∷ 73 ∷ 205 ∷ 194 ∷ []

-- What the coder may give for an enum: the Borsh coder gives an object with the variant as its key.
pub data EnumValue : Type 0 where
  enum_string : Text → EnumValue
  enum_object : Text → EnumValue

pub record QuoteAssetBadgeInitializationEvent : Type 0 where
  pub quote_asset_badge : Text
  pub token_mint : Text

pub record QuoteAssetBadgeUpdateEvent : Type 0 where
  pub quote_asset_badge : Text
  pub status : EnumValue

-- `status === QuoteAssetBadgeStatus.Disabled`: an object is never identical to a string.
is_disabled : EnumValue → Bool
is_disabled (enum_string t) = eq_text t (codes "DISABLED")
is_disabled (enum_object key) = false

unfoldable pub status_value : EnumValue → QuoteAssetStatus
unfolding is_disabled
status_value v = if is_disabled v then disabled else enabled

abbrev pub new_quote_asset : QuoteAssetBadgeInitializationEvent → QuoteAsset
new_quote_asset e = record {
  id = e.quote_asset_badge;
  token_mint_id = e.token_mint;
  status = enabled;
  asset_type = other;
}

module _ {db : Db} where
  add_quote_asset : World db → Option (db.quote_assets.State) → Result ⊤ × World db
  add_quote_asset w none = (err duplicate_key, w)
  add_quote_asset w (some s) = (ok tt, record w { quote_assets = s })

  create_quote_asset : QuoteAssetBadgeInitializationEvent → Bool → Action db ⊤
  unfolding add_quote_asset
  create_quote_asset e true w = (ok tt, w)
  create_quote_asset e false w =
      add_quote_asset w (db.quote_assets.create (new_quote_asset e) w.quote_assets)

  pub init_checked : QuoteAssetBadgeInitializationEvent → Check → Action db ⊤
  unfolding create_quote_asset
  init_checked e already_processed = pure tt
  init_checked e (inserted i) = do
    existing ←
        gets
          (λ w. db.quote_assets.exists_where (λ q. eq_text q.id e.quote_asset_badge) w.quote_assets)
    create_quote_asset e existing

  pub process_init_event :
      ParsedInstructionMessage → QuoteAssetBadgeInitializationEvent → Action db ⊤
  unfolding init_checked
  process_init_event m e = do
    check ← check_and_insert_instruction m quote_asset
    init_checked e check

  update_quote_asset : QuoteAssetBadgeUpdateEvent → Bool → Action db ⊤
  update_quote_asset e false = throw no_quote_asset
  update_quote_asset e true = modify (λ w. record w {
    quote_assets =
        db.quote_assets.update_one e.quote_asset_badge
          (λ q. record q { status = status_value e.status }) w.quote_assets;
  })

  pub update_checked : QuoteAssetBadgeUpdateEvent → Check → Action db ⊤
  unfolding update_quote_asset
  update_checked e already_processed = pure tt
  update_checked e (inserted i) = do
    existing ←
        gets
          (λ w. db.quote_assets.exists_where (λ q. eq_text q.id e.quote_asset_badge) w.quote_assets)
    update_quote_asset e existing

  pub process_update_event : ParsedInstructionMessage → QuoteAssetBadgeUpdateEvent → Action db ⊤
  unfolding update_checked
  process_update_event m e = do
    check ← check_and_insert_instruction m quote_asset
    update_checked e check

  module _ (bs58_decode : Text → Option (List ℕ))
      (init_coder : List ℕ → Option QuoteAssetBadgeInitializationEvent)
      (update_coder : List ℕ → Option QuoteAssetBadgeUpdateEvent) where
    init_decoded :
        ParsedInstructionMessage → Option (Option QuoteAssetBadgeInitializationEvent) → Action db ⊤
    unfolding process_init_event
    init_decoded m none = throw decode_failed
    init_decoded m (some none) = pure tt
    init_decoded m (some (some e)) = process_init_event m e

    update_decoded :
        ParsedInstructionMessage → Option (Option QuoteAssetBadgeUpdateEvent) → Action db ⊤
    unfolding process_update_event
    update_decoded m none = throw decode_failed
    update_decoded m (some none) = pure tt
    update_decoded m (some (some e)) = process_update_event m e

    after_discriminator : ParsedInstructionMessage → Option (List ℕ × List ℕ) → Action db ⊤
    unfolding init_decoded update_decoded
    after_discriminator m none = throw range_error
    after_discriminator m (some (discriminator, event_data)) =
        if eq_text discriminator quote_asset_init_event_discriminator
        then init_decoded m
            (decode_type init_coder (codes "QuoteAssetBadgeInitializationEvent") event_data)
        else if eq_text discriminator quote_asset_update_event_discriminator
        then update_decoded m
            (decode_type update_coder (codes "QuoteAssetBadgeUpdateEvent") event_data)
        else pure tt

    after_identifier : ParsedInstructionMessage → Option (List ℕ × List ℕ) → Action db ⊤
    unfolding after_discriminator
    after_identifier m none = throw range_error
    after_identifier m (some (identifier, rest)) =
        if eq_text identifier event_identifier
        then after_discriminator m (split_at rest 8)
        else pure tt

    pub process : ParsedInstructionMessage → Action db ⊤
    unfolding after_identifier
    process m = elim (bs58_decode m.instruction.data_base58) [
      | none ↦ throw decode_failed
      | some bytes ↦ after_identifier m (split_at bytes 8)
    ]
