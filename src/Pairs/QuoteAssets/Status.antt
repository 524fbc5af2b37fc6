-- ===== src/Pairs/QuoteAssets/Status.antt =====
-- The status of a quote asset after its events.

use saros_dlmm_indexer.Base.{
  ◌≡◌, ◌∙◌, refl, ap, inl, inr, Bool, Option, none, some, arith, if◌then◌else◌, Option-cases,
  is_some,
}
use saros_dlmm_indexer.Text.{Text, eq_text, eq_text_iff, eq_text_refl}
use saros_dlmm_indexer.Schemas.{Instruction, QuoteAsset, enabled, ParsedInstructionMessage}
use saros_dlmm_indexer.Store.Lemmas.{exists_where_id}
use saros_dlmm_indexer.Store.World.{Db, World, ok, >>=-of-ok}
use saros_dlmm_indexer.Instruction.{
  quote_asset, id_of, record_of, inserted, check_and_insert_instruction,
}
use saros_dlmm_indexer.Instruction.Dedup.{recorded, check_and_insert_fresh}
use saros_dlmm_indexer.Pairs.QuoteAssets.{
  QuoteAssetBadgeInitializationEvent, QuoteAssetBadgeUpdateEvent, enum_object, status_value,
  is_disabled, new_quote_asset, add_quote_asset, create_quote_asset, init_checked,
  process_init_event, update_quote_asset, update_checked, process_update_event,
}

-- What is there, or else what is new.
abbrev pub or_new : Option QuoteAsset → QuoteAsset → QuoteAsset
or_new none q = q
or_new (some e) q = e

module _ {db : Db} where
  update_found :
      (e : QuoteAssetBadgeUpdateEvent) (i : Instruction) (w : World db) {b : Bool}
      → is_some (db.quote_assets.find_one e.quote_asset_badge w.quote_assets) ≡ b
      → update_checked e (inserted i) w ≡ update_quote_asset e b w
  unfolding update_checked
  update_found e i w h =
      ap (λ b. update_quote_asset e b w)
        (exists_where_id db.quote_assets e.quote_asset_badge w.quote_assets ∙ h)

  init_found :
      (e : QuoteAssetBadgeInitializationEvent) (i : Instruction) (w : World db) {b : Bool}
      → is_some (db.quote_assets.find_one e.quote_asset_badge w.quote_assets) ≡ b
      → init_checked e (inserted i) w ≡ create_quote_asset e b w
  unfolding init_checked
  init_found e i w h =
      ap (λ b. create_quote_asset e b w)
        (exists_where_id db.quote_assets e.quote_asset_badge w.quote_assets ∙ h)

  -- An update event whose status comes from the coder as an object, whatever its variant, returns on
  -- its first run where the quote asset is stored, and leaves the quote asset enabled, also where the
  -- variant is the disabled one; every other quote asset is as before.
  pub process_update_event_enables :
      (m : ParsedInstructionMessage) (e : QuoteAssetBadgeUpdateEvent) (variant : Text)
      (q : QuoteAsset) (w : World db)
      → e.status ≡ enum_object variant
      → recorded db (id_of m quote_asset) w ≡ none
      → db.quote_assets.find_one e.quote_asset_badge w.quote_assets ≡ some q
      → (s : db.instructions.State) × (t : db.quote_assets.State) × (process_update_event m e w
          ≡ (ok tt, record w { instructions = s; quote_assets = t }))
        × (db.quote_assets.find_one e.quote_asset_badge t ≡ some (record q { status = enabled }))
        × ((j : Text)
            → db.quote_assets.find_one j t ≡ (
                if eq_text e.quote_asset_badge j
                then some (record q { status = enabled })
                else db.quote_assets.find_one j w.quote_assets))
  unfolding process_update_event update_quote_asset status_value is_disabled
  process_update_event_enables m e variant q w object fresh found =
      let (s, made, _) = check_and_insert_fresh db m quote_asset w fresh in
      let v : World db = record w { instructions = s } in
      let f : QuoteAsset → QuoteAsset = λ q. record q { status = status_value e.status } in
      let enables : f q ≡ record q { status = enabled } =
        ap (λ x. record q { status = status_value x }) object in
      let looks : (j : Text)
          → db.quote_assets.find_one j
              (db.quote_assets.update_one e.quote_asset_badge f w.quote_assets)
            ≡ (if eq_text e.quote_asset_badge j
                then some (record q { status = enabled })
                else db.quote_assets.find_one j w.quote_assets) =
        λ j. ground (
          arith,
          db.quote_assets.find_one-update_one e.quote_asset_badge j f w.quote_assets (λ q. refl),
          eq_text_iff e.quote_asset_badge j,
          found,
          enables,
        ) in
      (
        s,
        db.quote_assets.update_one e.quote_asset_badge f w.quote_assets,
        >>=-of-ok (check_and_insert_instruction m quote_asset) (update_checked e) w made
            ∙ update_found e (record_of m quote_asset) v (ap is_some found),
        looks e.quote_asset_badge ∙ rw (eq_text_refl e.quote_asset_badge) refl,
        looks,
      )

  -- An initialization event, on its first run, always returns, and a quote asset is stored then: the
  -- one that was there before, unchanged, or else an enabled one of the event's token mint.
  pub process_init_event_lem :
      (m : ParsedInstructionMessage) (e : QuoteAssetBadgeInitializationEvent) (w : World db)
      → recorded db (id_of m quote_asset) w ≡ none
      → (s : db.instructions.State) × (t : db.quote_assets.State) × (process_init_event m e w
          ≡ (ok tt, record w { instructions = s; quote_assets = t }))
        × ((j : Text)
            → db.quote_assets.find_one j t ≡ (
                if eq_text e.quote_asset_badge j
                then some (or_new (db.quote_assets.find_one j w.quote_assets) (new_quote_asset e))
                else db.quote_assets.find_one j w.quote_assets))
  unfolding process_init_event create_quote_asset add_quote_asset
  process_init_event_lem m e w fresh =
      let (s, made, _) = check_and_insert_fresh db m quote_asset w fresh in
      let v : World db = record w { instructions = s } in
      let first = >>=-of-ok (check_and_insert_instruction m quote_asset) (init_checked e) w made in
      elim (Option-cases (db.quote_assets.find_one e.quote_asset_badge w.quote_assets)) [
        | inr (q, seen) ↦ (
          s,
          w.quote_assets,
          first ∙ init_found e (record_of m quote_asset) v (ap is_some seen),
          λ j. ground (arith, eq_text_iff e.quote_asset_badge j, seen),
        )
        | inl absent ↦
            let (t, stored, looks) =
              db.quote_assets.create_fresh (new_quote_asset e) w.quote_assets absent in
            (
              s,
              t,
              first
                  ∙ init_found e (record_of m quote_asset) v (ap is_some absent)
                  ∙ ap (add_quote_asset v) stored,
              λ j. ground (arith, looks j, eq_text_iff e.quote_asset_badge j, absent),
            )
      ]
