-- ===== src/Pairs/Create/Mints/Handled.antt =====
-- What the handling of a token mint leaves.
use saros_dlmm_indexer.Base.{
  ◌≡◌, ◌∙◌, ap, inl, inr, Option, none, some, arith, if◌then◌else◌, Option-cases, sym,
}
use saros_dlmm_indexer.Text.{Text, eq_text, eq_text_iff}
use saros_dlmm_indexer.Schemas.{TokenMint}
use saros_dlmm_indexer.Store.World.{Db, World, ok}
use saros_dlmm_indexer.Pairs.Create.Mints.{
  Chain, TokenInfo, new_token_mint, fetch_token_info, fetch_token_metadata, add_token_mint,
  insert_with_info, insert_new_token_mint, mint_or_insert, handle_token_mint,
}

-- The token mint that is there, or else the one made of what the chain tells.
abbrev pub mint_for : Chain → Text → TokenInfo → Option TokenMint → TokenMint
mint_for chain id info (some existing) = existing
mint_for chain id info none =
    new_token_mint id info
      (fetch_token_metadata id (chain.find_by_mint id) (chain.get_metadata_account id))

module _ {db : Db} (chain : Chain) (id : Text) where
  -- With the account of the mint readable the handling returns the mint that is stored, or else the
  -- one made of what the chain tells, stores it, and leaves every other mint alone.
  pub handle_token_mint_lem :
      (info : TokenInfo) (w : World db)
      → fetch_token_info (chain.get_parsed_account_info id) ≡ ok info
      → let mint = mint_for chain id info (db.token_mints.find_one id w.token_mints) in
        (s : db.token_mints.State) × (handle_token_mint chain id w
          ≡ (ok mint, record w { token_mints = s }))
        × ((j : Text)
            → db.token_mints.find_one j s
              ≡ (if eq_text id j then some mint else db.token_mints.find_one j w.token_mints))
  unfolding handle_token_mint mint_or_insert insert_new_token_mint insert_with_info add_token_mint
      new_token_mint
  handle_token_mint_lem info w readable =
      elim (Option-cases (db.token_mints.find_one id w.token_mints)) [
        | inr (e, seen) ↦ (
          w.token_mints,
          ap (λ o. mint_or_insert chain id o w) seen
              ∙ ap (λ o. (ok (mint_for chain id info o), w)) (sym seen),
          λ j. ground (arith, eq_text_iff id j, seen, ap (mint_for chain id info) seen),
        )
        | inl absent ↦
            let mint = mint_for chain id info none in
            let (s, made, looks) = db.token_mints.create_fresh mint w.token_mints absent in
            (
              s,
              ap (λ o. mint_or_insert chain id o w) absent
                  ∙ ap (λ r. insert_with_info chain id r w) readable
                  ∙ ap (add_token_mint mint w) made
                  ∙ ap (λ o. (ok (mint_for chain id info o), record w { token_mints = s }))
                      (sym absent),
              λ j.
                  ground
                    (arith, looks j, eq_text_iff id j, absent, ap (mint_for chain id info) absent),
            )
      ]
