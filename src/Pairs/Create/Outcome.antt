-- ===== src/Pairs/Create/Outcome.antt =====
-- How an initialization of a pair ends, whatever the RPC node answers.
use saros_dlmm_indexer.Base.{
  ◌≡◌, ◌⊎◌, ◌∙◌, refl, ap, subst, sym, inl, inr, ⊤, Option, none, some, if◌then◌else◌, Option-cases,
}
use saros_dlmm_indexer.Text.{Text, eq_text_refl}
use saros_dlmm_indexer.Schemas.{TokenMint, BinStepConfig, Pair}
use saros_dlmm_indexer.Store.World.{
  Db, World, Action, Error, Result, ok, err, no_bin_step_config, ◌>>=◌,
}
use saros_dlmm_indexer.Store.Keeps.{Keeps}
use saros_dlmm_indexer.Pairs.Create.Mints.{
  Chain, TokenInfo, fetch_token_info, add_token_mint, insert_with_info, insert_new_token_mint,
  mint_or_insert, handle_token_mint,
}
use saros_dlmm_indexer.Pairs.Create.{
  InitializePairDecoded, new_pair, add_pair, create_pair, create_with_mints, create_with_config,
  create_unless_stored, process_initialize_pair,
}

abbrev stored_pairs : (db : Db) → World db → db.pairs.State
stored_pairs db w = w.pairs

-- It threw with the pairs as they were, or returned with a pair stored under the id.
abbrev Ended : (db : Db) → Text → World db → Result ⊤ × World db → Type 0
Ended db id w r =
    ((x : Error) × (r.0 ≡ err x) × (r.1.pairs ≡ w.pairs))
    ⊎ ((r.0 ≡ ok tt) × (p : Pair) × (db.pairs.find_one id r.1.pairs ≡ some p))

module _ {db : Db} (chain : Chain) where
  add_token_mint_pairs :
      (mint : TokenMint) (w : World db) (o : Option (db.token_mints.State))
      → (add_token_mint mint w o).1.pairs ≡ w.pairs
  unfolding add_token_mint
  add_token_mint_pairs mint w none = refl
  add_token_mint_pairs mint w (some s) = refl

  insert_with_info-Keeps :
      (id : Text) (r : Result TokenInfo) → Keeps (stored_pairs db) (insert_with_info chain id r)
  unfolding insert_with_info
  insert_with_info-Keeps id (err x) w = refl
  insert_with_info-Keeps id (ok info) w = add_token_mint_pairs _ w _

  mint_or_insert-Keeps :
      (id : Text) (o : Option TokenMint) → Keeps (stored_pairs db) (mint_or_insert chain id o)
  unfolding mint_or_insert insert_new_token_mint
  mint_or_insert-Keeps id (some existing) w = refl
  mint_or_insert-Keeps id none w =
      insert_with_info-Keeps id (fetch_token_info (chain.get_parsed_account_info id)) w

  handle_token_mint-Keeps : (id : Text) → Keeps (stored_pairs db) (handle_token_mint chain id)
  unfolding handle_token_mint
  handle_token_mint-Keeps id w =
      mint_or_insert-Keeps id (db.token_mints.find_one id w.token_mints) w

module _ {db : Db} (id : Text) (w : World db) where
  Ended-bind :
      {A : Type 0} (m : Action db A) (f : A → Action db ⊤)
      → Keeps (stored_pairs db) m
      → ((a : A) (v : World db) → v.pairs ≡ w.pairs → Ended db id w (f a v))
      → (v : World db) → v.pairs ≡ w.pairs
      → Ended db id w ((m >>= f) v)
  Ended-bind {A} m f keeps next v e = from (m v) (keeps v ∙ e)
    where
      from :
          (r : Result A × World db)
          → r.1.pairs ≡ w.pairs
          → (let q : Result ⊤ × World db = elim r.0 [ ok a ↦ f a r.1 | err e ↦ (err e, r.1) ] in
              Ended db id w q)
      from (ok a, u) same = next a u same
      from (err x, u) same = inl (x, refl, same)

module _ {db : Db} (chain : Chain) (d : InitializePairDecoded) where
  create_pair-Ended :
      (c : BinStepConfig) (x y : TokenMint) (w : World db)
      → db.pairs.find_one d.pair w.pairs ≡ none
      → (v : World db) → v.pairs ≡ w.pairs
      → Ended db d.pair w (create_pair d c x y v)
  unfolding create_pair add_pair
  create_pair-Ended c x y w absent v same =
      let p = new_pair d c x y in
      let (s, made, looks) =
        db.pairs.create_fresh p v.pairs (ap (db.pairs.find_one d.pair) same ∙ absent) in
      subst (λ o. Ended db d.pair w (add_pair v o)) (sym made)
        (inr (
          refl,
          p,
          looks d.pair
              ∙ ap (λ b. if b then some p else db.pairs.find_one d.pair v.pairs)
                  (eq_text_refl d.pair),
        ))

  create_with_config-Ended :
      (o : Option BinStepConfig) (w : World db)
      → db.pairs.find_one d.pair w.pairs ≡ none
      → Ended db d.pair w (create_with_config chain d o w)
  unfolding create_with_config create_with_mints
  create_with_config-Ended none w absent = inl (no_bin_step_config, refl, refl)
  create_with_config-Ended (some c) w absent =
      Ended-bind d.pair w (handle_token_mint chain d.token_mint_x)
        (λ x. handle_token_mint chain d.token_mint_y >>= λ y. create_pair d c x y)
        (handle_token_mint-Keeps chain d.token_mint_x)
        (λ x.
          Ended-bind d.pair w (handle_token_mint chain d.token_mint_y) (create_pair d c x)
            (handle_token_mint-Keeps chain d.token_mint_y) (λ y. create_pair-Ended c x y w absent))
        w refl

  process_initialize_pair-Ended :
      (w : World db) → Ended db d.pair w (process_initialize_pair chain d w)
  unfolding process_initialize_pair create_unless_stored
  process_initialize_pair-Ended w = elim (Option-cases (db.pairs.find_one d.pair w.pairs)) [
    | inr (p, found) ↦
        subst (λ o. Ended db d.pair w (create_unless_stored chain d o w)) (sym found)
          (inr (refl, p, found))
    | inl absent ↦
        subst (λ o. Ended db d.pair w (create_unless_stored chain d o w)) (sym absent)
          (create_with_config-Ended (db.configs.find_one d.bin_step_config w.configs) w absent)
  ]

  -- Whatever the node answers, an initialization either throws and leaves the pairs as they were, or
  -- returns, and then each further run of it, whatever the node answers then, returns at once and
  -- writes nothing.
  pub process_initialize_pair_once :
      (w : World db)
      → let r = process_initialize_pair chain d w in
        ((x : Error) × (r.0 ≡ err x) × (r.1.pairs ≡ w.pairs))
        ⊎ ((r.0 ≡ ok tt) × ((later : Chain) → process_initialize_pair later d r.1 ≡ (ok tt, r.1)))
  unfolding process_initialize_pair create_unless_stored
  process_initialize_pair_once w = elim (process_initialize_pair-Ended w) [
    | inl threw ↦ inl threw
    | inr (returned, p, found) ↦
        let w' = (process_initialize_pair chain d w).1 in
        inr (returned, λ later. ap (λ o. create_unless_stored later d o w') found)
  ]
