-- ===== src/Store/World.antt =====
-- The state that the processors share, and how a handler runs: it reads and writes the collections
-- and may throw. What was written before a throw stays written, for no handler opens a transaction.

use saros_dlmm_indexer.Base.{◌≡◌, refl, ap, ⊤, Bool, Option, none, some, if◌then◌else◌}
use saros_dlmm_indexer.Schemas.{
  Instruction, instruction_key, Bin, bin_key, Position, position_key, LiquidityShares, share_key,
  PositionUpdateEvent, update_event_key, TokenAccount, token_account_key, Pair, pair_key,
  BinStepConfig, bin_step_config_key, QuoteAsset, quote_asset_key, TokenMint, token_mint_key,
  SwapEvent, swap_event_key, BinSwapEvent, bin_swap_event_key, CompositionFeesEvent,
  composition_fees_event_key,
}
use saros_dlmm_indexer.Store.{Collection}

pub record Db : Type 1 where
  pub instructions : Collection Instruction instruction_key
  pub bins : Collection Bin bin_key
  pub positions : Collection Position position_key
  pub shares : Collection LiquidityShares share_key
  pub update_events : Collection PositionUpdateEvent update_event_key
  pub token_accounts : Collection TokenAccount token_account_key
  pub pairs : Collection Pair pair_key
  pub configs : Collection BinStepConfig bin_step_config_key
  pub quote_assets : Collection QuoteAsset quote_asset_key
  pub token_mints : Collection TokenMint token_mint_key
  pub swap_events : Collection SwapEvent swap_event_key
  pub bin_swap_events : Collection BinSwapEvent bin_swap_event_key
  pub composition_fees_events : Collection CompositionFeesEvent composition_fees_event_key

pub record World (db : Db) : Type 0 where
  pub instructions : db.instructions.State
  pub bins : db.bins.State
  pub positions : db.positions.State
  pub shares : db.shares.State
  pub update_events : db.update_events.State
  pub token_accounts : db.token_accounts.State
  pub pairs : db.pairs.State
  pub configs : db.configs.State
  pub quote_assets : db.quote_assets.State
  pub token_mints : db.token_mints.State
  pub swap_events : db.swap_events.State
  pub bin_swap_events : db.bin_swap_events.State
  pub composition_fees_events : db.composition_fees_events.State

-- What is thrown; the texts of the messages are not kept.
pub data Error : Type 0 where
  duplicate_key syntax_error type_error range_error : Error
  no_pair no_position no_share no_bin share_out_of_bounds : Error
  no_account_creator decode_failed : Error
  close_before_decrease pair_mismatch not_deleted : Error
  no_quote_asset no_bin_step_config rpc_failed : Error
  no_token_mint invalid_bin_step validation_failed : Error

pub data Result (A : Type 0) : Type 0 where
  ok : A → Result A
  err : Error → Result A

abbrev pub Action : Db → Type 0 → Type 0
Action db A = World db → Result A × World db

module _ {A : Type 0} {db : Db} where
  abbrev pub pure : A → Action db A
  pure a w = (ok a, w)

  abbrev pub throw : Error → Action db A
  throw e w = (err e, w)

  abbrev pub or_throw : Option A → Error → Action db A
  or_throw none e = throw e
  or_throw (some a) e = pure a

  -- The value of a computation that touches no collection.
  abbrev pub lift : Result A → Action db A
  lift r w = (r, w)

infixl 5 ◌>>=◌ ◌>>◌
abbrev pub ◌>>=◌ : {A B : Type 0} {db : Db} → Action db A → (A → Action db B) → Action db B
◌>>=◌ m f w = let (r, w') = m w in elim r [ ok a ↦ f a w' | err e ↦ throw e w' ]

abbrev pub ◌>>◌ : {A B : Type 0} {db : Db} → Action db A → Action db B → Action db B
m >> k = m >>= λ _. k

abbrev pub throw_if : {db : Db} → Bool → Error → Action db ⊤
throw_if c e w = (if c then err e else ok tt, w)

abbrev pub gets : {A : Type 0} {db : Db} → (World db → A) → Action db A
gets f w = (ok (f w), w)

abbrev pub modify : {db : Db} → (World db → World db) → Action db ⊤
modify f w = (ok tt, f w)

-- Inversion of a bind that returned.
pub >>=-eq-ok :
    {A B : Type 0} {db : Db} (m : Action db A) (f : A → Action db B) (w : World db) {b : B}
    {w' : World db}
    → (m >>= f) w ≡ (ok b, w')
    → (a : A) × (v : World db) × (m w ≡ (ok a, v)) × (f a v ≡ (ok b, w'))
>>=-eq-ok {A} {B} {db} m f w {b} {w'} h = split (m w) refl h
  where
    split :
        (r : Result A × World db)
        → m w ≡ r
        → ◌≡◌ {A = Result B × World db}
            (elim r.0 [ ok a ↦ f a r.1 | err e ↦ throw e r.1 ])
            (ok b, w')
        → (a : A) × (v : World db) × (m w ≡ (ok a, v)) × (f a v ≡ (ok b, w'))
    split (ok a, v) e h = (a, v, e, h)
    split (err x, v) e h = cc

abbrev resume :
    {A B : Type 0} {db : Db} → (A → Action db B) → Result A × World db → Result B × World db
resume f r = elim r.0 [ ok a ↦ f a r.1 | err e ↦ throw e r.1 ]

-- A bind whose first part is known to return.
pub >>=-of-ok :
    {A B : Type 0} {db : Db} (m : Action db A) (f : A → Action db B) (w : World db) {a : A}
    {v : World db}
    → m w ≡ (ok a, v)
    → (m >>= f) w ≡ f a v
>>=-of-ok m f w h = ap (resume f) h

-- A bind whose first part is known to throw.
pub >>=-of-err :
    {A B : Type 0} {db : Db} (m : Action db A) (f : A → Action db B) (w : World db) {x : Error}
    {v : World db}
    → m w ≡ (err x, v)
    → (m >>= f) w ≡ (err x, v)
>>=-of-err m f w h = ap (resume f) h
