-- ===== src/Positions/Create.antt =====
-- create-position.processor.ts: a position is created from its instruction, which knows the owner,
-- and from its event, which knows the bins; whichever comes second updates what it knows. The
-- queries of the RPC node are parameters.
pub mod Shares
pub mod Order
pub mod Refused
use saros_dlmm_indexer.Base.{
  ⊤, ℕ, zero, suc, Bool, true, false, Option, none, some, List, [], ◌∷◌, if◌then◌else◌,
}
use saros_dlmm_indexer.Text.{Text, codes, eq_text}
use saros_dlmm_indexer.Schemas.{
  LiquidityShares, Position, clashes, TokenAccount, PartiallyDecodedInstruction,
  ParsedInstructionMessage,
}
use saros_dlmm_indexer.Store.World.{
  Db, World, Action, Error, Result, ok, err, ◌>>=◌, ◌>>◌, pure, throw, or_throw, lift, gets, modify,
  duplicate_key, decode_failed, range_error, no_account_creator,
}
use saros_dlmm_indexer.Store.Batch.{docs_from}
use saros_dlmm_indexer.Idl.{IdlInstruction}
use saros_dlmm_indexer.Library.{event_identifier, split_at, decode_instruction, decode_type}
use saros_dlmm_indexer.Instruction.{
  create_position, Check, already_processed, inserted, check_and_insert_instruction,
}
use saros_dlmm_indexer.Positions.Update.{bin_per_position, share_id}
use saros_dlmm_indexer.Positions.Accounts.{PositionAccounts, position_accounts}

abbrev instruction_identifier_position_create : List ℕ
instruction_identifier_position_create = 48 ∷ 215 ∷ 197 ∷ 153 ∷ 96 ∷ 203 ∷ 180 ∷ 133 ∷ []

abbrev event_discriminator_position_create : List ℕ
event_discriminator_position_create = 97 ∷ 21 ∷ 205 ∷ 201 ∷ 62 ∷ 41 ∷ 111 ∷ 164 ∷ []

pub record PositionCreationEvent : Type 0 where
  pub pair : Text
  pub position : Text
  pub position_mint : Text
  pub lower_bin_id : ℕ
  pub upper_bin_id : ℕ

-- `decodeInstruction`: null where anything throws, also where the coder answers null.
module _ {A : Type 0} where
  accounts_of : Option (Option (IdlInstruction × Option A)) → List Text → Option PositionAccounts
  accounts_of (some (some (ix, some args))) accounts = position_accounts ix accounts
  accounts_of _ accounts = none

  unfoldable pub decode_create_position_instruction :
      (Text → Option (List ℕ))
      → (Text → Option (Option A))
      → PartiallyDecodedInstruction
      → Option PositionAccounts
  unfolding accounts_of
  decode_create_position_instruction bs58_decode coder ix =
      accounts_of (decode_instruction bs58_decode coder ix.data_base58) ix.accounts

-- `decodePositionCreationEvent`: reading a field of null throws, which the `catch` makes null.
unfoldable pub decode_position_creation_event :
    (List ℕ → Option PositionCreationEvent) → List ℕ → Option PositionCreationEvent
decode_position_creation_event event_coder event_data =
    elim (decode_type event_coder (codes "PositionCreationEvent") event_data) [
      | some (some e) ↦ some e
      | _ ↦ none
    ]

-- `{ id, positionId, index, balance: '0' }`
abbrev pub new_share : Text → ℕ → LiquidityShares
new_share position index = record {
  id = share_id position index;
  position_id = position;
  index = index;
  balance = codes "0";
}

-- The loop that fills `liquiditySharesData`, from an index on.
abbrev pub shares_from : Text → ℕ → ℕ → List LiquidityShares
shares_from position index n = docs_from (new_share position) index n

-- A falsy text is as good as none.
abbrev truthy : Option Text → Option Text
truthy none = none
truthy (some []) = none
truthy (some (c ∷ s)) = some (c ∷ s)

module _ {db : Db} where
  -- `insertMany`
  pub insert_shares : List LiquidityShares → Action db ⊤
  insert_shares ds w =
      let (done, s) = db.shares.insert_many ds w.shares in
      (if done then ok tt else err duplicate_key, record w { shares = s })

  add_position : World db → Option (db.positions.State) → Result ⊤ × World db
  add_position w none = (err duplicate_key, w)
  add_position w (some s) = (ok tt, record w { positions = s })

  -- The unique index on `positionMintId`: a write that gives a position the mint of another one throws.
  pub check_mint : Text → Text → Action db ⊤
  check_mint id mint w = (
    if db.positions.exists_where (clashes id mint) w.positions then err duplicate_key else ok tt,
    w,
  )

  -- `positionModel.create`, under both unique indexes.
  pub store_position : Position → Action db ⊤
  unfolding check_mint add_position
  store_position d = do
    check_mint d.id d.position_mint_id
    (λ w. add_position w (db.positions.create d w.positions))

  pub insert_position : Position → Action db ⊤
  unfolding insert_shares store_position
  insert_position d = do insert_shares (shares_from d.id 0 bin_per_position); store_position d

  -- The end of `processInstruction`: the position is created, or its mint and owner updated.
  position_of_instruction : PositionAccounts → Text → Option Position → Action db ⊤
  unfolding insert_position
  position_of_instruction d owner none = insert_position (record {
    id = d.position;
    pair_id = d.pair;
    position_mint_id = d.position_mint;
    owner_id = owner;
    lower_bin_lb_id = 0;
    upper_bin_lb_id = 0;
  })
  position_of_instruction d owner (some p) = do
    check_mint d.position d.position_mint
    modify (λ w. record w {
      positions =
          db.positions.update_one d.position
            (λ p. record p { position_mint_id = d.position_mint; owner_id = owner }) w.positions;
    })

  pub upsert_from_instruction : PositionAccounts → Text → Action db ⊤
  unfolding position_of_instruction
  upsert_from_instruction d owner w =
      position_of_instruction d owner (db.positions.find_one d.position w.positions) w

  -- The end of `processEvent`: the position is created, or its bins updated.
  position_of_event : PositionCreationEvent → Option Position → Action db ⊤
  unfolding insert_position
  position_of_event e none = insert_position (record {
    id = e.position;
    pair_id = e.pair;
    position_mint_id = e.position_mint;
    owner_id = codes "dummy-owner-id";
    lower_bin_lb_id = e.lower_bin_id;
    upper_bin_lb_id = e.upper_bin_id;
  })
  position_of_event e (some p) = modify (λ w. record w {
    positions =
        db.positions.update_one e.position
          (λ p. record p { lower_bin_lb_id = e.lower_bin_id; upper_bin_lb_id = e.upper_bin_id })
          w.positions;
  })

  pub upsert_from_event : PositionCreationEvent → Action db ⊤
  unfolding position_of_event
  upsert_from_event e w = position_of_event e (db.positions.find_one e.position w.positions) w

  add_token_account : World db → Option (db.token_accounts.State) → Result ⊤ × World db
  add_token_account w none = (err duplicate_key, w)
  add_token_account w (some s) = (ok tt, record w { token_accounts = s })

  create_token_account : PositionAccounts → Text → Option TokenAccount → Action db ⊤
  unfolding add_token_account
  create_token_account d owner (some a) w = (ok tt, w)
  create_token_account d owner none w = add_token_account w (
      db.token_accounts.create
        (record {
          id = d.position_token_account;
          owner_id = owner;
          token_mint_id = d.position_mint;
          balance = codes "1";
        })
        w.token_accounts)

  pub ensure_token_account : PositionAccounts → Text → Action db ⊤
  unfolding create_token_account
  ensure_token_account d owner w =
      create_token_account d owner
        (db.token_accounts.find_one d.position_token_account w.token_accounts) w

  module _ (get_token_account : Text → Result (Option Text))
      (get_account_creator : Text → Result (Option Text)) where
    owner_or_creator : Text → Option Text → Action db Text
    owner_or_creator account (some owner) = pure owner
    owner_or_creator account none = do
      creator ← lift (get_account_creator account)
      or_throw (truthy creator) no_account_creator

    instruction_checked : PositionAccounts → Text → Check → Action db ⊤
    unfolding ensure_token_account upsert_from_instruction
    instruction_checked d owner already_processed = pure tt
    instruction_checked d owner (inserted i) = do
      ensure_token_account d owner
      upsert_from_instruction d owner

    pub process_instruction : ParsedInstructionMessage → Option PositionAccounts → Action db ⊤
    unfolding owner_or_creator instruction_checked
    process_instruction m none = throw decode_failed
    process_instruction m (some d) = do
      position_token_account ← lift (get_token_account d.position_token_account)
      owner ← owner_or_creator d.position_token_account position_token_account
      check ← check_and_insert_instruction m create_position
      instruction_checked d owner check

  event_checked : PositionCreationEvent → Check → Action db ⊤
  unfolding upsert_from_event
  event_checked e already_processed = pure tt
  event_checked e (inserted i) = upsert_from_event e

  pub process_event : ParsedInstructionMessage → Option PositionCreationEvent → Action db ⊤
  unfolding event_checked
  process_event m none = throw decode_failed
  process_event m (some e) = do
    check ← check_and_insert_instruction m create_position
    event_checked e check

  module _ {A : Type 0} (bs58_decode : Text → Option (List ℕ)) (coder : Text → Option (Option A))
      (event_coder : List ℕ → Option PositionCreationEvent)
      (get_token_account : Text → Result (Option Text))
      (get_account_creator : Text → Result (Option Text)) where
    after_discriminator : ParsedInstructionMessage → Option (List ℕ × List ℕ) → Action db ⊤
    unfolding process_event
    after_discriminator m none = throw range_error
    after_discriminator m (some (discriminator, event_data)) =
        if eq_text discriminator event_discriminator_position_create
        then process_event m (decode_position_creation_event event_coder event_data)
        else pure tt

    after_identifier : ParsedInstructionMessage → Option (List ℕ × List ℕ) → Action db ⊤
    unfolding process_instruction after_discriminator
    after_identifier m none = throw range_error
    after_identifier m (some (identifier, rest)) =
        if eq_text identifier instruction_identifier_position_create
        then process_instruction get_token_account get_account_creator m
            (decode_create_position_instruction bs58_decode coder m.instruction)
        else if eq_text identifier event_identifier
        then after_discriminator m (split_at rest 8)
        else pure tt

    -- `processCreatePosition`, and with it `process(job)`.
    pub process_create_position : ParsedInstructionMessage → Action db ⊤
    unfolding after_identifier
    process_create_position m = elim (bs58_decode m.instruction.data_base58) [
      | none ↦ throw decode_failed
      | some bytes ↦ after_identifier m (split_at bytes 8)
    ]
