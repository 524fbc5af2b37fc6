-- ===== src/Rpc/TokenAccount.antt =====
-- `getTokenAccount`, `parseTokenAccountData` and `parseAccountState` of solana.service.ts, one attempt
-- of the retry. The node, the layout of SPL token accounts and base58 are parameters.
pub mod Account
pub mod Agree
use mathlib.Core.Option
use saros_dlmm_indexer.Base.{
  ℕ, Bool, false, not, ◌==◌, Option, none, some, List, [], ◌∷◌, if◌then◌else◌,
}
use saros_dlmm_indexer.Text.{Text, eq_text}
use saros_dlmm_indexer.Text.Decimal.{nat_to_text}
use saros_dlmm_indexer.Store.World.{Result, ok, err, rpc_failed}

pub data AccountState : Type 0 where
  uninitialized initialized frozen : AccountState

-- `tokenAmount`; the floating point number of the node is kept as its text.
pub record UiTokenAmount : Type 0 where
  pub amount : Text
  pub decimals : ℕ
  pub ui_amount : Option Text
  pub ui_amount_string : Text

-- `rentExemptReserve`: a text in the type of the program and from the layout; the node gives an amount
-- object, which is copied as it is.
pub data Reserve : Type 0 where
  reserve_text : Text → Reserve
  reserve_amount : UiTokenAmount → Reserve

pub record UiTokenAccount : Type 0 where
  pub mint : Text
  pub owner : Text
  pub token_amount : UiTokenAmount
  pub state : AccountState
  pub is_native : Bool
  pub rent_exempt_reserve : Option Reserve
  pub delegate : Option Text
  pub delegated_amount : Option UiTokenAmount
  pub close_authority : Option Text

-- What the node gives as `data.parsed.info`.
pub record TokenInfo : Type 0 where
  pub mint : Text
  pub owner : Text
  pub token_amount : UiTokenAmount
  pub state : AccountState
  pub is_native : Option Bool
  pub rent_exempt_reserve : Option Reserve
  pub delegate : Option Text
  pub delegated_amount : Option UiTokenAmount
  pub close_authority : Option Text

-- What `AccountLayout.decode` gives; keys are bytes.
pub record RawAccount : Type 0 where
  pub mint : List ℕ
  pub owner : List ℕ
  pub amount : ℕ
  pub delegate_option : ℕ
  pub delegate : List ℕ
  pub state : ℕ
  pub is_native : ℕ
  pub delegated_amount : ℕ
  pub close_authority_option : ℕ
  pub close_authority : List ℕ

pub data AccountData : Type 0 where
  parsed : TokenInfo → AccountData
  buffer : List ℕ → AccountData
  other : AccountData

pub record AccountInfo : Type 0 where
  pub owner : Text
  pub contents : AccountData

-- `switch (state)`
unfoldable pub parse_account_state : ℕ → AccountState
parse_account_state state =
    if state == 0
    then uninitialized
    else if state == 1
    then initialized
    else if state == 2
    then frozen
    else uninitialized

-- `tokenData.isNative || false`
unfoldable pub or_false : Option Bool → Bool
or_false none = false
or_false (some b) = b

-- An optional text is set only if it is truthy.
unfoldable pub set_text : Option Text → Option Text
set_text none = none
set_text (some []) = none
set_text (some (c ∷ t)) = some (c ∷ t)

unfoldable pub account_of_info : TokenInfo → UiTokenAccount
unfolding or_false set_text
account_of_info i = record {
  mint = i.mint;
  owner = i.owner;
  token_amount = i.token_amount;
  state = i.state;
  is_native = or_false i.is_native;
  rent_exempt_reserve = i.rent_exempt_reserve;
  delegate = set_text i.delegate;
  delegated_amount = i.delegated_amount;
  close_authority = set_text i.close_authority;
}

-- The decimals are not in the account.
unfoldable pub raw_amount : ℕ → UiTokenAmount
raw_amount n = record {
  amount = nat_to_text n;
  decimals = 0;
  ui_amount = none;
  ui_amount_string = nat_to_text n;
}

abbrev pub only_if {ℓ} : {A : Type ℓ} → Bool → A → Option A
only_if b a = if b then some a else none

module _ (to_base58 : List ℕ → Text) (decode_layout : List ℕ → Option RawAccount) where
  unfoldable pub account_of_raw : RawAccount → UiTokenAccount
  unfolding parse_account_state raw_amount
  account_of_raw r = record {
    mint = to_base58 r.mint;
    owner = to_base58 r.owner;
    token_amount = raw_amount r.amount;
    state = parse_account_state r.state;
    is_native = not (r.is_native == 0);
    rent_exempt_reserve = only_if (not (r.is_native == 0)) (reserve_text (nat_to_text r.is_native));
    delegate = only_if (r.delegate_option == 1) (to_base58 r.delegate);
    delegated_amount = only_if (r.delegate_option == 1) (raw_amount r.delegated_amount);
    close_authority = only_if (r.close_authority_option == 1) (to_base58 r.close_authority);
  }

  -- Null where the layout cannot be read.
  unfoldable pub parse_token_account_data : List ℕ → Option UiTokenAccount
  unfolding account_of_raw
  parse_token_account_data bytes = Option.map account_of_raw (decode_layout bytes)

  unfoldable pub account_of_data : AccountData → Option UiTokenAccount
  unfolding account_of_info parse_token_account_data
  account_of_data (parsed i) = some (account_of_info i)
  account_of_data (buffer bytes) = parse_token_account_data bytes
  account_of_data other = none

  -- spl-token's `TOKEN_PROGRAM_ID`
  module _ (token_program : Text) where
    unfoldable pub account_of_response : Option AccountInfo → Option UiTokenAccount
    unfolding account_of_data
    account_of_response none = none
    account_of_response (some a) =
        if eq_text a.owner token_program then account_of_data a.contents else none

    -- What is thrown is thrown again, with another message.
    unfoldable pub get_token_account :
        (Text → Result (Option AccountInfo)) → Text → Result (Option UiTokenAccount)
    unfolding account_of_response
    get_token_account get_parsed_account_info pubkey = elim (get_parsed_account_info pubkey) [
      | err x ↦ err rpc_failed
      | ok response ↦ ok (account_of_response response)
    ]
