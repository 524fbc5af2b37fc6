-- ===== src/Rpc/TokenAccount/Account.antt =====
-- A token account apart from how it is read, its bytes, its parsed form, and what the program is to
-- know of it.
use mathlib.Core.Option
use saros_dlmm_indexer.Base.{ℕ, suc, is_some, ◌≡◌, true, false, Option, none, some, List}
use saros_dlmm_indexer.Text.{Text}
use saros_dlmm_indexer.Text.Decimal.{nat_to_text}
use saros_dlmm_indexer.Rpc.TokenAccount.{
  AccountState, uninitialized, initialized, frozen, UiTokenAmount, Reserve, reserve_text,
  reserve_amount, UiTokenAccount, TokenInfo, RawAccount,
}

-- A token account as such, apart from how it is read. `native` is what a native account keeps for
-- rent, less one, since it is never nothing.
pub record Account : Type 0 where
  pub mint : List ℕ
  pub owner : List ℕ
  pub amount : ℕ
  pub state : AccountState
  pub native : Option ℕ
  pub delegate : Option (List ℕ × ℕ)
  pub close_authority : Option (List ℕ)

-- The program's documented codes.
abbrev pub state_code : AccountState → ℕ
state_code uninitialized = 0
state_code initialized = 1
state_code frozen = 2

abbrev pub flag : {K : Type 0} → Option K → ℕ
flag none = 0
flag (some k) = 1

abbrev pub stored : {K A : Type 0} → (K → A) → A → Option K → A
stored f unused none = unused
stored f unused (some k) = f k

-- The account in the layout of its bytes: options are flags, and where there is no key, `unused`
-- bytes stand.
abbrev pub layout_of : List ℕ → Account → RawAccount
layout_of unused a = record {
  mint = a.mint;
  owner = a.owner;
  amount = a.amount;
  delegate_option = flag a.delegate;
  delegate = stored (λ d. d.0) unused a.delegate;
  state = state_code a.state;
  is_native = stored suc 0 a.native;
  delegated_amount = stored (λ d. d.1) 0 a.delegate;
  close_authority_option = flag a.close_authority;
  close_authority = stored (λ k. k) unused a.close_authority;
}

-- What a reserve says, in either form.
abbrev pub lamports : Reserve → Text
lamports (reserve_text t) = t
lamports (reserve_amount u) = u.amount

abbrev pub amount_of : (ℕ → Text) → ℕ → ℕ → UiTokenAmount
amount_of scaled decimals n = record {
  amount = nat_to_text n;
  decimals = decimals;
  ui_amount = some (scaled n);
  ui_amount_string = scaled n;
}

module _ (to_base58 : List ℕ → Text) (scaled : ℕ → Text) (decimals : ℕ) where
  -- The account as the node parses it.
  abbrev pub info_of : Account → TokenInfo
  info_of a = record {
    mint = to_base58 a.mint;
    owner = to_base58 a.owner;
    token_amount = amount_of scaled decimals a.amount;
    state = a.state;
    is_native = some (elim a.native [ none ↦ false | some _ ↦ true ]);
    rent_exempt_reserve =
        Option.map (λ n. reserve_amount (amount_of scaled decimals (suc n))) a.native;
    delegate = Option.map (λ d. to_base58 d.0) a.delegate;
    delegated_amount = Option.map (λ d. amount_of scaled decimals d.1) a.delegate;
    close_authority = Option.map to_base58 a.close_authority;
  }

-- What the program is to know of the account: keys in base58, amounts in decimal.
pub record Shows (to_base58 : List ℕ → Text) (a : Account) (u : UiTokenAccount) : Type 0 where
  pub mint : u.mint ≡ to_base58 a.mint
  pub owner : u.owner ≡ to_base58 a.owner
  pub amount : u.token_amount.amount ≡ nat_to_text a.amount
  pub state : u.state ≡ a.state
  pub is_native : u.is_native ≡ is_some a.native
  pub reserve :
      Option.map lamports u.rent_exempt_reserve ≡ Option.map (λ n. nat_to_text (suc n)) a.native
  pub delegate : u.delegate ≡ Option.map (λ d. to_base58 d.0) a.delegate
  pub delegated_amount :
      Option.map (λ v. v.amount) u.delegated_amount ≡ Option.map (λ d. nat_to_text d.1) a.delegate
  pub close_authority : u.close_authority ≡ Option.map to_base58 a.close_authority
