-- ===== src/Rpc/TokenAccount/Agree.antt =====
-- The two ways to read a token account: both give what the account holds.
use mathlib.Core.Option
use saros_dlmm_indexer.Base.{ℕ, ◌≡◌, Option, none, some, List, ◌∷◌, ◌⊎◌}
use saros_dlmm_indexer.Text.{Text}
use saros_dlmm_indexer.Store.World.{Result, ok}
use saros_dlmm_indexer.Rpc.TokenAccount.{UiTokenAccount, RawAccount}
use saros_dlmm_indexer.Rpc.TokenAccount.Account.{Account, Shows}

module _ (to_base58 : List ℕ → Text) (decode_layout : List ℕ → Option RawAccount)
    (token_program : Text) where
  -- Base58 of a key is never empty.
  abbrev pub IsInhabited : Type 0
  IsInhabited = (bytes : List ℕ) → (c : ℕ) × (t : Text) × (to_base58 bytes ≡ c ∷ t)

  -- Two calls for the same account: null twice, or twice what the account shows.
  abbrev pub Agree :
      Account → Result (Option UiTokenAccount) → Result (Option UiTokenAccount) → Type 0
  Agree a x y =
      ((x ≡ ok none) × (y ≡ ok none))
      ⊎ ((u : UiTokenAccount) × (v : UiTokenAccount) × (x ≡ ok (some u))
          × (y ≡ ok (some v))
          × Shows to_base58 a u
          × Shows to_base58 a v)
