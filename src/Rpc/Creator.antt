-- ===== src/Rpc/Creator.antt =====
-- `getAccountCreator` of solana.service.ts, one attempt of its retry: the signatures of an account are
-- read page by page, newest first, to the oldest, whose transaction's fee payer is the creator.
-- The RPC calls are parameters.
pub mod Pages
use mathlib.Core.Option
use saros_dlmm_indexer.Base.{
  ℕ, zero, suc, Option, none, some, List, [], ◌∷◌, length, ltb, if◌then◌else◌,
}
use saros_dlmm_indexer.Text.{Text}
use saros_dlmm_indexer.Store.World.{Error, Result, ok, err, rpc_failed}

abbrev pub page_limit : ℕ
page_limit = 1000

-- `signatures[signatures.length - 1]`, and what stands for it where there is none.
abbrev pub last_or {ℓ} : {A : Type ℓ} → Option A → List A → Option A
last_or o [] = o
last_or o (s ∷ ss) = last_or (some s) ss

module _ (limit : ℕ) (get_signatures : Option Text → Result (List Text)) where
  -- The `while (true)`, on fuel: `none` where the fuel runs out.
  unfoldable pub paginate : ℕ → Option Text → Option Text → Option (Result (Option Text))
  paginate zero before oldest = none
  paginate (suc fuel) before oldest = elim (get_signatures before) [
    | err x ↦ some (err x)
    | ok [] ↦ some (ok oldest)
    | ok (s ∷ ss) ↦
        let oldest' = last_or (some s) ss in
        let rest = paginate fuel oldest' oldest' in
        if ltb (length (s ∷ ss)) limit then some (ok oldest') else rest
  ]

module _ (get_signatures : Option Text → Result (List Text))
    (get_account_keys : Text → Result (Option (List Text))) where
  -- The first account key, if the transaction is found and has one.
  unfoldable pub first_key : Result (Option (List Text)) → Result (Option Text)
  first_key (err x) = err rpc_failed
  first_key (ok none) = ok none
  first_key (ok (some [])) = ok none
  first_key (ok (some (k ∷ ks))) = ok (some k)

  unfoldable pub creator_of : Result (Option Text) → Result (Option Text)
  unfolding first_key
  creator_of (err x) = err rpc_failed
  creator_of (ok none) = ok none
  creator_of (ok (some signature)) = first_key (get_account_keys signature)

  unfoldable pub get_account_creator : ℕ → Option (Result (Option Text))
  unfolding creator_of
  get_account_creator fuel =
      Option.map creator_of (paginate page_limit get_signatures fuel none none)
