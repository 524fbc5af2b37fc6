-- ===== src/Tests/Rpc.antt =====
-- Accounts on which the theorems of Rpc apply.
use saros_dlmm_indexer.Base.{
  ℕ, Option, none, some, List, [], ◌∷◌, ◌++◌, length, take, ◌≡◌, refl, ap, arith,
}
use saros_dlmm_indexer.Text.{Text, codes}
use saros_dlmm_indexer.Store.World.{Result, ok}
use saros_dlmm_indexer.Text.Decimal.{nat_to_text}
use saros_dlmm_indexer.Rpc.TokenAccount.{frozen, RawAccount, parsed, buffer, AccountInfo}
use saros_dlmm_indexer.Rpc.TokenAccount.Account.{Account, layout_of, info_of}
use saros_dlmm_indexer.Rpc.TokenAccount.Agree.{Agree}
use saros_dlmm_indexer.Rpc.Creator.{page_limit, get_account_creator}
use saros_dlmm_indexer.Rpc.Creator.Pages.{Serves, get_account_creator-oldest}

abbrev signature : Text
signature = codes "sig"

abbrev get_signatures : Option Text → Result (List Text)
get_signatures none = ok (signature ∷ [])
get_signatures (some before) = ok []

abbrev get_account_keys : Text → Result (Option (List Text))
get_account_keys s = ok (some (codes "payer" ∷ codes "account" ∷ []))

nothing_older :
    (newer : List Text) (s : Text) (older : List Text)
    → signature ∷ [] ≡ newer ++ (s ∷ older)
    → [] ≡ older
nothing_older [] s [] h = refl
nothing_older [] s (o ∷ os) h = absurd (omega (arith, ap length h))
nothing_older (n ∷ []) s older h = absurd (omega (arith, ap length h))
nothing_older (n ∷ m ∷ ns) s older h = absurd (omega (arith, ap length h))

one_page : Serves page_limit ([] ++ (signature ∷ [])) get_signatures
one_page = record {
  first_page = refl;
  next_page = λ newer s older h. ap (λ l. ok (take page_limit l)) (nothing_older newer s older h);
}

get_account_creator-oldest_example :
    get_account_creator get_signatures get_account_keys 2 ≡ some (ok (some (codes "payer")))
get_account_creator-oldest_example =
    get_account_creator-oldest [] signature (codes "payer") (codes "account" ∷ []) get_signatures
      get_account_keys one_page refl

-- A token account of 5, with one key that stands for all, not delegated.
abbrev key_text : List ℕ → Text
key_text bytes = 49 ∷ bytes

abbrev frozen_account : Account
frozen_account = record {
  mint = 1 ∷ [];
  owner = 2 ∷ [];
  amount = 5;
  state = frozen;
  native = some 9;
  delegate = some (4 ∷ [], 3);
  close_authority = none;
}

abbrev tenths : ℕ → Text
tenths n = codes "0." ++ nat_to_text n

abbrev token_program : Text
token_program = codes "P"

abbrev layout : List ℕ → Option RawAccount
layout bytes = some (layout_of (7 ∷ []) frozen_account)

abbrev parsing_node : Text → Result (Option AccountInfo)
parsing_node pubkey = ok (
    some (record {
      owner = token_program;
      contents = parsed (info_of key_text tenths 1 frozen_account);
    }))

abbrev giving_node : Text → Result (Option AccountInfo)
giving_node pubkey = ok (some (record { owner = token_program; contents = buffer [] }))
