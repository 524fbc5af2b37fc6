-- ===== src/Library.antt =====
-- liquidity-book/liquidity-book.library.ts, liquidity-book.constant.ts and `splitAt` of
-- utils/helper.ts: reading instruction and event data by the interface. base58 decoding is a parameter
-- (`none`: it throws), and a buffer is its list of bytes.
pub mod Lookup
use saros_dlmm_indexer.Base.{
  ℕ, zero, suc, ◌≡◌, Bool, true, false, Option, none, some, List, [], ◌∷◌, length, take, drop,
  get_elem?, ltb, if◌then◌else◌, ◌||◌,
}
use saros_dlmm_indexer.Text.{Text, codes, eq_text}
use saros_dlmm_indexer.Idl.{IdlInstruction, IdlEvent, idl_instructions, idl_events, idl_types}
use mathlib.Core.Option

abbrev pub event_identifier : List ℕ
event_identifier = 228 ∷ 69 ∷ 165 ∷ 46 ∷ 81 ∷ 203 ∷ 154 ∷ 29 ∷ []

-- `splitAt`: `none` is the RangeError.
unfoldable pub split_at : List ℕ → ℕ → Option (List ℕ × List ℕ)
split_at buffer index =
    if ltb (length buffer) index then none else some (take index buffer, drop index buffer)

unfoldable pub find_instruction : List ℕ → List IdlInstruction → Option IdlInstruction
find_instruction discriminator [] = none
find_instruction discriminator (ix ∷ ixs) =
    if eq_text ix.discriminator discriminator then some ix else find_instruction discriminator ixs

unfoldable pub find_event : List ℕ → List IdlEvent → Option IdlEvent
find_event discriminator [] = none
find_event discriminator (e ∷ es) =
    if eq_text e.discriminator discriminator then some e else find_event discriminator es

-- `findIndex`
unfoldable pub find_index : Text → List Text → ℕ → Option ℕ
find_index name [] i = none
find_index name (a ∷ as') i = if eq_text a name then some i else find_index name as' (suc i)

abbrev mem_text : Text → List Text → Bool
mem_text name [] = false
mem_text name (t ∷ ts) = eq_text t name || mem_text name ts

-- `getAccountsByName` at one name: null for a name that the interface lacks, and undefined (also
-- `none`) where the instruction carries fewer accounts.
unfoldable pub get_account : IdlInstruction → List Text → Text → Option Text
unfolding find_index
get_account ix ix_accounts name = elim (find_index name ix.accounts 0) [
  | none ↦ none
  | some i ↦ get_elem? ix_accounts i
]

module _ (bs58_decode : Text → Option (List ℕ)) where
  -- `decodeInstruction`, with what the coder makes of the data: `none` where either throws, null
  -- (`some none`) where the interface has no such instruction. The coder itself may answer null.
  unfoldable pub decode_instruction :
      {A : Type 0} → (Text → Option (Option A)) → Text → Option (Option (IdlInstruction × Option A))
  decode_instruction coder data_base58 = elim (bs58_decode data_base58) [
    | none ↦ none
    | some bytes ↦ elim (find_instruction (take 8 bytes) idl_instructions) [
      | none ↦ some none
      | some ix ↦ Option.map (λ decoded. some (ix, decoded)) (coder data_base58)
    ]
  ]

  unfoldable pub get_instruction_name : Text → Option (Option Text)
  get_instruction_name data_base58 =
      Option.map
        (λ bytes. Option.map (λ ix. ix.name) (find_instruction (take 8 bytes) idl_instructions))
        (bs58_decode data_base58)

  -- The discriminator of an event stands behind the event identifier.
  unfoldable pub get_event_name : Text → Option (Option Text)
  get_event_name data_base58 =
      Option.map (λ bytes. Option.map (λ e. e.name) (find_event (take 8 (drop 8 bytes)) idl_events))
        (bs58_decode data_base58)

-- `decodeType`: null (`some none`) for a type that the interface lacks, else what the coder gives,
-- which throws (`none`) on bytes that do not fit.
unfoldable pub decode_type : {T : Type 0} → (List ℕ → Option T) → Text → List ℕ → Option (Option T)
decode_type coder name bytes =
    if mem_text name idl_types then Option.map some (coder bytes) else some none
