-- ===== src/Pairs/BinArray.antt =====
-- initialize-bin-array.processor.ts: the bins of an array are created, once.
pub mod Bins
use saros_dlmm_indexer.Base.{
  ⊤, ℕ, ◌+◌, ◌*◌, Bool, true, false, Option, none, some, List, if◌then◌else◌,
}
use saros_dlmm_indexer.Text.{Text, codes, eq_text}
use saros_dlmm_indexer.Schemas.{Bin, PartiallyDecodedInstruction, ParsedInstructionMessage}
use saros_dlmm_indexer.Store.Batch.{docs_from}
use saros_dlmm_indexer.Store.World.{
  Db, World, Action, Result, ok, err, ◌>>=◌, ◌>>◌, pure, gets, duplicate_key,
}
use saros_dlmm_indexer.Idl.{IdlInstruction}
use saros_dlmm_indexer.Library.{decode_instruction, get_account}
use saros_dlmm_indexer.Positions.Update.{bin_id}

-- `BIN_ARRAY_SIZE`
abbrev pub bin_array_size : ℕ
bin_array_size = 256

pub record InitializeBinArrayDecoded : Type 0 where
  pub index : ℕ
  pub pair : Text
  pub bin_array : Text

-- `decodeInitializeBinArrayInstruction`; the argument is `data.id`. Null where anything throws.
decoded_of : ℕ → Option Text → Option Text → Option InitializeBinArrayDecoded
decoded_of id (some pair) (some bin_array) =
    some (record { index = id; pair = pair; bin_array = bin_array })
decoded_of id _ _ = none

accounts_of :
    Option (Option (IdlInstruction × Option ℕ)) → List Text → Option InitializeBinArrayDecoded
unfolding decoded_of
accounts_of (some (some (ix, some id))) accounts =
    decoded_of id (get_account ix accounts (codes "pair"))
      (get_account ix accounts (codes "bin_array"))
accounts_of _ accounts = none

unfoldable pub decode_initialize_bin_array_instruction :
    (Text → Option (List ℕ))
    → (Text → Option (Option ℕ))
    → PartiallyDecodedInstruction
    → Option InitializeBinArrayDecoded
unfolding accounts_of
decode_initialize_bin_array_instruction bs58_decode coder ix =
    accounts_of (decode_instruction bs58_decode coder ix.data_base58) ix.accounts

-- `binData` of a pass.
abbrev pub new_bin : InitializeBinArrayDecoded → ℕ → Bin
new_bin d bin_index = record {
  id = bin_id d.pair (d.index * bin_array_size + bin_index);
  lb_bin_id = d.index * bin_array_size + bin_index;
  bin_array_id = d.bin_array;
  pair_id = d.pair;
  bin_array_index = d.index;
  total_supply = codes "0";
  reserve_x = codes "0";
  reserve_y = codes "0";
}

module _ {db : Db} where
  pub insert_bins : List Bin → Action db ⊤
  insert_bins ds w =
      let (done, s) = db.bins.insert_many ds w.bins in
      (if done then ok tt else err duplicate_key, record w { bins = s })

  create_bins : InitializeBinArrayDecoded → Bool → Action db ⊤
  unfolding insert_bins
  create_bins d true = pure tt
  create_bins d false = insert_bins (docs_from (new_bin d) 0 bin_array_size)

  pub process_initialize_bin_array : InitializeBinArrayDecoded → Action db ⊤
  unfolding create_bins
  process_initialize_bin_array d = do
    existing_bin ← gets (λ w.
        db.bins.exists_where (λ b. eq_text b.id (bin_id d.pair (d.index * bin_array_size))) w.bins)
    create_bins d existing_bin

  process_decoded : Option InitializeBinArrayDecoded → Action db ⊤
  unfolding process_initialize_bin_array
  process_decoded none = pure tt
  process_decoded (some d) = process_initialize_bin_array d

  pub process :
      (Text → Option (List ℕ)) → (Text → Option (Option ℕ)) → ParsedInstructionMessage → Action db ⊤
  unfolding process_decoded
  process bs58_decode coder m =
      process_decoded (decode_initialize_bin_array_instruction bs58_decode coder m.instruction)
