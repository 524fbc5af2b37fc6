-- ===== src/Tests/Positions.antt =====
-- Examples for the processors of positions.
use saros_dlmm_indexer.Base.{ℕ, ◌≡◌, refl, Option, some, List, [], ◌∷◌, ◌++◌}
use saros_dlmm_indexer.Base.Int.{pos, ◌+ℤ◌}
use saros_dlmm_indexer.Instruction.Dedup.{Recorded}
use saros_dlmm_indexer.Text.{Text, eq_text, codes}
use saros_dlmm_indexer.Text.Decimal.{
  digits, is_digit, read_digits, read_nat, negative, nat_to_text, int_to_text, read_int,
}
use saros_dlmm_indexer.Store.Listed.{listed, find_one}
use saros_dlmm_indexer.Store.World.{World, Error, ok, err}
use saros_dlmm_indexer.Positions.Update.{share_id, bin_id}
use saros_dlmm_indexer.Positions.Change.{PositionEvent}
use saros_dlmm_indexer.Positions.Increase.{process_increase_position}
use saros_dlmm_indexer.Positions.Increase.Amounts.{Increased, process_increase_position_returns}
use saros_dlmm_indexer.Library.{event_identifier, split_at, decode_type}
use saros_dlmm_indexer.Instruction.{decrease_position, increase_position}
use saros_dlmm_indexer.Positions.Change
use saros_dlmm_indexer.Positions.Change.{decode_position_event, process_decoded}
use saros_dlmm_indexer.Positions.Update.Total.{BinReady}
use saros_dlmm_indexer.Positions.Change.Total.{ChangeReady}
use saros_dlmm_indexer.Positions.Change.Retry.{process_decoded_retry}
use saros_dlmm_indexer.Positions.Decrease
use saros_dlmm_indexer.Positions.Decrease.{decode_decrease_position_event}
use saros_dlmm_indexer.Positions.Decrease.Throws.{process_throws}
use saros_dlmm_indexer.Positions.Increase.{changes_of}
use saros_dlmm_indexer.Tests.{
  sample_pair, sample_position, nothing_recorded, sample_db, sample_world, sample_job,
}

abbrev sample_event : PositionEvent
sample_event = record {
  pair = codes "A";
  position = codes "P";
  bin_ids = 8 ∷ [];
  amounts_x = 5 ∷ [];
  amounts_y = 6 ∷ [];
  liquidity = 7 ∷ [];
}

increased : World sample_db
increased = (process_increase_position (λ _. 0) sample_event sample_job (codes "I") sample_world).1

bin_is_ready : BinReady sample_db (changes_of sample_event) (codes "I") 8 0 8 sample_world
unfolding share_id bin_id int_to_text nat_to_text digits read_int read_nat read_digits is_digit
    negative eq_text sample_db sample_world listed find_one
bin_is_ready = record {
  inside = refl;
  balance = pos 4;
  x = pos 20;
  y = pos 30;
  s = pos 10;
  ax = pos 5;
  ay = pos 6;
  l = pos 7;
  has_balance = refl;
  has_x = refl;
  has_y = refl;
  has_s = refl;
  amount_x = refl;
  amount_y = refl;
  liquidity = refl;
  fresh = refl;
}

sample_ready : ChangeReady sample_db (changes_of sample_event) (codes "I") sample_world
unfolding int_to_text nat_to_text digits read_int read_nat read_digits is_digit negative eq_text
    sample_db sample_world listed find_one
sample_ready = record {
  pair = sample_pair;
  position = sample_position;
  x = pos 100;
  y = pos 200;
  found_pair = refl;
  found_position = refl;
  reads_x = refl;
  reads_y = refl;
  bins = (bin_is_ready, tt, tt);
}

process_increase_position_returns_example :
    (w' : World sample_db) × (process_increase_position
        (λ _. 0)
        sample_event
        sample_job
        (codes "I")
        sample_world
      ≡ (ok tt, w'))
    × Increased sample_event sample_ready.position.lower_bin_lb_id sample_world w'
process_increase_position_returns_example =
    process_increase_position_returns (λ _. 0) sample_event sample_job (codes "I") sample_world
      sample_ready

abbrev decrease_bytes : Text → Option (List ℕ)
decrease_bytes data_base58 =
    some (event_identifier ++ (200 ∷ 116 ∷ 151 ∷ 126 ∷ 182 ∷ 237 ∷ 245 ∷ 254 ∷ 0 ∷ []))

abbrev decrease_coder : List ℕ → Option PositionEvent
decrease_coder bytes = some sample_event

decrease_decodes :
    decode_decrease_position_event decrease_bytes decrease_coder (codes "Z") ≡ some sample_event
unfolding decode_decrease_position_event decode_position_event Change.after_identifier
    Change.after_discriminator Change.event_of split_at decode_type eq_text
decrease_decodes = refl

process_throws_example :
    (x : Error) × (s : sample_db.instructions.State) × (Decrease.process
        (λ _. 0)
        decrease_bytes
        decrease_coder
        sample_job
        sample_world
      ≡ (err x, record sample_world { instructions = s }))
    × Recorded sample_db sample_job decrease_position sample_world s
process_throws_example =
    process_throws (λ _. 0) decrease_bytes decrease_coder sample_job sample_event 8 [] sample_world
      decrease_decodes refl (nothing_recorded decrease_position)

process_decoded_retry_example :
    let w' =
      (process_decoded {db = sample_db} ◌+ℤ◌
        (λ z. z)
        (λ _. 0)
        increase_position
        sample_job
        (some (changes_of sample_event))
        sample_world).1 in
    process_decoded ◌+ℤ◌
      (λ z. z)
      (λ _. 0)
      increase_position
      sample_job
      (some (changes_of sample_event))
      w'
    ≡ (ok tt, w')
process_decoded_retry_example =
    process_decoded_retry ◌+ℤ◌ (λ z. z) (λ _. 0) increase_position sample_job
      (some (changes_of sample_event)) sample_world
