-- ===== src/Pairs/Fees/Replaced.antt =====
-- What an update of fee parameters does.

use saros_dlmm_indexer.Base.{◌≡◌, ◌∙◌, refl, ap, arith, Option, none, some, if◌then◌else◌}
use saros_dlmm_indexer.Text.{Text, eq_text, eq_text_iff}
use saros_dlmm_indexer.Schemas.{Pair, ParsedInstructionMessage}
use saros_dlmm_indexer.Store.World.{Db, World, ok, err, no_pair, >>=-of-ok}
use saros_dlmm_indexer.Instruction.{
  update_pair_static_fee_parameters, id_of, check_and_insert_instruction,
}
use saros_dlmm_indexer.Instruction.Dedup.{recorded, Recorded, check_and_insert_fresh}
use saros_dlmm_indexer.Pairs.Fees.{
  UpdatePairStaticFeeParametersDecoded, set_fees, update_found, after_check,
  process_update_pair_static_fee_parameters, process_decoded,
}

module _ {db : Db} (m : ParsedInstructionMessage) (d : UpdatePairStaticFeeParametersDecoded) where
  -- What an update leaves, by the pair that is found: without one the job throws, and no pair changes;
  -- with one it returns, the fee parameters of that pair are the decoded ones, and its other fields and
  -- every other pair are as before.
  abbrev pub Outcome : Option Pair → World db → db.instructions.State → Type 0
  Outcome none w s = process_decoded m (some d) w ≡ (err no_pair, record w { instructions = s })
  Outcome (some p) w s =
      (t : db.pairs.State) × (process_decoded m (some d) w
        ≡ (ok tt, record w { instructions = s; pairs = t }))
      × ((j : Text)
          → db.pairs.find_one j t ≡ (
              if eq_text d.pair j
              then some (record p {
                base_factor = d.fee_parameters.base_factor;
                filter_period = d.fee_parameters.filter_period;
                decay_period = d.fee_parameters.decay_period;
                reduction_factor = d.fee_parameters.reduction_factor;
                variable_fee_control = d.fee_parameters.variable_fee_control;
                max_volatility_accumulator = d.fee_parameters.max_volatility_accumulator;
                protocol_share = d.fee_parameters.protocol_share;
              })
              else db.pairs.find_one j w.pairs))

  -- On the first run of a job, with its pair stored, the fee parameters of that pair are replaced by
  -- the decoded ones, its other fields and every other pair are as before, and the job returns; with
  -- the pair missing the job throws, and no pair changes. Either way the record of the instruction is
  -- stored, and every other record and all other collections are as before.
  pub process_decoded_lem :
      (w : World db)
      → recorded db (id_of m update_pair_static_fee_parameters) w ≡ none
      → (s : db.instructions.State) × Recorded db m update_pair_static_fee_parameters w s
        × Outcome (db.pairs.find_one d.pair w.pairs) w s
  unfolding process_decoded after_check process_update_pair_static_fee_parameters update_found
  process_decoded_lem w fresh =
      let (s, made, looks) =
        check_and_insert_fresh db m update_pair_static_fee_parameters w fresh in
      let first =
        >>=-of-ok (check_and_insert_instruction m update_pair_static_fee_parameters) (after_check d)
          w made in
      (s, looks, outcome s first (db.pairs.find_one d.pair w.pairs) refl)
    where
      outcome :
          (s : db.instructions.State)
          → process_decoded m (some d) w
            ≡ update_found d (db.pairs.find_one d.pair w.pairs) (record w { instructions = s })
          → (o : Option Pair) → db.pairs.find_one d.pair w.pairs ≡ o
          → Outcome o w s
      outcome s first none missing =
          first ∙ ap (λ o. update_found d o (record w { instructions = s })) missing
      outcome s first (some p) found = (
        db.pairs.update_one d.pair (set_fees d.fee_parameters) w.pairs,
        first ∙ ap (λ o. update_found d o (record w { instructions = s })) found,
        λ j.
            db.pairs.find_one-update_one d.pair j (set_fees d.fee_parameters) w.pairs (λ p. refl)
            ∙ ground (arith, eq_text_iff d.pair j, found),
      )
