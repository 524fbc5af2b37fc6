-- ===== src/Positions/Update/Events.antt =====
-- The update events that the loop creates, if it returned.
use saros_dlmm_indexer.Base.{ℕ, suc, ◌-◌, ◌≡◌, sym, ◌∙◌, ap, true, some, List, [], ◌∷◌}
use saros_dlmm_indexer.Base.Int.{ℤ, pos}
use saros_dlmm_indexer.Text.{Text}
use saros_dlmm_indexer.Schemas.{ParsedInstructionMessage, PositionUpdateEvent}
use saros_dlmm_indexer.Store.World.{Db, World, Result, ok, err, ◌>>◌, >>=-eq-ok}
use saros_dlmm_indexer.Positions.Update.{
  BinChanges, share_id, bin_id, update_share, update_bin, check_share_index, record_change,
  update_event, process_bin, process_bins,
}
use saros_dlmm_indexer.Positions.Update.Steps.{update_share-ShareWritten, update_bin-BinWritten}
use saros_dlmm_indexer.Positions.Update.Effect.{amount_at}
use saros_dlmm_indexer.Positions.Update.Loop.{record_change-Recorded, check_share_index-same}

abbrev value_or_zero : Result ℤ → ℤ
value_or_zero r = elim r [ ok z ↦ z | err _ ↦ pos 0 ]

module _ (delta : ℤ → ℤ) (c : BinChanges) (m : ParsedInstructionMessage) (instruction_id : Text)
    (now : ℕ → ℕ) where
  abbrev pub event_at : ℕ → ℕ → PositionUpdateEvent
  event_at i lb =
      update_event delta c m instruction_id now i lb (amount_at c.amount_x i)
        (amount_at c.amount_y i) (amount_at c.liquidity i)

  abbrev pub events_from : ℕ → List ℕ → List PositionUpdateEvent
  events_from i [] = []
  events_from i (lb ∷ ids) = event_at i lb ∷ events_from (suc i) ids

module _ {db : Db} (op : ℤ → ℤ → ℤ) (delta : ℤ → ℤ) (c : BinChanges) (m : ParsedInstructionMessage)
    (instruction_id : Text) (now : ℕ → ℕ) where
  process_bin-creates :
      (lower_bin_id i lb : ℕ) (t t' : ℤ × ℤ) (w w' : World db)
      → process_bin op delta c m instruction_id lower_bin_id now i lb t w ≡ (ok t', w')
      → db.update_events.create (event_at delta c m instruction_id now i lb) w.update_events
        ≡ some w'.update_events
  unfolding process_bin
  process_bin-creates lower_bin_id i lb t t' w w' h =
      let share = update_share op delta (share_id c.position (lb - lower_bin_id)) (c.liquidity i) in
      let bin =
        update_bin op delta (bin_id c.pair lb) (c.amount_x i) (c.amount_y i) (c.liquidity i) in
      let change = record_change op delta c m instruction_id lower_bin_id now i lb t in
      let (_, w₀, a₀, h₀) =
        >>=-eq-ok (check_share_index op delta c m instruction_id lower_bin_id now lb)
          (λ _. share >> (bin >> change)) w h in
      let (_, w₁, a₁, h₁) = >>=-eq-ok share (λ _. bin >> change) w₀ h₀ in
      let (_, w₂, a₂, h₂) = >>=-eq-ok bin (λ _. change) w₁ h₁ in
      let s = update_share-ShareWritten op delta _ (c.liquidity i) w₀ w₁ a₁ in
      let b = update_bin-BinWritten op delta _ _ _ (c.liquidity i) w₁ w₂ a₂ in
      let r =
        record_change-Recorded op delta c m instruction_id lower_bin_id now i lb t t' w₂ w' h₂ in
      let same : w₂.update_events ≡ w.update_events =
        ap (λ u. u.update_events) b.after
        ∙ ap (λ u. u.update_events) s.after
        ∙ ap (λ u. u.update_events)
            (check_share_index-same op delta c m instruction_id lower_bin_id now lb w w₀ a₀) in
      let at_x : amount_at c.amount_x i ≡ r.ax = ap value_or_zero r.operand_x in
      let at_y : amount_at c.amount_y i ≡ r.ay = ap value_or_zero r.operand_y in
      let at_l : amount_at c.liquidity i ≡ r.l = ap value_or_zero r.operand_l in
      let named : event_at delta c m instruction_id now i lb
          ≡ update_event delta c m instruction_id now i lb r.ax r.ay r.l =
        (λ k. update_event delta c m instruction_id now i lb (at_x k) (at_y k) (at_l k)) in
      ap (λ d. db.update_events.create d w.update_events) named
      ∙ ap (db.update_events.create (update_event delta c m instruction_id now i lb r.ax r.ay r.l))
          (sym same)
      ∙ r.created
      ∙ ap some (sym (ap (λ u. u.update_events) r.after))

  pub process_bins-inserts :
      (lower_bin_id i : ℕ) (ids : List ℕ) (t t' : ℤ × ℤ) (w w' : World db)
      → process_bins op delta c m instruction_id lower_bin_id now i ids t w ≡ (ok t', w')
      → db.update_events.insert_many
          (events_from delta c m instruction_id now i ids)
          w.update_events
        ≡ (true, w'.update_events)
  unfolding process_bins
  process_bins-inserts lower_bin_id i [] t t' w w' h =
      db.update_events.insert_many_nil w.update_events ∙ ap (λ r. (true, r.1.update_events)) h
  process_bins-inserts lower_bin_id i (lb ∷ ids) t t' w w' h =
      let (u, v, first, rest) =
        >>=-eq-ok (process_bin op delta c m instruction_id lower_bin_id now i lb t)
          (process_bins op delta c m instruction_id lower_bin_id now (suc i) ids) w h in
      db.update_events.insert_many_created (event_at delta c m instruction_id now i lb)
        (events_from delta c m instruction_id now (suc i) ids) w.update_events
        (process_bin-creates lower_bin_id i lb t u w v first)
      ∙ process_bins-inserts lower_bin_id (suc i) ids u t' v w' rest
