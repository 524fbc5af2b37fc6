-- ===== src/Positions/Change/Total.antt =====
-- When a change of a position returns.
use saros_dlmm_indexer.Base.{ℕ, ◌≡◌, ◌∙◌, refl, some}
use saros_dlmm_indexer.Base.Int.{ℤ, pos}
use saros_dlmm_indexer.Text.{Text}
use saros_dlmm_indexer.Text.Decimal.{read_int, int_to_text}
use saros_dlmm_indexer.Schemas.{Pair, Position, ParsedInstructionMessage}
use saros_dlmm_indexer.Store.World.{Db, World, ok, >>=-of-ok}
use saros_dlmm_indexer.Positions.Update.{BinChanges, process_bins}
use saros_dlmm_indexer.Positions.Update.Total.{Ready, process_bins_returns}
use saros_dlmm_indexer.Positions.Change.{write_pair, change_bins, process_position}

module _ (db : Db) where
  -- The pair and the position are stored, the pair's reserves are numbers, and every bin is ready.
  pub record ChangeReady (c : BinChanges) (instruction_id : Text) (w : World db) : Type 0 where
    pub pair : Pair
    pub position : Position
    pub x : ℤ
    pub y : ℤ
    pub found_pair : db.pairs.find_one c.pair w.pairs ≡ some pair
    pub found_position : db.positions.find_one c.position w.positions ≡ some position
    pub reads_x : read_int pair.reserve_x ≡ some x
    pub reads_y : read_int pair.reserve_y ≡ some y
    pub bins : Ready db c instruction_id position.lower_bin_lb_id 0 c.bin_ids w

module _ {db : Db} (op : ℤ → ℤ → ℤ) (delta : ℤ → ℤ) (now : ℕ → ℕ) where
  write_pair_ready :
      (id : Text) (p : Pair) (t : ℤ × ℤ) (w : World db) {x y : ℤ}
      → read_int p.reserve_x ≡ some x
      → read_int p.reserve_y ≡ some y
      → (w' : World db) × (write_pair op delta now id p t w ≡ (ok tt, w'))
  unfolding write_pair
  write_pair_ready id p t w {x} {y} hx hy = (
    record w {
      pairs =
          db.pairs.update_one id
            (λ p. record p {
              reserve_x = int_to_text (op x t.0);
              reserve_y = int_to_text (op y t.1);
            })
            w.pairs;
    },
    rw (hx, hy) refl,
  )

  change_bins_ready :
      (c : BinChanges) (m : ParsedInstructionMessage) (id : Text) (w : World db)
      (r : ChangeReady db c id w)
      → (w' : World db) × (change_bins op delta now c m id r.pair r.position w ≡ (ok tt, w'))
  unfolding change_bins
  change_bins_ready c m id w r =
      let (t, v, bins) =
        process_bins_returns op delta c m id r.position.lower_bin_lb_id now 0 c.bin_ids
          (pos 0, pos 0) w r.bins in
      let (w', pair) = write_pair_ready c.pair r.pair t v r.reads_x r.reads_y in
      (
        w',
        >>=-of-ok
              (process_bins op delta c m id r.position.lower_bin_lb_id now 0 c.bin_ids
                (pos 0, pos 0))
              (write_pair op delta now c.pair r.pair) w bins
            ∙ pair,
      )

  pub process_position_ready :
      (c : BinChanges) (m : ParsedInstructionMessage) (id : Text) (w : World db)
      → ChangeReady db c id w
      → (w' : World db) × (process_position op delta now c m id w ≡ (ok tt, w'))
  unfolding process_position
  process_position_ready c m id w r =
      let (w', runs) = change_bins_ready c m id w r in
      (w', rw (r.found_pair, r.found_position) runs)
