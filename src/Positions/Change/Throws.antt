-- ===== src/Positions/Change/Throws.antt =====
-- A change whose first operand is no BigInt throws, and has written nothing.
use saros_dlmm_indexer.Base.{ℕ, ◌≡◌, ◌∙◌, ap, refl, inl, inr, List, ◌∷◌, Option-cases}
use saros_dlmm_indexer.Base.Int.{ℤ, pos}
use saros_dlmm_indexer.Text.{Text}
use saros_dlmm_indexer.Schemas.{Pair, Position, ParsedInstructionMessage}
use saros_dlmm_indexer.Store.World.{Db, World, Error, err, >>=-of-err, no_pair, no_position}
use saros_dlmm_indexer.Positions.Update.{BinChanges, process_bins}
use saros_dlmm_indexer.Positions.Update.Throws.{process_bins_throws}
use saros_dlmm_indexer.Positions.Change.{write_pair, change_bins, process_position}

module _ {db : Db} (op : ℤ → ℤ → ℤ) (delta : ℤ → ℤ) (now : ℕ → ℕ) where
  change_bins_throws :
      (c : BinChanges) (m : ParsedInstructionMessage) (id : Text) (p : Pair) (q : Position) (lb : ℕ)
      (ids : List ℕ) (w : World db) {e : Error}
      → c.bin_ids ≡ lb ∷ ids
      → c.liquidity 0 ≡ err e
      → (x : Error) × (change_bins op delta now c m id p q w ≡ (err x, w))
  unfolding change_bins
  change_bins_throws c m id p q lb ids w some_bin h =
      let (x, f) =
        process_bins_throws op delta c m id q.lower_bin_lb_id now 0 lb ids (pos 0, pos 0) w h in
      (
        x,
        >>=-of-err (process_bins op delta c m id q.lower_bin_lb_id now 0 c.bin_ids (pos 0, pos 0))
            (write_pair op delta now c.pair p) w
            (ap (λ ids. process_bins op delta c m id q.lower_bin_lb_id now 0 ids (pos 0, pos 0) w)
                some_bin
              ∙ f),
      )

  pub process_position_throws :
      (c : BinChanges) (m : ParsedInstructionMessage) (id : Text) (lb : ℕ) (ids : List ℕ)
      (w : World db) {e : Error}
      → c.bin_ids ≡ lb ∷ ids
      → c.liquidity 0 ≡ err e
      → (x : Error) × (process_position op delta now c m id w ≡ (err x, w))
  unfolding process_position
  process_position_throws c m id lb ids w some_bin h =
      elim (Option-cases (db.pairs.find_one c.pair w.pairs)) [
        | inl e ↦ (no_pair, rw e refl)
        | inr (p, e) ↦ elim (Option-cases (db.positions.find_one c.position w.positions)) [
          | inl f ↦ (no_position, rw (e, f) refl)
          | inr (q, f) ↦
              let (x, g) = change_bins_throws c m id p q lb ids w some_bin h in (x, rw (e, f) g)
        ]
      ]
