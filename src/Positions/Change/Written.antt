-- ===== src/Positions/Change/Written.antt =====
-- What a change of a position has written, if it returned.
use mathlib.Core.Option
use saros_dlmm_indexer.Base.{
  ℕ, ◌≡◌, refl, sym, ap, inl, inr, Option, some, true, arith, if◌then◌else◌, Option-cases,
}
use saros_dlmm_indexer.Base.Int.{ℤ, pos}
use saros_dlmm_indexer.Text.{Text, eq_text, eq_text_iff}
use saros_dlmm_indexer.Text.Decimal.{int_to_text, read_int, read_int-int_to_text}
use saros_dlmm_indexer.Schemas.{Pair, Position, ParsedInstructionMessage}
use saros_dlmm_indexer.Store.World.{Db, World, ok, >>=-eq-ok}
use saros_dlmm_indexer.Positions.Update.{BinChanges, process_bins}
use saros_dlmm_indexer.Positions.Update.Steps.{value}
use saros_dlmm_indexer.Positions.Update.Effect.{Done}
use saros_dlmm_indexer.Positions.Update.Loop.{process_bins-Done}
use saros_dlmm_indexer.Positions.Update.Events.{events_from, process_bins-inserts}
use saros_dlmm_indexer.Positions.Change.{write_pair, change_bins, process_position}

module _ (db : Db) where
  abbrev pub pair_x_of : Text → World db → Option ℤ
  pair_x_of id w = value (λ p. p.reserve_x) (db.pairs.find_one id w.pairs)

  abbrev pub pair_y_of : Text → World db → Option ℤ
  pair_y_of id w = value (λ p. p.reserve_y) (db.pairs.find_one id w.pairs)

module _ {db : Db} (op : ℤ → ℤ → ℤ) where
  -- The pair's reserves are BigInts, and only they are written.
  pub record PairWritten (id : Text) (pair : Pair) (totals : ℤ × ℤ) (w w' : World db) : Type 0 where
    pub x : ℤ
    pub y : ℤ
    pub reads_x : read_int pair.reserve_x ≡ some x
    pub reads_y : read_int pair.reserve_y ≡ some y
    pub after : w' ≡ record w {
      pairs =
          db.pairs.update_one id
            (λ p. record p {
              reserve_x = int_to_text (op x totals.0);
              reserve_y = int_to_text (op y totals.1);
            })
            w.pairs;
    }

  PairWritten-pair_x_of :
      (id j : Text) (pair : Pair) (totals : ℤ × ℤ) (w w' : World db)
      (v : PairWritten id pair totals w w')
      → db.pairs.find_one id w.pairs ≡ some pair
      → pair_x_of db j w' ≡ (
          if eq_text id j
          then Option.map (λ b. op b totals.0) (pair_x_of db j w)
          else pair_x_of db j w)
  PairWritten-pair_x_of id j pair totals w w' v found = rw (ap (λ u. u.pairs) v.after) (
      ground (
        arith,
        db.pairs.find_one-update_one id j
            (λ p. record p {
              reserve_x = int_to_text (op v.x totals.0);
              reserve_y = int_to_text (op v.y totals.1);
            })
            w.pairs (λ d. refl),
        eq_text_iff id j,
        v.reads_x,
        read_int-int_to_text (op v.x totals.0),
      ))

  PairWritten-pair_y_of :
      (id j : Text) (pair : Pair) (totals : ℤ × ℤ) (w w' : World db)
      (v : PairWritten id pair totals w w')
      → db.pairs.find_one id w.pairs ≡ some pair
      → pair_y_of db j w' ≡ (
          if eq_text id j
          then Option.map (λ b. op b totals.1) (pair_y_of db j w)
          else pair_y_of db j w)
  PairWritten-pair_y_of id j pair totals w w' v found = rw (ap (λ u. u.pairs) v.after) (
      ground (
        arith,
        db.pairs.find_one-update_one id j
            (λ p. record p {
              reserve_x = int_to_text (op v.x totals.0);
              reserve_y = int_to_text (op v.y totals.1);
            })
            w.pairs (λ d. refl),
        eq_text_iff id j,
        v.reads_y,
        read_int-int_to_text (op v.y totals.1),
      ))

module _ {db : Db} (op : ℤ → ℤ → ℤ) (delta : ℤ → ℤ) (now : ℕ → ℕ) where
  write_pair-PairWritten :
      (id : Text) (pair : Pair) (totals : ℤ × ℤ) (w w' : World db)
      → write_pair op delta now id pair totals w ≡ (ok tt, w')
      → PairWritten op id pair totals w w'
  unfolding write_pair
  write_pair-PairWritten id pair totals w w' h = elim (Option-cases (read_int pair.reserve_x)) [
    | inl e ↦ absurd (ground arith)
    | inr (x, ex) ↦ elim (Option-cases (read_int pair.reserve_y)) [
      | inl e ↦ absurd (ground arith)
      | inr (y, ey) ↦ record { x = x; y = y; reads_x = ex; reads_y = ey; after = ground arith }
    ]
  ]

  -- Everything that `process_position` has done.
  pub record Changed (c : BinChanges) (m : ParsedInstructionMessage) (instruction_id : Text)
      (w w' : World db) : Type 0 where
    pub pair : Pair
    pub position : Position
    pub found_pair : db.pairs.find_one c.pair w.pairs ≡ some pair
    pub found_position : db.positions.find_one c.position w.positions ≡ some position
    pub totals : ℤ × ℤ
    pub between : World db
    pub bins : Done db op c position.lower_bin_lb_id 0 c.bin_ids (pos 0, pos 0) totals w between
    pub events :
        db.update_events.insert_many
          (events_from delta c m instruction_id now 0 c.bin_ids)
          w.update_events
        ≡ (true, between.update_events)
    pub pair_written : PairWritten op c.pair pair totals between w'

  process_found :
      (c : BinChanges) (m : ParsedInstructionMessage) (instruction_id : Text) (w w' : World db)
      (p : Pair) (q : Position)
      → db.pairs.find_one c.pair w.pairs ≡ some p
      → db.positions.find_one c.position w.positions ≡ some q
      → change_bins op delta now c m instruction_id p q w ≡ (ok tt, w')
      → Changed c m instruction_id w w'
  unfolding change_bins
  process_found c m instruction_id w w' p q ep eq h =
      let (t, v, bins, rest) =
        >>=-eq-ok
          (process_bins op delta c m instruction_id q.lower_bin_lb_id now 0 c.bin_ids
            (pos 0, pos 0))
          (λ t. write_pair op delta now c.pair p t) w h in
      record {
        pair = p;
        position = q;
        found_pair = ep;
        found_position = eq;
        totals = t;
        between = v;
        bins =
            process_bins-Done op delta c m instruction_id q.lower_bin_lb_id now 0 c.bin_ids
              (pos 0, pos 0) t w v bins;
        events =
            process_bins-inserts op delta c m instruction_id now q.lower_bin_lb_id 0 c.bin_ids
              (pos 0, pos 0) t w v bins;
        pair_written = write_pair-PairWritten c.pair p t v w' rest;
      }

  pub process_position-Changed :
      (c : BinChanges) (m : ParsedInstructionMessage) (instruction_id : Text) (w w' : World db)
      → process_position op delta now c m instruction_id w ≡ (ok tt, w')
      → Changed c m instruction_id w w'
  unfolding process_position
  process_position-Changed c m instruction_id w w' h =
      elim (Option-cases (db.pairs.find_one c.pair w.pairs)) [
        | inl e ↦ absurd (ground arith)
        | inr (p, ep) ↦ elim (Option-cases (db.positions.find_one c.position w.positions)) [
          | inl e ↦ absurd (ground arith)
          | inr (q, eq) ↦ process_found c m instruction_id w w' p q ep eq (ground arith)
        ]
      ]

  -- The pair's reserves move by the totals, and no other pair's do.
  pub Changed-pair_x_of :
      (c : BinChanges) (m : ParsedInstructionMessage) (instruction_id j : Text) (w w' : World db)
      (d : Changed c m instruction_id w w')
      → pair_x_of db j w' ≡ (
          if eq_text c.pair j
          then Option.map (λ b. op b d.totals.0) (pair_x_of db j w)
          else pair_x_of db j w)
  Changed-pair_x_of c m instruction_id j w w' d = rw (sym d.bins.same_pairs) (
      PairWritten-pair_x_of op c.pair j d.pair d.totals d.between w' d.pair_written
        (rw d.bins.same_pairs d.found_pair))

  pub Changed-pair_y_of :
      (c : BinChanges) (m : ParsedInstructionMessage) (instruction_id j : Text) (w w' : World db)
      (d : Changed c m instruction_id w w')
      → pair_y_of db j w' ≡ (
          if eq_text c.pair j
          then Option.map (λ b. op b d.totals.1) (pair_y_of db j w)
          else pair_y_of db j w)
  Changed-pair_y_of c m instruction_id j w w' d = rw (sym d.bins.same_pairs) (
      PairWritten-pair_y_of op c.pair j d.pair d.totals d.between w' d.pair_written
        (rw d.bins.same_pairs d.found_pair))
