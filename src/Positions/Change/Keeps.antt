-- ===== src/Positions/Change/Keeps.antt =====
-- What a change of a position leaves as it was, whether it returns or throws: the fields it does not
-- write, and the collections it does not write.
use mathlib.Core.Option
use saros_dlmm_indexer.Base.{
  ℕ, ◌≡◌, refl, ap, inl, inr, Option, none, some, Option-cases, if◌then◌else◌, Bool, true, false,
  [], ◌∙◌,
}
use saros_dlmm_indexer.Base.Int.{ℤ, pos}
use saros_dlmm_indexer.Text.{Text, eq_text}
use saros_dlmm_indexer.Text.Decimal.{int_to_text, read_int}
use saros_dlmm_indexer.Schemas.{Bin, LiquidityShares, Pair, Position, ParsedInstructionMessage}
use saros_dlmm_indexer.Store.World.{Db, World}
use saros_dlmm_indexer.Store.Keeps.{Keeps, Keeps-bind, records}
use saros_dlmm_indexer.Positions.Update.{BinChanges, process_bins}
use saros_dlmm_indexer.Positions.Update.Keeps.{Unseen, process_bins-Keeps}
use saros_dlmm_indexer.Positions.Change.{write_pair, change_bins, process_position}

module _ {db : Db} {X : Type 0} (view : World db → X) (unseen : Unseen view) (op : ℤ → ℤ → ℤ)
    (delta : ℤ → ℤ) (now : ℕ → ℕ) where
  write_pair-Keeps :
      (pair : Text) (p : Pair) (t : ℤ × ℤ) → Keeps view (write_pair op delta now pair p t)
  unfolding write_pair
  write_pair-Keeps pair p t w = elim (Option-cases (read_int p.reserve_x)) [
    | inl e ↦ rw e refl
    | inr (x, e) ↦ elim (Option-cases (read_int p.reserve_y)) [
      | inl f ↦ rw (e, f) refl
      | inr (y, f) ↦
          rw (e, f) (unseen.pair pair (int_to_text (op x t.0)) (int_to_text (op y t.1)) w)
    ]
  ]

  change_bins-Keeps :
      (c : BinChanges) (m : ParsedInstructionMessage) (id : Text) (p : Pair) (q : Position)
      → Keeps view (change_bins op delta now c m id p q)
  unfolding change_bins
  change_bins-Keeps c m id p q =
      Keeps-bind view
        (process_bins op delta c m id q.lower_bin_lb_id now 0 c.bin_ids (pos 0, pos 0))
        (write_pair op delta now c.pair p)
        (process_bins-Keeps view unseen op delta c m id q.lower_bin_lb_id now 0 c.bin_ids
          (pos 0, pos 0))
        (write_pair-Keeps c.pair p)

  pub process_position-Keeps :
      (c : BinChanges) (m : ParsedInstructionMessage) (id : Text)
      → Keeps view (process_position op delta now c m id)
  unfolding process_position
  process_position-Keeps c m id w = elim (Option-cases (db.pairs.find_one c.pair w.pairs)) [
    | inl e ↦ rw e refl
    | inr (p, e) ↦ elim (Option-cases (db.positions.find_one c.position w.positions)) [
      | inl f ↦ rw (e, f) refl
      | inr (q, f) ↦ rw (e, f) (change_bins-Keeps c m id p q w)
    ]
  ]

pub records-Unseen : {db : Db} → Unseen (records db)
records-Unseen = record {
  share = λ id balance w. refl;
  bin = λ id x y supply w. refl;
  event = λ w s. refl;
  pair = λ id x y w. refl;
}

-- A patch that a function does not show.
map_update :
    {D Y : Type 0} (b : Bool) (f : D → D) (g : D → Y) (o : Option D)
    → ((d : D) → g (f d) ≡ g d)
    → Option.map g (if b then Option.map f o else o) ≡ Option.map g o
map_update true f g none h = refl
map_update true f g (some d) h = ap some (h d)
map_update false f g o h = refl

abbrev pub strip_pair : Pair → Pair
strip_pair p = record p { reserve_x = []; reserve_y = [] }

abbrev pub strip_bin : Bin → Bin
strip_bin b = record b { reserve_x = []; reserve_y = []; total_supply = [] }

abbrev pub strip_share : LiquidityShares → LiquidityShares
strip_share s = record s { balance = [] }

module _ (db : Db) where
  -- A pair, a bin and a share without the numbers that a change writes.
  abbrev pub pair_rest : Text → World db → Option Pair
  pair_rest j w = Option.map strip_pair (db.pairs.find_one j w.pairs)

  abbrev pub bin_rest : Text → World db → Option Bin
  bin_rest j w = Option.map strip_bin (db.bins.find_one j w.bins)

  abbrev pub share_rest : Text → World db → Option LiquidityShares
  share_rest j w = Option.map strip_share (db.shares.find_one j w.shares)

  -- The collections that a change does not write at all: their states are put in one state of all
  -- collections, whose pairs, bins, shares and events are those of `base`.
  abbrev pub others : World db → World db → World db
  others base w = record w {
    pairs = base.pairs;
    bins = base.bins;
    shares = base.shares;
    update_events = base.update_events;
  }

  pair_rest-Unseen : (j : Text) → Unseen (pair_rest j)
  pair_rest-Unseen j = record {
    share = λ id balance w. refl;
    bin = λ id x y supply w. refl;
    event = λ w s. refl;
    pair = λ k x y w.
        ap (Option.map strip_pair) (
          db.pairs.find_one-update_one k j (λ p. record p { reserve_x = x; reserve_y = y }) w.pairs
            (λ d. refl))
        ∙ map_update (eq_text k j) _ _ (db.pairs.find_one j w.pairs) (λ d. refl);
  }

  bin_rest-Unseen : (j : Text) → Unseen (bin_rest j)
  bin_rest-Unseen j = record {
    share = λ id balance w. refl;
    bin = λ k x y supply w.
        ap (Option.map strip_bin) (
          db.bins.find_one-update_one k j
            (λ b. record b { reserve_x = x; reserve_y = y; total_supply = supply }) w.bins
            (λ d. refl))
        ∙ map_update (eq_text k j) _ _ (db.bins.find_one j w.bins) (λ d. refl);
    event = λ w s. refl;
    pair = λ k x y w. refl;
  }

  share_rest-Unseen : (j : Text) → Unseen (share_rest j)
  share_rest-Unseen j = record {
    share = λ k balance w.
        ap (Option.map strip_share) (
          db.shares.find_one-update_one k j (λ s. record s { balance = balance }) w.shares
            (λ d. refl))
        ∙ map_update (eq_text k j) _ _ (db.shares.find_one j w.shares) (λ d. refl);
    bin = λ id x y supply w. refl;
    event = λ w s. refl;
    pair = λ k x y w. refl;
  }

  others-Unseen : (base : World db) → Unseen (others base)
  others-Unseen base = record {
    share = λ k balance w. refl;
    bin = λ id x y supply w. refl;
    event = λ w s. refl;
    pair = λ k x y w. refl;
  }

  -- Everything of a state but the numbers that a change writes and the update events.
  pub record RestKept (w w' : World db) : Type 0 where
    pub others : w' ≡ record w {
      pairs = w'.pairs;
      bins = w'.bins;
      shares = w'.shares;
      update_events = w'.update_events;
    }
    pub pairs : (j : Text) → pair_rest j w' ≡ pair_rest j w
    pub bins : (j : Text) → bin_rest j w' ≡ bin_rest j w
    pub shares : (j : Text) → share_rest j w' ≡ share_rest j w

  pub process_position-RestKept :
      (op : ℤ → ℤ → ℤ) (delta : ℤ → ℤ) (now : ℕ → ℕ) (c : BinChanges) (m : ParsedInstructionMessage)
      (id : Text) (w : World db)
      → RestKept w (process_position op delta now c m id w).1
  process_position-RestKept op delta now c m id w = record {
    others =
        process_position-Keeps (others (process_position op delta now c m id w).1)
          (others-Unseen (process_position op delta now c m id w).1) op delta now c m id w;
    pairs = λ j. process_position-Keeps (pair_rest j) (pair_rest-Unseen j) op delta now c m id w;
    bins = λ j. process_position-Keeps (bin_rest j) (bin_rest-Unseen j) op delta now c m id w;
    shares = λ j. process_position-Keeps (share_rest j) (share_rest-Unseen j) op delta now c m id w;
  }
