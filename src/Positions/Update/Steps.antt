-- ===== src/Positions/Update/Steps.antt =====
-- What each part of the loop's body has done, if it returned.
use mathlib.Core.Option
use saros_dlmm_indexer.Base.{
  ◌≡◌, refl, ap, inl, inr, Option, none, some, arith, if◌then◌else◌, Option-cases,
}
use saros_dlmm_indexer.Base.Int.{ℤ}
use saros_dlmm_indexer.Text.{Text, eq_text, eq_text_iff}
use saros_dlmm_indexer.Text.Decimal.{int_to_text, read_int, read_int-int_to_text}
use saros_dlmm_indexer.Schemas.{Bin, LiquidityShares, PositionUpdateEvent}
use saros_dlmm_indexer.Store.World.{Db, World, Result, ok, err}
use saros_dlmm_indexer.Positions.Update.{update_share, update_bin, store_event}

-- The BigInt that a field of a document holds, if the document is there and the field is a number.
abbrev pub value : {D : Type 0} → (D → Text) → Option D → Option ℤ
value field none = none
value field (some d) = read_int (field d)

module _ (db : Db) where
  abbrev pub balance_of : Text → World db → Option ℤ
  balance_of id w = value (λ s. s.balance) (db.shares.find_one id w.shares)

  abbrev pub reserve_x_of : Text → World db → Option ℤ
  reserve_x_of id w = value (λ b. b.reserve_x) (db.bins.find_one id w.bins)

  abbrev pub reserve_y_of : Text → World db → Option ℤ
  reserve_y_of id w = value (λ b. b.reserve_y) (db.bins.find_one id w.bins)

  abbrev pub total_supply_of : Text → World db → Option ℤ
  total_supply_of id w = value (λ b. b.total_supply) (db.bins.find_one id w.bins)

module _ {db : Db} (op : ℤ → ℤ → ℤ) (delta : ℤ → ℤ) where
  -- The share is there, its balance and the operand are BigInts, and only the share is written.
  pub record ShareWritten (id : Text) (liquidity : Result ℤ) (w w' : World db) : Type 0 where
    pub share : LiquidityShares
    pub balance : ℤ
    pub amount : ℤ
    pub found : db.shares.find_one id w.shares ≡ some share
    pub reads : read_int share.balance ≡ some balance
    pub operand : liquidity ≡ ok amount
    pub after : w' ≡ record w {
      shares =
          db.shares.update_one id
            (λ s. record s { balance = int_to_text (op balance amount) })
            w.shares;
    }

  share_written :
      (id : Text) (liquidity : Result ℤ) (w w' : World db) (s : LiquidityShares) (b : ℤ)
      → db.shares.find_one id w.shares ≡ some s
      → read_int s.balance ≡ some b
      → update_share op delta id liquidity w ≡ (ok tt, w')
      → ShareWritten id liquidity w w'
  unfolding update_share
  share_written id (ok l) w w' s b e f h = record {
    share = s;
    balance = b;
    amount = l;
    found = e;
    reads = f;
    operand = refl;
    after = ground arith;
  }
  share_written id (err x) w w' s b e f h = absurd (ground arith)

  pub update_share-ShareWritten :
      (id : Text) (liquidity : Result ℤ) (w w' : World db)
      → update_share op delta id liquidity w ≡ (ok tt, w')
      → ShareWritten id liquidity w w'
  unfolding update_share
  update_share-ShareWritten id liquidity w w' h =
      elim (Option-cases (db.shares.find_one id w.shares)) [
        | inl e ↦ absurd (ground arith)
        | inr (s, e) ↦ elim (Option-cases (read_int s.balance)) [
          | inl f ↦ absurd (ground arith)
          | inr (b, f) ↦ share_written id liquidity w w' s b e f h
        ]
      ]

  pub record BinWritten (id : Text) (amount_x amount_y liquidity : Result ℤ) (w w' : World db)
      : Type 0 where
    pub bin : Bin
    pub x : ℤ
    pub y : ℤ
    pub s : ℤ
    pub ax : ℤ
    pub ay : ℤ
    pub l : ℤ
    pub found : db.bins.find_one id w.bins ≡ some bin
    pub reads_x : read_int bin.reserve_x ≡ some x
    pub reads_y : read_int bin.reserve_y ≡ some y
    pub reads_s : read_int bin.total_supply ≡ some s
    pub operand_x : amount_x ≡ ok ax
    pub operand_y : amount_y ≡ ok ay
    pub operand_l : liquidity ≡ ok l
    pub after : w' ≡ record w {
      bins =
          db.bins.update_one id
            (λ b. record b {
              reserve_x = int_to_text (op x ax);
              reserve_y = int_to_text (op y ay);
              total_supply = int_to_text (op s l);
            })
            w.bins;
    }

  bin_written :
      (id : Text) (amount_x amount_y liquidity : Result ℤ) (w w' : World db) (b : Bin)
      → db.bins.find_one id w.bins ≡ some b
      → update_bin op delta id amount_x amount_y liquidity w ≡ (ok tt, w')
      → BinWritten id amount_x amount_y liquidity w w'
  unfolding update_bin
  bin_written id (ok ax) (ok ay) (ok l) w w' b e h = elim (Option-cases (read_int b.reserve_x)) [
    | inl f ↦ absurd (ground arith)
    | inr (x, fx) ↦ elim (Option-cases (read_int b.reserve_y)) [
      | inl f ↦ absurd (ground arith)
      | inr (y, fy) ↦ elim (Option-cases (read_int b.total_supply)) [
        | inl f ↦ absurd (ground arith)
        | inr (s, fs) ↦ record {
          bin = b;
          x = x;
          y = y;
          s = s;
          ax = ax;
          ay = ay;
          l = l;
          found = e;
          reads_x = fx;
          reads_y = fy;
          reads_s = fs;
          operand_x = refl;
          operand_y = refl;
          operand_l = refl;
          after = ground arith;
        }
      ]
    ]
  ]
  bin_written id _ _ _ w w' b e h = absurd (ground arith)

  pub update_bin-BinWritten :
      (id : Text) (amount_x amount_y liquidity : Result ℤ) (w w' : World db)
      → update_bin op delta id amount_x amount_y liquidity w ≡ (ok tt, w')
      → BinWritten id amount_x amount_y liquidity w w'
  unfolding update_bin
  update_bin-BinWritten id amount_x amount_y liquidity w w' h =
      elim (Option-cases (db.bins.find_one id w.bins)) [
        | inl e ↦ absurd (ground arith)
        | inr (b, e) ↦ bin_written id amount_x amount_y liquidity w w' b e h
      ]

  pub event_stored :
      (d : PositionUpdateEvent) (o : Option (db.update_events.State)) (w w' : World db)
      → db.update_events.create d w.update_events ≡ o
      → store_event w o ≡ (ok tt, w')
      → (s : db.update_events.State) × (db.update_events.create d w.update_events ≡ some s)
        × (w' ≡ record w { update_events = s })
  unfolding store_event
  event_stored d none w w' e h = absurd (ground arith)
  event_stored d (some s) w w' e h = (s, e, ground arith)

  -- How a write shows: at its id the numbers change by the operands, and no other id changes.
  pub ShareWritten-balance_of :
      (id j : Text) (liquidity : Result ℤ) (w w' : World db) (v : ShareWritten id liquidity w w')
      → balance_of db j w' ≡ (
          if eq_text id j
          then Option.map (λ b. op b v.amount) (balance_of db j w)
          else balance_of db j w)
  ShareWritten-balance_of id j liquidity w w' v = rw (ap (λ u. u.shares) v.after) (
      ground (
        arith,
        db.shares.find_one-update_one id j
            (λ s. record s { balance = int_to_text (op v.balance v.amount) }) w.shares (λ d. refl),
        eq_text_iff id j,
        v.found,
        v.reads,
        read_int-int_to_text (op v.balance v.amount),
      ))

  pub BinWritten-reserve_x_of :
      (id j : Text) (amount_x amount_y liquidity : Result ℤ) (w w' : World db)
      (v : BinWritten id amount_x amount_y liquidity w w')
      → reserve_x_of db j w' ≡ (
          if eq_text id j
          then Option.map (λ b. op b v.ax) (reserve_x_of db j w)
          else reserve_x_of db j w)
  BinWritten-reserve_x_of id j amount_x amount_y liquidity w w' v = rw (ap (λ u. u.bins) v.after) (
      ground (
        arith,
        db.bins.find_one-update_one id j
            (λ b. record b {
              reserve_x = int_to_text (op v.x v.ax);
              reserve_y = int_to_text (op v.y v.ay);
              total_supply = int_to_text (op v.s v.l);
            })
            w.bins (λ d. refl),
        eq_text_iff id j,
        v.found,
        v.reads_x,
        read_int-int_to_text (op v.x v.ax),
      ))

  pub BinWritten-reserve_y_of :
      (id j : Text) (amount_x amount_y liquidity : Result ℤ) (w w' : World db)
      (v : BinWritten id amount_x amount_y liquidity w w')
      → reserve_y_of db j w' ≡ (
          if eq_text id j
          then Option.map (λ b. op b v.ay) (reserve_y_of db j w)
          else reserve_y_of db j w)
  BinWritten-reserve_y_of id j amount_x amount_y liquidity w w' v = rw (ap (λ u. u.bins) v.after) (
      ground (
        arith,
        db.bins.find_one-update_one id j
            (λ b. record b {
              reserve_x = int_to_text (op v.x v.ax);
              reserve_y = int_to_text (op v.y v.ay);
              total_supply = int_to_text (op v.s v.l);
            })
            w.bins (λ d. refl),
        eq_text_iff id j,
        v.found,
        v.reads_y,
        read_int-int_to_text (op v.y v.ay),
      ))

  pub BinWritten-total_supply_of :
      (id j : Text) (amount_x amount_y liquidity : Result ℤ) (w w' : World db)
      (v : BinWritten id amount_x amount_y liquidity w w')
      → total_supply_of db j w' ≡ (
          if eq_text id j
          then Option.map (λ b. op b v.l) (total_supply_of db j w)
          else total_supply_of db j w)
  BinWritten-total_supply_of id j amount_x amount_y liquidity w w' v =
      rw (ap (λ u. u.bins) v.after) (
        ground (
          arith,
          db.bins.find_one-update_one id j
              (λ b. record b {
                reserve_x = int_to_text (op v.x v.ax);
                reserve_y = int_to_text (op v.y v.ay);
                total_supply = int_to_text (op v.s v.l);
              })
              w.bins (λ d. refl),
          eq_text_iff id j,
          v.found,
          v.reads_s,
          read_int-int_to_text (op v.s v.l),
        ))
