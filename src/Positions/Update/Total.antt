-- ===== src/Positions/Update/Total.antt =====
-- When the loop returns: what its passes need is there, and a pass leaves what the later ones need.
use mathlib.Core.Option
use saros_dlmm_indexer.Base.{
  ⊤, ℕ, suc, ◌-◌, ◌≡◌, ◌≢◌, ◌∙◌, refl, ap, false, Option, none, some, List, [], ◌∷◌, arith, ltb,
  leb, ◌||◌, All,
}
use saros_dlmm_indexer.Base.Int.{ℤ, ◌+ℤ◌}
use saros_dlmm_indexer.Text.{Text, eq_text, eq_text_iff}
use saros_dlmm_indexer.Text.Decimal.{nat_to_text, int_to_text, read_int, nat_to_text-injective}
use saros_dlmm_indexer.Text.Join.{join, join-cancel}
use saros_dlmm_indexer.Schemas.{ParsedInstructionMessage}
use saros_dlmm_indexer.Store.World.{Db, World, Result, ok, ◌>>◌, pure, >>=-of-ok}
use saros_dlmm_indexer.Positions.Update.{
  BinChanges, share_id, bin_id, bin_per_position, update_share, update_bin, update_event,
  create_event, store_event, check_share_index, record_change, process_bin, process_bins,
}
use saros_dlmm_indexer.Positions.Update.Steps.{
  value, balance_of, reserve_x_of, reserve_y_of, total_supply_of,
}
use saros_dlmm_indexer.Positions.Update.Effect.{Done}
use saros_dlmm_indexer.Positions.Update.Loop.{process_bin-Done}

value-eq-some :
    {D : Type 0} (field : D → Text) (o : Option D) {z : ℤ}
    → value field o ≡ some z
    → (d : D) × (o ≡ some d) × (read_int (field d) ≡ some z)
value-eq-some field none h = cc
value-eq-some field (some d) h = (d, refl, h)

module _ (db : Db) (c : BinChanges) (instruction_id : Text) (lower_bin_id : ℕ) where
  -- What a pass needs: an index within the position, numbers in the share and the bin, an amount
  -- of each kind at the event's index, and no event under the id that the pass creates.
  pub record BinReady (i lb : ℕ) (w : World db) : Type 0 where
    pub inside : (ltb lb lower_bin_id || leb bin_per_position (lb - lower_bin_id)) ≡ false
    pub balance : ℤ
    pub x : ℤ
    pub y : ℤ
    pub s : ℤ
    pub ax : ℤ
    pub ay : ℤ
    pub l : ℤ
    pub has_balance : balance_of db (share_id c.position (lb - lower_bin_id)) w ≡ some balance
    pub has_x : reserve_x_of db (bin_id c.pair lb) w ≡ some x
    pub has_y : reserve_y_of db (bin_id c.pair lb) w ≡ some y
    pub has_s : total_supply_of db (bin_id c.pair lb) w ≡ some s
    pub amount_x : c.amount_x i ≡ ok ax
    pub amount_y : c.amount_y i ≡ ok ay
    pub liquidity : c.liquidity i ≡ ok l
    pub fresh :
        db.update_events.find_one (join instruction_id (nat_to_text lb)) w.update_events ≡ none

  -- The bins are distinct, and each is ready at its index.
  abbrev pub Ready : ℕ → List ℕ → World db → Type 0
  Ready i [] w = ⊤
  Ready i (lb ∷ ids) w = BinReady i lb w × All (λ k. lb ≢ k) ids × Ready (suc i) ids w

module _ {db : Db} (op : ℤ → ℤ → ℤ) (delta : ℤ → ℤ) (c : BinChanges) (m : ParsedInstructionMessage)
    (instruction_id : Text) (lower_bin_id : ℕ) (now : ℕ → ℕ) where
  check_ready :
      (i lb : ℕ) (w : World db)
      → BinReady db c instruction_id lower_bin_id i lb w
      → check_share_index op delta c m instruction_id lower_bin_id now lb w ≡ (ok tt, w)
  unfolding check_share_index
  check_ready i lb w r = rw r.inside refl

  share_ready :
      (id : Text) (w : World db) (liquidity : Result ℤ) {b l : ℤ}
      → balance_of db id w ≡ some b
      → liquidity ≡ ok l
      → (s : db.shares.State) × (update_share op delta id liquidity w
          ≡ (ok tt, record w { shares = s }))
  unfolding update_share
  share_ready id w liquidity {b} {l} h k =
      let (d, found, reads) = value-eq-some (λ s. s.balance) (db.shares.find_one id w.shares) h in
      (
        db.shares.update_one id (λ s. record s { balance = int_to_text (op b l) }) w.shares,
        rw (k, found, reads) refl,
      )

  bin_ready :
      (id : Text) (w : World db) (amount_x amount_y liquidity : Result ℤ) {x y s ax ay l : ℤ}
      → reserve_x_of db id w ≡ some x
      → reserve_y_of db id w ≡ some y
      → total_supply_of db id w ≡ some s
      → amount_x ≡ ok ax
      → amount_y ≡ ok ay
      → liquidity ≡ ok l
      → (t : db.bins.State) × (update_bin op delta id amount_x amount_y liquidity w
          ≡ (ok tt, record w { bins = t }))
  unfolding update_bin
  bin_ready id w amount_x amount_y liquidity {x} {y} {s} {ax} {ay} {l} hx hy hs kx ky kl =
      let (d, found, reads_x) = value-eq-some (λ b. b.reserve_x) (db.bins.find_one id w.bins) hx in
      let (_, found_y, read_y) = value-eq-some (λ b. b.reserve_y) (db.bins.find_one id w.bins) hy in
      let (_, found_s, read_s) =
        value-eq-some (λ b. b.total_supply) (db.bins.find_one id w.bins) hs in
      let reads_y : read_int d.reserve_y ≡ some y = ground arith in
      let reads_s : read_int d.total_supply ≡ some s = ground arith in
      (
        db.bins.update_one id
            (λ b. record b {
              reserve_x = int_to_text (op x ax);
              reserve_y = int_to_text (op y ay);
              total_supply = int_to_text (op s l);
            })
            w.bins,
        rw (kx, ky, kl, found, reads_x, reads_y, reads_s) refl,
      )

  change_ready :
      (i lb : ℕ) (t : ℤ × ℤ) (w : World db) {ax ay l : ℤ}
      → c.amount_x i ≡ ok ax
      → c.amount_y i ≡ ok ay
      → c.liquidity i ≡ ok l
      → db.update_events.find_one (join instruction_id (nat_to_text lb)) w.update_events ≡ none
      → (s : db.update_events.State) × (record_change op delta c m instruction_id lower_bin_id now i
            lb t w
          ≡ (ok (t.0 +ℤ ax, t.1 +ℤ ay), record w { update_events = s }))
        × ((k : ℕ)
            → lb ≢ k
            → db.update_events.find_one (join instruction_id (nat_to_text k)) s
              ≡ db.update_events.find_one (join instruction_id (nat_to_text k)) w.update_events)
  unfolding record_change create_event store_event update_event
  change_ready i lb t w {ax} {ay} {l} kx ky kl fresh =
      let e = update_event delta c m instruction_id now i lb ax ay l in
      let (s, made, looks) = db.update_events.create_fresh e w.update_events fresh in
      (
        s,
        rw (kx, ky, kl)
            (>>=-of-ok (create_event e) (λ _. pure (t.0 +ℤ ax, t.1 +ℤ ay)) w
              (ap (store_event w) made)),
        λ k ne. looks (join instruction_id (nat_to_text k)) ∙ rw (other_event k ne) refl,
      )
    where
      other_event :
          (k : ℕ)
          → lb ≢ k
          → eq_text (join instruction_id (nat_to_text lb)) (join instruction_id (nat_to_text k))
            ≡ false
      other_event k ne = ground (
        arith,
        eq_text_iff (join instruction_id (nat_to_text lb)) (join instruction_id (nat_to_text k)),
        join-cancel instruction_id (nat_to_text lb) (nat_to_text k),
        nat_to_text-injective lb k,
      )

  -- The worlds that a ready pass goes through, in the order of its writes.
  process_bin_ready :
      (i lb : ℕ) (t : ℤ × ℤ) (w : World db)
      → BinReady db c instruction_id lower_bin_id i lb w
      → (t' : ℤ × ℤ) × (s : db.shares.State) × (b : db.bins.State) × (e : db.update_events.State)
        × (process_bin op delta c m instruction_id lower_bin_id now i lb t w
            ≡ (ok t', record w { shares = s; bins = b; update_events = e }))
        × ((k : ℕ)
            → lb ≢ k
            → db.update_events.find_one (join instruction_id (nat_to_text k)) e
              ≡ db.update_events.find_one (join instruction_id (nat_to_text k)) w.update_events)
  unfolding process_bin
  process_bin_ready i lb t w r =
      let share = update_share op delta (share_id c.position (lb - lower_bin_id)) (c.liquidity i) in
      let bin =
        update_bin op delta (bin_id c.pair lb) (c.amount_x i) (c.amount_y i) (c.liquidity i) in
      let change = record_change op delta c m instruction_id lower_bin_id now i lb t in
      let (s, shares) =
        share_ready (share_id c.position (lb - lower_bin_id)) w (c.liquidity i) r.has_balance
          r.liquidity in
      let w₁ : World db = record w { shares = s } in
      let (b, bins) =
        bin_ready (bin_id c.pair lb) w₁ (c.amount_x i) (c.amount_y i) (c.liquidity i) r.has_x
          r.has_y r.has_s r.amount_x r.amount_y r.liquidity in
      let w₂ : World db = record w₁ { bins = b } in
      let (e, events, others) = change_ready i lb t w₂ r.amount_x r.amount_y r.liquidity r.fresh in
      (
        (t.0 +ℤ r.ax, t.1 +ℤ r.ay),
        s,
        b,
        e,
        >>=-of-ok (check_share_index op delta c m instruction_id lower_bin_id now lb)
              (λ _. share >> (bin >> change)) w (check_ready i lb w r)
            ∙ >>=-of-ok share (λ _. bin >> change) w shares
            ∙ >>=-of-ok bin (λ _. change) w₁ bins
            ∙ events,
        others,
      )

  -- A pass that has been made leaves the other bins ready.
  still_ready :
      (i lb j k : ℕ) (t t' : ℤ × ℤ) (w w' : World db)
      → Done db op c lower_bin_id i (lb ∷ []) t t' w w'
      → db.update_events.find_one (join instruction_id (nat_to_text k)) w'.update_events
        ≡ db.update_events.find_one (join instruction_id (nat_to_text k)) w.update_events
      → BinReady db c instruction_id lower_bin_id j k w
      → BinReady db c instruction_id lower_bin_id j k w'
  still_ready i lb j k t t' w w' d events r = record {
    inside = r.inside;
    ax = r.ax;
    ay = r.ay;
    l = r.l;
    amount_x = r.amount_x;
    amount_y = r.amount_y;
    liquidity = r.liquidity;
    balance = _;
    x = _;
    y = _;
    s = _;
    has_balance =
        d.balances (share_id c.position (k - lower_bin_id)) ∙ ap (Option.map _) r.has_balance;
    has_x = d.reserves_x (bin_id c.pair k) ∙ ap (Option.map _) r.has_x;
    has_y = d.reserves_y (bin_id c.pair k) ∙ ap (Option.map _) r.has_y;
    has_s = d.supplies (bin_id c.pair k) ∙ ap (Option.map _) r.has_s;
    fresh = events ∙ r.fresh;
  }

  Done-Ready :
      (i lb j : ℕ) (ids : List ℕ) (t t' : ℤ × ℤ) (w w' : World db)
      → Done db op c lower_bin_id i (lb ∷ []) t t' w w'
      → ((k : ℕ)
          → lb ≢ k
          → db.update_events.find_one (join instruction_id (nat_to_text k)) w'.update_events
            ≡ db.update_events.find_one (join instruction_id (nat_to_text k)) w.update_events)
      → All (λ k. lb ≢ k) ids
      → Ready db c instruction_id lower_bin_id j ids w
      → Ready db c instruction_id lower_bin_id j ids w'
  Done-Ready i lb j [] t t' w w' d events ne r = tt
  Done-Ready i lb j (k ∷ ids) t t' w w' d events (n, ne) (r, apart, rs) = (
    still_ready i lb j k t t' w w' d (events k n) r,
    apart,
    Done-Ready i lb (suc j) ids t t' w w' d events ne rs,
  )

  -- Where every bin is ready, the loop returns.
  pub process_bins_returns :
      (i : ℕ) (ids : List ℕ) (t : ℤ × ℤ) (w : World db)
      → Ready db c instruction_id lower_bin_id i ids w
      → (t' : ℤ × ℤ) × (w' : World db) × (process_bins op delta c m instruction_id lower_bin_id now
            i ids t w
          ≡ (ok t', w'))
  unfolding process_bins
  process_bins_returns i [] t w r = (t, w, refl)
  process_bins_returns i (lb ∷ ids) t w (r, apart, rs) =
      let (t₁, s, b, e, first, events) = process_bin_ready i lb t w r in
      let w₁ : World db = record w { shares = s; bins = b; update_events = e } in
      let d = process_bin-Done op delta c m instruction_id lower_bin_id now i lb t t₁ w w₁ first in
      let (t', w', rest) =
        process_bins_returns (suc i) ids t₁ w₁
          (Done-Ready i lb (suc i) ids t t₁ w w₁ d events apart rs) in
      (
        t',
        w',
        >>=-of-ok (process_bin op delta c m instruction_id lower_bin_id now i lb t)
              (process_bins op delta c m instruction_id lower_bin_id now (suc i) ids) w first
            ∙ rest,
      )
