-- ===== src/Positions/Update/Keeps.antt =====
-- What the loop leaves as it was, also where it throws: whatever shows none of its three writes.
use saros_dlmm_indexer.Base.{ℕ, ◌-◌, ◌≡◌, refl, Option-cases, inl, inr, List, [], ◌∷◌, arith, suc}
use saros_dlmm_indexer.Base.Int.{ℤ, ◌+ℤ◌}
use saros_dlmm_indexer.Text.{Text}
use saros_dlmm_indexer.Text.Decimal.{int_to_text, read_int}
use saros_dlmm_indexer.Schemas.{PositionUpdateEvent, ParsedInstructionMessage}
use saros_dlmm_indexer.Store.World.{Db, World, Result, ok, err, ◌>>=◌, pure, lift, ◌>>◌}
use saros_dlmm_indexer.Store.Keeps.{Keeps, Keeps-bind}
use saros_dlmm_indexer.Positions.Update.{
  BinChanges, bin_id, share_id, update_share, update_bin, store_event, create_event, update_event,
  record_change, check_share_index, process_bin, process_bins,
}

-- A view that shows neither the numbers that are written nor the update events.
pub record Unseen {db : Db} {X : Type 0} (view : World db → X) : Type 0 where
  pub share :
      (id balance : Text) (w : World db)
      → view (record w {
        shares = db.shares.update_one id (λ s. record s { balance = balance }) w.shares;
      })
        ≡ view w
  pub bin :
      (id x y supply : Text) (w : World db)
      → view (record w {
        bins =
            db.bins.update_one id
              (λ b. record b { reserve_x = x; reserve_y = y; total_supply = supply })
              w.bins;
      })
        ≡ view w
  pub event :
      (w : World db) (s : db.update_events.State) → view (record w { update_events = s }) ≡ view w
  pub pair :
      (id x y : Text) (w : World db)
      → view (record w {
        pairs = db.pairs.update_one id (λ p. record p { reserve_x = x; reserve_y = y }) w.pairs;
      })
        ≡ view w

module _ {db : Db} {X : Type 0} (view : World db → X) (unseen : Unseen view) (op : ℤ → ℤ → ℤ)
    (delta : ℤ → ℤ) where
  update_share-Keeps : (id : Text) (l : Result ℤ) → Keeps view (update_share op delta id l)
  unfolding update_share
  update_share-Keeps id (ok l) w = elim (Option-cases (db.shares.find_one id w.shares)) [
    | inl e ↦ rw e refl
    | inr (s, e) ↦ elim (Option-cases (read_int s.balance)) [
      | inl f ↦ rw (e, f) refl
      | inr (b, f) ↦ rw (e, f) (unseen.share id (int_to_text (op b l)) w)
    ]
  ]
  update_share-Keeps id (err x) w = ground arith

  update_bin-Keeps : (id : Text) (x y l : Result ℤ) → Keeps view (update_bin op delta id x y l)
  unfolding update_bin
  update_bin-Keeps id (ok ax) (ok ay) (ok l) w = elim (Option-cases (db.bins.find_one id w.bins)) [
    | inl e ↦ rw e refl
    | inr (b, e) ↦ elim (Option-cases (read_int b.reserve_x)) [
      | inl f ↦ rw (e, f) refl
      | inr (x, f) ↦ elim (Option-cases (read_int b.reserve_y)) [
        | inl g ↦ rw (e, f, g) refl
        | inr (y, g) ↦ elim (Option-cases (read_int b.total_supply)) [
          | inl h ↦ rw (e, f, g, h) refl
          | inr (s, h) ↦
              rw (e, f, g, h)
                (unseen.bin id (int_to_text (op x ax)) (int_to_text (op y ay))
                  (int_to_text (op s l)) w)
        ]
      ]
    ]
  ]
  update_bin-Keeps id (err z) y l w = ground arith
  update_bin-Keeps id (ok ax) (err z) l w = ground arith
  update_bin-Keeps id (ok ax) (ok ay) (err z) w = ground arith

  create_event-Keeps : (d : PositionUpdateEvent) → Keeps view (create_event {db = db} d)
  unfolding create_event store_event
  create_event-Keeps d w = elim (Option-cases (db.update_events.create d w.update_events)) [
    | inl e ↦ rw e refl
    | inr (s, e) ↦ rw e (unseen.event w s)
  ]

  module _ (c : BinChanges) (m : ParsedInstructionMessage) (instruction_id : Text)
      (lower_bin_id : ℕ) (now : ℕ → ℕ) where
    record_change-Keeps :
        (i lb : ℕ) (t : ℤ × ℤ)
        → Keeps view (record_change op delta c m instruction_id lower_bin_id now i lb t)
    unfolding record_change update_event
    record_change-Keeps i lb t w = changed (c.amount_x i) (c.amount_y i) (c.liquidity i)
      where
        changed :
            (x y l : Result ℤ)
            → view
                ((do
                  ax ← lift x
                  ay ← lift y
                  l ← lift l
                  create_event (update_event delta c m instruction_id now i lb ax ay l)
                  pure {A = ℤ × ℤ} (t.0 +ℤ ax, t.1 +ℤ ay))
                  w).1
              ≡ view w
        changed (ok ax) (ok ay) (ok l) =
            Keeps-bind view (create_event (update_event delta c m instruction_id now i lb ax ay l))
              (λ _. pure {A = ℤ × ℤ} (t.0 +ℤ ax, t.1 +ℤ ay)) (create_event-Keeps _) (λ _ v. refl) w
        changed (err x) y l = refl
        changed (ok ax) (err x) l = refl
        changed (ok ax) (ok ay) (err x) = refl

    check_share_index-Keeps :
        (lb : ℕ)
        → Keeps view (check_share_index {db = db} op delta c m instruction_id lower_bin_id now lb)
    unfolding check_share_index
    check_share_index-Keeps lb w = refl

    process_bin-Keeps :
        (i lb : ℕ) (t : ℤ × ℤ)
        → Keeps view (process_bin op delta c m instruction_id lower_bin_id now i lb t)
    unfolding process_bin
    process_bin-Keeps i lb t =
        let share =
          update_share op delta (share_id c.position (lb - lower_bin_id)) (c.liquidity i) in
        let bin =
          update_bin op delta (bin_id c.pair lb) (c.amount_x i) (c.amount_y i) (c.liquidity i) in
        let change = record_change op delta c m instruction_id lower_bin_id now i lb t in
        Keeps-bind view (check_share_index op delta c m instruction_id lower_bin_id now lb)
          (λ _. share >> (bin >> change)) (check_share_index-Keeps lb)
          (λ _.
            Keeps-bind view share (λ _. bin >> change) (update_share-Keeps _ _)
              (λ _.
                Keeps-bind view bin (λ _. change) (update_bin-Keeps _ _ _ _)
                  (λ _. record_change-Keeps i lb t)))

    pub process_bins-Keeps :
        (i : ℕ) (ids : List ℕ) (t : ℤ × ℤ)
        → Keeps view (process_bins op delta c m instruction_id lower_bin_id now i ids t)
    unfolding process_bins
    process_bins-Keeps i [] t = λ w. refl
    process_bins-Keeps i (lb ∷ ids) t =
        Keeps-bind view (process_bin op delta c m instruction_id lower_bin_id now i lb t)
          (process_bins op delta c m instruction_id lower_bin_id now (suc i) ids)
          (process_bin-Keeps i lb t) (process_bins-Keeps (suc i) ids)
