-- ===== src/Positions/Update/Loop.antt =====
-- What the loop has done to every share and bin, if it returned.

use saros_dlmm_indexer.Base.{
  ℕ, suc, ◌-◌, ◌≡◌, refl, sym, ◌∙◌, ap, List, [], ◌∷◌, arith, subst, some, Option-cases, inl, inr,
}
use saros_dlmm_indexer.Base.Int.{ℤ, ◌+ℤ◌}
use saros_dlmm_indexer.Text.{Text, eq_text}
use saros_dlmm_indexer.Schemas.{ParsedInstructionMessage}
use saros_dlmm_indexer.Store.World.{Db, World, Result, ok, err, ◌>>◌, >>=-eq-ok}
use saros_dlmm_indexer.Positions.Update.{
  BinChanges, share_id, bin_id, update_share, update_bin, create_event, store_event,
  check_share_index, record_change, update_event, process_bin, process_bins,
}
use saros_dlmm_indexer.Positions.Update.Steps.{
  ShareWritten, BinWritten, update_share-ShareWritten, update_bin-BinWritten,
  ShareWritten-balance_of, BinWritten-reserve_x_of, BinWritten-reserve_y_of,
  BinWritten-total_supply_of,
}
use saros_dlmm_indexer.Positions.Update.Effect.{
  apply_all, map_one, share_of, Done, Done-nil, Done-cons,
}

module _ {db : Db} (op : ℤ → ℤ → ℤ) (delta : ℤ → ℤ) (c : BinChanges) (m : ParsedInstructionMessage)
    (instruction_id : Text) (lower_bin_id : ℕ) (now : ℕ → ℕ) where
  -- The end of a pass returned: the operands are BigInts, and only an event is added.
  pub record Recorded (i lb : ℕ) (t t' : ℤ × ℤ) (w w' : World db) : Type 0 where
    pub ax : ℤ
    pub ay : ℤ
    pub l : ℤ
    pub operand_x : c.amount_x i ≡ ok ax
    pub operand_y : c.amount_y i ≡ ok ay
    pub operand_l : c.liquidity i ≡ ok l
    pub total_x : t'.0 ≡ t.0 +ℤ ax
    pub total_y : t'.1 ≡ t.1 +ℤ ay
    pub events : db.update_events.State
    pub created :
        db.update_events.create
          (update_event delta c m instruction_id now i lb ax ay l)
          w.update_events
        ≡ some events
    pub after : w' ≡ record w { update_events = events }

  pub record_change-Recorded :
      (i lb : ℕ) (t t' : ℤ × ℤ) (w w' : World db)
      → record_change op delta c m instruction_id lower_bin_id now i lb t w ≡ (ok t', w')
      → Recorded i lb t t' w w'
  unfolding record_change create_event store_event
  record_change-Recorded i lb t t' w w' h =
      operands (c.amount_x i) (c.amount_y i) (c.liquidity i) refl refl refl
    where
      operands :
          (x y l : Result ℤ)
          → c.amount_x i ≡ x
          → c.amount_y i ≡ y
          → c.liquidity i ≡ l
          → Recorded i lb t t' w w'
      operands (ok ax) (ok ay) (ok l) ex ey el =
          elim (Option-cases (
            db.update_events.create (update_event delta c m instruction_id now i lb ax ay l)
              w.update_events)) [
                | inl e ↦ absurd (ground arith)
                | inr (s, e) ↦ record {
                  ax = ax;
                  ay = ay;
                  l = l;
                  operand_x = ex;
                  operand_y = ey;
                  operand_l = el;
                  total_x = ground arith;
                  total_y = ground arith;
                  events = s;
                  created = e;
                  after = ground arith;
                }
              ]
      operands (ok ax) (ok ay) (err a) ex ey el = absurd (ground arith)
      operands (ok ax) (err a) l ex ey el = absurd (ground arith)
      operands (err a) y l ex ey el = absurd (ground arith)

  Done-one :
      (i lb : ℕ) (t t' : ℤ × ℤ) (w w₁ w₂ w' : World db)
      → ShareWritten op delta (share_of c lower_bin_id lb) (c.liquidity i) w w₁
      → BinWritten op delta (bin_id c.pair lb) (c.amount_x i) (c.amount_y i) (c.liquidity i) w₁ w₂
      → Recorded i lb t t' w₂ w'
      → Done db op c lower_bin_id i (lb ∷ []) t t' w w'
  unfolding apply_all
  Done-one i lb t t' w w₁ w₂ w' s b r =
      let same_shares : w'.shares ≡ w₁.shares =
        ap (λ u. u.shares) r.after ∙ ap (λ u. u.shares) b.after in
      let same_bins : w'.bins ≡ w₂.bins = ap (λ u. u.bins) r.after in
      let old_bins : w₁.bins ≡ w.bins = ap (λ u. u.bins) s.after in
      record {
        balances = λ j.
            map_one op (λ x. eq_text (share_of c lower_bin_id x) j) c.liquidity i lb s.amount _ _
              s.operand
              (rw same_shares (
                ShareWritten-balance_of op delta (share_of c lower_bin_id lb) j (c.liquidity i) w w₁
                  s));
        reserves_x = λ j.
            map_one op (λ x. eq_text (bin_id c.pair x) j) c.amount_x i lb b.ax _ _ b.operand_x
              (rw (same_bins, sym old_bins)
                (BinWritten-reserve_x_of op delta (bin_id c.pair lb) j (c.amount_x i) (c.amount_y i)
                  (c.liquidity i) w₁ w₂ b));
        reserves_y = λ j.
            map_one op (λ x. eq_text (bin_id c.pair x) j) c.amount_y i lb b.ay _ _ b.operand_y
              (rw (same_bins, sym old_bins)
                (BinWritten-reserve_y_of op delta (bin_id c.pair lb) j (c.amount_x i) (c.amount_y i)
                  (c.liquidity i) w₁ w₂ b));
        supplies = λ j.
            map_one op (λ x. eq_text (bin_id c.pair x) j) c.liquidity i lb b.l _ _ b.operand_l
              (rw (same_bins, sym old_bins)
                (BinWritten-total_supply_of op delta (bin_id c.pair lb) j (c.amount_x i)
                  (c.amount_y i) (c.liquidity i) w₁ w₂ b));
        total_x = ground (arith, r.total_x, r.operand_x);
        total_y = ground (arith, r.total_y, r.operand_y);
        same_pairs =
            ap (λ u. u.pairs) r.after ∙ ap (λ u. u.pairs) b.after ∙ ap (λ u. u.pairs) s.after;
        same_positions =
            ap (λ u. u.positions) r.after
            ∙ ap (λ u. u.positions) b.after
            ∙ ap (λ u. u.positions) s.after;
        same_instructions =
            ap (λ u. u.instructions) r.after
            ∙ ap (λ u. u.instructions) b.after
            ∙ ap (λ u. u.instructions) s.after;
      }

  pub check_share_index-same :
      (lb : ℕ) (w w' : World db)
      → check_share_index op delta c m instruction_id lower_bin_id now lb w ≡ (ok tt, w')
      → w' ≡ w
  unfolding check_share_index
  check_share_index-same lb w w' h = ground arith

  pub process_bin-Done :
      (i lb : ℕ) (t t' : ℤ × ℤ) (w w' : World db)
      → process_bin op delta c m instruction_id lower_bin_id now i lb t w ≡ (ok t', w')
      → Done db op c lower_bin_id i (lb ∷ []) t t' w w'
  unfolding process_bin
  process_bin-Done i lb t t' w w' h =
      let share = update_share op delta (share_id c.position (lb - lower_bin_id)) (c.liquidity i) in
      let bin =
        update_bin op delta (bin_id c.pair lb) (c.amount_x i) (c.amount_y i) (c.liquidity i) in
      let change = record_change op delta c m instruction_id lower_bin_id now i lb t in
      let (_, w₀, a₀, h₀) =
        >>=-eq-ok (check_share_index op delta c m instruction_id lower_bin_id now lb)
          (λ _. share >> (bin >> change)) w h in
      let (_, w₁, a₁, h₁) = >>=-eq-ok share (λ _. bin >> change) w₀ h₀ in
      let (_, w₂, a₂, h₂) = >>=-eq-ok bin (λ _. change) w₁ h₁ in
      let sw =
        update_share-ShareWritten op delta (share_id c.position (lb - lower_bin_id)) (c.liquidity i)
          w₀ w₁ a₁ in
      let bw =
        update_bin-BinWritten op delta (bin_id c.pair lb) (c.amount_x i) (c.amount_y i)
          (c.liquidity i) w₁ w₂ a₂ in
      let r = record_change-Recorded i lb t t' w₂ w' h₂ in
      let same = check_share_index-same lb w w₀ a₀ in
      Done-one i lb t t' w w₁ w₂ w'
        (subst
          (λ u.
            ShareWritten op delta (share_id c.position (lb - lower_bin_id)) (c.liquidity i) u w₁)
          same sw)
        bw r

  pub process_bins-Done :
      (i : ℕ) (ids : List ℕ) (t t' : ℤ × ℤ) (w w' : World db)
      → process_bins op delta c m instruction_id lower_bin_id now i ids t w ≡ (ok t', w')
      → Done db op c lower_bin_id i ids t t' w w'
  unfolding process_bins
  process_bins-Done i [] t t' w w' h =
      let st : t ≡ t' = ground arith in
      let sw : w ≡ w' = ground arith in
      subst (λ t'. Done db op c lower_bin_id i [] t t' w w') st
        (subst (λ w'. Done db op c lower_bin_id i [] t t w w') sw
          (Done-nil db op c lower_bin_id i t w))
  process_bins-Done i (lb ∷ ids) t t' w w' h =
      let (u, v, first, rest) =
        >>=-eq-ok (process_bin op delta c m instruction_id lower_bin_id now i lb t)
          (process_bins op delta c m instruction_id lower_bin_id now (suc i) ids) w h in
      Done-cons db op c lower_bin_id i lb ids t u t' w v w' (process_bin-Done i lb t u w v first)
        (process_bins-Done (suc i) ids u t' v w' rest)
