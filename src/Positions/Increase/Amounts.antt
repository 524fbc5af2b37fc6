-- ===== src/Positions/Increase/Amounts.antt =====
-- What a processed increase adds to the balances and reserves.
use mathlib.Core.Option
use saros_dlmm_indexer.Base.{
  ℕ, suc, ◌-◌, ◌≡◌, refl, ap, sym, subst, arith, ◌∙◌, Bool, true, false, Option, none, some, List,
  [], ◌∷◌, if◌then◌else◌,
}
use saros_dlmm_indexer.Base.Int.{ℤ, pos, ◌+ℤ◌, +ℤ-assoc, zero_add_ℤ, add_zero_ℤ}
use saros_dlmm_indexer.Text.{Text, eq_text}
use saros_dlmm_indexer.Schemas.{Position, PositionUpdateEvent, ParsedInstructionMessage}
use saros_dlmm_indexer.Store.World.{Db, World, Result, ok}
use saros_dlmm_indexer.Positions.Update.{share_id, bin_id, date_or_now, update_event}
use saros_dlmm_indexer.Positions.Update.Events.{event_at, events_from}
use saros_dlmm_indexer.Text.Decimal.{nat_to_text, int_to_text}
use saros_dlmm_indexer.Text.Join.{join}
use saros_dlmm_indexer.Positions.Update.Steps.{
  balance_of, reserve_x_of, reserve_y_of, total_supply_of,
}
use saros_dlmm_indexer.Positions.Update.Effect.{amount_at, apply_all}
use saros_dlmm_indexer.Positions.Change.{PositionEvent}
use saros_dlmm_indexer.Positions.Change.Written.{
  pair_x_of, pair_y_of, Changed, process_position-Changed, Changed-pair_x_of, Changed-pair_y_of,
}
use saros_dlmm_indexer.Positions.Change.Keeps.{RestKept, process_position-RestKept}
use saros_dlmm_indexer.Positions.Change.Total.{ChangeReady, process_position_ready}
use saros_dlmm_indexer.Positions.Increase.{changes_of, big_int_operand, process_increase_position}

-- The sum of the amounts, from index `i`, of the bins that `p` picks.
abbrev pub sum_of : (ℕ → Bool) → (ℕ → Result ℤ) → ℕ → List ℕ → ℤ
sum_of p xs i [] = pos 0
sum_of p xs i (lb ∷ ids) = (if p lb then amount_at xs i else pos 0) +ℤ sum_of p xs (suc i) ids

apply_all-sum_of :
    (p : ℕ → Bool) (xs : ℕ → Result ℤ) (i : ℕ) (ids : List ℕ) (v : ℤ)
    → apply_all ◌+ℤ◌ p xs i ids v ≡ v +ℤ sum_of p xs i ids
unfolding apply_all
apply_all-sum_of p xs i [] v = sym (add_zero_ℤ v)
apply_all-sum_of p xs i (lb ∷ ids) v =
    apply_all-sum_of p xs (suc i) ids (if p lb then v +ℤ amount_at xs i else v)
    ∙ add_first (p lb) v (amount_at xs i) (sum_of p xs (suc i) ids)
  where
    add_first :
        (b : Bool) (v a s : ℤ)
        → (if b then v +ℤ a else v) +ℤ s ≡ v +ℤ ((if b then a else pos 0) +ℤ s)
    add_first true v a s = +ℤ-assoc v a s
    add_first false v a s = ap (◌+ℤ◌ v) (sym (zero_add_ℤ s))

map_sum :
    (p : ℕ → Bool) (xs : ℕ → Result ℤ) (ids : List ℕ) (o o' : Option ℤ)
    → o' ≡ Option.map (apply_all ◌+ℤ◌ p xs 0 ids) o
    → o' ≡ Option.map (λ v. v +ℤ sum_of p xs 0 ids) o
map_sum p xs ids none o' h = h
map_sum p xs ids (some v) o' h = h ∙ ap some (apply_all-sum_of p xs 0 ids v)

total_sum :
    (xs : ℕ → Result ℤ) (ids : List ℕ) {t : ℤ}
    → t ≡ apply_all ◌+ℤ◌ (λ _. true) xs 0 ids (pos 0)
    → t ≡ sum_of (λ _. true) xs 0 ids
total_sum xs ids h =
    h ∙ apply_all-sum_of (λ _. true) xs 0 ids (pos 0) ∙ zero_add_ℤ (sum_of (λ _. true) xs 0 ids)

-- The update events of an increase, from index `i`: the amounts with their signs, at the block of the
-- message.
abbrev pub added_events :
    (ℕ → ℕ)
    → PositionEvent
    → ParsedInstructionMessage
    → Text
    → ℕ
    → List ℕ
    → List PositionUpdateEvent
added_events now e m instruction_id i [] = []
added_events now e m instruction_id i (lb ∷ ids) =
    record {
      id = join instruction_id (nat_to_text lb);
      signature = m.signature;
      pair_id = e.pair;
      position_id = e.position;
      bin_id = bin_id e.pair lb;
      lb_bin_id = lb;
      delta_liquidity_balance = int_to_text (amount_at (big_int_operand e.liquidity) i);
      delta_amount_x = int_to_text (amount_at (big_int_operand e.amounts_x) i);
      delta_amount_y = int_to_text (amount_at (big_int_operand e.amounts_y) i);
      index = m.instruction_index;
      inner_index = m.inner_instruction_index;
      block_number = m.block_number;
      block_time = date_or_now m.block_time (now i);
    }
    ∷ added_events now e m instruction_id (suc i) ids

events_from-added_events :
    (now : ℕ → ℕ) (e : PositionEvent) (m : ParsedInstructionMessage) (instruction_id : Text) (i : ℕ)
    (ids : List ℕ)
    → events_from (λ z. z) (changes_of e) m instruction_id now i ids
      ≡ added_events now e m instruction_id i ids
unfolding update_event
events_from-added_events now e m instruction_id i [] = refl
events_from-added_events now e m instruction_id i (lb ∷ ids) =
    ap (λ es. event_at (λ z. z) (changes_of e) m instruction_id now i lb ∷ es)
      (events_from-added_events now e m instruction_id (suc i) ids)

module _ {db : Db} where
  -- Balances and reserves, before and after, as BigInts. A share is moved by the liquidity of the
  -- event's bins whose share it is, a bin by what the event has for it, the pair by the sums over the
  -- event, and every other share, bin and pair keeps its numbers.
  pub record Increased (e : PositionEvent) (lower_bin_id : ℕ) (w w' : World db) : Type 0 where
    pub balances :
        (j : Text)
        → balance_of db j w'
          ≡ Option.map
              (λ v.
                v
                +ℤ sum_of
                    (λ lb. eq_text (share_id e.position (lb - lower_bin_id)) j)
                    (big_int_operand e.liquidity)
                    0
                    e.bin_ids)
              (balance_of db j w)
    pub reserves_x :
        (j : Text)
        → reserve_x_of db j w'
          ≡ Option.map
              (λ v.
                v
                +ℤ sum_of
                    (λ lb. eq_text (bin_id e.pair lb) j)
                    (big_int_operand e.amounts_x)
                    0
                    e.bin_ids)
              (reserve_x_of db j w)
    pub reserves_y :
        (j : Text)
        → reserve_y_of db j w'
          ≡ Option.map
              (λ v.
                v
                +ℤ sum_of
                    (λ lb. eq_text (bin_id e.pair lb) j)
                    (big_int_operand e.amounts_y)
                    0
                    e.bin_ids)
              (reserve_y_of db j w)
    pub supplies :
        (j : Text)
        → total_supply_of db j w'
          ≡ Option.map
              (λ v.
                v
                +ℤ sum_of
                    (λ lb. eq_text (bin_id e.pair lb) j)
                    (big_int_operand e.liquidity)
                    0
                    e.bin_ids)
              (total_supply_of db j w)
    pub pairs_x :
        (j : Text)
        → pair_x_of db j w' ≡ (
            if eq_text e.pair j
            then Option.map
                (λ v. v +ℤ sum_of (λ _. true) (big_int_operand e.amounts_x) 0 e.bin_ids)
                (pair_x_of db j w)
            else pair_x_of db j w)
    pub pairs_y :
        (j : Text)
        → pair_y_of db j w' ≡ (
            if eq_text e.pair j
            then Option.map
                (λ v. v +ℤ sum_of (λ _. true) (big_int_operand e.amounts_y) 0 e.bin_ids)
                (pair_y_of db j w)
            else pair_y_of db j w)

  pub process_increase_position-Increased :
      (now : ℕ → ℕ) (e : PositionEvent) (m : ParsedInstructionMessage) (instruction_id : Text)
      (w w' : World db)
      → process_increase_position now e m instruction_id w ≡ (ok tt, w')
      → (q : Position) × (db.positions.find_one e.position w.positions ≡ some q)
        × Increased e q.lower_bin_lb_id w w'
        × (w'.positions ≡ w.positions)
        × (w'.instructions ≡ w.instructions)
        × (db.update_events.insert_many
              (added_events now e m instruction_id 0 e.bin_ids)
              w.update_events
            ≡ (true, w'.update_events))
        × RestKept db w w'
  unfolding process_increase_position
  process_increase_position-Increased now e m instruction_id w w' h =
      let d : Changed ◌+ℤ◌ (λ z. z) now (changes_of e) m instruction_id w w' =
        process_position-Changed ◌+ℤ◌ (λ z. z) now (changes_of e) m instruction_id w w' h in
      let same_shares : d.between.shares ≡ w'.shares =
        sym (ap (λ u. u.shares) d.pair_written.after) in
      let same_bins : d.between.bins ≡ w'.bins = sym (ap (λ u. u.bins) d.pair_written.after) in
      (
        d.position,
        d.found_position,
        record {
          balances = λ j. map_sum _ _ e.bin_ids _ _ (rw same_shares at (d.bins.balances j));
          reserves_x = λ j. map_sum _ _ e.bin_ids _ _ (rw same_bins at (d.bins.reserves_x j));
          reserves_y = λ j. map_sum _ _ e.bin_ids _ _ (rw same_bins at (d.bins.reserves_y j));
          supplies = λ j. map_sum _ _ e.bin_ids _ _ (rw same_bins at (d.bins.supplies j));
          pairs_x = λ j.
              rw (sym (total_sum _ e.bin_ids d.bins.total_x))
                (Changed-pair_x_of ◌+ℤ◌ (λ z. z) now (changes_of e) m instruction_id j w w' d);
          pairs_y = λ j.
              rw (sym (total_sum _ e.bin_ids d.bins.total_y))
                (Changed-pair_y_of ◌+ℤ◌ (λ z. z) now (changes_of e) m instruction_id j w w' d);
        },
        ap (λ u. u.positions) d.pair_written.after ∙ d.bins.same_positions,
        ap (λ u. u.instructions) d.pair_written.after ∙ d.bins.same_instructions,
        rw
            (
              sym (events_from-added_events now e m instruction_id 0 e.bin_ids),
              ap (λ u. u.update_events) d.pair_written.after,
            )
            d.events,
        subst (λ r. RestKept db w r.1) h
            (process_position-RestKept db ◌+ℤ◌ (λ z. z) now (changes_of e) m instruction_id w),
      )

  -- With the pair, the position, the shares and the bins of the event stored and holding numbers,
  -- bins that are distinct and within the position, an amount of each kind for every bin, and no
  -- event stored under the ids to be created, an increase returns, having moved the numbers.
  pub process_increase_position_returns :
      (now : ℕ → ℕ) (e : PositionEvent) (m : ParsedInstructionMessage) (instruction_id : Text)
      (w : World db) (r : ChangeReady db (changes_of e) instruction_id w)
      → (w' : World db) × (process_increase_position now e m instruction_id w ≡ (ok tt, w'))
        × Increased e r.position.lower_bin_lb_id w w'
  unfolding process_increase_position
  process_increase_position_returns now e m instruction_id w r =
      let (w', runs) =
        process_position_ready ◌+ℤ◌ (λ z. z) now (changes_of e) m instruction_id w r in
      let (q, found, moved, _, _, _, _) =
        process_increase_position-Increased now e m instruction_id w w' runs in
      let same : q.lower_bin_lb_id ≡ r.position.lower_bin_lb_id =
        ground (arith, found, r.found_position) in
      (w', runs, subst (λ k. Increased e k w w') same moved)
