-- ===== src/Swaps/BinEvent/Stored.antt =====
-- What the event of a bin leaves, if everything that it needs is in place.
use mathlib.Core.Option
use saros_dlmm_indexer.Base.{
  ◌≡◌, ◌∙◌, refl, ap, ℕ, ◌≤◌, none, some, arith, if◌then◌else◌, Bool-cases, inl, inr,
}
use saros_dlmm_indexer.Base.Int.{ℤ, pos, ◌+ℤ◌, ◌-ℤ◌, neg}
use saros_dlmm_indexer.Text.{Text, eq_text, eq_text_iff}
use saros_dlmm_indexer.Text.Decimal.{nat_to_text, int_to_text}
use saros_dlmm_indexer.Schemas.{Bin, Pair, TokenMint, ParsedInstructionMessage}
use saros_dlmm_indexer.Store.World.{Db, World, ok, >>=-of-ok}
use saros_dlmm_indexer.Positions.Update.{bin_id}
use saros_dlmm_indexer.Prices.{max_bin_step}
use saros_dlmm_indexer.Prices.Bounds.{get_price_from_id_lem}
use saros_dlmm_indexer.Prices.Floats.{Numbers, add}
use saros_dlmm_indexer.Prices.Floats.Exact.{IsSafe, IsDouble, add_int}
use saros_dlmm_indexer.Swaps.{BinSwapEventDecoded, get_swap_event_id}
use saros_dlmm_indexer.Swaps.Amounts.{SwapAmounts, calculate_swap_amounts}
use saros_dlmm_indexer.Swaps.BinEvent.{
  unit_price, amount_kept, amount_paid, update_x, update_y, update_reserves, store_bin_swap_event,
  create_bin_swap_event, new_bin_swap_event, vaults_of_event, checked_price, record_event,
  process_decoded,
}

-- What the pair keeps of the amount that goes in, and what it pays out.
abbrev pub kept : BinSwapEventDecoded → ℤ
kept e = pos e.amount_in -ℤ pos e.protocol_fee

abbrev pub paid : BinSwapEventDecoded → ℤ
paid e = neg (pos e.amount_out)

-- The changes of the two reserves.
abbrev pub change_x : BinSwapEventDecoded → ℤ
change_x e = if e.swap_for_y then kept e else paid e

abbrev pub change_y : BinSwapEventDecoded → ℤ
change_y e = if e.swap_for_y then paid e else kept e

-- The reserves of a bin are whole numbers, and no number of the swap passes 2 ^ 53.
pub record Fits (e : BinSwapEventDecoded) (b : Bin) (x y : ℤ) : Type 0 where
  pub reserve_x : b.reserve_x ≡ int_to_text x
  pub reserve_y : b.reserve_y ≡ int_to_text y
  pub amount_in : IsSafe (pos e.amount_in)
  pub protocol_fee : IsSafe (pos e.protocol_fee)
  pub kept_fits : IsSafe (kept e)
  pub paid_fits : IsSafe (paid e)
  pub x_fits : IsSafe x
  pub y_fits : IsSafe y
  pub new_x_fits : IsSafe (x +ℤ change_x e)
  pub new_y_fits : IsSafe (y +ℤ change_y e)

module _ {n : Numbers} (laws : IsDouble n) (e : BinSwapEventDecoded) where
  amount_kept_lem : {b : Bin} {x y : ℤ} → Fits e b x y → amount_kept n e ≡ int_to_text (kept e)
  unfolding amount_kept nat_to_text int_to_text
  amount_kept_lem f =
      ap (λ a. n.to_string (n.minus a (n.of_text (nat_to_text e.protocol_fee))))
        (laws.of_text_int (pos e.amount_in) f.amount_in)
      ∙ ap (λ a. n.to_string (n.minus (n.of_int (pos e.amount_in)) a))
          (laws.of_text_int (pos e.protocol_fee) f.protocol_fee)
      ∙ ap n.to_string (
          laws.minus_int (pos e.amount_in) (pos e.protocol_fee) f.amount_in f.protocol_fee
            f.kept_fits)
      ∙ laws.to_string_int (kept e) f.kept_fits

  update_x_lem : {b : Bin} {x y : ℤ} → Fits e b x y → update_x n e ≡ int_to_text (change_x e)
  unfolding update_x amount_paid
  update_x_lem f = elim (Bool-cases e.swap_for_y) [
    | inl forth ↦ rw forth (amount_kept_lem f)
    | inr back ↦ rw back refl
  ]

  update_y_lem : {b : Bin} {x y : ℤ} → Fits e b x y → update_y n e ≡ int_to_text (change_y e)
  unfolding update_y amount_paid
  update_y_lem f = elim (Bool-cases e.swap_for_y) [
    | inl forth ↦ rw forth refl
    | inr back ↦ rw back (amount_kept_lem f)
  ]

  change_x-IsSafe : {b : Bin} {x y : ℤ} → Fits e b x y → IsSafe (change_x e)
  change_x-IsSafe f = elim (Bool-cases e.swap_for_y) [
    | inl forth ↦ rw forth f.kept_fits
    | inr back ↦ rw back f.paid_fits
  ]

  change_y-IsSafe : {b : Bin} {x y : ℤ} → Fits e b x y → IsSafe (change_y e)
  change_y-IsSafe f = elim (Bool-cases e.swap_for_y) [
    | inl forth ↦ rw forth f.paid_fits
    | inr back ↦ rw back f.kept_fits
  ]

  new_reserve_x :
      {b : Bin} {x y : ℤ}
      → Fits e b x y
      → add n b.reserve_x (update_x n e) ≡ some (int_to_text (x +ℤ change_x e))
  new_reserve_x {b} {x} {y} f =
      ap (λ t. add n t (update_x n e)) f.reserve_x
      ∙ ap (add n (int_to_text x)) (update_x_lem f)
      ∙ add_int laws x (change_x e) f.x_fits (change_x-IsSafe f) f.new_x_fits

  new_reserve_y :
      {b : Bin} {x y : ℤ}
      → Fits e b x y
      → add n b.reserve_y (update_y n e) ≡ some (int_to_text (y +ℤ change_y e))
  new_reserve_y {b} {x} {y} f =
      ap (λ t. add n t (update_y n e)) f.reserve_y
      ∙ ap (add n (int_to_text y)) (update_y_lem f)
      ∙ add_int laws y (change_y e) f.y_fits (change_y-IsSafe f) f.new_y_fits

  abbrev pub moved : ℤ → ℤ → Bin → Bin
  moved x y b = record b {
    reserve_x = int_to_text (x +ℤ change_x e);
    reserve_y = int_to_text (y +ℤ change_y e);
  }

  module _ {db : Db} (m : ParsedInstructionMessage) (now : ℕ) where
    update_reserves_lem :
        {b : Bin} {x y : ℤ} (w : World db)
        → Fits e b x y
        → update_reserves n m now e b w ≡ (
          ok tt,
          record w { bins = db.bins.update_one (bin_id e.pair e.bin_id) (moved x y) w.bins },
        )
    unfolding update_reserves
    update_reserves_lem w f = rw (new_reserve_x f, new_reserve_y f) refl

    record_event_lem :
        (pair : Pair) (mint_x mint_y : TokenMint) (a : SwapAmounts) (w : World db)
        → 1 ≤ pair.bin_step
        → pair.bin_step ≤ max_bin_step
        → db.token_mints.find_one pair.token_mint_x_id w.token_mints ≡ some mint_x
        → db.token_mints.find_one pair.token_mint_y_id w.token_mints ≡ some mint_y
        → calculate_swap_amounts n e mint_x mint_y unit_price unit_price ≡ some a
        → record_event n m now e pair w
          ≡ create_bin_swap_event n m now
              (new_bin_swap_event m e
                (vaults_of_event e.swap_for_y (
                  db.swap_events.find_one
                    (get_swap_event_id m.block_number m.signature m.instruction_index none)
                    w.swap_events))
                a
                now)
              w
    unfolding record_event checked_price
    record_event_lem pair mint_x mint_y a w low high found_x found_y valued =
        let (p, priced, up, down) = get_price_from_id_lem pair.bin_step e.bin_id low high in
        rw (priced, found_x, found_y, valued) refl

    -- With the pair, its bin and both token mints stored, a bin step that has prices, reserves and
    -- amounts below 2 ^ 53, values that are finite and no event under the id to be created, the event of
    -- a bin returns. Then the reserves of the bin have moved by what the pair keeps and what it pays, the
    -- event is stored with the vaults of the swap event that is found, or else dummies, every other bin
    -- and event is as before, and nothing else is written.
    pub process_decoded_stores :
        {b : Bin} {x y : ℤ} (pair : Pair) (mint_x mint_y : TokenMint) (a : SwapAmounts)
        (w : World db)
        → db.pairs.find_one e.pair w.pairs ≡ some pair
        → db.bins.find_one (bin_id e.pair e.bin_id) w.bins ≡ some b
        → Fits e b x y
        → 1 ≤ pair.bin_step
        → pair.bin_step ≤ max_bin_step
        → db.token_mints.find_one pair.token_mint_x_id w.token_mints ≡ some mint_x
        → db.token_mints.find_one pair.token_mint_y_id w.token_mints ≡ some mint_y
        → calculate_swap_amounts n e mint_x mint_y unit_price unit_price ≡ some a
        → let swap_event =
            db.swap_events.find_one
              (get_swap_event_id m.block_number m.signature m.instruction_index none)
              w.swap_events in
          let event = new_bin_swap_event m e (vaults_of_event e.swap_for_y swap_event) a now in
          db.bin_swap_events.find_one event.id w.bin_swap_events ≡ none
          → (s : db.bin_swap_events.State) × (t : db.bins.State) × (process_decoded n m now e w
              ≡ (ok tt, record w { bins = t; bin_swap_events = s }))
            × ((j : Text)
                → db.bins.find_one j t ≡ (
                    if eq_text (bin_id e.pair e.bin_id) j
                    then some (moved x y b)
                    else db.bins.find_one j w.bins))
            × ((j : Text)
                → db.bin_swap_events.find_one j s ≡ (
                    if eq_text event.id j
                    then some event
                    else db.bin_swap_events.find_one j w.bin_swap_events))
    unfolding process_decoded create_bin_swap_event store_bin_swap_event new_bin_swap_event
    process_decoded_stores {b} {x} {y} pair mint_x mint_y a w found_pair found_bin f low high
          found_x found_y valued fresh =
        let id = bin_id e.pair e.bin_id in
        let swap_event =
          db.swap_events.find_one
            (get_swap_event_id m.block_number m.signature m.instruction_index none) w.swap_events in
        let event = new_bin_swap_event m e (vaults_of_event e.swap_for_y swap_event) a now in
        let t = db.bins.update_one id (moved x y) w.bins in
        let (s, made, looks) = db.bin_swap_events.create_fresh event w.bin_swap_events fresh in
        (
          s,
          t,
          rw (found_pair, found_bin)
              (>>=-of-ok (update_reserves n m now e b) (λ _. record_event n m now e pair) w
                  (update_reserves_lem w f)
                ∙ record_event_lem pair mint_x mint_y a (record w { bins = t }) low high found_x
                    found_y valued
                ∙ ap (store_bin_swap_event n m now (record w { bins = t })) made),
          λ j. db.bins.find_one-update_one id j (moved x y) w.bins (λ d. refl) ∙ here j found_bin,
          looks,
        )
      where
        here :
            (j : Text)
            → db.bins.find_one (bin_id e.pair e.bin_id) w.bins ≡ some b
            → (if eq_text (bin_id e.pair e.bin_id) j
                then Option.map (moved x y) (db.bins.find_one j w.bins)
                else db.bins.find_one j w.bins)
              ≡ (if eq_text (bin_id e.pair e.bin_id) j
                  then some (moved x y b)
                  else db.bins.find_one j w.bins)
        here j found = ground (arith, eq_text_iff (bin_id e.pair e.bin_id) j, found)
