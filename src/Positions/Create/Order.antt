-- ===== src/Positions/Create/Order.antt =====
-- The instruction and the event of a new position, in either order.

use saros_dlmm_indexer.Base.{
  ◌≡◌, ◌∙◌, refl, sym, ap, subst, Option, none, some, arith, if◌then◌else◌, false, true, Bool-cases,
  inl, inr,
}
use saros_dlmm_indexer.Text.{Text, codes, eq_text, eq_text_iff, eq_text_refl}
use saros_dlmm_indexer.Schemas.{Position, clashes}
use saros_dlmm_indexer.Store.World.{Db, World, ok, err, ◌>>◌, >>=-of-ok, modify, duplicate_key}
use saros_dlmm_indexer.Positions.Update.{bin_per_position}
use saros_dlmm_indexer.Positions.Accounts.{PositionAccounts}
use saros_dlmm_indexer.Positions.Create.{
  PositionCreationEvent, shares_from, insert_shares, add_position, check_mint, store_position,
  insert_position, position_of_instruction, upsert_from_instruction, position_of_event,
  upsert_from_event,
}
use saros_dlmm_indexer.Positions.Create.Shares.{SharesFresh, SharesAdded, insert_shares-shares_from}

module _ (d : PositionAccounts) (owner : Text) (e : PositionCreationEvent) where
  -- What the two know together.
  abbrev pub merged : Position
  merged = record {
    id = d.position;
    pair_id = d.pair;
    position_mint_id = d.position_mint;
    owner_id = owner;
    lower_bin_lb_id = e.lower_bin_id;
    upper_bin_lb_id = e.upper_bin_id;
  }

  abbrev from_instruction : Position
  from_instruction = record merged { lower_bin_lb_id = 0; upper_bin_lb_id = 0 }

  abbrev from_event : Position
  from_event = record {
    id = e.position;
    pair_id = e.pair;
    position_mint_id = e.position_mint;
    owner_id = codes "dummy-owner-id";
    lower_bin_lb_id = e.lower_bin_id;
    upper_bin_lb_id = e.upper_bin_id;
  }

  abbrev set_owner : Position → Position
  set_owner p = record p { position_mint_id = d.position_mint; owner_id = owner }

  abbrev set_bins : Position → Position
  set_bins p = record p { lower_bin_lb_id = e.lower_bin_id; upper_bin_lb_id = e.upper_bin_id }

clashes_self : (q : Position) (mint : Text) → clashes q.id mint q ≡ false
clashes_self q mint = ground (arith, eq_text_refl q.id)

module _ {db : Db} where
  abbrev pub position_in : Text → World db → Option Position
  position_in id w = db.positions.find_one id w.positions

  add_position_ok :
      (q : Position) (w : World db) (t : db.positions.State)
      → db.positions.create q w.positions ≡ some t
      → add_position w (db.positions.create q w.positions) ≡ (ok tt, record w { positions = t })
  unfolding add_position
  add_position_ok q w t made = rw made refl

  -- No other position has the mint.
  abbrev pub MintFree : Text → Text → World db → Type 0
  MintFree id mint w = db.positions.exists_where (clashes id mint) w.positions ≡ false

  check_mint_ok :
      (id mint : Text) (w : World db) → MintFree id mint w → check_mint id mint w ≡ (ok tt, w)
  unfolding check_mint
  check_mint_ok id mint w free = ap (λ b. (if b then err duplicate_key else ok tt, w)) free

  -- A position does not stand in its own way.
  MintFree-create :
      (q : Position) (mint : Text) (w w' : World db)
      → ((j : Text)
          → db.positions.find_one j w'.positions
            ≡ (if eq_text q.id j then some q else position_in j w))
      → MintFree q.id mint w
      → MintFree q.id mint w'
  MintFree-create q mint w w' looks free =
      elim (Bool-cases (db.positions.exists_where (clashes q.id mint) w'.positions)) [
        | inr still ↦ still
        | inl taken ↦
            let (k, p, found, holds) =
              (db.positions.exists_where_iff (clashes q.id mint) w'.positions).0 taken in
            elim (Bool-cases (eq_text q.id k)) [
              | inl same ↦
                  let stored : p ≡ q = ground (arith, looks k, found, same) in
                  let clash : clashes q.id mint p ≡ false =
                    subst (λ r. clashes q.id mint r ≡ false) (sym stored) (clashes_self q mint) in
                  cc
              | inr other ↦
                  let was : position_in k w ≡ some p = ground (arith, looks k, found, other) in
                  let clash : db.positions.exists_where (clashes q.id mint) w.positions ≡ true =
                    (db.positions.exists_where_iff (clashes q.id mint) w.positions).1
                      (k, p, was, holds) in
                  cc
            ]
      ]

  -- A new position is stored with its shares, where none of them is there yet. The shares depend on
  -- nothing but the id.
  insert_position_ok :
      (q : Position) (w : World db) (s : db.shares.State)
      → position_in q.id w ≡ none
      → MintFree q.id q.position_mint_id w
      → insert_shares (shares_from q.id 0 bin_per_position) w ≡ (ok tt, record w { shares = s })
      → (t : db.positions.State) × (insert_position q w
          ≡ (ok tt, record w { shares = s; positions = t }))
        × ((j : Text)
            → db.positions.find_one j t ≡ (if eq_text q.id j then some q else position_in j w))
  unfolding insert_position store_position
  insert_position_ok q w s absent free shares =
      let v : World db = record w { shares = s } in
      let (t, made, looks) = db.positions.create_fresh q w.positions absent in
      (
        t,
        >>=-of-ok (insert_shares (shares_from q.id 0 bin_per_position)) (λ _. store_position q) w
              shares
            ∙ >>=-of-ok (check_mint q.id q.position_mint_id)
                (λ _ w. add_position w (db.positions.create q w.positions)) v
                (check_mint_ok q.id q.position_mint_id v free)
            ∙ add_position_ok q v t made,
        looks,
      )

  module _ (d : PositionAccounts) (owner : Text) (e : PositionCreationEvent) where
    -- A state that has the merged position and its shares, and every other position of `w`.
    pub record Merged (w w' : World db) : Type 0 where
      pub positions :
          (j : Text)
          → position_in j w'
            ≡ (if eq_text d.position j then some (merged d owner e) else position_in j w)
      pub shares : SharesAdded db d.position 0 bin_per_position w.shares w'.shares

    instruction_new :
        (w : World db)
        → position_in d.position w ≡ none
        → upsert_from_instruction d owner w ≡ insert_position (from_instruction d owner e) w
    unfolding upsert_from_instruction position_of_instruction
    instruction_new w absent = ap (λ o. position_of_instruction d owner o w) absent

    instruction_old :
        (w : World db) {p : Position}
        → position_in d.position w ≡ some p
        → MintFree d.position d.position_mint w
        → upsert_from_instruction d owner w ≡ (
          ok tt,
          record w {
            positions = db.positions.update_one d.position (set_owner d owner e) w.positions;
          },
        )
    unfolding upsert_from_instruction position_of_instruction
    instruction_old w there free =
        ap (λ o. position_of_instruction d owner o w) there
        ∙ >>=-of-ok (check_mint d.position d.position_mint)
            (λ _. modify (λ w. record w {
              positions = db.positions.update_one d.position (set_owner d owner e) w.positions;
            }))
            w (check_mint_ok d.position d.position_mint w free)

    event_new :
        (w : World db)
        → position_in e.position w ≡ none
        → upsert_from_event e w ≡ insert_position (from_event d owner e) w
    unfolding upsert_from_event position_of_event
    event_new w absent = ap (λ o. position_of_event e o w) absent

    event_old :
        (w : World db) {p : Position}
        → position_in e.position w ≡ some p
        → upsert_from_event e w ≡ (
          ok tt,
          record w {
            positions = db.positions.update_one e.position (set_bins d owner e) w.positions;
          },
        )
    unfolding upsert_from_event position_of_event
    event_old w there = ap (λ o. position_of_event e o w) there

    -- On a position of which nothing is stored yet, and whose mint no other position has, the
    -- instruction followed by its event returns, with all 64 shares at balance 0 and the position as
    -- the two together describe it; every other position is as before.
    pub instruction_then_event :
        (w : World db)
        → d.position ≡ e.position
        → position_in d.position w ≡ none
        → MintFree d.position d.position_mint w
        → SharesFresh db d.position 0 bin_per_position w.shares
        → (w' : World db) × ((upsert_from_instruction d owner >> upsert_from_event e) w
            ≡ (ok tt, w'))
          × Merged w w'
    instruction_then_event w same absent free fresh =
        let (s, shares, added) =
          insert_shares-shares_from db d.position 0 bin_per_position w fresh in
        let (t, runs, looks) =
          insert_position_ok (from_instruction d owner e) w s absent free shares in
        let v : World db = record w { shares = s; positions = t } in
        let there : position_in e.position v ≡ some (from_instruction d owner e) =
          looks e.position ∙ rw ((eq_text_iff d.position e.position).1 same) refl in
        (
          record v { positions = db.positions.update_one e.position (set_bins d owner e) t },
          >>=-of-ok (upsert_from_instruction d owner) (λ _. upsert_from_event e) w
                (instruction_new w absent ∙ runs)
              ∙ event_old v there,
          record {
            positions = λ j. ground (
              arith,
              db.positions.find_one-update_one e.position j (set_bins d owner e) t (λ p. refl),
              looks j,
              same,
              eq_text_iff d.position j,
            );
            shares = added;
          },
        )

    -- On a position of which nothing is stored yet, the event followed by the instruction returns too, and ends in the same
    -- position and shares, if both name the same pair and no other position has the mint that either of
    -- them names; every other position is as before.
    pub event_then_instruction :
        (w : World db)
        → d.position ≡ e.position
        → d.pair ≡ e.pair
        → position_in d.position w ≡ none
        → MintFree d.position d.position_mint w
        → MintFree d.position e.position_mint w
        → SharesFresh db d.position 0 bin_per_position w.shares
        → (w' : World db) × ((upsert_from_event e >> upsert_from_instruction d owner) w
            ≡ (ok tt, w'))
          × Merged w w'
    event_then_instruction w same same_pair absent free free_event fresh =
        let (s, shares, added) =
          insert_shares-shares_from db d.position 0 bin_per_position w fresh in
        let (t, runs, looks) =
          insert_position_ok (from_event d owner e) w s (rw (sym same) absent)
            (subst (λ p. MintFree p e.position_mint w) same free_event)
            (subst
              (λ p.
                insert_shares (shares_from p 0 bin_per_position) w
                ≡ (ok tt, record w { shares = s }))
              same shares) in
        let v : World db = record w { shares = s; positions = t } in
        let there : position_in d.position v ≡ some (from_event d owner e) =
          looks d.position ∙ rw ((eq_text_iff e.position d.position).1 (sym same)) refl in
        (
          record v { positions = db.positions.update_one d.position (set_owner d owner e) t },
          >>=-of-ok (upsert_from_event e) (λ _. upsert_from_instruction d owner) w
                (event_new w (rw (sym same) absent) ∙ runs)
              ∙ instruction_old v there (
                  subst (λ p. MintFree p d.position_mint v) (sym same)
                    (MintFree-create (from_event d owner e) d.position_mint w v looks
                      (subst (λ p. MintFree p d.position_mint w) same free))),
          record {
            positions = λ j. ground (
              arith,
              db.positions.find_one-update_one d.position j (set_owner d owner e) t (λ p. refl),
              looks j,
              same,
              same_pair,
              eq_text_iff d.position j,
            );
            shares = added;
          },
        )
