-- ===== src/Positions/Update/Effect.antt =====
-- What passes of the loop do to every share and bin, to the totals and to the other collections.
use mathlib.Core.Option
use saros_dlmm_indexer.Base.{
  ℕ, suc, ◌-◌, ◌≡◌, refl, ◌∙◌, Bool, true, Option, none, some, List, [], ◌∷◌, arith, if◌then◌else◌,
}
use saros_dlmm_indexer.Base.Int.{ℤ, pos, ◌+ℤ◌}
use saros_dlmm_indexer.Text.{Text, eq_text}
use saros_dlmm_indexer.Store.World.{Db, World, Result, ok, err}
use saros_dlmm_indexer.Positions.Update.{BinChanges, share_id, bin_id}
use saros_dlmm_indexer.Positions.Update.Steps.{
  balance_of, reserve_x_of, reserve_y_of, total_supply_of,
}

-- The BigInt at an index, where there is one.
abbrev pub amount_at : (ℕ → Result ℤ) → ℕ → ℤ
amount_at xs i = elim (xs i) [ ok z ↦ z | err _ ↦ pos 0 ]

-- A number to which the amounts of an event are applied in turn: those of the bins that `p` picks.
unfoldable pub apply_all : (ℤ → ℤ → ℤ) → (ℕ → Bool) → (ℕ → Result ℤ) → ℕ → List ℕ → ℤ → ℤ
apply_all op p xs i [] v = v
apply_all op p xs i (lb ∷ ids) v =
    apply_all op p xs (suc i) ids (if p lb then op v (amount_at xs i) else v)

map_id : (o : Option ℤ) → o ≡ Option.map (λ v. v) o
map_id none = refl
map_id (some v) = refl

pub map_step :
    (op : ℤ → ℤ → ℤ) (p : ℕ → Bool) (xs : ℕ → Result ℤ) (i lb : ℕ) (ids : List ℕ)
    (o o' o'' : Option ℤ)
    → o' ≡ Option.map (apply_all op p xs i (lb ∷ [])) o
    → o'' ≡ Option.map (apply_all op p xs (suc i) ids) o'
    → o'' ≡ Option.map (apply_all op p xs i (lb ∷ ids)) o
unfolding apply_all
map_step op p xs i lb ids none o' o'' e f = rw (f, e)
map_step op p xs i lb ids (some v) o' o'' e f = rw (f, e)

-- One pass seen as a list of one.
pub map_one :
    (op : ℤ → ℤ → ℤ) (p : ℕ → Bool) (xs : ℕ → Result ℤ) (i lb : ℕ) (a : ℤ) (o o' : Option ℤ)
    → xs i ≡ ok a
    → o' ≡ (if p lb then Option.map (λ v. op v a) o else o)
    → o' ≡ Option.map (apply_all op p xs i (lb ∷ [])) o
unfolding apply_all
map_one op p xs i lb a none o' e f = ground arith
map_one op p xs i lb a (some v) o' e f = ground arith

abbrev pub share_of : BinChanges → ℕ → ℕ → Text
share_of c lower_bin_id lb = share_id c.position (lb - lower_bin_id)

module _ (db : Db) (op : ℤ → ℤ → ℤ) (c : BinChanges) (lower_bin_id : ℕ) where
  -- The effect of the passes over `ids`, from index `i`.
  pub record Done (i : ℕ) (ids : List ℕ) (totals totals' : ℤ × ℤ) (w w' : World db) : Type 0 where
    pub balances :
        (j : Text)
        → balance_of db j w'
          ≡ Option.map
              (apply_all op (λ lb. eq_text (share_of c lower_bin_id lb) j) c.liquidity i ids)
              (balance_of db j w)
    pub reserves_x :
        (j : Text)
        → reserve_x_of db j w'
          ≡ Option.map
              (apply_all op (λ lb. eq_text (bin_id c.pair lb) j) c.amount_x i ids)
              (reserve_x_of db j w)
    pub reserves_y :
        (j : Text)
        → reserve_y_of db j w'
          ≡ Option.map
              (apply_all op (λ lb. eq_text (bin_id c.pair lb) j) c.amount_y i ids)
              (reserve_y_of db j w)
    pub supplies :
        (j : Text)
        → total_supply_of db j w'
          ≡ Option.map
              (apply_all op (λ lb. eq_text (bin_id c.pair lb) j) c.liquidity i ids)
              (total_supply_of db j w)
    pub total_x : totals'.0 ≡ apply_all ◌+ℤ◌ (λ _. true) c.amount_x i ids totals.0
    pub total_y : totals'.1 ≡ apply_all ◌+ℤ◌ (λ _. true) c.amount_y i ids totals.1
    pub same_pairs : w'.pairs ≡ w.pairs
    pub same_positions : w'.positions ≡ w.positions
    pub same_instructions : w'.instructions ≡ w.instructions

  pub Done-nil : (i : ℕ) (totals : ℤ × ℤ) (w : World db) → Done i [] totals totals w w
  unfolding apply_all
  Done-nil i totals w = record {
    balances = λ j. map_id (balance_of db j w);
    reserves_x = λ j. map_id (reserve_x_of db j w);
    reserves_y = λ j. map_id (reserve_y_of db j w);
    supplies = λ j. map_id (total_supply_of db j w);
    total_x = refl;
    total_y = refl;
    same_pairs = refl;
    same_positions = refl;
    same_instructions = refl;
  }

  pub Done-cons :
      (i lb : ℕ) (ids : List ℕ) (t t' t'' : ℤ × ℤ) (w v w' : World db)
      → Done i (lb ∷ []) t t' w v
      → Done (suc i) ids t' t'' v w'
      → Done i (lb ∷ ids) t t'' w w'
  unfolding apply_all
  Done-cons i lb ids t t' t'' w v w' d e = record {
    balances = λ j.
        map_step op (λ x. eq_text (share_of c lower_bin_id x) j) c.liquidity i lb ids _ _ _
          (d.balances j) (e.balances j);
    reserves_x = λ j.
        map_step op (λ x. eq_text (bin_id c.pair x) j) c.amount_x i lb ids _ _ _ (d.reserves_x j)
          (e.reserves_x j);
    reserves_y = λ j.
        map_step op (λ x. eq_text (bin_id c.pair x) j) c.amount_y i lb ids _ _ _ (d.reserves_y j)
          (e.reserves_y j);
    supplies = λ j.
        map_step op (λ x. eq_text (bin_id c.pair x) j) c.liquidity i lb ids _ _ _ (d.supplies j)
          (e.supplies j);
    total_x = rw (e.total_x, d.total_x);
    total_y = rw (e.total_y, d.total_y);
    same_pairs = e.same_pairs ∙ d.same_pairs;
    same_positions = e.same_positions ∙ d.same_positions;
    same_instructions = e.same_instructions ∙ d.same_instructions;
  }
