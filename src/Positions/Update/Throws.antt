-- ===== src/Positions/Update/Throws.antt =====
-- Where the first operand is no BigInt, the loop throws in its first pass and writes nothing.
use saros_dlmm_indexer.Base.{
  ℕ, suc, ◌-◌, ◌≡◌, ◌∙◌, ◌⊎◌, refl, inl, inr, List, ◌∷◌, arith, ltb, leb, ◌||◌, Option-cases,
  Bool-cases,
}
use saros_dlmm_indexer.Base.Int.{ℤ}
use saros_dlmm_indexer.Text.{Text}
use saros_dlmm_indexer.Text.Decimal.{read_int}
use saros_dlmm_indexer.Schemas.{ParsedInstructionMessage}
use saros_dlmm_indexer.Store.World.{
  Db, World, Error, ok, err, ◌>>◌, >>=-of-ok, >>=-of-err, share_out_of_bounds, no_share,
  syntax_error,
}
use saros_dlmm_indexer.Positions.Update.{
  BinChanges, bin_per_position, share_id, bin_id, update_share, update_bin, record_change,
  check_share_index, process_bin, process_bins,
}

module _ {db : Db} (op : ℤ → ℤ → ℤ) (delta : ℤ → ℤ) where
  update_share_throws :
      (id : Text) (e : Error) (w : World db)
      → (x : Error) × (update_share op delta id (err e) w ≡ (err x, w))
  unfolding update_share
  update_share_throws id e w = elim (Option-cases (db.shares.find_one id w.shares)) [
    | inl f ↦ (no_share, ground arith)
    | inr (s, f) ↦ elim (Option-cases (read_int s.balance)) [
      | inl g ↦ (syntax_error, ground arith)
      | inr (b, g) ↦ (e, ground arith)
    ]
  ]

  module _ (c : BinChanges) (m : ParsedInstructionMessage) (instruction_id : Text)
      (lower_bin_id : ℕ) (now : ℕ → ℕ) where
    check_share_index_cases :
        (lb : ℕ) (w : World db)
        → let check = check_share_index op delta c m instruction_id lower_bin_id now lb in
          (check w ≡ (err share_out_of_bounds, w)) ⊎ (check w ≡ (ok tt, w))
    unfolding check_share_index
    check_share_index_cases lb w =
        elim (Bool-cases (ltb lb lower_bin_id || leb bin_per_position (lb - lower_bin_id))) [
          | inl out ↦ inl (rw out refl)
          | inr inside ↦ inr (rw inside refl)
        ]

    process_bin_throws :
        (i lb : ℕ) (t : ℤ × ℤ) (w : World db) {e : Error}
        → c.liquidity i ≡ err e
        → (x : Error) × (process_bin op delta c m instruction_id lower_bin_id now i lb t w
            ≡ (err x, w))
    unfolding process_bin
    process_bin_throws i lb t w {e} h =
        let check = check_share_index op delta c m instruction_id lower_bin_id now lb in
        let share =
          update_share op delta (share_id c.position (lb - lower_bin_id)) (c.liquidity i) in
        let bin =
          update_bin op delta (bin_id c.pair lb) (c.amount_x i) (c.amount_y i) (c.liquidity i) in
        let change = record_change op delta c m instruction_id lower_bin_id now i lb t in
        elim (check_share_index_cases lb w) [
          | inl out ↦ (share_out_of_bounds, >>=-of-err check (λ _. share >> (bin >> change)) w out)
          | inr inside ↦
              let (x, f) = update_share_throws (share_id c.position (lb - lower_bin_id)) e w in
              (
                x,
                >>=-of-ok check (λ _. share >> (bin >> change)) w inside
                    ∙ >>=-of-err share (λ _. bin >> change) w (rw h f),
              )
        ]

    pub process_bins_throws :
        (i lb : ℕ) (ids : List ℕ) (t : ℤ × ℤ) {e : Error} (w : World db)
        → c.liquidity i ≡ err e
        → (x : Error) × (process_bins op delta c m instruction_id lower_bin_id now i (lb ∷ ids) t w
            ≡ (err x, w))
    unfolding process_bins
    process_bins_throws i lb ids t w h =
        let (x, f) = process_bin_throws i lb t w h in
        (
          x,
          >>=-of-err (process_bin op delta c m instruction_id lower_bin_id now i lb t)
              (process_bins op delta c m instruction_id lower_bin_id now (suc i) ids) w f,
        )
