-- ===== src/Pairs/BinArray/Bins.antt =====
-- What an initialization of a bin array leaves.
use saros_dlmm_indexer.Base.{
  ⊤, ℕ, ◌+◌, ◌*◌, ◌/◌, ◌<◌, ◌≡◌, ◌∙◌, ap, subst, sym, inl, inr, Bool, true, false, Option, none,
  some, arith, if◌then◌else◌, is_some, Option-cases,
}
use saros_dlmm_indexer.Schemas.{Bin}
use saros_dlmm_indexer.Store.Batch.{
  docs_from, FreshFrom, Added, insert_many-docs_from, insert_many-first, docs_from-suc,
}
use saros_dlmm_indexer.Store.Lemmas.{exists_where_id}
use saros_dlmm_indexer.Store.World.{Db, World, Result, ok, err, duplicate_key}
use saros_dlmm_indexer.Positions.Update.{bin_id}
use saros_dlmm_indexer.Positions.Update.Ids.{bin_id-injective}
use saros_dlmm_indexer.Pairs.BinArray.{
  InitializeBinArrayDecoded, bin_array_size, new_bin, insert_bins, create_bins,
  process_initialize_bin_array,
}

bin_ids_differ :
    (d : InitializeBinArrayDecoded) (i j : ℕ) → (new_bin d i).id ≡ (new_bin d j).id → i ≡ j
bin_ids_differ d i j e =
    let same =
      bin_id-injective d.pair (d.index * bin_array_size + i) (d.index * bin_array_size + j) e in
    omega (arith, same)

module _ {db : Db} (d : InitializeBinArrayDecoded) where
  abbrev first_bin : World db → Option Bin
  first_bin w = db.bins.find_one (bin_id d.pair (d.index * bin_array_size)) w.bins

  starts_with :
      (w : World db) (b : Bool)
      → is_some (first_bin w) ≡ b
      → process_initialize_bin_array d w ≡ create_bins d b w
  unfolding process_initialize_bin_array
  starts_with w b h =
      ap (λ b. create_bins d b w)
        (exists_where_id db.bins (bin_id d.pair (d.index * bin_array_size)) w.bins ∙ h)

  first_absent :
      (w : World db) → FreshFrom db.bins (new_bin d) 0 bin_array_size w.bins → first_bin w ≡ none
  first_absent w fresh =
      let at_first : d.index * bin_array_size + 0 ≡ d.index * bin_array_size = omega arith in
      subst (λ n. db.bins.find_one (bin_id d.pair n) w.bins ≡ none) at_first
        (fresh 0 (omega arith) (omega arith))

  -- With none of the 256 bins stored, an initialization returns, and then all of them are, empty,
  -- each in the array of its number's quotient by 256; every other bin is as before, and so is
  -- everything else.
  pub process_initialize_bin_array_creates :
      (w : World db)
      → FreshFrom db.bins (new_bin d) 0 bin_array_size w.bins
      → (s : db.bins.State) × (process_initialize_bin_array d w ≡ (ok tt, record w { bins = s }))
        × Added db.bins (new_bin d) 0 bin_array_size w.bins s
        × ((i : ℕ) → i < bin_array_size → (new_bin d i).lb_bin_id / bin_array_size ≡ d.index)
  unfolding create_bins insert_bins
  process_initialize_bin_array_creates w fresh =
      let (s, runs, more) =
        insert_many-docs_from db.bins (new_bin d) (bin_ids_differ d) 0 bin_array_size w.bins
          fresh in
      (
        s,
        starts_with w false (ap is_some (first_absent w fresh)) ∙ ap finish runs,
        more,
        λ i lt. ground arith,
      )
    where
      finish : Bool × db.bins.State → Result ⊤ × World db
      finish r = (if r.0 then ok tt else err duplicate_key, record w { bins = r.1 })

  first_stored : (w : World db) → is_some (first_bin (process_initialize_bin_array d w).1) ≡ true
  unfolding create_bins insert_bins
  first_stored w = elim (Option-cases (first_bin w)) [
    | inr (b, seen) ↦
        subst (λ r. is_some (first_bin r.1) ≡ true) (sym (starts_with w true (ap is_some seen)))
          (seen_stays b seen)
    | inl absent ↦
        subst (λ r. is_some (first_bin r.1) ≡ true) (sym (starts_with w false (ap is_some absent)))
          (stored absent)
  ]
    where
      seen_stays :
          (b : Bin) → first_bin w ≡ some b → is_some (first_bin (create_bins d true w).1) ≡ true
      seen_stays b seen = ap is_some seen

      stored : first_bin w ≡ none → is_some (first_bin (create_bins d false w).1) ≡ true
      stored absent =
          let at_first : d.index * bin_array_size + 0 ≡ d.index * bin_array_size = omega arith in
          subst
            (λ n.
              is_some (
                db.bins.find_one (bin_id d.pair n)
                  (db.bins.insert_many (docs_from (new_bin d) 0 bin_array_size) w.bins).1)
              ≡ true)
            at_first
            (subst
              (λ ds.
                is_some (db.bins.find_one (new_bin d 0).id (db.bins.insert_many ds w.bins).1)
                ≡ true)
              (sym (docs_from-suc (new_bin d) 0 255))
              (insert_many-first db.bins (new_bin d 0) (docs_from (new_bin d) 1 255) w.bins (
                subst (λ n. db.bins.find_one (bin_id d.pair n) w.bins ≡ none) (sym at_first)
                  absent)))

  -- An initialization that ran once, whether it returned or stopped at a bin that was there,
  -- returns and does nothing when it runs again: it looks at the first bin alone.
  pub process_initialize_bin_array_twice :
      (w : World db)
      → let w' = (process_initialize_bin_array d w).1 in
        process_initialize_bin_array d w' ≡ (ok tt, w')
  unfolding create_bins
  process_initialize_bin_array_twice w =
      starts_with (process_initialize_bin_array d w).1 true (first_stored w)
