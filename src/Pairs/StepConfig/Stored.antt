-- ===== src/Pairs/StepConfig/Stored.antt =====
-- What an initialization of a fee configuration leaves.
use saros_dlmm_indexer.Base.{
  ◌≡◌, ◌∙◌, ap, inl, inr, Option, none, some, arith, if◌then◌else◌, Option-cases,
}
use saros_dlmm_indexer.Text.{Text, eq_text, eq_text_iff}
use saros_dlmm_indexer.Schemas.{BinStepConfig}
use saros_dlmm_indexer.Store.World.{Db, World, ok}
use saros_dlmm_indexer.Pairs.StepConfig.{
  InitializeBinStepConfigDecoded, new_config, add_config, create_config,
  process_initialize_bin_step_config,
}

-- What is there, or else what is new.
abbrev pub or_new : Option BinStepConfig → BinStepConfig → BinStepConfig
or_new none d = d
or_new (some e) d = e

module _ {db : Db} (d : InitializeBinStepConfigDecoded) where
  -- An initialization always returns. Then a configuration is stored under the decoded account: the
  -- one that was there before, unchanged, or else the decoded one, active; and everything else is as
  -- before.
  pub process_initialize_bin_step_config_lem :
      (w : World db)
      → (s : db.configs.State) × (process_initialize_bin_step_config d w
          ≡ (ok tt, record w { configs = s }))
        × ((j : Text)
            → db.configs.find_one j s ≡ (
                if eq_text d.bin_step_config j
                then some (or_new (db.configs.find_one j w.configs) (new_config d))
                else db.configs.find_one j w.configs))
  unfolding process_initialize_bin_step_config create_config add_config
  process_initialize_bin_step_config_lem w =
      elim (Option-cases (db.configs.find_one d.bin_step_config w.configs)) [
        | inr (e, seen) ↦ (
          w.configs,
          ap (λ o. create_config d o w) seen,
          λ j. ground (arith, eq_text_iff d.bin_step_config j, seen),
        )
        | inl absent ↦
            let (s, made, looks) = db.configs.create_fresh (new_config d) w.configs absent in
            (
              s,
              ap (λ o. create_config d o w) absent ∙ ap (add_config w) made,
              λ j. ground (arith, looks j, eq_text_iff d.bin_step_config j, absent),
            )
      ]
