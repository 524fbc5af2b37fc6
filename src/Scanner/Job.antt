-- ===== src/Scanner/Job.antt =====
-- jobs/scanner-job.service.ts: the scan by hand, one at a time.
pub mod Idle
use mathlib.Core.Option
use saros_dlmm_indexer.Base.{ℕ, Bool, true, false, Option, some, if◌then◌else◌}
use saros_dlmm_indexer.Scanner.{Node, Services, Scanner}
use saros_dlmm_indexer.Scanner.Process.{start_scanning}

pub record ScannerJob (services : Services) : Type 0 where
  pub is_running : Bool
  pub scanner : Scanner services

module _ (services : Services) where
  -- Whether a scan was run, by the environment variable ENABLE_SCANNER; `none` where its queueing does
  -- not end. Nothing that `startScanning` calls throws.
  unfoldable pub run_scanner :
      Bool → Node → ℕ → ScannerJob services → Option (Bool × ScannerJob services)
  run_scanner enable_scanner node fuel j =
      if enable_scanner
      then (if j.is_running
          then some (false, j)
          else Option.map
              (λ (s : Scanner services). (true, record j { is_running = false; scanner = s }))
              (start_scanning services node fuel j.scanner))
      else some (false, j)
