-- ===== src/Scanner/Job/Idle.antt =====
-- No scan is ever started by hand.
use mathlib.Core.Option
use saros_dlmm_indexer.Base.{ℕ, ◌≡◌, ap, true, false, some, List}
use saros_dlmm_indexer.Scanner.{Node, Services, Scanner}
use saros_dlmm_indexer.Scanner.Backward.{initialize_scanner}
use saros_dlmm_indexer.Scanner.Process.{start_scanning}
use saros_dlmm_indexer.Scanner.Startup.{on_module_init, Reach, reached_idle}
use saros_dlmm_indexer.Scanner.Job.{run_scanner}

module _ (services : Services) where
  -- Whatever has run since `onModuleInit`, a scan that is started by hand does nothing, while its job,
  -- where it is enabled and not running, reports that it ran; and the initialization does nothing
  -- either: no backward scan reads or stores anything.
  pub started_never :
      (o : services.State) (s : Scanner services) (node : Node) (nodes : List Node) (fuel : ℕ)
      → Reach services (on_module_init services o) s
      → (start_scanning services node fuel s ≡ some s)
        × (run_scanner services true node fuel (record { is_running = false; scanner = s })
            ≡ some (true, record { is_running = false; scanner = s }))
        × (initialize_scanner services node nodes s ≡ some s)
  unfolding run_scanner
  started_never o s node nodes fuel r =
      let (started, initialized) = reached_idle services o s node nodes fuel r in
      (
        started,
        ap
            (Option.map
              (λ (t : Scanner services). (true, record { is_running = false; scanner = t })))
            started,
        initialized,
      )
