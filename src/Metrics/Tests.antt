-- ===== src/Metrics/Tests.antt =====
-- A registry that keeps the names, filled.
use Prim.Native.String.{String}
use strimzi_canary.Common.{◌≡◌, List, [], ◌∷◌, ok}
use strimzi_canary.Config.Sample.{whole, read_config}
use strimzi_canary.Metrics.{all_metrics, register_all}
use strimzi_canary.Metrics.Names.{joined_onto, all_metrics-Registered}
use strimzi_canary.Metrics.Sample.{names_kept, names_kept-IsRegistry, all_acceptable, all_free}

all_metrics-Registered_example :
    (r : List String) × (register_all whole names_kept
        (all_metrics whole read_config)
        names_kept.default
      ≡ ok r)
    × (r ≡ joined_onto whole names_kept (all_metrics whole read_config) ("go_goroutines" ∷ []))
all_metrics-Registered_example =
    all_metrics-Registered whole names_kept names_kept-IsRegistry read_config
      (all_acceptable (all_metrics whole read_config)) all_free
