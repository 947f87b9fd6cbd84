-- ===== src/Metrics/Sample.antt =====
-- A registry that keeps the names, with one of a library in it, for the tests.
use Prim.Native.String.{String}
use strimzi_canary.Common.{refl, true, List, [], ◌∷◌, ok, crash, panicked, if◌then◌else◌}
use strimzi_canary.Config.Sample.{whole, read_config}
use strimzi_canary.Metrics.{Opts, Registry, all_metrics}
use strimzi_canary.Metrics.Names.{is_named, joined_name, IsRegistry, AllAcceptable, AllFree}

abbrev pub names_kept : Registry whole
names_kept = record {
  R = List String;
  default = "go_goroutines" ∷ [];
  full_name = joined_name whole;
  names = λ r. r;
  is_acceptable = λ o. true;
  register = λ o r.
      if is_named (joined_name whole o) r then crash panicked else ok (joined_name whole o ∷ r);
}

pub names_kept-IsRegistry : IsRegistry whole names_kept
names_kept-IsRegistry = record {
  joins = λ o. refl;
  takes = λ o r acceptable fresh. (names_kept.full_name o ∷ r, rw fresh refl, refl);
}

pub all_acceptable : (os : List (Opts whole)) → AllAcceptable whole names_kept os
all_acceptable [] = tt
all_acceptable (o ∷ os) = (refl, all_acceptable os)

pub all_free : AllFree whole names_kept (all_metrics whole read_config)
all_free = (
  refl,
  (
    refl,
    (
      refl,
      (
        refl,
        (
          refl,
          (
            refl,
            (
              refl,
              (
                refl,
                (
                  refl,
                  (
                    refl,
                    (refl, (refl, (refl, (refl, (refl, (refl, (refl, (refl, (refl, tt))))))))),
                  ),
                ),
              ),
            ),
          ),
        ),
      ),
    ),
  ),
)
