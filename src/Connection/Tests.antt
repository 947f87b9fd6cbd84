-- ===== src/Connection/Tests.antt =====
-- Checks of three brokers, run.
use strimzi_canary.Common.{
  ◌≡◌, refl, Bool, true, false, List, [], ◌∷◌, none, some, ok, crash, nil_dereference, ◌==◌, not,
}
use strimzi_canary.Common.Int.{pos, negsuc}
use strimzi_canary.Topic.Types.{Errors}
use strimzi_canary.Connection.{
  ConnectionService, Event, describe_cluster, close_admin, Answers, check_brokers, close,
  connection_check, new_connection_service, deprecated_connection_error,
}
use strimzi_canary.Connection.Tally.{
  total, Accounted, connection_check-Accounted, connection_check-close,
}

-- an error is a lost connection or not
abbrev plain : Errors
plain = record { E = Bool; is = λ e s. e }

-- the broker at place 1 is down
abbrev one_down : Answers plain
one_down = record {
  admin_created = none;
  described = (4 ∷ 7 ∷ 9 ∷ [], none);
  admin_closed = none;
  connected = λ i. not (i == 1);
  elapsed = λ i. pos 5;
}

abbrev unreachable : Answers plain
unreachable = record one_down { described = ([], some true) }

abbrev known : ConnectionService
known = record { admin = true; brokers = 4 ∷ 7 ∷ 9 ∷ [] }

first_check : (connection_check plain (pos 3) one_down new_connection_service).1 ≡ ok known
unfolding connection_check
first_check = refl

error_counted :
    total deprecated_connection_error 7 false
      (connection_check plain (pos 3) one_down new_connection_service).0
    ≡ 1
unfolding connection_check check_brokers
error_counted = refl

connection_check-Accounted_example :
    (es : List Event) × (connection_check plain (pos 3) one_down known ≡ (es, ok known))
    × Accounted plain (pos 3) one_down (4 ∷ 7 ∷ 9 ∷ []) es
connection_check-Accounted_example =
    connection_check-Accounted plain (pos 3) one_down known refl refl refl

connection_check-close_example :
    (cs : ConnectionService) × (connection_check plain (negsuc 0) unreachable known
      ≡ (describe_cluster ∷ close_admin ∷ [], ok cs))
    × (close plain (negsuc 0) unreachable cs ≡ ([], crash nil_dereference))
connection_check-close_example =
    connection_check-close plain (negsuc 0) unreachable known [] true refl refl refl refl refl
