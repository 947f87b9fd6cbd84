-- ===== src/Connection.antt =====
-- internal/services/connection_check.go: the check of the connections to the brokers, and Close. The
-- admin client, the brokers' connections and the clock are what answers; the requests and the metrics
-- are the events of a check. Logging is left out, and the loop of Open is in
-- Connection/Loop.
pub mod Tally
pub mod Loop
mod Tests
use strimzi_canary.Common.{
  ℕ, ◌+◌, ◌≡◌, Bool, true, false, not, ◌||◌, List, [], ◌∷◌, ◌++◌, Option, none, some, if◌then◌else◌,
  length, Outcome, ok, crash, Crash, fatal, nil_dereference,
}
use strimzi_canary.Common.Int.{ℤ, pos, negsuc, eqb_ℤ}
use strimzi_canary.Topic.Types.{Errors, ReconcileError, sarama, is_disconnection}

-- the brokers by their ids, in the order of the description
pub record ConnectionService : Type 0 where
  pub admin : Bool
  pub brokers : List ℕ

pub data Metric : Type 0 where
  connection deprecated_connection_error : Metric

-- The labels of a metric are the id of the broker and whether it was connected.
pub data Event : Type 0 where
  new_cluster_admin describe_cluster close_admin : Event
  open_broker close_broker : ℕ → Event
  add : Metric → ℕ → Bool → ℕ → Event
  observe_latency : ℕ → Bool → ℤ → Event

-- What answers to one check. A description that fails still gives brokers, which the service keeps.
-- `connected i` and `elapsed i` are of the broker at place `i`.
pub record Answers (er : Errors) : Type 0 where
  pub admin_created : Option er.E
  pub described : List ℕ × Option er.E
  pub admin_closed : Option er.E
  pub connected : ℕ → Bool
  pub elapsed : ℕ → ℤ

abbrev pub new_connection_service : ConnectionService
new_connection_service = record { admin = false; brokers = [] }

-- The events of a call, and the service that it leaves.
abbrev pub Checked : Type 0
Checked = List Event × Outcome ConnectionService

abbrev pub after : List Event → Checked → Checked
after t (u, end) = (t ++ u, end)

module _ (er : Errors) (expected_cluster_size : ℤ) (ans : Answers er) where
  -- the events of one broker
  abbrev pub check_broker : ℕ → Bool → ℤ → List Event
  check_broker id connected duration =
      (add connection id true 0
        ∷ add deprecated_connection_error id true 0
        ∷ add connection id false 0
        ∷ add deprecated_connection_error id false 0
        ∷ open_broker id
        ∷ add connection id connected 1
        ∷ [])
      ++ (if connected
          then close_broker id ∷ add deprecated_connection_error id connected 0 ∷ []
          else add deprecated_connection_error id connected 1 ∷ [])
      ++ (observe_latency id connected duration ∷ [])

  unfoldable pub check_brokers : ℕ → List ℕ → List Event
  check_brokers i [] = []
  check_brokers i (id ∷ ids) =
      check_broker id (ans.connected i) (ans.elapsed i) ++ check_brokers (i + 1) ids

  abbrev pub is_dynamic_scaling_enabled : Bool
  is_dynamic_scaling_enabled = eqb_ℤ expected_cluster_size (negsuc 0)

  abbrev pub connect : ConnectionService → Checked
  connect cs = (check_brokers 0 cs.brokers, ok cs)

  unfoldable pub close : ConnectionService → Checked
  close cs =
      if cs.admin
      then elim ans.admin_closed [
        | none ↦ (close_admin ∷ [], ok (record cs { admin = false }))
        | some e ↦ (close_admin ∷ [], crash fatal)
      ]
      else ([], crash nil_dereference)

  unfoldable pub described_brokers : ConnectionService → List ℕ × Option er.E → Checked
  unfolding close
  described_brokers cs (brokers, none) = connect (record cs { brokers = brokers })
  described_brokers cs (brokers, some e) =
      if is_disconnection er (sarama e)
      then close (record cs { brokers = brokers })
      else ([], ok (record cs { brokers = brokers }))

  unfoldable pub check_known : ConnectionService → Checked
  unfolding described_brokers
  check_known cs =
      if is_dynamic_scaling_enabled || not (eqb_ℤ expected_cluster_size (pos (length cs.brokers)))
      then after (describe_cluster ∷ []) (described_brokers cs ans.described)
      else connect cs

  unfoldable pub connection_check : ConnectionService → Checked
  unfolding check_known
  connection_check cs = if cs.admin then check_known cs else elim ans.admin_created [
    | none ↦ after (new_cluster_admin ∷ []) (check_known (record cs { admin = true }))
    | some e ↦ (new_cluster_admin ∷ [], ok cs)
  ]
