-- ===== src/Connection/Loop.antt =====
-- internal/services/connection_check.go: the loop that Open starts, with its checks.
use strimzi_canary.Common.{
  ℕ, ◌≡◌, refl, ap, ◌∙◌, inl, inr, Bool, Bool-cases, true, false, not, ◌||◌, List, [], ◌∷◌, ◌++◌,
  Option, none, some, if◌then◌else◌, length, ok,
}
use strimzi_canary.Common.Int.{ℤ, pos, eqb_ℤ}
use strimzi_canary.Common.Trace.{◌>>=◌}
use strimzi_canary.Topic.Types.{Errors}
use strimzi_canary.Connection.{
  ConnectionService, Event, new_cluster_admin, describe_cluster, Answers, new_connection_service,
  Checked, after, check_brokers, is_dynamic_scaling_enabled, described_brokers, check_known,
  connection_check,
}
use strimzi_canary.Loop.{Looped, Reach}

module _ (er : Errors) (expected_cluster_size : ℤ) where
  -- One check for each of the answers.
  unfoldable pub check_loop : List (Answers er) → ConnectionService → Checked
  unfolding connection_check
  check_loop [] cs = ([], ok cs)
  check_loop (ans ∷ later) cs =
      connection_check er expected_cluster_size ans cs >>= check_loop later

  -- Open makes a first check, before the goroutine.
  abbrev pub Checks : ConnectionService → ConnectionService → Type 0
  Checks cs cs' =
      (ans : Answers er) × (t : List Event) × (connection_check er expected_cluster_size ans cs
        ≡ (t, ok cs'))

  abbrev pub ReachConnection : Looped ConnectionService → Type 0
  ReachConnection l = Reach Checks Checks new_connection_service l

  -- The cluster makes a client where it is asked for one, and describes itself.
  pub record Responds (ans : Answers er) : Type 0 where
    pub creates : ans.admin_created ≡ none
    pub describes : ans.described.1 ≡ none

  abbrev pub AllRespond : List (Answers er) → Type 0
  AllRespond [] = Unit {0}
  AllRespond (ans ∷ later) = Responds ans × AllRespond later

  -- The checks end, and leave the service with its admin client.
  abbrev pub KeepsAdmin : Checked → Type 0
  KeepsAdmin run =
      (t : List Event) × (cs : ConnectionService) × (run ≡ (t, ok cs)) × (cs.admin ≡ true)

  after-KeepsAdmin : (t : List Event) (run : Checked) → KeepsAdmin run → KeepsAdmin (after t run)
  after-KeepsAdmin t run (u, cs, e, has) = (t ++ u, cs, ap (after t) e, has)

  described_brokers-KeepsAdmin :
      (ans : Answers er) (cs : ConnectionService) (d : List ℕ × Option er.E)
      → cs.admin ≡ true
      → d.1 ≡ none
      → KeepsAdmin (described_brokers er expected_cluster_size ans cs d)
  unfolding described_brokers
  described_brokers-KeepsAdmin ans cs (brokers, none) has e =
      (_, record cs { brokers = brokers }, refl, has)
  described_brokers-KeepsAdmin ans cs (brokers, some x) has e = absurd (cc e)

  if-KeepsAdmin :
      (b : Bool) (x y : Checked) → KeepsAdmin x → KeepsAdmin y → KeepsAdmin (if b then x else y)
  if-KeepsAdmin true x y h k = h
  if-KeepsAdmin false x y h k = k

  check_known-KeepsAdmin :
      (ans : Answers er) (cs : ConnectionService)
      → cs.admin ≡ true
      → ans.described.1 ≡ none
      → KeepsAdmin (check_known er expected_cluster_size ans cs)
  unfolding check_known
  check_known-KeepsAdmin ans cs has e =
      if-KeepsAdmin
        (is_dynamic_scaling_enabled er expected_cluster_size ans
          || not (eqb_ℤ expected_cluster_size (pos (length cs.brokers))))
        _ _
        (after-KeepsAdmin (describe_cluster ∷ []) _
          (described_brokers-KeepsAdmin ans cs ans.described has e))
        (check_brokers er expected_cluster_size ans 0 cs.brokers, cs, refl, has)

  pub connection_check-KeepsAdmin :
      (ans : Answers er) (cs : ConnectionService)
      → Responds ans
      → KeepsAdmin (connection_check er expected_cluster_size ans cs)
  unfolding connection_check
  connection_check-KeepsAdmin ans cs h =
      let with_client : ConnectionService = record cs { admin = true } in
      let known = check_known-KeepsAdmin ans with_client refl h.describes in
      elim (Bool-cases cs.admin) [
        | inl has ↦ rw (connection_check, has) known
        | inr lacks ↦
            rw (connection_check, lacks, h.creates)
              (after-KeepsAdmin (new_cluster_admin ∷ []) _ known)
      ]

  -- Checks that the cluster answers, one after the other, all end, and the first one makes the admin client
  -- that the service has from then on.
  pub check_loop-KeepsAdmin :
      (answers : List (Answers er)) (cs : ConnectionService)
      → cs.admin ≡ true
      → AllRespond answers
      → KeepsAdmin (check_loop answers cs)
  unfolding check_loop
  check_loop-KeepsAdmin [] cs has h = ([], cs, refl, has)
  check_loop-KeepsAdmin (ans ∷ later) cs has (h, rest) =
      let (t, next, run, has') = connection_check-KeepsAdmin ans cs h in
      let (u, last, run', kept) = check_loop-KeepsAdmin later next has' rest in
      (t ++ u, last, ap (λ (r : Checked). r >>= check_loop later) run ∙ ap (after t) run', kept)
