-- ===== src/Lib.antt =====
-- The Strimzi canary: a service that checks an Apache Kafka cluster by creating a topic with a leader
-- on each broker, sending records through it, and watching connections and consumption.
--
-- Parts of the program, their files (paths from the repository's root) and where they are modelled:
--   internal/services/topic.go: the topic service. `Assign` (with Assign/) is requestedAssignments: the sort
--     of the brokers (sort_by_id), the grouping by rack (group), the rounds that alternate the racks
--     (deal_from, deal_round, deal_all, alternate), the replicas and the partitions. `Topic` (with Topic/) is
--     Reconcile and all it calls: reconcile, reply, reconcile_topic, describe_canary_topic, create_missing,
--     reconcile_existing, alter_topic_configuration, alter_topic_assignments, alter_assignments, close.
--   internal/services/backoff.go: `Backoff` (with Backoff/), NewBackoff and Delay as new_backoff and delay.
--   internal/util/time_window_ring.go: `Ring` (with Ring/), the buffer of the samples in a time window.
--   internal/services/status_check.go: `Status` (with Status/), which samples the two global counters of
--     records into two rings and reports the percentage consumed; Status/Loop is Open and Close.
--   internal/services/connection_check.go: `Connection` (with Connection/), connectionCheck and the closing
--     of the admin client; Connection/Loop is Open and the checks in a row.
--   `Loop` (with Loop/): the goroutine with a ticker, a stop channel and a wait group that the status service, the
--     connection check and the manager each have, as a step relation.
--   `Metrics` (with Metrics/): the collectors that the constructors of the services, RegisterMetrics of the manager
--     and cmd/main.go register.
--   internal/config/dynamic_config_watcher.go: `Watcher` (with Watcher/), the start, the tick and Close.
--   internal/services/producer.go: `Producer` (with Producer/), Send as send, with newCanaryMessage, Refresh and
--     Close; the message is of internal/services/canary_message.go, whose JSON is `Messages` (with Messages/); there
--     Messages/Delivery has the messages of a Send read by the claims of their partitions.
--   internal/services/consumer.go: `Consumer` (with Consumer/), Consume, Refresh, Leaders, Close and ConsumeClaim;
--     Consumer/Session is the goroutines of Consume with Setup, as a step relation, and Consumer/Race the
--     counter that the goroutines of the claims share.
--   internal/workers/canary_manager.go: `Manager` (with Manager/), Start as start, with the attempts of its loop
--     (start_attempt), the reconcile of a tick as reconcile, the ticks in a row as reconcile_loop
--     (Manager/Loop), and Stop (Manager/Stop) as stop; Manager/Running has how they interleave, as a step
--     relation.
--   internal/config/canary_config.go: `Config` (with Config/), NewCanaryConfig as new_canary_config, with the
--     look-ups of the environment (Config/Variables), strconv's numbers (Config/Numbers), the texts of pairs
--     (Config/Pairs), and String as to_string.
--   internal/security/: `Security` (with Security/), SetAuthConfig and NewTLSConfig as set_auth_config and
--     new_tls_config.
--   cmd/main.go: `Client` (with Client/), newClientWithRetry as new_client_with_retry; `Main` (with Main/),
--     createSaramaConfig and applyDynamicConfig; `Program` (with Program/), main, with initTracerProvider and
--     exporterTracing, over all the parts. The loop with a back-off that newClientWithRetry, Consume
--     and Start share is `retry` of Backoff/Retry.
--   internal/servers/http_server.go and internal/services/healthcheck.go: `Server` (with Server/), NewHttpServer as
--     new_http_server, with the handlers of its paths, Start and Stop.
--   internal/util/util.go: IsDisconnection, as is_disconnection of Topic/Types.
--   `Common` (with Common/) has what they share: Boolean tests, lists, maps as association lists, the
--     outcomes of Go code, texts that are split and joined, and the integers of 64 bits.
--
-- How they interact: the topic service calls the assignments and hands its result, with the leaders, to the
-- manager, which has the producer send to the assignments and compares the leaders with those that the
-- consumer's client knows; the manager's Start, like the creation of a client and Consume, waits by the
-- back-off, and the events of all services are wrapped in its own. The status service keeps its samples
-- of the counters of the producer and the consumer in rings; the configuration and the security settings
-- are read once, when the program starts. The HTTP server answers with the handler of the status service, between
-- two checks or between the two samples of one. What a goroutine does between two of its steps, as a Put, a
-- reconcile or the reading of a handler, is not cut further. Open of an open loop and Start of a started manager
-- are steps; what is said of a loop supposes that there are none, since two goroutines would share its state.
--
-- Conventions. A Go function that may panic or exit gives an Outcome, with the kind of the crash; one that
-- returns an error gives a Result, or an Option of its error where it returns nothing else. An int64 is
-- an integer whose operations wrap; broker ids and partition numbers are natural numbers, as Kafka's are
-- at least 0 and below 2^31. A slice is a list, a map is an association list with one entry for a key. sort.Slice is
-- an insertion sort. The Sarama client, its consumer group, the clock, floating point numbers, JSON and SHA-256 are parameters; a
-- service's requests and metrics are the events of its run, and a record of answers gives what
-- the cluster replies. Logging is left out, except where it changes or crashes something: the sort of
-- the partitions, and the samples that the status check reads for its log line.
--
-- Bounds. The rounds that alternate the racks run on fuel of one more than the number of brokers: a
-- round that goes on deals at least one broker, and a last one finds every rack empty. The loop that waits
-- for a reassignment has a fuel of its own, since the cluster may never end one; what is said of it
-- supposes a query within the fuel that finds none going on. A loop with a back-off, of the client, of
-- Consume or of Start, ends within one more round than the back-off has attempts. All else is by structural recursion.
--
-- Not modelled: the tracing of messages, which is left to libraries, and the SCRAM client, which passes on to one.
-- The multiplexer and the server of net/http and the handler of promhttp are parameters, and `main` has the start and
-- the stop of the HTTP server as events. In `main` the ticks of the manager, those of the connection check and the checks of the status, which share no
-- state but the counters, run one loop after the other, after the start; how ticks, requests, Open and Close interleave is in Loop and Status/Loop, and how those of the manager do in
-- Manager/Running. The
-- registry of Prometheus is a parameter, with what the libraries have registered in it; the ticker of Go is one that
-- panics at a period that is not positive. isPreferredLeaderElectionNeeded and Cleanup only log.
-- The names of the SASL mechanisms, ParseFloat, the files, certificates and pools of TLS, and the parsing of
-- a version of Kafka are parameters.
pub mod Common
pub mod Backoff
pub mod Ring
pub mod Status
pub mod Assign
pub mod Topic
pub mod Connection
pub mod Watcher
pub mod Client
pub mod Producer
pub mod Config
pub mod Security
pub mod Server
pub mod Main
pub mod Consumer
pub mod Loop
pub mod Messages
pub mod Metrics
pub mod Manager
pub mod Program
