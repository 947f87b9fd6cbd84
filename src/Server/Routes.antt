-- ===== src/Server/Routes.antt =====
-- What the HTTP server answers at each path, for a multiplexer as net/http documents it.
use Prim.Native.Char.{code}
use strimzi_canary.Common.{
  ℕ, suc, min, ◌≡◌, ◌≢◌, Bool, true, false, not, ◌&&◌, [], ◌∷◌, Option, none, some, String, Outcome,
  ok, Crash, crash, Result, if◌then◌else◌, ◌==◌,
}
use strimzi_canary.Common.Int.{pos, mul64}
use strimzi_canary.Common.Maps.{str_eq}
use strimzi_canary.Ring.Samples.{buckets}
use strimzi_canary.Status.{Floats, StatusService, ConsumingStatus}
use strimzi_canary.Ring.{TimeWindowRing, put}
use strimzi_canary.Status.Loop.{Sampled, percentage_after, answer_within}
use strimzi_canary.Server.{
  Reply, dropped, Response, Handler, ServeMux, HttpServer, replied, not_found, written,
  serve_status, liveness_handler, readiness_handler,
}

abbrev is_rooted : String → Bool
is_rooted String.[] = false
is_rooted (String.◌∷◌ c s) = code c == b'/'

abbrev ends_in_slash : String → Bool
ends_in_slash String.[] = false
ends_in_slash (String.◌∷◌ c String.[]) = code c == b'/'
ends_in_slash (String.◌∷◌ c (String.◌∷◌ d s)) = ends_in_slash (String.◌∷◌ d s)

-- A pattern that names one path, not a subtree.
abbrev pub is_fixed : String → Bool
is_fixed pattern = is_rooted pattern && not (ends_in_slash pattern)

-- A new multiplexer finds nothing. A pattern that names one path can be added if that path finds nothing; it is found
-- by this path, and all others find what they did. A path that finds nothing is not found, and what the handler
-- that is found writes is replied; if it panics, the connection is dropped.
pub record IsServeMux (sm : ServeMux) : Type 0 where
  pub finds_none : (path : String) → sm.matching sm.new_serve_mux path ≡ none
  pub adds :
      (pattern : String) (h : Handler) (m : sm.Mux)
      → is_fixed pattern ≡ true
      → sm.matching m pattern ≡ none
      → (m' : sm.Mux) × (sm.handle pattern h m ≡ ok m')
        × ((path : String)
            → sm.matching m' path ≡ (if str_eq pattern path then some h else sm.matching m path))
  pub not_found_at :
      (m : sm.Mux) (path : String) (ss : StatusService)
      → sm.matching m path ≡ none
      → sm.serve_http m path ss ≡ not_found
  pub replied_at :
      (m : sm.Mux) (path : String) (ss : StatusService) (h : Handler) (r : Response)
      → sm.matching m path ≡ some h
      → h ss ≡ ok r
      → sm.serve_http m path ss ≡ replied r
  pub dropped_at :
      (m : sm.Mux) (path : String) (ss : StatusService) (h : Handler) (e : Crash)
      → sm.matching m path ≡ some h
      → h ss ≡ crash e
      → sm.serve_http m path ss ≡ dropped

module _ (fl : Floats) (E : Type 0) (marshal : ConsumingStatus fl → Result E String) (sm : ServeMux)
    (promhttp_handler : Handler) where
  -- the handlers by their paths
  routes : String → Option Handler
  routes path =
      if str_eq "/status" path
      then some (serve_status fl E marshal)
      else if str_eq "/readiness" path
      then some readiness_handler
      else if str_eq "/liveness" path
      then some liveness_handler
      else if str_eq "/metrics" path
      then some promhttp_handler
      else none

  -- What is replied at "/status" for what the handler reports, or for its panic.
  abbrev pub as_reply : Outcome (ConsumingStatus fl) → Reply
  as_reply (ok now) = replied (record {
    header = ("Content-Type", "application/json") ∷ [];
    body = written fl E marshal (marshal now);
  })
  as_reply (crash e) = dropped

  -- What a server answers when the status service has made `now.checks` checks of its ring, and in the next check
  -- after the first of its two samples.
  pub record Serves (server : HttpServer fl E marshal sm promhttp_handler) (p c : ℕ → ℕ) (a b : ℕ)
      (now : Sampled) : Type 0 where
    pub alive :
        (ss : StatusService)
        → sm.serve_http server.handler "/liveness" ss
          ≡ replied (record { header = []; body = "OK" })
    pub ready :
        (ss : StatusService)
        → sm.serve_http server.handler "/readiness" ss
          ≡ replied (record { header = []; body = "OK" })
    pub metrics :
        (ss : StatusService) (r : Response)
        → promhttp_handler ss ≡ ok r
        → sm.serve_http server.handler "/metrics" ss ≡ replied r
    pub status :
        sm.serve_http server.handler "/status" now.service
        ≡ as_reply (
            ok (record {
              time_window = mul64 (pos (suc b)) (pos (min now.checks (buckets a (suc b))));
              percentage = percentage_after p c fl (buckets a (suc b)) now.checks;
            }))
    pub within :
        (rb : TimeWindowRing)
        → put (p now.checks) now.service.produced_samples ≡ ok rb
        → sm.serve_http server.handler "/status" (record now.service { produced_samples = rb })
          ≡ as_reply (answer_within p c fl (buckets a (suc b)) (pos (suc b)) now.checks)
    pub elsewhere :
        (path : String) (ss : StatusService)
        → path ≢ "/metrics"
        → path ≢ "/liveness"
        → path ≢ "/readiness"
        → path ≢ "/status"
        → sm.serve_http server.handler path ss ≡ not_found
