-- ===== src/Server.antt =====
-- internal/servers/http_server.go and internal/services/healthcheck.go: the paths of the HTTP server with their handlers,
-- its start and its stop. The multiplexer and the server of net/http, the handler of promhttp and the JSON
-- of a status are parameters.
pub mod Routes
mod Tests
use strimzi_canary.Common.{
  ℕ, ◌*◌, Bool, true, false, List, [], ◌∷◌, Option, none, some, String, Outcome, ok, crash, ◌>>=◌,
  Result, value, error,
}
use strimzi_canary.Common.Int.{ℤ, pos, mul64}
use strimzi_canary.Backoff.{millisecond}
use strimzi_canary.Status.{Floats, StatusService, ConsumingStatus, status_handler}

-- What a handler adds to the header, and the body that it writes.
pub record Response : Type 0 where
  pub header : List (String × String)
  pub body : String

-- A handler, by the status service at the time of the request, whatever the request.
abbrev pub Handler : Type 0
Handler = StatusService → Outcome Response

unfoldable pub liveness_handler : Handler
liveness_handler ss = ok (record { header = []; body = "OK" })

unfoldable pub readiness_handler : Handler
readiness_handler ss = ok (record { header = []; body = "OK" })

-- What comes of a request.
pub data Reply : Type 0 where
  replied : Response → Reply
  not_found dropped : Reply

-- http.ServeMux: `handle` panics at a pattern that cannot be added, `matching` finds the handler of a clean path, and
-- `serve_http` is what a server with the multiplexer makes of a request.
pub record ServeMux : Type 1 where
  pub Mux : Type 0
  pub new_serve_mux : Mux
  pub handle : String → Handler → Mux → Outcome Mux
  pub matching : Mux → String → Option Handler
  pub serve_http : Mux → String → StatusService → Reply

module _ (fl : Floats) (E : Type 0) (marshal : ConsumingStatus fl → Result E String) where
  -- An error of the marshalling leaves no bytes to write.
  abbrev pub written : Result E String → String
  written (value json) = json
  written (error e) = ""

  -- What the handler of the status service writes.
  unfoldable pub serve_status : Handler
  unfolding status_handler
  serve_status ss = do
    status ← status_handler fl ss
    ok (record {
      header = ("Content-Type", "application/json") ∷ [];
      body = written (marshal status);
    })

  module _ (sm : ServeMux) (promhttp_handler : Handler) where
    pub record HttpServer : Type 0 where
      pub addr : String
      pub handler : sm.Mux

    unfoldable pub new_http_server : Outcome HttpServer
    unfolding liveness_handler readiness_handler serve_status
    new_http_server = do
      with_metrics ← sm.handle "/metrics" promhttp_handler sm.new_serve_mux
      with_liveness ← sm.handle "/liveness" liveness_handler with_metrics
      with_readiness ← sm.handle "/readiness" readiness_handler with_liveness
      mux ← sm.handle "/status" serve_status with_readiness
      ok (record { addr = ":8080"; handler = mux })

    -- What is asked of the server of net/http: to serve at an address, in a goroutine of its own, and to shut down
    -- within a time. Both errors are dropped.
    pub data ServerCall : Type 0 where
      listen_and_serve : String → ServerCall
      shutdown : ℤ → ServerCall

    pub start : HttpServer → Option E → List ServerCall
    start ms failed = listen_and_serve ms.addr ∷ []

    pub stop : HttpServer → Option E → List ServerCall
    stop ms failed = shutdown (pos (10 * 1000 * millisecond)) ∷ []
