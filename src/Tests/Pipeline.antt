-- ===== src/Tests/Pipeline.antt =====
-- Requests through the whole application, and the theorems about request ids and health at concrete
-- inputs.
use payment_system.Base.{ℕ, suc, ◌≡◌, refl, true, String, none, some, [], ◌∷◌}
use payment_system.Base.Dict.{lookup}
use payment_system.Core.Exceptions.{Exception, self_transfer, unexpected, status_code}
use payment_system.Core.Exec.{ok, err, Exec}
use payment_system.Core.Outcome.{Returns}
use payment_system.Core.Settings.{default_settings}
use payment_system.Api.Context.{HttpRequest, Host, Runtime, dispatch}
use payment_system.Api.Pipeline.{Routed, answered, serve}
use payment_system.Api.Pipeline.Correlated.{entered, Correlated, Adds, serve-Correlated, serve-Adds}
use payment_system.Api.Health.{
  Health, Process, Checked, Started, health_check, startup, startup-health_check,
}
use payment_system.Tests.Texts.{marks}
use payment_system.Tests.Server.{steady, empty}

-- The state counts the calls of the clock.
abbrev pub ticking : Runtime ℕ
ticking = record {
  perf_counter = λ n. (n, suc n);
  uuid4 = λ n. ("fresh", n);
  elapsed_text = λ start now. "1.0";
  number_text = λ n. "201";
  class_name = λ e. "ValueError";
}

abbrev pub no_text : ℕ → String
no_text n = "0"

abbrev pub no_message : Exception → String
no_message e = ""

abbrev get_me : HttpRequest
get_me = record { method = "GET"; path = "/me"; x_request_id = some "abc" }

abbrev idle : Host ℕ
idle = record { app = 0; context = record { request_id = none; user_id = none }; log = [] }

abbrev breaks : Exec (Host ℕ) (Routed String)
breaks h = (err (unexpected 4), h)

abbrev refuses : Exec (Host ℕ) (Routed String)
refuses h = (err self_transfer, h)

abbrev greets : Exec (Host ℕ) (Routed String)
greets h = (ok (answered (record { status_code = 200; headers = []; body = "hello" })), h)

-- The one response without the header.
lost_header :
    lookup "x-request-id" (serve ticking no_text no_message get_me breaks idle).0.headers ≡ none
unfolding serve dispatch status_code
lost_header = refl

greeting_headers :
    (serve ticking no_text no_message get_me greets idle).0.headers
    ≡ ("x-request-id", "abc") ∷ ("x-response-time-ms", "1.0") ∷ []
unfolding serve dispatch status_code
greeting_headers = refl

serve-Correlated_example :
    Correlated ticking no_text no_message get_me refuses idle
      (refuses (entered ticking no_text no_message get_me refuses idle))
      (serve ticking no_text no_message get_me refuses idle).0
serve-Correlated_example = serve-Correlated ticking no_text no_message get_me refuses idle refl

serve-Adds_example :
    Adds ticking no_text no_message get_me breaks idle []
      (serve ticking no_text no_message get_me breaks idle).1.log
serve-Adds_example = serve-Adds ticking no_text no_message get_me breaks idle

abbrev process : Process steady.Server ℕ
process = record { server = empty; engine = 0; log = [] }

startup-health_check_example :
    Returns {S = steady.Server} {A = Health}
      (λ h _. Checked marks steady default_settings (ok true) h)
      (health_check marks steady default_settings empty)
    × Returns {S = Process steady.Server ℕ} {A = Unit {0}}
        (λ _ p'. Started marks steady (ok true) process p')
        (startup marks steady process)
startup-health_check_example = startup-health_check marks steady default_settings empty process
