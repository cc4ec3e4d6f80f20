-- ===== src/Backend/Witnesses.antt =====
-- Tests of what the parts of the backend share.
use fox_runner_server.Prelude.{◌≡◌, refl, String, ◌↔◌}
use fox_runner_server.Prelude.Json as Json
use fox_runner_server.Prelude.Json.{Json}
use fox_runner_server.Backend.Redaction.{redact, redact_text, redacted}
use fox_runner_server.Backend.Hidden.{Alike, redact-hides}

-- a subscription of Graph with the given secret
abbrev subscription : String → Json
subscription secret = Json.obj (
    Json.field "resource" (Json.text "me/events")
      (Json.field "clientState" (Json.text secret) Json.end))

redact-hides_example :
    (redact (subscription "one") ≡ redact (subscription "two"))
    ↔ Alike (subscription "one") (subscription "two")
redact-hides_example = redact-hides (subscription "one") (subscription "two")

subscription_stored : redact (subscription "one") ≡ subscription redacted
unfolding redact fox_runner_server.Backend.Redaction.is_secret_key
subscription_stored = refl

header_stored : redact_text "Bearer TOKEN" ≡ redacted
unfolding redact_text
header_stored = refl
