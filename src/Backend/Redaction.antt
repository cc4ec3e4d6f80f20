-- ===== src/Backend/Redaction.antt =====
-- What hides secrets before a payload is stored or logged (app/redaction.py). A tuple is not modelled:
-- JSON has none.
use Prim.Native.Char.{code}
use fox_runner_server.Prelude.{
  ℕ, String, Bool, true, false, ◌&&◌, List, [], ◌∷◌, ◌+◌, any, if◌then◌else◌, leb, ◌==◌,
}
use fox_runner_server.Prelude.Json as Json
use fox_runner_server.Prelude.Json.{Json, Items, Fields}

-- the codes of `s.lower()`, as far as ASCII letters can be among them: beside A to Z, the Kelvin sign
-- becomes k, and the dotted I becomes i and a combining dot
unfoldable pub lower : String → List ℕ
lower String.[] = []
lower (String.◌∷◌ c s) =
    let rest = lower s in
    if leb 65 (code c) && leb (code c) 90
    then (code c + 32) ∷ rest
    else if code c == 8490
    then 107 ∷ rest
    else if code c == 304
    then 105 ∷ 775 ∷ rest
    else code c ∷ rest

unfoldable pub codes : String → List ℕ
codes String.[] = []
codes (String.◌∷◌ c s) = code c ∷ codes s

unfoldable pub begins : List ℕ → List ℕ → Bool
begins [] ys = true
begins (x ∷ xs) [] = false
begins (x ∷ xs) (y ∷ ys) = x == y && begins xs ys

-- `xs in ys`
unfoldable pub occurs : List ℕ → List ℕ → Bool
unfolding begins
occurs xs [] = begins xs []
occurs xs (y ∷ ys) = let rest = occurs xs ys in if begins xs (y ∷ ys) then true else rest

abbrev pub secret_markers : List String
secret_markers =
    "secret" ∷ "password" ∷ "token" ∷ "key" ∷ "authorization" ∷ "client_state" ∷ "clientstate" ∷ []

abbrev pub redacted : String
redacted = "***redacted***"

unfoldable pub is_secret_key : String → Bool
unfolding lower codes occurs
is_secret_key key = any (λ marker. occurs (codes marker) (lower key)) secret_markers

unfoldable mutual
  pub redact : Json → Json
  redact (Json.obj fields) = Json.obj (redact_fields fields)
  redact (Json.arr items) = Json.arr (redact_items items)
  redact Json.null = Json.null
  redact (Json.bool b) = Json.bool b
  redact (Json.num n) = Json.num n
  redact (Json.text s) = Json.text s

  pub redact_items : Items → Items
  redact_items Json.nil = Json.nil
  redact_items (Json.cons item items) = Json.cons (redact item) (redact_items items)

  pub redact_fields : Fields → Fields
  redact_fields Json.end = Json.end
  redact_fields (Json.field key item rest) =
      Json.field key (if is_secret_key key then Json.text redacted else redact item)
        (redact_fields rest)

-- `redact_text`
unfoldable pub redact_text : String → String
unfolding lower codes occurs
redact_text value =
    if any (λ marker. occurs (codes marker) (lower value)) secret_markers then redacted else value
