-- ===== src/Documents/Checks.antt =====
-- What scenarios/loader.py asks of the fields of a JSON object.
use fox_runner_server.Prelude.{
  zero, suc, String, ℤ, pos, negsuc, Bool, true, false, List, [], ◌∷◌, append_str, if◌then◌else◌,
}
use fox_runner_server.Prelude.Json.{Fields, has_field}
use fox_runner_server.Scenario.Effects.{Result, return, raise}
use fox_runner_server.Scenario.Engine.{join}

-- the text of an f-string's parts
unfoldable pub say : List String → String
say [] = ""
say (s ∷ parts) = append_str s (say parts)

-- a check, then the rest
infixr 6 ◌then◌
unfoldable pub ◌then◌ : Result (Unit {0}) → Result (Unit {0}) → Result (Unit {0})
return u then rest = rest
raise message then rest = raise message

-- `if test: raise ValueError(message)`, with the test negated
unfoldable pub demand : Bool → String → Result (Unit {0})
demand true message = return tt
demand false message = raise message

unfoldable pub missing_keys : Fields → List String → List String
missing_keys fs [] = []
missing_keys fs (key ∷ keys) =
    let rest = missing_keys fs keys in if has_field fs key then rest else key ∷ rest

unfoldable pub none_missing : List String → String → Result (Unit {0})
none_missing [] context = return tt
none_missing (key ∷ keys) context =
    raise (say (context ∷ ": cles manquantes: " ∷ join (key ∷ keys) ∷ []))

-- `_require_keys`
unfoldable pub require_keys : Fields → List String → String → Result (Unit {0})
require_keys fs keys context = none_missing (missing_keys fs keys) context

unfoldable pub has_some : Fields → List String → Bool
has_some fs [] = false
has_some fs (key ∷ keys) = let rest = has_some fs keys in if has_field fs key then true else rest

-- `int(value) > 0`
unfoldable pub is_positive : ℤ → Bool
is_positive (pos zero) = false
is_positive (pos (suc n)) = true
is_positive (negsuc n) = false
