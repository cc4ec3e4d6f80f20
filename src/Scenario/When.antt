-- ===== src/Scenario/When.antt =====
-- `_should_execute` of scenarios/runner.py: the `when` condition of a step.
use fox_runner_server.Prelude.{
  String, Option, none, some, Bool, true, false, not, any, str_eq, starts_with, is_truthy,
  split_once, split_all, strip, append_str, if◌then◌else◌,
}
use fox_runner_server.Prelude.Dict.{get}
use fox_runner_server.Scenario.Effects.{
  Result, return, raise, Value, text, browser, Context, Engine,
}

-- `bool(context.get(key))`
unfoldable pub is_set : Option Value → Bool
is_set none = false
is_set (some (text s)) = is_truthy s
is_set (some (browser n)) = true

module _ {W : Type 0} (e : Engine W) where
  -- `str(context.get(key, ""))`
  unfoldable pub value_text : Option Value → String
  value_text none = ""
  value_text (some (text s)) = s
  value_text (some (browser n)) = e.repr n

  -- `expression.split(":", 1)[1]`
  argument : String → String
  argument expression = elim (split_once b':' expression) [ none ↦ "" | some (_, rest) ↦ rest ]

  -- `key, rest = raw.split("=", 1)` and what is done with the two
  with_pair : String → (String → String → Result Bool) → Result Bool
  with_pair raw test = elim (split_once b'=' raw) [
    | none ↦ raise "not enough values to unpack (expected 2, got 1)"
    | some (key, rest) ↦ test key rest
  ]

  -- `{item.strip() for item in values.split(",") if item.strip()}` holds `subject`
  listed : String → String → Bool
  listed values subject =
      any
        (λ item.
          let stripped = strip item in
          if is_truthy stripped then str_eq stripped subject else false)
        (split_all b',' values)

  unfoldable pub holds : String → Context → Result Bool
  unfolding argument with_pair listed is_set value_text
  holds expression context =
      let raw = argument expression in
      if starts_with expression "context_exists:"
      then return (is_set (get context raw))
      else if starts_with expression "context_not_exists:"
      then return (not (is_set (get context raw)))
      else if starts_with expression "context_equals:"
      then with_pair raw (λ key expected. return (str_eq (value_text (get context key)) expected))
      else if starts_with expression "context_in:"
      then with_pair raw (λ key values. return (listed values (value_text (get context key))))
      else if starts_with expression "context_matches:"
      then with_pair raw (λ key pattern. e.search pattern (value_text (get context key)))
      else raise (append_str "Condition DSL non supportee: " expression)

  unfoldable pub should_execute : Option String → Context → Result Bool
  unfolding holds
  should_execute none context = return true
  should_execute (some expression) context = holds expression context
