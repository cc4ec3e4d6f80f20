-- ===== src/Prelude/Texts.antt =====
-- Python's `str` operations that the program uses, on the native texts.
use Prim.Native.Char.{Char, code}
use Prim.Native.Nat.{ℕ}
use mathlib.Core.Bool.{Bool, ◌||◌, ◌&&◌, not}
use mathlib.Core.Option.{Option, none, some}
use mathlib.Core.List.{List, [], ◌∷◌}
use fox_runner_server.Prelude.Tests.{◌==◌, leb, if◌then◌else◌}
pub use Prim.Native.String.{String, ◌++◌ as append_str}
pub use text.Mathlib.Text.{◌==◌ as str_eq, starts_with}
pub use text.Mathlib.TextEquality.{eq_iff}
pub use text.Mathlib.TextPositions.{eq_refl}

-- `bool(s)`
abbrev pub is_truthy : String → Bool
is_truthy s = not (str_eq s "")

-- `s.split(c, 1)` as a pair, or none where `c` does not occur
unfoldable pub split_once : ℕ → String → Option (String × String)
split_once c String.[] = none
split_once c (String.◌∷◌ d s) =
    let rest : Option (String × String) = elim (split_once c s) [
      | none ↦ none
      | some (a, b) ↦ some (String.◌∷◌ d a, b)
    ] in
    if code d == c then some ("", s) else rest

-- puts a character in front of the first part
cons_first : Char → List String → List String
cons_first d [] = String.◌∷◌ d "" ∷ []
cons_first d (part ∷ parts) = String.◌∷◌ d part ∷ parts

-- `s.split(c)`
unfoldable pub split_all : ℕ → String → List String
unfolding cons_first
split_all c String.[] = "" ∷ []
split_all c (String.◌∷◌ d s) =
    let parts = split_all c s in if code d == c then "" ∷ parts else cons_first d parts

-- the characters that `str.strip()` removes
unfoldable pub is_space : ℕ → Bool
is_space c =
    (leb 9 c && leb c 13)
    || (leb 28 c && leb c 32)
    || c == 0x85
    || c == 0xa0
    || c == 0x1680
    || (leb 0x2000 c && leb c 0x200a)
    || c == 0x2028
    || c == 0x2029
    || c == 0x202f
    || c == 0x205f
    || c == 0x3000

unfoldable pub strip_left : String → String
unfolding is_space
strip_left String.[] = ""
strip_left (String.◌∷◌ d s) =
    let rest = strip_left s in if is_space (code d) then rest else String.◌∷◌ d s

unfoldable pub strip_right : String → String
unfolding is_space
strip_right String.[] = ""
strip_right (String.◌∷◌ d s) =
    let rest = strip_right s in
    if is_space (code d) && str_eq rest "" then "" else String.◌∷◌ d rest

-- `s.strip()`
unfoldable pub strip : String → String
unfolding strip_left strip_right
strip s = strip_right (strip_left s)
