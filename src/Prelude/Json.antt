-- ===== src/Prelude/Json.antt =====
-- JSON values as Python reads them. A number with a fraction is not modelled; a key of an object
-- stands once, as in a dict.

use mathlib.Core.Path.{◌≡◌, refl, ap}
use mathlib.Core.Bool.{Bool, true, false, not}
use mathlib.Core.Option.{Option, none, some}
use mathlib.Core.List.{List, [], ◌∷◌}
use fox_runner_server.Prelude.Tests.{if◌then◌else◌, ◌==◌}
use fox_runner_server.Prelude.Dict.{Dict, put, has}
use fox_runner_server.Prelude.Ints.{ℤ, pos, negsuc}
use fox_runner_server.Prelude.Texts.{String, str_eq, is_truthy}

mutual
  pub data Json : Type 0 where
    null : Json
    bool : Bool → Json
    num : ℤ → Json
    text : String → Json
    arr : Items → Json
    obj : Fields → Json

  pub data Items : Type 0 where
    nil : Items
    cons : Json → Items → Items

  pub data Fields : Type 0 where
    end : Fields
    field : String → Json → Fields → Fields

-- `d.get(key)`
unfoldable pub field_of : Fields → String → Option Json
field_of end key = none
field_of (field k v rest) key = if str_eq k key then some v else field_of rest key

unfoldable pub has_field : Fields → String → Bool
has_field end key = false
has_field (field k v rest) key = if str_eq k key then true else has_field rest key

unfoldable pub to_list : Items → List Json
to_list nil = []
to_list (cons x xs) = x ∷ to_list xs

unfoldable pub of_list : List Json → Items
of_list [] = nil
of_list (x ∷ xs) = cons x (of_list xs)

pub to_list-of_list : (xs : List Json) → to_list (of_list xs) ≡ xs
unfolding to_list of_list
to_list-of_list [] = refl
to_list-of_list (x ∷ xs) = ap (λ (ys : List Json). x ∷ ys) (to_list-of_list xs)

-- `value == "..."`
unfoldable pub is_text : Option Json → String → Bool
is_text (some (text s)) t = str_eq s t
is_text none t = false
is_text (some null) t = false
is_text (some (bool b)) t = false
is_text (some (num n)) t = false
is_text (some (arr xs)) t = false
is_text (some (obj fs)) t = false

unfoldable pub is_object : Json → Bool
is_object (obj fs) = true
is_object null = false
is_object (bool b) = false
is_object (num n) = false
is_object (text s) = false
is_object (arr xs) = false

unfoldable pub is_array : Json → Bool
is_array (arr xs) = true
is_array null = false
is_array (bool b) = false
is_array (num n) = false
is_array (text s) = false
is_array (obj fs) = false

-- an object's fields as a dict, and back
unfoldable pub dict_of : Fields → Dict Json
dict_of end = []
dict_of (field k v rest) = (k, v) ∷ dict_of rest

unfoldable pub fields_of : Dict Json → Fields
fields_of [] = end
fields_of ((k, v) ∷ rest) = field k v (fields_of rest)

pub dict_of-fields_of : (d : Dict Json) → dict_of (fields_of d) ≡ d
unfolding dict_of fields_of
dict_of-fields_of [] = refl
dict_of-fields_of ((k, v) ∷ d) = ap (λ (e : Dict Json). (k, v) ∷ e) (dict_of-fields_of d)

abbrev pub object : Dict Json → Json
object d = obj (fields_of d)

-- `d.setdefault(key, v)`
unfoldable pub put_default : Dict Json → String → Json → Dict Json
put_default d key v = if has d key then d else put d key v

-- `bool(value)`
unfoldable pub truth : Json → Bool
truth null = false
truth (bool b) = b
truth (num (pos n)) = not (n == 0)
truth (num (negsuc n)) = true
truth (text s) = is_truthy s
truth (arr nil) = false
truth (arr (cons x xs)) = true
truth (obj end) = false
truth (obj (field k v rest)) = true
