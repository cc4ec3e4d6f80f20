-- ===== src/Backend/Hidden.antt =====
-- What app/redaction.py hides and what it keeps.
use fox_runner_server.Prelude.{
  ◌≡◌, refl, String, sym, ap, Bool, true, false, ◌↔◌, if◌then◌else◌, inl, inr, Bool-cases, subst,
  arith,
}
use fox_runner_server.Prelude.Json as Json
use fox_runner_server.Prelude.Json.{Json, Items, Fields}
use fox_runner_server.Backend.Redaction.{
  is_secret_key, redact, redact_items, redact_fields, redacted,
}

-- the values differ in the values of secret keys only
mutual
  pub data Alike : Json → Json → Type 0 where
    equal : {j k : Json} → j ≡ k → Alike j k
    arrays : {xs ys : Items} → AlikeItems xs ys → Alike (Json.arr xs) (Json.arr ys)
    objects : {f g : Fields} → AlikeFields f g → Alike (Json.obj f) (Json.obj g)

  pub data AlikeItems : Items → Items → Type 0 where
    no_items : AlikeItems Json.nil Json.nil
    next_item :
        {j k : Json}
        → {xs ys : Items} → Alike j k
        → AlikeItems xs ys
        → AlikeItems (Json.cons j xs) (Json.cons k ys)

  pub data AlikeFields : Fields → Fields → Type 0 where
    no_fields : AlikeFields Json.end Json.end
    secret_field :
        {key : String}
        → {j k : Json} → {f g : Fields} → is_secret_key key ≡ true
        → AlikeFields f g
        → AlikeFields (Json.field key j f) (Json.field key k g)
    open_field :
        {key : String}
        → {j k : Json} → {f g : Fields} → Alike j k
        → AlikeFields f g
        → AlikeFields (Json.field key j f) (Json.field key k g)

mutual
  unfolding redact

  Alike-redact : {j k : Json} → Alike j k → redact j ≡ redact k
  Alike-redact (equal e) = ap redact e
  Alike-redact (arrays h) = ap Json.arr (AlikeItems-redact h)
  Alike-redact (objects h) = ap Json.obj (AlikeFields-redact h)

  AlikeItems-redact : {xs ys : Items} → AlikeItems xs ys → redact_items xs ≡ redact_items ys
  AlikeItems-redact no_items = refl
  AlikeItems-redact (next_item h hs) = grind (arith, Alike-redact h, AlikeItems-redact hs)

  AlikeFields-redact : {f g : Fields} → AlikeFields f g → redact_fields f ≡ redact_fields g
  AlikeFields-redact no_fields = refl
  AlikeFields-redact (secret_field s hs) = grind (arith, s, AlikeFields-redact hs)
  AlikeFields-redact (open_field h hs) = grind (arith, Alike-redact h, AlikeFields-redact hs)

-- a value without parts
scalar : Json → Bool
scalar (Json.obj fields) = false
scalar (Json.arr items) = false
scalar Json.null = true
scalar (Json.bool b) = true
scalar (Json.num n) = true
scalar (Json.text s) = true

-- what becomes a value without parts is that value
redact-scalar : (j k : Json) → scalar k ≡ true → redact j ≡ k → j ≡ k
unfolding redact scalar
redact-scalar (Json.obj fields) k s e = grind (arith, s, ap scalar e)
redact-scalar (Json.arr items) k s e = grind (arith, s, ap scalar e)
redact-scalar Json.null k s e = e
redact-scalar (Json.bool b) k s e = e
redact-scalar (Json.num n) k s e = e
redact-scalar (Json.text t) k s e = e

-- what two branches of the same test show
shown : (b : Bool) (t x y : Json) → b ≡ false → (if b then t else x) ≡ (if b then t else y) → x ≡ y
shown true t x y s e = cc
shown false t x y s e = e

open_value :
    (a b : String) (j k : Json)
    → a ≡ b
    → (if is_secret_key a then Json.text redacted else redact j)
      ≡ (if is_secret_key b then Json.text redacted else redact k)
    → is_secret_key a ≡ false
    → redact j ≡ redact k
open_value a b j k h e s = shown (is_secret_key a) (Json.text redacted) (redact j) (redact k) s (
    subst
      (λ (x : String).
        (if is_secret_key a then Json.text redacted else redact j)
        ≡ (if is_secret_key x then Json.text redacted else redact k))
      (sym h) e)

one_field :
    (a b : String) (j k : Json) (f g : Fields)
    → a ≡ b
    → (is_secret_key a ≡ false → Alike j k)
    → AlikeFields f g
    → AlikeFields (Json.field a j f) (Json.field b k g)
one_field a b j k f g h v hs =
    subst (λ (x : String). AlikeFields (Json.field a j f) (Json.field x k g)) h
      (elim (Bool-cases (is_secret_key a)) [
        | inl s ↦ secret_field s hs
        | inr s ↦ open_field (v s) hs
      ])

mutual
  unfolding redact scalar

  redact-Alike : (j k : Json) → redact j ≡ redact k → Alike j k
  redact-Alike j Json.null e = equal (redact-scalar j Json.null refl e)
  redact-Alike j (Json.bool b) e = equal (redact-scalar j (Json.bool b) refl e)
  redact-Alike j (Json.num n) e = equal (redact-scalar j (Json.num n) refl e)
  redact-Alike j (Json.text s) e = equal (redact-scalar j (Json.text s) refl e)
  redact-Alike (Json.arr xs) (Json.arr ys) e = arrays (redact_items-Alike xs ys cc)
  redact-Alike (Json.obj f) (Json.obj g) e = objects (redact_fields-Alike f g cc)
  redact-Alike (Json.arr xs) (Json.obj g) e = cc
  redact-Alike (Json.obj f) (Json.arr ys) e = cc
  redact-Alike Json.null (Json.arr ys) e = cc
  redact-Alike (Json.bool b) (Json.arr ys) e = cc
  redact-Alike (Json.num n) (Json.arr ys) e = cc
  redact-Alike (Json.text s) (Json.arr ys) e = cc
  redact-Alike Json.null (Json.obj g) e = cc
  redact-Alike (Json.bool b) (Json.obj g) e = cc
  redact-Alike (Json.num n) (Json.obj g) e = cc
  redact-Alike (Json.text s) (Json.obj g) e = cc

  redact_items-Alike : (xs ys : Items) → redact_items xs ≡ redact_items ys → AlikeItems xs ys
  redact_items-Alike Json.nil Json.nil e = no_items
  redact_items-Alike Json.nil (Json.cons k ys) e = cc
  redact_items-Alike (Json.cons j xs) Json.nil e = cc
  redact_items-Alike (Json.cons j xs) (Json.cons k ys) e =
      next_item (redact-Alike j k cc) (redact_items-Alike xs ys cc)

  redact_fields-Alike : (f g : Fields) → redact_fields f ≡ redact_fields g → AlikeFields f g
  redact_fields-Alike Json.end Json.end e = no_fields
  redact_fields-Alike Json.end (Json.field b k g) e = cc
  redact_fields-Alike (Json.field a j f) Json.end e = cc
  redact_fields-Alike (Json.field a j f) (Json.field b k g) e =
      one_field a b j k f g (cc)
        (λ (s : is_secret_key a ≡ false). redact-Alike j k (open_value a b j k (cc) (cc) s))
        (redact_fields-Alike f g cc)

-- Two values are redacted to the same value exactly if they differ in the values of secret keys only:
-- nothing of such a value is left, and everything else is.
pub redact-hides : (j k : Json) → (redact j ≡ redact k) ↔ Alike j k
redact-hides j k = (redact-Alike j k, Alike-redact)
