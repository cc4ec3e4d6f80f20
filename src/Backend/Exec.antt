-- ===== src/Backend/Exec.antt =====
-- Handlers of the Django backend: an action over a store of type `S`, which may raise. What was done
-- to the store before a raise stays done, unless a transaction takes it back.
use fox_runner_server.Prelude.{ℕ, String, Bool, true, false, ◌≡◌, refl, ◌⊎◌, inl, inr}

-- A value, or an exception: `HttpError(code, message)`; any other exception answers with 500.
pub data Reply {ℓ} (A : Type ℓ) : Type ℓ where
  done : A → Reply A
  http : (code : ℕ) (message : String) → Reply A

pub Reply-cases {ℓ} :
    {A : Type ℓ} (r : Reply A)
    → ((a : A) × (r ≡ done a)) ⊎ ((code : ℕ) × (message : String) × (r ≡ http code message))
Reply-cases (done a) = inl (a, refl)
Reply-cases (http code message) = inr (code, message, refl)

abbrev pub Action : Type 0 → Type 0 → Type 0
Action S A = S → Reply A × S

module _ {S A B : Type 0} where
  abbrev pub and_then : Reply A → (A → Action S B) → Action S B
  and_then (done a) k s = k a s
  and_then (http code message) k s = (http code message, s)

  infixl 5 ◌>>=◌
  unfoldable pub ◌>>=◌ : Action S A → (A → Action S B) → Action S B
  ◌>>=◌ f k s = let (r, s') = f s in and_then r k s'

module _ {S B : Type 0} where
  infixl 5 ◌>>◌
  unfoldable pub ◌>>◌ : Action S (Unit {0}) → Action S B → Action S B
  f >> k = f >>= λ _. k

module _ {S A : Type 0} where
  unfoldable pub pure : A → Action S A
  pure a s = (done a, s)

  unfoldable pub fail : (code : ℕ) (message : String) → Action S A
  fail code message s = (http code message, s)

  unfoldable pub reply : Reply A → Action S A
  reply r s = (r, s)

  -- a query, which leaves the store alone
  unfoldable pub query : (S → Reply A) → Action S A
  query q s = (q s, s)

module _ {S : Type 0} where
  unfoldable pub change : (S → S) → Action S (Unit {0})
  change f s = (done tt, f s)

  -- `if not test: raise HttpError(code, message)`
  unfoldable pub require : Bool → (code : ℕ) (message : String) → Action S (Unit {0})
  require true code message s = (done tt, s)
  require false code message s = (http code message, s)
