-- ===== src/Backend/Laws.antt =====
-- How the properties of actions compose: what holds after an action that returned, and actions that
-- were refused without a change. They are used in the proofs about catalog/services.py and
-- ops/services.py.
use fox_runner_server.Prelude.{ℕ, String, Bool, true, false, ◌≡◌, refl, ap, ◌∙◌}
use fox_runner_server.Backend.Exec.{
  Reply, done, http, Action, ◌>>=◌, ◌>>◌, and_then, pure, reply, query, change, require,
}

module _ {S A : Type 0} where
  -- `Q` holds if the action returned
  abbrev pub Returned : (Q : S → Type 0) → Reply A × S → Type 0
  Returned Q (done a, s) = Q s
  Returned Q (http code message, s) = Unit

  -- the run of `f` from `s` raises and changes nothing
  abbrev pub Refused : Action S A → S → Type 0
  Refused f s = (code : ℕ) × (message : String) × (f s ≡ (http code message, s))

-- from a state in `P`, a run of `f` that returns ends in `Q`
pub record Gives {S A : Type 0} (P : S → Type 0) (f : Action S A) (Q : S → Type 0) : Type 0 where
  pub after : (s : S) → P s → Returned Q (f s)

abbrev pub Anything : {S : Type 0} → S → Type 0
Anything s = Unit

module _ {S A B : Type 0} where
  continue :
      (Q : S → Type 0)
      → (R : S → Type 0) → (k : A → Action S B) → ((a : A) → Gives Q (k a) R)
      → (r : Reply A × S) → Returned Q r
      → Returned R (and_then r.0 k r.1)
  continue Q R k hk (done a, s) q = (hk a).after s q
  continue Q R k hk (http code message, s) q = tt

  pub Gives-bind :
      (P : S → Type 0)
      → (Q : S → Type 0) → (R : S → Type 0) → (f : Action S A) → (k : A → Action S B) → Gives P f Q
      → ((a : A) → Gives Q (k a) R)
      → Gives P (f >>= k) R
  unfolding ◌>>=◌
  Gives-bind P Q R f k hf hk = record { after = λ s p. continue Q R k hk (f s) (hf.after s p) }

  pub Refused-bind_first :
      (f : Action S A) (k : A → Action S B) (s : S) → Refused f s → Refused (f >>= k) s
  unfolding ◌>>=◌
  Refused-bind_first f k s (code, message, e) =
      (code, message, ap (λ (r : Reply A × S). and_then r.0 k r.1) e)

  pub Refused-bind :
      (f : Action S A)
      → (k : A → Action S B) → (s : S) → (a : A) → f s ≡ (done a, s)
      → Refused (k a) s
      → Refused (f >>= k) s
  unfolding ◌>>=◌
  Refused-bind f k s a e (code, message, h) =
      (code, message, ap (λ (r : Reply A × S). and_then r.0 k r.1) e ∙ h)

module _ {S A : Type 0} where
  Returned-Anything : (r : Reply A × S) → Returned Anything r
  Returned-Anything (done a, s) = tt
  Returned-Anything (http code message, s) = tt

  pub Gives-Anything : (P : S → Type 0) → (f : Action S A) → Gives P f Anything
  Gives-Anything P f = record { after = λ s p. Returned-Anything (f s) }

  query_keeps : (P : S → Type 0) → (r : Reply A) → (s : S) → P s → Returned P (r, s)
  query_keeps P (done a) s p = p
  query_keeps P (http code message) s p = tt

  pub Gives-query : (P : S → Type 0) → (q : S → Reply A) → Gives P (query q) P
  unfolding query
  Gives-query P q = record { after = λ s p. query_keeps P (q s) s p }

  pub Gives-weaken :
      (P : S → Type 0)
      → (Q : S → Type 0) → (R : S → Type 0) → (f : Action S A) → ((s : S) → P s → Q s)
      → Gives Q f R
      → Gives P f R
  Gives-weaken P Q R f h g = record { after = λ s p. g.after s (h s p) }

  pub Gives-reply : (P : S → Type 0) → (r : Reply A) → Gives P (reply r) P
  unfolding reply
  Gives-reply P r = record { after = λ s p. query_keeps P r s p }

  pub Gives-pure : (P : S → Type 0) → (a : A) → Gives P (pure a) P
  unfolding pure
  Gives-pure P a = record { after = λ s p. p }

module _ {S A B : Type 0} where
  pub Gives-skip :
      (P : S → Type 0)
      → (R : S → Type 0) → (f : Action S A) → (k : A → Action S B)
      → ((a : A) → Gives Anything (k a) R)
      → Gives P (f >>= k) R
  Gives-skip P R f k hk = Gives-bind P Anything R f k (Gives-Anything P f) hk

module _ {S A B : Type 0} where
  asked :
      (P : S → Type 0)
      → (R : S → Type 0) → (q : S → Reply A) → (k : A → Action S B) → (s : S) → P s
      → ((a : A) → Gives (λ (t : S). P t × (q t ≡ done a)) (k a) R)
      → (r : Reply A) → q s ≡ r
      → Returned R (and_then r k s)
  asked P R q k s p hk (done a) e = (hk a).after s (p, e)
  asked P R q k s p hk (http code message) e = tt

  -- what follows a query knows its answer
  pub Gives-asked :
      (P : S → Type 0)
      → (R : S → Type 0) → (q : S → Reply A) → (k : A → Action S B)
      → ((a : A) → Gives (λ (t : S). P t × (q t ≡ done a)) (k a) R)
      → Gives P (query q >>= k) R
  unfolding ◌>>=◌ query
  Gives-asked P R q k hk = record { after = λ s p. asked P R q k s p hk (q s) refl }

-- the same for steps without a value
module _ {S B : Type 0} where
  pub Gives-seq :
      (P : S → Type 0)
      → (Q : S → Type 0) → (R : S → Type 0) → (f : Action S (Unit {0})) → (k : Action S B)
      → Gives P f Q
      → Gives Q k R
      → Gives P (f >> k) R
  unfolding ◌>>◌ ◌>>=◌
  Gives-seq P Q R f k hf hk = Gives-bind P Q R f (λ a. k) hf (λ a. hk)

  pub Gives-skip_seq :
      (P : S → Type 0)
      → (R : S → Type 0) → (f : Action S (Unit {0})) → (k : Action S B) → Gives Anything k R
      → Gives P (f >> k) R
  unfolding ◌>>◌ ◌>>=◌
  Gives-skip_seq P R f k hk = Gives-skip P R f (λ a. k) (λ a. hk)

module _ {S : Type 0} where
  pub Gives-change :
      (P : S → Type 0)
      → (Q : S → Type 0) → (f : S → S) → ((s : S) → P s → Q (f s))
      → Gives P (change f) Q
  unfolding change
  Gives-change P Q f h = record { after = λ s p. h s p }

  require_keeps :
      (P : S → Type 0)
      → (test : Bool) → (code : ℕ) → (message : String) → (s : S) → P s
      → Returned P (require test code message s)
  unfolding require
  require_keeps P true code message s p = p
  require_keeps P false code message s p = tt

  pub Gives-require :
      (P : S → Type 0)
      → (test : Bool) → (code : ℕ) → (message : String) → Gives P (require test code message) P
  Gives-require P test code message = record {
    after = λ s p. require_keeps P test code message s p;
  }

module _ {S A B : Type 0} where
  after_query :
      (k : A → Action S B)
      → (s : S) → (r : Reply A) → ((a : A) → r ≡ done a → Refused (k a) s)
      → (code : ℕ) × (message : String) × (and_then r k s ≡ (http code message, s))
  after_query k s (done a) h = h a refl
  after_query k s (http code message) h = (code, message, refl)

  -- a query that raises is refused, and one that answers leaves the rest to be refused
  pub Refused-query :
      (q : S → Reply A)
      → (k : A → Action S B) → (s : S) → ((a : A) → q s ≡ done a → Refused (k a) s)
      → Refused (query q >>= k) s
  unfolding ◌>>=◌ query
  Refused-query q k s h = after_query k s (q s) h

module _ {S B : Type 0} where
  pub Refused-query_seq :
      (q : S → Reply (Unit {0}))
      → (k : Action S B) → (s : S) → Refused k s
      → Refused (query q >> k) s
  unfolding ◌>>◌ ◌>>=◌ query
  Refused-query_seq q k s h = after_query (λ a. k) s (q s) (λ a e. h)

  pub Refused-reply_seq :
      (r : Reply (Unit {0})) → (k : Action S B) → (s : S) → Refused k s → Refused (reply r >> k) s
  unfolding ◌>>◌ ◌>>=◌ reply
  Refused-reply_seq r k s h = after_query (λ a. k) s r (λ a e. h)
