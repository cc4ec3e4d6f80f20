-- ===== src/Backend/Frame.antt =====
-- What a run of an action does to the store whether it returns or raises, as a reflexive and
-- transitive relation between the store before and after. It is used in the proofs about
-- catalog/services.py and ops/services.py.

use fox_runner_server.Backend.Exec.{Reply, done, http, Action, ◌>>=◌, and_then, pure, query, change}

-- every run of `f` is in `R`
pub record Within {S A : Type 0} (R : S → S → Type 0) (f : Action S A) : Type 0 where
  pub run : (s : S) → R s (f s).1

-- the laws of `R`
pub record Preorder {S : Type 0} (R : S → S → Type 0) : Type 0 where
  pub same : (s : S) → R s s
  pub joined : (s t u : S) → R s t → R t u → R s u

module _ {S : Type 0} (R : S → S → Type 0) (laws : Preorder R) where
  module _ {A B : Type 0} where
    next :
        (k : A → Action S B) (r : Reply A) (s t : S)
        → R s t
        → ((a : A) → Within R (k a))
        → R s (and_then r k t).1
    next k (done a) s t h hk = laws.joined s t (k a t).1 h ((hk a).run t)
    next k (http code message) s t h hk = h

    pub Within-bind :
        (f : Action S A) (k : A → Action S B)
        → Within R f
        → ((a : A) → Within R (k a))
        → Within R (f >>= k)
    unfolding ◌>>=◌
    Within-bind f k hf hk = record { run = λ s. next k (f s).0 s (f s).1 (hf.run s) hk }

  module _ {A : Type 0} where
    pub Within-query : (q : S → Reply A) → Within R (query q)
    unfolding query
    Within-query q = record { run = λ s. laws.same s }

    pub Within-pure : (a : A) → Within R (pure a)
    unfolding pure
    Within-pure a = record { run = λ s. laws.same s }

  pub Within-change : (f : S → S) → ((s : S) → R s (f s)) → Within R (change f)
  unfolding change
  Within-change f h = record { run = h }
