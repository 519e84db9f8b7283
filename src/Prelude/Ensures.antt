-- ===== src/Prelude/Ensures.antt =====
-- What a block of statements ensures of the states before and after it: a relation `R` however it ends,
-- and `Q` of its value too when it succeeds.
use rpcnode.Prelude.Outcome.{Result, ok, err, Exec, continue, pure, reads, raise_if, modify, ◌>>=◌}
use mathlib.Core.Bool.{Bool, true, false}

-- a relation of states that blocks can be chained along
pub record Passage (S : Type 0) : Type 1 where
  pub Rel : S → S → Type 0
  pub same : (s : S) → Rel s s
  pub trans : (s t u : S) → Rel s t → Rel t u → Rel s u

abbrev pub Ends :
    {E : Type 0} {A S : Type 0} → (S → Type 0) → (A → S → Type 0) → Result E A × S → Type 0
Ends R Q (err e, s) = R s
Ends R Q (ok a, s) = Q a s

module _ (E : Type 0) {S : Type 0} (p : Passage S) where
  abbrev pub Ensures : {A : Type 0} → (S → A → S → Type 0) → Exec E S A → Type 0
  Ensures Q c = (s : S) → Ends (p.Rel s) (Q s) (c s)

  -- the relation alone, whatever the value
  abbrev pub Keeps : {A : Type 0} → Exec E S A → Type 0
  Keeps {A} c = Ensures (λ s (a : A) t. p.Rel s t) c

  weaken :
      {B : Type 0} (Q : S → B → S → Type 0)
      (closed : (s t u : S) (b : B) → p.Rel s t → Q t b u → Q s b u) (s t : S) (r : Result E B × S)
      → p.Rel s t
      → Ends (p.Rel t) (Q t) r
      → Ends (p.Rel s) (Q s) r
  weaken Q closed s t (err e, u) h g = p.trans s t u h g
  weaken Q closed s t (ok b, u) h g = closed s t u b h g

  module _ {A B : Type 0} (Q : S → B → S → Type 0)
      (closed : (s t u : S) (b : B) → p.Rel s t → Q t b u → Q s b u) where
    continue_lem :
        (s : S) (r : Result E A × S) (k : A → Exec E S B)
        → Ends (p.Rel s) (λ a t. p.Rel s t) r
        → ((a : A) → Ensures Q (k a))
        → Ends (p.Rel s) (Q s) (continue r.0 k r.1)
    continue_lem s (err e, t) k h rest = h
    continue_lem s (ok a, t) k h rest = weaken Q closed s t (k a t) h (rest a t)

    pub bind-Ensures :
        (c : Exec E S A) (k : A → Exec E S B)
        → Keeps c
        → ((a : A) → Ensures Q (k a))
        → Ensures Q (c >>= k)
    unfolding ◌>>=◌
    bind-Ensures c k first rest s = continue_lem s (c s) k (first s) rest

  pub bind-Keeps :
      {A B : Type 0} (c : Exec E S A) (k : A → Exec E S B)
      → Keeps c
      → ((a : A) → Keeps (k a))
      → Keeps (c >>= k)
  bind-Keeps {B = B} c k =
      bind-Ensures (λ s (b : B) t. p.Rel s t) (λ s t u b h g. p.trans s t u h g) c k

  pub pure-Keeps : {A : Type 0} (a : A) → Keeps (pure a)
  unfolding pure
  pure-Keeps a s = p.same s

  pub raise_if-Keeps : (b : Bool) (e : E) → Keeps (raise_if b e)
  unfolding raise_if
  raise_if-Keeps true e s = p.same s
  raise_if-Keeps false e s = p.same s

  pub reads-Keeps : {A : Type 0} (f : S → Result E A) → Keeps (reads f)
  unfolding reads
  reads-Keeps {A} f s = go (f s)
    where
      go : (r : Result E A) → Ends (p.Rel s) (λ a t. p.Rel s t) (r, s)
      go (ok a) = p.same s
      go (err e) = p.same s

  pub modify-Keeps : (f : S → S) → ((s : S) → p.Rel s (f s)) → Keeps (modify f)
  unfolding modify
  modify-Keeps f h s = h s

module _ (E : Type 0) {S : Type 0} (p q : Passage S) where
  -- from a relation and a property of the value to weaker ones
  pub weaken-Ensures :
      {A : Type 0} (Q Q' : S → A → S → Type 0) (c : Exec E S A)
      → ((s t : S) → p.Rel s t → q.Rel s t)
      → ((s t : S) (a : A) → Q s a t → Q' s a t)
      → Ensures E p Q c
      → Ensures E q Q' c
  weaken-Ensures {A} Q Q' c f g h s = go (c s) (h s)
    where
      go : (r : Result E A × S) → Ends (p.Rel s) (Q s) r → Ends (q.Rel s) (Q' s) r
      go (err e, t) = f s t
      go (ok a, t) = g s t a

-- The rest of a block keeps `R` if it does after a success of its first statement.
pub ends_bind :
    {E S A B : Type 0} (R : S → Type 0) (Q : A → S → Type 0) (c : Exec E S A) (k : A → Exec E S B)
    (s : S)
    → Ends R Q (c s)
    → ((a : A) (t : S) → Q a t → R (k a t).1)
    → R ((c >>= k) s).1
unfolding ◌>>=◌
ends_bind {E} {S} {A} R Q c k s first rest = go (c s) first
  where
    go : (r : Result E A × S) → Ends R Q r → R (continue r.0 k r.1).1
    go (err e, t) h = h
    go (ok a, t) h = rest a t h

-- a relation that holds however a block ended
pub ended :
    {E A S : Type 0} (R : S → Type 0) (r : Result E A × S) → Ends R (λ (a : A) t. R t) r → R r.1
ended R (err e, t) h = h
ended R (ok a, t) h = h
