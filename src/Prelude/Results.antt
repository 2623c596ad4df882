-- ===== src/Prelude/Results.antt =====
-- What code that raises returns: a value, or the error raised.
pub data Result (E A : Type 0) : Type 0 where
  ok : A → Result E A
  raised : E → Result E A

infixl 5 ◌>>=◌
abbrev pub ◌>>=◌ : {E A B : Type 0} → Result E A → (A → Result E B) → Result E B
ok a >>= f = f a
raised e >>= f = raised e

-- A value that is returned satisfies the predicate.
abbrev pub Ensures : {E A : Type 0} → (A → Type 0) → Result E A → Type 0
Ensures P (ok a) = P a
Ensures P (raised e) = Unit

pub Ensures-bind :
    {E A B : Type 0} (P : A → Type 0) (Q : B → Type 0) (m : Result E A) (f : A → Result E B)
    → Ensures P m
    → ((a : A) → P a → Ensures Q (f a))
    → Ensures Q (m >>= f)
Ensures-bind P Q (ok a) f h k = k a h
Ensures-bind P Q (raised e) f h k = tt
