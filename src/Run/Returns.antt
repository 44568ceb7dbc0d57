-- ===== src/Run/Returns.antt =====
-- Calls that return, step by step.
use ur_webif.Base.{Bool, true, false, Bytes, ◌≡◌, refl, arith}
use ur_webif.Run.{Run, Call, returns, throws, blocked, ◌>>=◌, pure, try_catch, Ends}
use ur_webif.Json.{Attempt, done, threw, attempt}

pub bind-returns :
    {S A B : Type 0} (m : Call S A) (f : A → Call S B) (s : S) (a : A) (t : S)
    → m s ≡ returns a t
    → (m >>= f) s ≡ f a t
bind-returns m f s a t e = rw (e, ◌>>=◌) refl

pub bind-done :
    {S A B : Type 0} (r : Attempt A) (f : A → Call S B) (s : S) (b : B) (t : S)
    → (attempt r >>= f) s ≡ returns b t
    → (a : A) × (r ≡ done a) × (f a s ≡ returns b t)
bind-done (done a) f s b t e = (a, refl, e)
bind-done (threw m) f s b t e = ground (arith, e)

-- A call that does not end by the handler.
pub returned :
    {S : Type 0} (m : Call S Bool) (s t : S)
    → try_catch m (λ _. pure false) s ≡ returns true t
    → m s ≡ returns true t
returned {S} m s t e = go (m s) e
  where
    go :
        (r : Run S Bool)
        → elim r [
          | returns a u ↦ returns a u
          | throws x u ↦ returns false u
          | blocked u ↦ blocked u
        ]
          ≡ returns true t
        → r ≡ returns true t
    go (returns a u) h = h
    go (throws x u) h = ground (arith, h)
    go (blocked u) h = ground (arith, h)

pub caught :
    {S A : Type 0} (m : Call S A) (handler : Bytes → Call S A) (s : S) (a : A) (t : S)
    → m s ≡ returns a t
    → try_catch m handler s ≡ returns a t
caught m handler s a t e = rw (try_catch, e) refl

-- Calls that wait for ever.
pub bind-blocked :
    {S A B : Type 0} (m : Call S A) (f : A → Call S B) (s t : S)
    → m s ≡ blocked t
    → (m >>= f) s ≡ blocked t
bind-blocked m f s t e = rw (e, ◌>>=◌) refl

pub caught-blocked :
    {S A : Type 0} (m : Call S A) (handler : Bytes → Call S A) (s t : S)
    → m s ≡ blocked t
    → try_catch m handler s ≡ blocked t
caught-blocked m handler s t e = rw (try_catch, e) refl

-- The steps of a call that does not throw.
pub Ends-then :
    {S A B : Type 0} {Q : A → S → Type 0} (R : B → S → Type 0) (r : Run S A) (f : A → Call S B)
    → Ends r Q (λ _ _. ⊥)
    → ((a : A) (t : S) → Q a t → Ends (f a t) R (λ _ _. ⊥))
    → Ends
        (elim r [ returns a t ↦ f a t | throws e t ↦ throws e t | blocked t ↦ blocked t ])
        R
        (λ _ _. ⊥)
Ends-then R (returns a t) f q k = k a t q
Ends-then R (throws e t) f q k = absurd q
Ends-then R (blocked t) f q k = absurd q

-- A handler that has nothing to do.
pub Ends-caught :
    {S A : Type 0} (Q : A → S → Type 0) (m : Call S A) (handler : Bytes → Call S A) (s : S)
    → Ends (m s) Q (λ _ _. ⊥)
    → Ends (try_catch m handler s) Q (λ _ _. ⊥)
Ends-caught {S} {A} Q m handler s q = go (m s) q
  where
    go :
        (r : Run S A)
        → Ends r Q (λ _ _. ⊥)
        → Ends
            (elim r [
              | returns a t ↦ returns a t
              | throws e t ↦ handler e t
              | blocked t ↦ blocked t
            ])
            Q
            (λ _ _. ⊥)
    go (returns a t) q = q
    go (throws e t) q = absurd q
    go (blocked t) q = absurd q
