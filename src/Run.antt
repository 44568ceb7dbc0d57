-- ===== src/Run.antt =====
-- What a call of a method does to the object, under `std::mutex` locks and C++ exceptions.
pub mod Returns
use ur_webif.Base.{Bool, true, false, Bytes}

-- A call returns, throws, or waits for a mutex that its own thread holds (`std::mutex` is not
-- recursive), which never ends. What was written before stays written.
pub data Run (S A : Type 0) : Type 0 where
  returns : A → S → Run S A
  throws : Bytes → S → Run S A
  blocked : S → Run S A

abbrev pub Call : Type 0 → Type 0 → Type 0
Call S A = S → Run S A

module _ {S : Type 0} where
  infixl 5 ◌>>=◌ ◌>>◌
  abbrev pub ◌>>=◌ : {A B : Type 0} → Call S A → (A → Call S B) → Call S B
  ◌>>=◌ m f s = elim (m s) [ returns a t ↦ f a t | throws e t ↦ throws e t | blocked t ↦ blocked t ]

  abbrev pub ◌>>◌ : {A B : Type 0} → Call S A → Call S B → Call S B
  m >> k = m >>= λ _. k

  abbrev pub pure : {A : Type 0} → A → Call S A
  pure a s = returns a s

  abbrev pub modify : (S → S) → Call S (Unit {0})
  modify f s = returns tt (f s)

  abbrev pub gets : {A : Type 0} → (S → A) → Call S A
  gets f s = returns (f s) s

  abbrev pub raise : {A : Type 0} → Bytes → Call S A
  raise e s = throws e s

-- A mutex is a flag of the object.
pub record Mutex (S : Type 0) : Type 0 where
  pub is_held : S → Bool
  pub set_held : Bool → S → S

module _ {S A : Type 0} where
  abbrev pub unlock : Mutex S → Run S A → Run S A
  unlock m (returns a t) = returns a (m.set_held false t)
  unlock m (throws e t) = throws e (m.set_held false t)
  unlock m (blocked t) = blocked t

  -- `std::lock_guard` over a body: released when the body returns or throws.
  abbrev pub with_lock : Mutex S → Call S A → Call S A
  with_lock m body s = elim (m.is_held s) [
    | true ↦ blocked s
    | false ↦ unlock m (body (m.set_held true s))
  ]

  -- `try { body } catch (const std::exception& e) { handler }`.
  abbrev pub try_catch : Call S A → (Bytes → Call S A) → Call S A
  try_catch body handler s = elim (body s) [
    | returns a t ↦ returns a t
    | throws e t ↦ handler e t
    | blocked t ↦ blocked t
  ]

  -- The object after the call, however it ended.
  abbrev pub state_after : Run S A → S
  state_after (returns a t) = t
  state_after (throws e t) = t
  state_after (blocked t) = t

  abbrev pub IsBlocked : Run S A → Type 0
  IsBlocked (returns a t) = ⊥
  IsBlocked (throws e t) = ⊥
  IsBlocked (blocked t) = Unit

  -- How a call that is not blocked ended: by a result, or by an exception.
  abbrev pub Ends : Run S A → (A → S → Type 0) → (Bytes → S → Type 0) → Type 0
  Ends (returns a t) P E = P a t
  Ends (throws e t) P E = E e t
  Ends (blocked t) P E = ⊥

-- From an object in `P` the call is never blocked; it leaves one in `Q` if it returns, and one in
-- `E` if it throws.
pub record Triple {S A : Type 0} (P : S → Type 0) (m : Call S A) (Q E : S → Type 0) : Type 0 where
  pub run : (s : S) → P s → Ends (m s) (λ _ t. Q t) (λ _ t. E t)

module _ {S A B : Type 0} where
  Ends-bind :
      (r : Run S A) (f : A → Call S B) (Q R E : S → Type 0)
      → Ends r (λ _ t. Q t) (λ _ t. E t)
      → ((a : A) → Triple Q (f a) R E)
      → Ends
          (elim r [ returns a t ↦ f a t | throws e t ↦ throws e t | blocked t ↦ blocked t ])
          (λ _ t. R t)
          (λ _ t. E t)
  Ends-bind (returns a t) f Q R E h k = (k a).run t h
  Ends-bind (throws x t) f Q R E h k = h
  Ends-bind (blocked t) f Q R E h k = absurd h

  pub Triple-bind :
      {P Q R E : S → Type 0} {m : Call S A} {f : A → Call S B}
      → Triple P m Q E
      → ((a : A) → Triple Q (f a) R E)
      → Triple P (m >>= f) R E
  Triple-bind {Q = Q} {R = R} {E = E} {m = m} {f = f} h k = record {
    run = λ s p. Ends-bind (m s) f Q R E (h.run s p) k;
  }

pub Triple-weaken :
    {S A : Type 0} {P Q R E : S → Type 0} {m : Call S A}
    → Triple P m Q E
    → ((t : S) → Q t → R t)
    → Triple P m R E
Triple-weaken {S = S} {A = A} {Q = Q} {R = R} {E = E} {m = m} h k = record {
  run = λ s p. weaken (m s) (h.run s p);
}
  where
    weaken : (r : Run S A) → Ends r (λ _ t. Q t) (λ _ t. E t) → Ends r (λ _ t. R t) (λ _ t. E t)
    weaken (returns a t) e = k t e
    weaken (throws x t) e = e
    weaken (blocked t) e = e

-- A handler takes over every object that the body leaves when it throws.
pub try_catch-Triple :
    {S A : Type 0} {P Q H E : S → Type 0} {m : Call S A} {handler : Bytes → Call S A}
    → Triple P m Q H
    → ((e : Bytes) → Triple H (handler e) Q E)
    → Triple P (try_catch m handler) Q E
try_catch-Triple {S = S} {A = A} {Q = Q} {H = H} {E = E} {m = m} {handler = handler} h k = record {
  run = λ s p. handle (m s) (h.run s p);
}
  where
    handle :
        (r : Run S A)
        → Ends r (λ _ t. Q t) (λ _ t. H t)
        → Ends
            (elim r [
              | returns a t ↦ returns a t
              | throws e t ↦ handler e t
              | blocked t ↦ blocked t
            ])
            (λ _ t. Q t)
            (λ _ t. E t)
    handle (returns a t) q = q
    handle (throws e t) q = (k e).run t q
    handle (blocked t) q = q

pub Triple-weaken_throw :
    {S A : Type 0} {P Q H E : S → Type 0} {m : Call S A}
    → Triple P m Q H
    → ((t : S) → H t → E t)
    → Triple P m Q E
Triple-weaken_throw {S = S} {A = A} {Q = Q} {H = H} {E = E} {m = m} h k = record {
  run = λ s p. weaken (m s) (h.run s p);
}
  where
    weaken : (r : Run S A) → Ends r (λ _ t. Q t) (λ _ t. H t) → Ends r (λ _ t. Q t) (λ _ t. E t)
    weaken (returns a t) q = q
    weaken (throws e t) q = k t q
    weaken (blocked t) q = q

-- As `Triple`, where what holds of the object may depend on the result.
pub record Does {S A : Type 0} (P : S → Type 0) (m : Call S A) (Q : A → S → Type 0) (E : S → Type 0)
    : Type 0 where
  pub run : (s : S) → P s → Ends (m s) Q (λ _ t. E t)

pub Does-bind :
    {S A B : Type 0} {P E : S → Type 0} {Q : A → S → Type 0} {R : B → S → Type 0} {m : Call S A}
    {f : A → Call S B}
    → Does P m Q E
    → ((a : A) → Does (Q a) (f a) R E)
    → Does P (m >>= f) R E
Does-bind {S} {A} {B} {P} {E} {Q} {R} {m} {f} h k = record { run = λ s p. after (m s) (h.run s p) }
  where
    after :
        (r : Run S A)
        → Ends r Q (λ _ t. E t)
        → Ends
            (elim r [ returns a t ↦ f a t | throws e t ↦ throws e t | blocked t ↦ blocked t ])
            R
            (λ _ u. E u)
    after (returns a t) q = (k a).run t q
    after (throws e t) q = q
    after (blocked t) q = absurd q

pub Does-pure :
    {S A : Type 0} {P E : S → Type 0} {Q : A → S → Type 0} {a : A}
    → ((s : S) → P s → Q a s)
    → Does P (pure a) Q E
Does-pure h = record { run = h }

pub Does-ends :
    {S A : Type 0} {P P' E E' : S → Type 0} {Q Q' : A → S → Type 0} {m : Call S A}
    → Does P m Q E
    → ((s : S) → P' s → P s)
    → ((a : A) (t : S) → Q a t → Q' a t)
    → ((t : S) → E t → E' t)
    → Does P' m Q' E'
Does-ends {S} {A} {P} {P'} {E} {E'} {Q} {Q'} {m} h before after else_after = record {
  run = λ s p. weaken (m s) (h.run s (before s p));
}
  where
    weaken : (r : Run S A) → Ends r Q (λ _ t. E t) → Ends r Q' (λ _ t. E' t)
    weaken (returns a t) q = after a t q
    weaken (throws e t) q = else_after t q
    weaken (blocked t) q = q

-- A body whose exceptions are caught by `return b`: the call returns.
pub Does-try_catch :
    {S A : Type 0} {P H : S → Type 0} {Q : A → S → Type 0} {m : Call S A} {b : A}
    → Does P m Q H
    → ((t : S) → H t → Q b t)
    → (s : S) → P s
    → Ends (try_catch m (λ _. pure b) s) Q (λ _ _. ⊥)
Does-try_catch {S} {A} {P} {H} {Q} {m} {b} h k s p = after (m s) (h.run s p)
  where
    after :
        (r : Run S A)
        → Ends r Q (λ _ t. H t)
        → Ends
            (elim r [
              | returns a t ↦ returns a t
              | throws e t ↦ returns b t
              | blocked t ↦ blocked t
            ])
            Q
            (λ _ _. ⊥)
    after (returns a t) q = q
    after (throws e t) q = k t q
    after (blocked t) q = absurd q

-- What is known besides the object is taken out of the condition.
pub Does-given :
    {S A B : Type 0} {P E : S → Type 0} {Q : A → S → Type 0} {m : Call S A}
    → ((b : B) → Does P m Q E)
    → Does (λ s. P s × B) m Q E
Does-given h = record { run = λ s p. (h p.1).run s p.0 }

pub Ends-weaken :
    {S A : Type 0} {Q Q' : A → S → Type 0} {E E' : Bytes → S → Type 0} (r : Run S A)
    → Ends r Q E
    → ((a : A) (t : S) → Q a t → Q' a t)
    → ((e : Bytes) (t : S) → E e t → E' e t)
    → Ends r Q' E'
Ends-weaken (returns a t) q after else_after = after a t q
Ends-weaken (throws e t) q after else_after = else_after e t q
Ends-weaken (blocked t) q after else_after = absurd q
