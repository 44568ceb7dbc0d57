-- ===== src/Security/RateLimit/Window.antt =====
-- How many requests one window admits.
use Prim.Native.Nat.{min}
use ur_webif.Base.{
  suc, ◌<◌, ℕ, ◌+◌, ◌-◌, ◌≤◌, Bool, false, List, [], ◌∷◌, Bytes, lookup, insert, ◌≡◌, ◌∙◌, arith,
  length, leb, if◌then◌else◌, lookup-insert_self,
}
use ur_webif.Run.{Call, returns, ◌>>=◌, pure}
use ur_webif.Security.RateLimit.{
  RateLimit, RateLimits, limit_or_new, in_window, admit, check_rate_limit,
}

-- The checks for one identifier at the given times; the result is the number of admitted ones.
pub check_all : Bytes → ℕ → ℕ → List ℕ → Call RateLimits ℕ
check_all identifier max_requests window [] = pure 0
check_all identifier max_requests window (now ∷ later) =
    check_rate_limit identifier max_requests window now >>= λ allowed.
    check_all identifier max_requests window later >>= λ n. pure (if allowed then n + 1 else n)

-- All times are at most the given one.
abbrev pub NoLater : ℕ → List ℕ → Type 0
NoLater end [] = Unit
NoLater end (t ∷ ts) = (t ≤ end) × NoLater end ts

abbrev pub limit_of : Bytes → RateLimits → RateLimit
limit_of identifier s = limit_or_new (lookup identifier s.rate_limits)

-- The outcome of one check: the answer and the new entry.
abbrev pub checked : Bytes → RateLimit × Bool → RateLimits → RateLimits
checked identifier r s = record s { rate_limits = insert identifier r.0 s.rate_limits }

pub check_rate_limit-idle :
    (identifier : Bytes) (max_requests window now : ℕ) (s : RateLimits)
    → s.rate_limit_held ≡ false
    → let r = admit max_requests (in_window now window (limit_of identifier s)) in
      check_rate_limit identifier max_requests window now s ≡ returns r.1 (checked identifier r s)
unfolding check_rate_limit
check_rate_limit-idle identifier max_requests window now s idle = ground arith

abbrev pub Window : Bytes → ℕ → ℕ → List ℕ → RateLimits → ℕ → Type 0
Window identifier max_requests window ts s used =
    (t : RateLimits) × (check_all identifier max_requests window ts s
      ≡ returns (min (length ts) (max_requests - used)) t)

check_all-step :
    (identifier : Bytes) (m window now : ℕ) (ts : List ℕ) (s s' t : RateLimits) (b : Bool) (n : ℕ)
    → check_rate_limit identifier m window now s ≡ returns b s'
    → check_all identifier m window ts s' ≡ returns n t
    → check_all identifier m window (now ∷ ts) s ≡ returns (if b then n + 1 else n) t
unfolding check_all
check_all-step identifier m window now ts s s' t b n p q = rw (p, ◌>>=◌) (rw (q, ◌>>=◌))

-- With no thread inside, within the window of an entry that has counted `used` requests, just as
-- many of the checks are admitted as the limit leaves.
check_all-Window :
    (identifier : Bytes) (m window start : ℕ) (ts : List ℕ) (s : RateLimits) (used : ℕ)
    → s.rate_limit_held ≡ false
    → (limit_of identifier s).window_start ≡ start
    → (limit_of identifier s).current_requests ≡ used
    → NoLater (start + window) ts
    → Window identifier m window ts s used
unfolding check_all admit
check_all-Window identifier m window start [] s used idle b c h = (s, ground arith)
check_all-Window identifier m window start (now ∷ ts) s used idle b c h =
    let limit = limit_of identifier s in
    let r = admit m (in_window now window limit) in
    let s' = checked identifier r s in
    let stored = lookup-insert_self identifier r.0 s.rate_limits in
    let (t, ran) =
      check_all-Window identifier m window start ts s' (if leb m used then used else used + 1) idle
        (rw stored (ground arith)) (rw stored (ground arith)) h.1 in
    (
      t,
      check_all-step identifier m window now ts s s' t r.1 _
            (check_rate_limit-idle identifier m window now s idle) ran
          ∙ ground arith,
    )

-- With no thread inside, when the window of an identifier has run out, the next check begins a new
-- one, and of all the checks up to its end just the first ones are admitted, up to the limit.
pub check_all-new_window :
    (identifier : Bytes) (m window now : ℕ) (later : List ℕ) (s : RateLimits)
    → s.rate_limit_held ≡ false
    → (limit_of identifier s).window_start + window < now
    → NoLater (now + window) later
    → (t : RateLimits) × (check_all identifier m window (now ∷ later) s
        ≡ returns (min (suc (length later)) m) t)
unfolding admit
check_all-new_window identifier m window now later s idle over h =
    let limit = limit_of identifier s in
    let r = admit m (in_window now window limit) in
    let s' = checked identifier r s in
    let stored = lookup-insert_self identifier r.0 s.rate_limits in
    let (t, ran) =
      check_all-Window identifier m window now later s' (if leb m 0 then 0 else 1) idle
        (rw stored (ground arith)) (rw stored (ground arith)) h in
    (
      t,
      check_all-step identifier m window now later s s' t r.1 _
            (check_rate_limit-idle identifier m window now s idle) ran
          ∙ ground arith,
    )
