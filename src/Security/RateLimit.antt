-- ===== src/Security/RateLimit.antt =====
-- mecanisms/login/security_utils.cpp: checkRateLimit and resetRateLimit, over the static table.
-- A time point and a duration are numbers of clock ticks; `max_requests` is taken to be at least 0.
pub mod Window
use ur_webif.Base.{
  ℕ, ◌+◌, Bool, true, false, Option, none, some, Bytes, Assoc, lookup, insert, erase, ltb, leb,
  if◌then◌else◌,
}
use ur_webif.Run.{Call, returns, Mutex, modify, with_lock}

pub record RateLimit : Type 0 where
  pub requests_per_window : ℕ
  pub window_duration : ℕ
  pub window_start : ℕ
  pub current_requests : ℕ

pub record RateLimits : Type 0 where
  pub rate_limits : Assoc RateLimit
  pub rate_limit_held : Bool

abbrev pub rate_limit_mutex : Mutex RateLimits
rate_limit_mutex = record {
  is_held = λ s. s.rate_limit_held;
  set_held = λ b s. record s { rate_limit_held = b };
}

-- `rate_limits_[identifier]`: a new entry is all zeros.
abbrev pub limit_or_new : Option RateLimit → RateLimit
limit_or_new none = record {
  requests_per_window = 0;
  window_duration = 0;
  window_start = 0;
  current_requests = 0;
}
limit_or_new (some limit) = limit

-- The entry once an expired window is begun anew.
abbrev pub in_window : ℕ → ℕ → RateLimit → RateLimit
in_window now window limit =
    if ltb (limit.window_start + window) now
    then record limit { window_start = now; current_requests = 0 }
    else limit

-- The entry and the answer of one check.
unfoldable pub admit : ℕ → RateLimit → RateLimit × Bool
admit max_requests limit =
    if leb max_requests limit.current_requests
    then (limit, false)
    else (record limit { current_requests = limit.current_requests + 1 }, true)

abbrev store_limit : Bytes → RateLimit × Bool → Call RateLimits Bool
store_limit identifier (limit, allowed) s =
    returns allowed (record s { rate_limits = insert identifier limit s.rate_limits })

unfoldable pub check_rate_limit : Bytes → ℕ → ℕ → ℕ → Call RateLimits Bool
unfolding admit
check_rate_limit identifier max_requests window now = with_lock rate_limit_mutex (λ s.
    store_limit identifier
      (admit max_requests (in_window now window (limit_or_new (lookup identifier s.rate_limits))))
      s)

unfoldable pub reset_rate_limit : Bytes → Call RateLimits (Unit {0})
reset_rate_limit identifier =
    with_lock rate_limit_mutex
      (modify λ s. record s { rate_limits = erase identifier s.rate_limits })
