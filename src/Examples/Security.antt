-- ===== src/Examples/Security.antt =====
-- Addresses, requests and texts that the checks are run on.
use ur_webif.Base.{ℕ, true, false, List, [], ◌∷◌, codes, ◌≡◌, ◌⊎◌, refl, arith, lookup, eqb}
use ur_webif.Run.{returns}
use ur_webif.Security.Address.{is_valid_ip_address, extract_client_ip}
use ur_webif.Security.Address.Octets.{extract_client_ip-valid}
use ur_webif.Security.RateLimit.{RateLimits}
use ur_webif.Security.RateLimit.Window.{check_all, check_all-new_window}

-- One identifier has used one request of a window that began at 100.
abbrev limits : RateLimits
limits = record {
  rate_limits =
      (
        codes "a",
        record {
          requests_per_window = 0;
          window_duration = 0;
          window_start = 100;
          current_requests = 1;
        },
      )
      ∷ [];
  rate_limit_held = false;
}

abbrev times : List ℕ
times = 110 ∷ 120 ∷ 130 ∷ []

check_all-new_window_example :
    (t : RateLimits) × (check_all (codes "a") 3 60 (200 ∷ 210 ∷ 220 ∷ 230 ∷ []) limits
      ≡ returns 3 t)
unfolding lookup eqb
check_all-new_window_example =
    check_all-new_window (codes "a") 3 60 200 (210 ∷ 220 ∷ 230 ∷ []) limits refl (omega arith)
      (omega arith, (omega arith, (omega arith, tt)))

extract_client_ip-valid_example :
    (is_valid_ip_address (extract_client_ip (codes " 10.1.2.3, 8.8.8.8") (codes "::1")) ≡ true)
    ⊎ ((extract_client_ip (codes " 10.1.2.3, 8.8.8.8") (codes "::1") ≡ codes "unknown")
        × (is_valid_ip_address (codes "::1") ≡ false))
extract_client_ip-valid_example = extract_client_ip-valid (codes " 10.1.2.3, 8.8.8.8") (codes "::1")
