-- ===== src/Security/Tests.antt =====
-- The theorems on relay/security.go at concrete keys, requests and reports.
use relayent.Base.{◌≤◌, ◌*◌, ◌+◌, ◌-◌, codes, List, [], ◌∷◌, arith}
use relayent.Security.Limiter.{auth_limiter, new_limiter}
use relayent.Security.LimiterBounds.{
  Event, requests, janitor, granted_in, IsSound, granted_in-bound,
}
use relayent.Security.Sanitize.{sanitize_capabilities}
use relayent.Security.SanitizeBounds.{IsClean, CleanList, sanitize_capabilities-IsClean}
use relayent.Api.{BridgeCapabilities}

abbrev attempts : List Event
attempts = requests (codes "10.0.0.1") 5 ∷ janitor 6 ∷ requests (codes "10.0.0.1") 7 ∷ []

auth_limiter-IsSound : IsSound auth_limiter
unfolding new_limiter
auth_limiter-IsSound = record { some_burst = omega arith; soon_full = omega arith }

granted_in-bound_example :
    granted_in (codes "10.0.0.1") attempts auth_limiter * auth_limiter.period
    ≤ auth_limiter.burst * auth_limiter.period + (9 - 1)
granted_in-bound_example =
    granted_in-bound attempts auth_limiter (codes "10.0.0.1") 1 9 auth_limiter-IsSound
      (omega arith, (omega arith, (omega arith, omega arith)))

abbrev report : BridgeCapabilities
report = record { version = codes " 1.0 "; hostname = codes "host"; backends = [] }

sanitize_capabilities-IsClean_example :
    IsClean 64 (sanitize_capabilities report).version
    × IsClean 253 (sanitize_capabilities report).hostname
    × CleanList (sanitize_capabilities report).backends
sanitize_capabilities-IsClean_example = sanitize_capabilities-IsClean report
