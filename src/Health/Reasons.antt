-- ===== src/Health/Reasons.antt =====
-- src/health.rs and src/server.rs, `admin_response`: what /readyz answers.
use oxide_http.Prelude.{codes, Bool, true, false, ◌≡◌, refl, ◌↔◌}
use oxide_http.Health.{Readiness, is_ready, reason}

cases :
    (d j o : Bool)
    → (let r : Readiness = record { draining = d; js_not_ready = j; overloaded = o } in
        (is_ready r ≡ true) ↔ (reason r ≡ codes "ready"))
unfolding is_ready reason
cases true j o = (λ e. cc, λ e. cc)
cases false true true = (λ e. cc, λ e. cc)
cases false true false = (λ e. cc, λ e. cc)
cases false false true = (λ e. cc, λ e. cc)
cases false false false = (λ e. refl, λ e. refl)

-- The text that /readyz gives is "ready" exactly when the probe succeeds.
pub is_ready_iff : (r : Readiness) → (is_ready r ≡ true) ↔ (reason r ≡ codes "ready")
is_ready_iff r = cases r.draining r.js_not_ready r.overloaded
