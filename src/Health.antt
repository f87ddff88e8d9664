-- ===== src/Health.antt =====
-- src/health.rs: the readiness state behind the probes.
pub mod Reasons
use oxide_http.Prelude.{Text, codes, Bool, false, not, ◌&&◌, if◌then◌else◌}

-- An empty path disables its endpoint.
pub record HealthPaths : Type 0 where
  pub health : Text
  pub ready : Text
  pub metrics : Text

unfoldable pub default_paths : HealthPaths
default_paths = record {
  health = codes "/healthz";
  ready = codes "/readyz";
  metrics = codes "/metrics";
}

pub record Readiness : Type 0 where
  pub draining : Bool
  pub js_not_ready : Bool
  pub overloaded : Bool

abbrev pub default : Readiness
default = record { draining = false; js_not_ready = false; overloaded = false }

unfoldable pub set_draining : Readiness → Bool → Readiness
set_draining r v = record r { draining = v }

unfoldable pub set_js_ready : Readiness → Bool → Readiness
set_js_ready r ready = record r { js_not_ready = not ready }

unfoldable pub set_overloaded : Readiness → Bool → Readiness
set_overloaded r v = record r { overloaded = v }

unfoldable pub is_ready : Readiness → Bool
is_ready r = not r.draining && (not r.js_not_ready && not r.overloaded)

unfoldable pub reason : Readiness → Text
reason r =
    if r.draining
    then codes "draining"
    else if r.overloaded
    then codes "overloaded"
    else if r.js_not_ready
    then codes "not-ready"
    else codes "ready"
