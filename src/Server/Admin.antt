-- ===== src/Server/Admin.antt =====
-- src/server.rs, `serve_admin`: what the port of probes and metrics answers.
use oxide_http.Prelude.{Text, codes, to_uppercase, unwrap_or, text_eq, false, ◌≡◌, refl}
use oxide_http.Health.{HealthPaths, Readiness}
use oxide_http.Server.{Http, Response, admin_response, status_text}

module _ (http : Http) where
  -- The service of a connection; the method comes as the client wrote it.
  unfoldable pub admin_service : HealthPaths → Readiness → Text → Text → Text → Response
  unfolding admin_response status_text to_uppercase
  admin_service p readiness metrics_text method path =
      unwrap_or (admin_response http p readiness metrics_text (to_uppercase method) path)
        (status_text 404 (codes "Not Found"))

  -- Another method than GET and HEAD, in any case, is not found, whatever the path.
  admin_service_unread :
      (p : HealthPaths) (readiness : Readiness) (metrics_text method path : Text)
      → text_eq (to_uppercase method) (codes "GET") ≡ false
      → text_eq (to_uppercase method) (codes "HEAD") ≡ false
      → admin_service p readiness metrics_text method path ≡ status_text 404 (codes "Not Found")
  unfolding admin_service admin_response
  admin_service_unread p readiness metrics_text method path g h = rw (g, h) refl
