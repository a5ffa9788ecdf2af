-- ===== src/RateLimit/Middleware.antt =====
-- internal/httpapi/main_rate_limit.go and the configuration in internal/httpapi/api.go: the middleware.
use safety_recorder.RateLimit.Classes.{
  RateLimitClass, Method, classify_main_api_rate_limit, is_bootstrap,
}
use safety_recorder.Base.{true, false, ℕ, String, Bool, not, none, some, ◌||◌, if◌then◌else◌, eqb}
use safety_recorder.Coordination.{done, refused, Client, allow}

pub record MainRateLimitConfig : Type 0 where
  pub enabled : Bool
  pub window : ℕ
  pub auth_limit : ℕ
  pub auth_register_limit : ℕ
  pub auth_email_verify_limit : ℕ
  pub bootstrap_limit : ℕ
  pub account_limit : ℕ
  pub incident_read_limit : ℕ
  pub incident_write_limit : ℕ
  pub upload_limit : ℕ
  pub reconcile_limit : ℕ
  pub stream_limit : ℕ
  pub token_limit : ℕ
  pub download_limit : ℕ
  pub admin_limit : ℕ

unfoldable pub limit_for : MainRateLimitConfig → RateLimitClass → ℕ
limit_for c RateLimitClass.auth = c.auth_limit
limit_for c RateLimitClass.auth_register = c.auth_register_limit
limit_for c RateLimitClass.auth_email_verify = c.auth_email_verify_limit
limit_for c RateLimitClass.bootstrap = c.bootstrap_limit
limit_for c RateLimitClass.account = c.account_limit
limit_for c RateLimitClass.incident_read = c.incident_read_limit
limit_for c RateLimitClass.incident_write = c.incident_write_limit
limit_for c RateLimitClass.upload = c.upload_limit
limit_for c RateLimitClass.reconcile = c.reconcile_limit
limit_for c RateLimitClass.stream = c.stream_limit
limit_for c RateLimitClass.token = c.token_limit
limit_for c RateLimitClass.download = c.download_limit

-- What becomes of a request: the next handler serves it, or it is answered with 429 or 503.
pub data Verdict : Type 0 where
  served rate_limited rate_limit_unavailable : Verdict

module _ {S : Type 0} (client : Client S) (rate_key : RateLimitClass → String) where
  -- `mainRateLimitMiddlewareWithClassFilter` with the filter of the main API's routes; `rate_key` is
  -- `mainAPIRateLimitKey` for the client that makes the request.
  unfoldable pub main_api_rate_limit : MainRateLimitConfig → Method → String → S → Verdict × S
  unfolding limit_for
  main_api_rate_limit config m path s =
      if not config.enabled then (served, s) else elim (classify_main_api_rate_limit m path) [
        | none ↦ (served, s)
        | some class ↦
            let limit = limit_for config class in
            if is_bootstrap class || eqb limit 0
            then (served, s)
            else let r = allow client (rate_key class) limit config.window s in
              elim r.0 [
                | done true ↦ (served, r.1)
                | done false ↦ (rate_limited, r.1)
                | refused e ↦ (rate_limit_unavailable, r.1)
              ]
      ]
