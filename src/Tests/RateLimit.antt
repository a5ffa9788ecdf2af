-- ===== src/Tests/RateLimit.antt =====
-- The rate limit of the main API at a concrete input.
use safety_recorder.Tests.Coordination.{service, idle, service-CountsHits}
use safety_recorder.RateLimit.Middleware.{MainRateLimitConfig, limit_for}
use safety_recorder.RateLimit.Classes.{classify_main_api_rate_limit, Method, RateLimitClass}
use safety_recorder.RateLimit.Window.{served_of, served_of-min}
use safety_recorder.Base.{some, ◌≡◌, refl, true, trim_right, trim_left, ◌==◌}

abbrev config : MainRateLimitConfig
config = record {
  enabled = true;
  window = 60;
  auth_limit = 5;
  auth_register_limit = 5;
  auth_email_verify_limit = 5;
  bootstrap_limit = 5;
  account_limit = 5;
  incident_read_limit = 5;
  incident_write_limit = 5;
  upload_limit = 2;
  reconcile_limit = 5;
  stream_limit = 5;
  token_limit = 5;
  download_limit = 0;
  admin_limit = 5;
}

-- A trailing slash does not change the class.
upload_class :
    classify_main_api_rate_limit Method.post "/v1/incidents/inc_1/chunks/"
    ≡ some RateLimitClass.upload
unfolding classify_main_api_rate_limit trim_right trim_left ◌==◌
upload_class = refl

served_of-min_example :
    served_of service (λ c. "client") config Method.post "/v1/incidents/inc_1/chunks/" 3 idle ≡ 2
unfolding limit_for
served_of-min_example =
    served_of-min service (λ c. "client") (λ k s. s.count) service-CountsHits config Method.post
      "/v1/incidents/inc_1/chunks/" RateLimitClass.upload 3 idle refl refl upload_class refl refl
      refl
