-- ===== src/RateLimit/Window.antt =====
-- How many requests of a client the rate limit of internal/httpapi/main_rate_limit.go lets through.
use safety_recorder.RateLimit.Classes.{
  RateLimitClass, Method, classify_main_api_rate_limit, is_bootstrap,
}
use safety_recorder.RateLimit.Middleware.{
  served, rate_limited, rate_limit_unavailable, main_api_rate_limit, limit_for, MainRateLimitConfig,
}
use safety_recorder.Coordination.Limits.{allowed_of, CountsHits, allowed_of-min}
use safety_recorder.Coordination.{Client, allow}
use safety_recorder.Base.{
  if◌then◌else◌, leb, ℕ, String, true, false, ◌≡◌, ◌+◌, some, zero, suc, arith, eqb, refl, ◌∙◌,
}

module _ {S : Type 0} (client : Client S) (rate_key : RateLimitClass → String) where
  -- The number of requests that are served among the next `n`.
  unfoldable pub served_of : MainRateLimitConfig → Method → String → ℕ → S → ℕ
  served_of config m path zero s = 0
  served_of config m path (suc n) s =
      let r = main_api_rate_limit client rate_key config m path s in
      let rest = served_of config m path n r.1 in
      elim r.0 [ served ↦ rest + 1 | rate_limited ↦ rest | rate_limit_unavailable ↦ rest ]

  served_of-allowed_of :
      (hits : String → S → ℕ) (config : MainRateLimitConfig) (m : Method) (path : String)
      (class : RateLimitClass) (n : ℕ) (s : S)
      → config.enabled ≡ true
      → classify_main_api_rate_limit m path ≡ some class
      → is_bootstrap class ≡ false
      → eqb (limit_for config class) 0 ≡ false
      → served_of config m path n s
        ≡ allowed_of client hits (rate_key class) (limit_for config class) config.window n s
  unfolding served_of allowed_of main_api_rate_limit
  served_of-allowed_of hits config m path class zero s e c b l = refl
  served_of-allowed_of hits config m path class (suc n) s e c b l = ground (
    arith,
    served_of-allowed_of hits config m path class n
        (allow client (rate_key class) (limit_for config class) config.window s).1 e c b l,
  )

  -- Of `n` requests of one client to a route whose class is limited, within one window that starts
  -- without hits, exactly the smaller of `n` and the limit of the class are served, when the limiter is
  -- enabled and its service counts the hits.
  pub served_of-min :
      (hits : String → S → ℕ)
      → CountsHits client hits
      → (config : MainRateLimitConfig) (m : Method) (path : String) (class : RateLimitClass) (n : ℕ)
        (s : S)
      → config.enabled ≡ true
      → eqb config.window 0 ≡ false
      → classify_main_api_rate_limit m path ≡ some class
      → is_bootstrap class ≡ false
      → eqb (limit_for config class) 0 ≡ false
      → hits (rate_key class) s ≡ 0
      → served_of config m path n s
        ≡ (if leb n (limit_for config class) then n else limit_for config class)
  served_of-min hits law config m path class n s e w c b l h =
      served_of-allowed_of hits config m path class n s e c b l
      ∙ allowed_of-min client hits law (rate_key class) (limit_for config class) config.window n s l
          w h
