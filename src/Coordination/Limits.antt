-- ===== src/Coordination/Limits.antt =====
-- The rate limit of internal/coordination/coordinator.go in one window.
use safety_recorder.Coordination.{Client, allow, answer, done, refused}
use safety_recorder.Base.{
  zero, suc, ◌+◌, ◌-◌, ◌≤◌, if◌then◌else◌, ℕ, String, true, false, ◌≡◌, arith, suc, ◌+◌, ◌≤◌, eqb,
  leb, refl,
}

-- `INCR` as the service documents it within one window, where `hits` is the number that is stored.
pub record CountsHits {S : Type 0} (client : Client S) (hits : String → S → ℕ) : Type 0 where
  pub on_hit :
      (k : String) (window : ℕ) (s : S)
      → ((client.increment_with_expiry k window s).0 ≡ answer (hits k s + 1))
        × (hits k (client.increment_with_expiry k window s).1 ≡ hits k s + 1)

module _ {S : Type 0} (client : Client S) (hits : String → S → ℕ) where
  -- The number of requests that are allowed among the next `n`.
  unfoldable pub allowed_of : String → ℕ → ℕ → ℕ → S → ℕ
  allowed_of key limit window zero s = 0
  allowed_of key limit window (suc n) s =
      let r = allow client key limit window s in
      let rest = allowed_of key limit window n r.1 in
      elim r.0 [ done true ↦ rest + 1 | done false ↦ rest | refused e ↦ rest ]

  allowed_of_from :
      CountsHits client hits
      → (key : String) (limit window n : ℕ) (s : S) → eqb limit 0 ≡ false
      → eqb window 0 ≡ false
      → (n ≤ limit - hits key s → allowed_of key limit window n s ≡ n)
        × (limit - hits key s ≤ n → allowed_of key limit window n s ≡ limit - hits key s)
  unfolding allowed_of allow
  allowed_of_from law key limit window zero s l w = (λ h. refl, λ h. omega arith)
  allowed_of_from law key limit window (suc n) s l w = ground (
    arith,
    law.on_hit key window s,
    allowed_of_from law key limit window n (client.increment_with_expiry key window s).1 l w,
  )

  -- Of `n` requests on a key in one window that starts without hits, exactly the smaller of `n` and
  -- the limit are allowed, for a positive limit and window and a service that counts the hits.
  pub allowed_of-min :
      CountsHits client hits
      → (key : String) (limit window n : ℕ) (s : S) → eqb limit 0 ≡ false
      → eqb window 0 ≡ false
      → hits key s ≡ 0
      → allowed_of key limit window n s ≡ (if leb n limit then n else limit)
  allowed_of-min law key limit window n s l w h =
      ground (arith, allowed_of_from law key limit window n s l w)
