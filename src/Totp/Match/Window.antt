-- ===== src/Totp/Match/Window.antt =====
-- The window of time in which `MatchTOTPCode` of internal/auth/totp.go accepts a code.
use safety_recorder.Totp.Match.{
  match_steps, match_totp_code, matched, skewed_steps, trim_space, current_step, valid_options,
}
use safety_recorder.Base.{
  [], ◌∷◌, ◌∙◌, ℕ, String, Option, some, List, ◌+◌, ◌*◌, ◌==◌, ◌≡◌, ◌≤◌, arith, true, All,
  Option-cases, inl, inr, Bool-cases, subst, ap, eq_of_==,
}

module _ (generate : String → ℕ → Option String) where
  -- The code is the one that is generated for the step, which is at most one step away.
  abbrev pub IsStepOf : String → String → ℕ → ℕ → ℕ → Type 0
  IsStepOf secret totp_code period current step =
      (generate secret (step * period) ≡ some totp_code)
      × (step ≤ current + 1)
      × (current ≤ step + 1)

  match_steps_sound :
      (secret totp_code : String) (period current step : ℕ) (steps : List ℕ)
      → match_steps generate secret totp_code period steps ≡ matched step
      → All (λ n. (n ≤ current + 1) × (current ≤ n + 1)) steps
      → IsStepOf secret totp_code period current step
  unfolding match_steps
  match_steps_sound secret totp_code period current step [] h w = absurd (ground arith)
  match_steps_sound secret totp_code period current step (n ∷ steps) h w =
      elim (Option-cases (generate secret (n * period))) [
        | inl e ↦ absurd (ground arith)
        | inr (want, e) ↦ elim (Bool-cases (want == totp_code)) [
          | inl q ↦
              let same : n ≡ step = ground arith in
              subst (IsStepOf secret totp_code period current) same
                (e ∙ ap some (eq_of_== want totp_code q), w.0.0, w.0.1)
          | inr q ↦ match_steps_sound secret totp_code period current step steps (ground arith) w.1
        ]
      ]

  skewed_steps-All :
      (current : ℕ) → All (λ n. (n ≤ current + 1) × (current ≤ n + 1)) (skewed_steps current)
  unfolding skewed_steps
  skewed_steps-All current = ground arith

  -- A code that matches is the code that is generated for the matched step, from the secret without
  -- its outer white space; the step is the current one or one of its two neighbours; and the policy is
  -- a positive period, six digits and SHA1.
  pub match_totp_code_sound :
      (secret totp_code : String) (now period digits : ℕ) (algorithm : String) (step : ℕ)
      → match_totp_code generate secret totp_code now period digits algorithm ≡ matched step
      → IsStepOf (trim_space secret) (trim_space totp_code) period (current_step now period) step
        × (valid_options period digits algorithm ≡ true)
  unfolding match_totp_code
  match_totp_code_sound secret totp_code now period digits algorithm step h = ground (
    arith,
    match_steps_sound (trim_space secret) (trim_space totp_code) period (current_step now period)
        step (skewed_steps (current_step now period)),
    skewed_steps-All (current_step now period),
  )
