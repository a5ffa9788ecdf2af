-- ===== src/Totp/Replay.antt =====
-- A time step of a TOTP factor is used once (internal/incidents/totp_second_factors.go).
use safety_recorder.Model.{Result, ok, err, Error}
use safety_recorder.Totp.Factors.{
  CreateEnrollmentParams, FactorDb, SecondFactor, mark_totp_second_factor_used,
  activate_totp_second_factor, create_totp_second_factor_enrollment, factor_key, usable,
  activatable, factor_row_ok, is_pending, use_row, activate_row, factor_of_account, new_factor,
  refresh_row,
}
use safety_recorder.Base.{
  [], ◌∷◌, ◌==◌, ◌&&◌, ◌||◌, none, some, ℕ, String, Bool, true, false, ◌≡◌, ◌≤◌, arith, List,
  Option, any_row, any_row-update_where, find_row, leb, length, update_where, refl, select,
  Option-cases, any_row-eq-is_some, not, inl, ap, eq_of_==, any_row-append, inr,
}

-- A call that writes, with its times and identifiers.
pub data FactorCall : Type 0 where
  enroll : ℕ → String → CreateEnrollmentParams → FactorCall
  activate : String → String → ℕ → ℕ → FactorCall
  use_step : String → ℕ → ℕ → FactorCall

abbrev pub kept : {A : Type 0} → FactorDb → Result (A × FactorDb) → FactorDb
kept d (ok r) = r.1
kept d (err e) = d

unfoldable pub call : FactorCall → FactorDb → FactorDb
call (enroll now id p) d = kept d (create_totp_second_factor_enrollment now id p d)
call (activate account id now step) d = kept d (activate_totp_second_factor account id now step d)
call (use_step id now step) d = kept d (mark_totp_second_factor_used id now step d)

unfoldable pub calls : List FactorCall → FactorDb → FactorDb
calls [] d = d
calls (c ∷ cs) d = calls cs (call c d)

abbrev used_from : ℕ → Option ℕ → Bool
used_from n none = false
used_from n (some used) = leb n used

-- A row of the factor that is pending or whose last step is before `n`.
abbrev pub reusable : String → ℕ → SecondFactor → Bool
reusable id n r =
    factor_key id r && (is_pending r.factor_state || not (used_from n r.totp_last_used_time_step))

-- The factor is known, and no row of it admits the step `n`.
abbrev pub IsUsed : String → ℕ → FactorDb → Type 0
IsUsed id n d =
    (any_row (factor_key id) d.factors ≡ true) × (any_row (reusable id n) d.factors ≡ false)

none_usable :
    (id : String) (m n : ℕ) (l : List SecondFactor)
    → m ≤ n
    → any_row (reusable id n) l ≡ false
    → any_row (usable id m) l ≡ false
unfolding any_row
none_usable id m n [] le h = refl
none_usable id m n (x ∷ xs) le h = ground (arith, none_usable id m n xs)

-- An update that turns no row into a reusable one of the factor.
none_reusable-update_where :
    (id : String) (n : ℕ) (q : SecondFactor → Bool) (f : SecondFactor → SecondFactor)
    (l : List SecondFactor)
    → ((x : SecondFactor) → q x ≡ true → reusable id n x ≡ false → reusable id n (f x) ≡ false)
    → any_row (reusable id n) l ≡ false
    → any_row (reusable id n) (update_where q f l) ≡ false
unfolding any_row update_where
none_reusable-update_where id n q f [] k h = refl
none_reusable-update_where id n q f (x ∷ xs) k h =
    ground (arith, k x, none_reusable-update_where id n q f xs k)

any_row_of_find :
    (p q : SecondFactor → Bool) (l : List SecondFactor) (x : SecondFactor)
    → find_row p l ≡ some x
    → q x ≡ true
    → any_row q l ≡ true
unfolding any_row find_row
any_row_of_find p q [] x f h = cc
any_row_of_find p q (y ∷ ys) x f h = ground (arith, any_row_of_find p q ys x)

module _ (id : String) (n : ℕ) (d : FactorDb) (u : IsUsed id n d) where
  enroll-IsUsed :
      (now : ℕ) (other : String) (p : CreateEnrollmentParams)
      → IsUsed id n (kept d (create_totp_second_factor_enrollment now other p d))
  unfolding create_totp_second_factor_enrollment factor_row_ok
  enroll-IsUsed now other p =
      elim (Option-cases (find_row (factor_of_account p.account_id) d.factors)) [
        | inl e ↦
            let same : (other == id) ≡ true
                → any_row (factor_key other) d.factors ≡ any_row (factor_key id) d.factors =
              λ q. ap (λ s. any_row (factor_key s) d.factors) (eq_of_== other id q) in
            ground (
              arith,
              same,
              any_row-append (factor_key id) d.factors (new_factor now other p),
              any_row-append (reusable id n) d.factors (new_factor now other p),
            )
        | inr (x, e) ↦
            let other_id : (y : SecondFactor)
                → factor_key x.id y ≡ true
                → factor_key id x ≡ false
                → reusable id n (refresh_row now p y) ≡ false =
              λ y q m. ground (arith, ap (λ s. s == id) (eq_of_== y.id x.id q)) in
            ground (
              arith,
              any_row_of_find (factor_of_account p.account_id) (reusable id n) d.factors x e,
              any_row-update_where (factor_key id) (factor_key x.id) (refresh_row now p) (λ y. refl)
                  d.factors,
              none_reusable-update_where id n (factor_key x.id) (refresh_row now p) d.factors,
            )
      ]

  activate-IsUsed :
      (account other : String) (now step : ℕ)
      → IsUsed id n (kept d (activate_totp_second_factor account other now step d))
  unfolding activate_totp_second_factor
  activate-IsUsed account other now step = ground (
    arith,
    any_row-update_where (factor_key id) (activatable account other) (activate_row now step)
        (λ y. refl) d.factors,
    none_reusable-update_where id n (activatable account other) (activate_row now step) d.factors
        (λ x q h. ground arith),
  )

  use_step-IsUsed :
      (other : String) (now step : ℕ)
      → IsUsed id n (kept d (mark_totp_second_factor_used other now step d))
  unfolding mark_totp_second_factor_used
  use_step-IsUsed other now step = ground (
    arith,
    any_row-update_where (factor_key id) (usable other step) (use_row now step) (λ y. refl)
        d.factors,
    none_reusable-update_where id n (usable other step) (use_row now step) d.factors
        (λ x q h. ground arith),
  )

calls-IsUsed :
    (id : String) (n : ℕ) (cs : List FactorCall) (d : FactorDb)
    → IsUsed id n d
    → IsUsed id n (calls cs d)
unfolding calls call
calls-IsUsed id n [] d u = u
calls-IsUsed id n (enroll now other p ∷ cs) d u =
    calls-IsUsed id n cs (call (enroll now other p) d) (enroll-IsUsed id n d u now other p)
calls-IsUsed id n (activate account other now step ∷ cs) d u =
    calls-IsUsed id n cs (call (activate account other now step) d)
      (activate-IsUsed id n d u account other now step)
calls-IsUsed id n (use_step other now step ∷ cs) d u =
    calls-IsUsed id n cs (call (use_step other now step) d)
      (use_step-IsUsed id n d u other now step)

no_reuse :
    (id : String) (now n : ℕ) (l : List SecondFactor)
    → length (select (factor_key id) l) ≤ 0
    → any_row (reusable id n) (update_where (usable id n) (use_row now n) l) ≡ false
unfolding any_row update_where select
no_reuse id now n [] h = refl
no_reuse id now n (x ∷ xs) h = ground (arith, no_reuse id now n xs)

no_usable :
    (id : String) (n : ℕ) (l : List SecondFactor)
    → length (select (factor_key id) l) ≤ 0
    → any_row (usable id n) l ≡ false
unfolding any_row select
no_usable id n [] h = refl
no_usable id n (x ∷ xs) h = ground (arith, no_usable id n xs)

used_once :
    (id : String) (now n : ℕ) (l : List SecondFactor)
    → length (select (factor_key id) l) ≤ 1
    → any_row (usable id n) l ≡ true
    → any_row (reusable id n) (update_where (usable id n) (use_row now n) l) ≡ false
unfolding any_row update_where select
used_once id now n [] u h = cc
used_once id now n (x ∷ xs) u h =
    ground (arith, used_once id now n xs, no_reuse id now n xs, no_usable id n xs)

marked-IsUsed :
    (id : String) (now n : ℕ) (d d' : FactorDb) (r : SecondFactor)
    → length (select (factor_key id) d.factors) ≤ 1
    → mark_totp_second_factor_used id now n d ≡ ok (r, d')
    → IsUsed id n d'
unfolding mark_totp_second_factor_used
marked-IsUsed id now n d d' r u h = ground (
  arith,
  used_once id now n d.factors u,
  any_row-eq-is_some (factor_key id) (update_where (usable id n) (use_row now n) d.factors),
)

-- Once a factor with a unique identifier has been used with a time step, no later use of that step or
-- of an earlier one is accepted for it, after any enrollments, activations and uses, in any order.
pub used_step_is_refused :
    (id : String) (now later m n : ℕ) (cs : List FactorCall) (d d' : FactorDb) (r : SecondFactor)
    → length (select (factor_key id) d.factors) ≤ 1
    → mark_totp_second_factor_used id now n d ≡ ok (r, d')
    → m ≤ n
    → mark_totp_second_factor_used id later m (calls cs d') ≡ err Error.not_found
unfolding mark_totp_second_factor_used
used_step_is_refused id now later m n cs d d' r u h le =
    let k = calls-IsUsed id n cs d' (marked-IsUsed id now n d d' r u h) in
    ground (arith, none_usable id m n (calls cs d').factors le k.1)
