-- ===== src/Totp/Factors.antt =====
-- internal/incidents/totp_second_factors.go: the TOTP factors of accounts. Each method is one
-- transaction on the two tables that it reads and writes, and a failed one leaves them as they were.
use safety_recorder.Model.{Result, err, ok, Error}
use safety_recorder.Base.{
  [], ◌∷◌, ◌++◌, ◌==◌, ◌&&◌, ◌||◌, none, some, if◌then◌else◌, ℕ, String, Bool, true, false, List,
  Option, not, any_row, eqb, find_row, ltb, update_where,
}

pub data FactorState : Type 0 where
  pending active : FactorState

abbrev pub is_pending : FactorState → Bool
is_pending FactorState.pending = true
is_pending FactorState.active = false

-- `SecondFactor` of internal/auth/models.go, of the type "totp".
pub record SecondFactor : Type 0 where
  pub id : String
  pub account_id : String
  pub factor_state : FactorState
  pub totp_secret : String
  pub totp_period_seconds : ℕ
  pub totp_digits : ℕ
  pub totp_algorithm : String
  pub totp_last_used_time_step : Option ℕ
  pub created_at : ℕ
  pub updated_at : ℕ
  pub verified_at : Option ℕ

-- Of an account, the columns that activation writes.
pub record Account : Type 0 where
  pub id : String
  pub second_factor_setup_state : String
  pub updated_at : ℕ

pub record FactorDb : Type 0 where
  pub accounts : List Account
  pub factors : List SecondFactor

pub record CreateEnrollmentParams : Type 0 where
  pub account_id : String
  pub secret : String
  pub period_seconds : ℕ
  pub digits : ℕ
  pub algorithm : String

abbrev pub factor_of_account : String → SecondFactor → Bool
factor_of_account account r = r.account_id == account

abbrev pub factor_key : String → SecondFactor → Bool
factor_key id r = r.id == id

abbrev pub new_factor : ℕ → String → CreateEnrollmentParams → SecondFactor
new_factor now id p = record {
  id = id;
  account_id = p.account_id;
  factor_state = FactorState.pending;
  totp_secret = p.secret;
  totp_period_seconds = p.period_seconds;
  totp_digits = p.digits;
  totp_algorithm = p.algorithm;
  totp_last_used_time_step = none;
  created_at = now;
  updated_at = now;
  verified_at = none;
}

-- The constraints of migrations/020_totp_second_factor.sql on a row's values.
unfoldable pub factor_values_ok : CreateEnrollmentParams → Bool
factor_values_ok p =
    not (p.secret == "")
    && not (eqb p.period_seconds 0)
    && (eqb p.digits 6 || eqb p.digits 8)
    && p.algorithm == "SHA1"

-- Those on the keys of an inserted row.
unfoldable pub factor_row_ok : SecondFactor → FactorDb → Bool
factor_row_ok r d =
    not (any_row (factor_key r.id) d.factors)
    && not (any_row (factor_of_account r.account_id) d.factors)
    && any_row (λ (a : Account). a.id == r.account_id) d.accounts

abbrev pub refresh_row : ℕ → CreateEnrollmentParams → SecondFactor → SecondFactor
refresh_row now p r = record r {
  totp_secret = p.secret;
  totp_period_seconds = p.period_seconds;
  totp_digits = p.digits;
  totp_algorithm = p.algorithm;
  totp_last_used_time_step = none;
  verified_at = none;
  updated_at = now;
}

unfoldable pub create_totp_second_factor_enrollment :
    ℕ → String → CreateEnrollmentParams → FactorDb → Result (SecondFactor × FactorDb)
create_totp_second_factor_enrollment now id p d =
    elim (find_row (factor_of_account p.account_id) d.factors) [
      | none ↦
          if factor_values_ok p && factor_row_ok (new_factor now id p) d
          then ok
              (new_factor now id p, record d { factors = d.factors ++ new_factor now id p ∷ [] })
          else err Error.not_found
      | some factor ↦
          if not (is_pending factor.factor_state)
          then err Error.duplicate
          else if not (factor_values_ok p)
          then err Error.database
          else ok (
            refresh_row now p factor,
            record d {
              factors = update_where (factor_key factor.id) (refresh_row now p) d.factors;
            },
          )
    ]

abbrev pub activatable : String → String → SecondFactor → Bool
activatable account id r =
    factor_key id r && factor_of_account account r && is_pending r.factor_state

abbrev pub activate_row : ℕ → ℕ → SecondFactor → SecondFactor
activate_row verified_at step r = record r {
  factor_state = FactorState.active;
  totp_last_used_time_step = some step;
  verified_at = some verified_at;
  updated_at = verified_at;
}

abbrev pub complete_setup_row : ℕ → Account → Account
complete_setup_row now a = record a { second_factor_setup_state = "complete"; updated_at = now }

-- The factor and the account that are read back must be there.
unfoldable pub activate_totp_second_factor :
    String → String → ℕ → ℕ → FactorDb → Result ((SecondFactor × Account) × FactorDb)
activate_totp_second_factor account id verified_at step d =
    if not (any_row (activatable account id) d.factors)
    then err Error.not_found
    else let factors =
        update_where (activatable account id) (activate_row verified_at step) d.factors in
      let accounts =
        update_where (λ (a : Account). a.id == account) (complete_setup_row verified_at)
          d.accounts in
      elim (find_row (factor_key id) factors) [
        | none ↦ err Error.not_found
        | some factor ↦ elim (find_row (λ (a : Account). a.id == account) accounts) [
          | none ↦ err Error.not_found
          | some a ↦ ok ((factor, a), record { accounts = accounts; factors = factors })
        ]
      ]

-- `last_used_time_step IS NULL OR last_used_time_step < ?`.
abbrev pub is_before : ℕ → Option ℕ → Bool
is_before step none = true
is_before step (some used) = ltb used step

abbrev pub usable : String → ℕ → SecondFactor → Bool
usable id step r =
    factor_key id r && not (is_pending r.factor_state) && is_before step r.totp_last_used_time_step

abbrev pub use_row : ℕ → ℕ → SecondFactor → SecondFactor
use_row now step r = record r { totp_last_used_time_step = some step; updated_at = now }

unfoldable pub mark_totp_second_factor_used :
    String → ℕ → ℕ → FactorDb → Result (SecondFactor × FactorDb)
mark_totp_second_factor_used id verified_at step d =
    if not (any_row (usable id step) d.factors)
    then err Error.not_found
    else let factors = update_where (usable id step) (use_row verified_at step) d.factors in
      elim (find_row (factor_key id) factors) [
        | none ↦ err Error.not_found
        | some factor ↦ ok (factor, record d { factors = factors })
      ]

unfoldable pub get_active_totp_second_factor : String → FactorDb → Result SecondFactor
get_active_totp_second_factor account d = elim (find_row (factor_of_account account) d.factors) [
  | none ↦ err Error.not_found
  | some factor ↦ if is_pending factor.factor_state then err Error.not_found else ok factor
]

unfoldable pub get_pending_totp_second_factor : String → FactorDb → Result SecondFactor
get_pending_totp_second_factor account d = elim (find_row (factor_of_account account) d.factors) [
  | none ↦ err Error.not_found
  | some factor ↦ if is_pending factor.factor_state then ok factor else err Error.not_found
]
