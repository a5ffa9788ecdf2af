-- ===== src/Tests/Totp.antt =====
-- TOTP codes and factors at concrete inputs.
use safety_recorder.DbTime.{second}
use safety_recorder.Model.{ok, err, Error}
use safety_recorder.Totp.Replay.{calls, enroll, use_step, used_step_is_refused}
use safety_recorder.Totp.Match.{
  match_totp_code, unix_epoch, matched, valid_options, trim_space, current_step, skewed_steps,
}
use safety_recorder.Totp.Match.Window.{IsStepOf, match_totp_code_sound}
use safety_recorder.Totp.Factors.{
  CreateEnrollmentParams, FactorDb, SecondFactor, mark_totp_second_factor_used, activate_row,
  use_row, new_factor,
}
use safety_recorder.Base.{
  [], ◌∷◌, some, ◌≡◌, refl, arith, ℕ, String, true, Option, if◌then◌else◌, ◌+◌, eqb, ◌*◌, any_row,
  select, ◌==◌, find_row, update_where, trim_right, trim_left,
}

-- A generator that knows one step.
abbrev one_code : String → ℕ → Option String
one_code secret at = if eqb at 60 then some "123456" else some "000000"

abbrev at_three : ℕ
at_three = (unix_epoch + 95) * second

match_run : match_totp_code one_code " key " "123456\n" at_three 30 6 "SHA1" ≡ matched 2
unfolding match_totp_code ◌==◌ trim_space valid_options skewed_steps current_step trim_right
    trim_left
match_run = refl

match_totp_code_sound_example :
    IsStepOf one_code "key" "123456" 30 3 2 × (valid_options 30 6 "SHA1" ≡ true)
unfolding trim_space current_step trim_right trim_left
match_totp_code_sound_example =
    match_totp_code_sound one_code " key " "123456\n" at_three 30 6 "SHA1" 2 match_run

abbrev params : CreateEnrollmentParams
params = record {
  account_id = "acc";
  secret = "key";
  period_seconds = 30;
  digits = 6;
  algorithm = "SHA1";
}

abbrev active_factor : SecondFactor
active_factor = activate_row 5 1 (new_factor 4 "sf" params)

abbrev factor_db : FactorDb
factor_db = record {
  accounts = record { id = "acc"; second_factor_setup_state = "complete"; updated_at = 5 } ∷ [];
  factors = active_factor ∷ [];
}

abbrev used_db : FactorDb
used_db = record factor_db { factors = use_row 6 2 active_factor ∷ [] }

use_run : mark_totp_second_factor_used "sf" 6 2 factor_db ≡ ok (use_row 6 2 active_factor, used_db)
unfolding mark_totp_second_factor_used any_row ◌==◌ find_row update_where
use_run = refl

used_step_is_refused_example :
    mark_totp_second_factor_used "sf" 8 2
      (calls (enroll 7 "sf2" params ∷ use_step "sf" 7 3 ∷ []) used_db)
    ≡ err Error.not_found
unfolding select ◌==◌
used_step_is_refused_example =
    used_step_is_refused "sf" 6 8 2 2 (enroll 7 "sf2" params ∷ use_step "sf" 7 3 ∷ []) factor_db
      used_db (use_row 6 2 active_factor) (omega arith) use_run (omega arith)
