-- ===== src/Model/Accounts.antt =====
-- Of internal/auth/models.go, what the sharing methods read of an account.
use safety_recorder.Base.{String, Bool, true, false}

pub data AccountState : Type 0 where
  pending_email_verification active disabled suspended pending_payment : AccountState

abbrev pub is_account_active : AccountState → Bool
is_account_active AccountState.active = true
is_account_active _ = false

pub record AccountRow : Type 0 where
  pub id : String
  pub account_state : AccountState
