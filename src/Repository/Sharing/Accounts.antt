-- ===== src/Repository/Sharing/Accounts.antt =====
-- internal/incidents/trusted_contact_relationships.go: `requireActiveAccountForTrustedContactTx`.
use safety_recorder.Base.{String, Bool, not, ◌&&◌, ◌==◌, any_row}
use safety_recorder.Model.{AccountRow, is_account_active, Db, Error, Tx, reads, fail_if, ◌>>=◌}

abbrev pub active_account : String → Db → Bool
active_account account d =
    any_row (λ (r : AccountRow). r.id == account && is_account_active r.account_state) d.accounts

unfoldable pub require_active_account : String → Tx (Unit {0})
require_active_account account = do
  found ← reads (active_account account)
  fail_if (not found) Error.not_found
