-- ===== src/Repository/Constraints.antt =====
-- The tests that the tables make on the values of an inserted row (migrations/*.sql), and those of
-- the controlled vocabularies (`Valid...` of internal/incidents/models.go).
use Prim.Native.Char.{code}
use safety_recorder.Base.{
  ℕ, String, Bool, true, not, List, ◌&&◌, ◌||◌, ◌==◌, leb, eqb, length, any_row,
}
use safety_recorder.Model.{Incident, AccountRow, Db}

abbrev pub codes : String → List ℕ
codes String.[] = List.[]
codes (String.◌∷◌ c s) = List.◌∷◌ (code c) (codes s)

-- One of 0-9 and a-f.
abbrev pub is_lower_hex : ℕ → Bool
is_lower_hex c = leb b'0' c && leb c b'9' || leb b'a' c && leb c b'f'

abbrev all_lower_hex : List ℕ → Bool
all_lower_hex List.[] = true
all_lower_hex (List.◌∷◌ c cs) = is_lower_hex c && all_lower_hex cs

-- 64 lower-case hexadecimal digits.
unfoldable pub valid_sha256_hex : String → Bool
valid_sha256_hex s = eqb (length (codes s)) 64 && all_lower_hex (codes s)

unfoldable pub valid_incident_mode : String → Bool
valid_incident_mode v =
    v == "emergency" || v == "interaction_record" || v == "safety_check" || v == "evidence_note"

unfoldable pub valid_capture_profile : String → Bool
valid_capture_profile v =
    v == "audio_video_location"
    || v == "audio_location"
    || v == "location_checkin"
    || v == "note_or_attachment"
    || v == "custom"

unfoldable pub valid_escalation_policy : String → Bool
valid_escalation_policy v =
    v == "none"
    || v == "trusted_contacts_on_start"
    || v == "trusted_contacts_on_missed_checkin"
    || v == "urgent_trusted_contact_alert"

unfoldable pub valid_sharing_state : String → Bool
valid_sharing_state v =
    v == "private"
    || v == "trusted_contact_access"
    || v == "public_link_created"
    || v == "legal_export_created"
    || v == "revoked_or_expired"

-- The foreign key of a row to its incident.
abbrev pub has_incident : String → List Incident → Bool
has_incident i = any_row (λ r. r.id == i)

abbrev pub has_account : String → Db → Bool
has_account account d = any_row (λ (r : AccountRow). r.id == account) d.accounts

-- `length(text) > 0 AND length(text) <= n`.
abbrev pub length_within : ℕ → String → Bool
length_within n s = not (s == "") && leb (length (codes s)) n
