-- ===== src/Model/Database.antt =====
-- The metadata database of `type Repository`, the errors of internal/incidents/repository.go, and a
-- transaction: it commits a new database with its result, or fails and leaves the database alone.
use safety_recorder.Base.{Bool, true, false, Option, none, some, List, ◌≡◌, ◌⊎◌, inl, inr, refl}
use safety_recorder.Model.Records.{Incident, MediaStream, Chunk, Checkin, IncidentToken}
use safety_recorder.Model.Uploads.{UploadOperation}
use safety_recorder.Model.Accounts.{AccountRow}
use safety_recorder.Model.Sharing.{ContactPublicKey, SharingGrant, WrappedKeyRecord}
use safety_recorder.Model.Contacts.{TrustedContactRelationship, AccountRecipientKey}
use safety_recorder.Model.Deletions.{
  IncidentDeletionStatus, IncidentDeletionItem, SharingAuditEvent,
}

pub record Db : Type 0 where
  pub accounts : List AccountRow
  pub incidents : List Incident
  pub media_streams : List MediaStream
  pub chunks : List Chunk
  pub checkins : List Checkin
  pub incident_tokens : List IncidentToken
  pub upload_operations : List UploadOperation
  pub contact_public_keys : List ContactPublicKey
  pub sharing_grants : List SharingGrant
  pub wrapped_key_records : List WrappedKeyRecord
  pub trusted_contact_relationships : List TrustedContactRelationship
  pub account_recipient_keys : List AccountRecipientKey
  pub sharing_audit_events : List SharingAuditEvent
  pub deletion_decisions : List IncidentDeletionStatus
  pub deletion_items : List IncidentDeletionItem

-- `database` is a statement's error that the code wraps and returns.
pub data Error : Type 0 where
  not_found duplicate idempotency_conflict invalid_state incident_closed : Error
  incident_deleting account_blob_quota_exceeded database : Error

pub data Result {ℓ} (A : Type ℓ) : Type ℓ where
  ok : A → Result A
  err : Error → Result A

abbrev pub Tx : Type 0 → Type 0
Tx A = Db → Result (A × Db)

module _ {A : Type 0} where
  abbrev pub pure : A → Tx A
  pure a d = ok (a, d)

  abbrev pub fail : Error → Tx A
  fail e d = err e

  abbrev pub reads : (Db → A) → Tx A
  reads f d = ok (f d, d)

  -- A row that must be there.
  abbrev pub or_fail : Option A → Error → Tx A
  or_fail none e = fail e
  or_fail (some a) e = pure a

infixl 5 ◌>>=◌ ◌>>◌
abbrev pub ◌>>=◌ : {A B : Type 0} → Tx A → (A → Tx B) → Tx B
◌>>=◌ m f d = elim (m d) [ ok r ↦ f r.0 r.1 | err e ↦ err e ]

abbrev pub ◌>>◌ : {A B : Type 0} → Tx A → Tx B → Tx B
m >> k = m >>= λ _. k

abbrev pub fail_if : Bool → Error → Tx (Unit {0})
fail_if true e d = err e
fail_if false e d = ok (tt, d)

abbrev pub writes : (Db → Db) → Tx (Unit {0})
writes f d = ok (tt, f d)

-- The database after a call: a failed one has rolled back.
abbrev pub after : {A : Type 0} → Db → Result (A × Db) → Db
after d (ok r) = r.1
after d (err e) = d

pub Result-cases {ℓ} :
    {A : Type ℓ} (r : Result A) → ((a : A) × (r ≡ ok a)) ⊎ ((e : Error) × (r ≡ err e))
Result-cases (ok a) = inl (a, refl)
Result-cases (err e) = inr (e, refl)

-- What holds before a call, and after it where it succeeds, holds after it.
pub after_elim {ℓ} :
    {A : Type 0} (P : Db → Type ℓ) (d : Db) (r : Result (A × Db))
    → P d
    → ((a : A) (e : Db) → r ≡ ok (a, e) → P e)
    → P (after d r)
after_elim P d (ok (a, e)) h k = k a e refl
after_elim P d (err x) h k = h
