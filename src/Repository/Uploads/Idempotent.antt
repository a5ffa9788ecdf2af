-- ===== src/Repository/Uploads/Idempotent.antt =====
-- Upload operations are idempotent under their key (internal/incidents/upload_operations.go).
use safety_recorder.Repository.Incidents.{find_incident}
use safety_recorder.Model.{
  MediaType, UploadOperationParams, same_media, Db, UploadOperation, Incident, ok, is_active, err,
  Error,
}
use safety_recorder.Repository.Uploads.{
  matches_params, new_operation, operation_row_ok, reserve_upload_operation, operation_key,
}
use safety_recorder.Base.{
  ℕ, arith, ◌≡◌, ◌++◌, ◌∷◌, [], String, eqb, true, ==_refl, List, any_row, find_row, false, some,
  any_row-eq-is_some, find_row-append, eq_of_==, Bool-cases, inl, inr, sym, ◌∙◌, ◌≢◌,
}

same_media_refl : (m : MediaType) → same_media m m ≡ true
same_media_refl m = ground arith

eqb_refl : (n : ℕ) → eqb n n ≡ true
eqb_refl n = ground arith

matches_new :
    (now : ℕ) (id : String) (p : UploadOperationParams)
    → matches_params (new_operation now id p) p ≡ true
unfolding matches_params
matches_new now id p = ground (
  arith,
  ==_refl p.operation,
  ==_refl p.idempotency_key_hash,
  ==_refl p.incident_id,
  ==_refl p.stream_id,
  ==_refl p.original_filename,
  ==_refl p.sha256_hex,
  ==_refl p.fingerprint_hash,
  same_media_refl p.media_type,
  eqb_refl p.chunk_index,
)

-- A reserved operation is found under its key.
find_row-operation :
    (p : UploadOperationParams) (l : List UploadOperation) (now : ℕ) (id : String)
    → any_row (operation_key p.operation p.idempotency_key_hash) l ≡ false
    → find_row (operation_key p.operation p.idempotency_key_hash) (l ++ new_operation now id p ∷ [])
      ≡ some (new_operation now id p)
find_row-operation p l now id n = ground (
  arith,
  ==_refl p.operation,
  ==_refl p.idempotency_key_hash,
  any_row-eq-is_some (operation_key p.operation p.idempotency_key_hash) l,
  find_row-append (operation_key p.operation p.idempotency_key_hash) l (new_operation now id p),
)

-- What a reservation leaves under its key: the operation that it returned, with its parameters.
reserve_upload_operation-stored :
    (d d' : Db) (now : ℕ) (id : String) (p : UploadOperationParams) (o : UploadOperation)
    → reserve_upload_operation now id p d ≡ ok (o, d')
    → (find_row (operation_key p.operation p.idempotency_key_hash) d'.upload_operations ≡ some o)
      × (matches_params o p ≡ true)
      × (d'.incidents ≡ d.incidents)
unfolding reserve_upload_operation operation_row_ok
reserve_upload_operation-stored d d' now id p o e =
    ground (arith, matches_new now id p, find_row-operation p d.upload_operations now id)

stored_not_ok :
    (d : Db) (now : ℕ) (id : String) (p : UploadOperationParams) (o : UploadOperation)
    → find_row (operation_key p.operation p.idempotency_key_hash) d.upload_operations ≡ some o
    → operation_row_ok (new_operation now id p) d ≡ false
unfolding operation_row_ok
stored_not_ok d now id p o f = ground (
  arith,
  any_row-eq-is_some (operation_key p.operation p.idempotency_key_hash) d.upload_operations,
)

-- A reservation that is made again with the same parameters in the database that the first one left,
-- with any clock reading and any drawn identifier, returns the same operation and changes nothing.
pub reserve_upload_operation-retry :
    (d d' : Db) (now later : ℕ) (id other : String) (p : UploadOperationParams)
    (o : UploadOperation)
    → reserve_upload_operation now id p d ≡ ok (o, d')
    → reserve_upload_operation later other p d' ≡ ok (o, d')
unfolding reserve_upload_operation
reserve_upload_operation-retry d d' now later id other p o e =
    let s = reserve_upload_operation-stored d d' now id p o e in
    ground (arith, stored_not_ok d' later other p o s.0)

eq_of_eqb : (m n : ℕ) → eqb m n ≡ true → m ≡ n
eq_of_eqb m n h = ground arith

eq_of_same_media : (m n : MediaType) → same_media m n ≡ true → m ≡ n
eq_of_same_media m n h = ground arith

-- The parameters that an operation was reserved with.
abbrev reserved_params : UploadOperation → UploadOperationParams
reserved_params o = record {
  operation = o.operation;
  idempotency_key_hash = o.idempotency_key_hash;
  incident_id = o.incident_id;
  stream_id = o.stream_id;
  chunk_index = o.chunk_index;
  media_type = o.media_type;
  started_at = o.started_at;
  ended_at = o.ended_at;
  original_filename = o.original_filename;
  byte_size = o.byte_size;
  sha256_hex = o.sha256_hex;
  fingerprint_hash = o.fingerprint_hash;
}

-- The test accepts no other parameters than those of the operation: it leaves no field out.
matched_params :
    (o : UploadOperation) (p : UploadOperationParams)
    → matches_params o p ≡ true
    → reserved_params o ≡ p
unfolding matches_params
matched_params o p h =
    let operation = eq_of_== o.operation p.operation (ground arith) in
    let key = eq_of_== o.idempotency_key_hash p.idempotency_key_hash (ground arith) in
    let incident = eq_of_== o.incident_id p.incident_id (ground arith) in
    let stream = eq_of_== o.stream_id p.stream_id (ground arith) in
    let index = eq_of_eqb o.chunk_index p.chunk_index (ground arith) in
    let media = eq_of_same_media o.media_type p.media_type (ground arith) in
    let started = eq_of_eqb o.started_at p.started_at (ground arith) in
    let ended = eq_of_eqb o.ended_at p.ended_at (ground arith) in
    let filename = eq_of_== o.original_filename p.original_filename (ground arith) in
    let size = eq_of_eqb o.byte_size p.byte_size (ground arith) in
    let sha256 = eq_of_== o.sha256_hex p.sha256_hex (ground arith) in
    let fingerprint = eq_of_== o.fingerprint_hash p.fingerprint_hash (ground arith) in
    λ i. record {
      operation = operation i;
      idempotency_key_hash = key i;
      incident_id = incident i;
      stream_id = stream i;
      chunk_index = index i;
      media_type = media i;
      started_at = started i;
      ended_at = ended i;
      original_filename = filename i;
      byte_size = size i;
      sha256_hex = sha256 i;
      fingerprint_hash = fingerprint i;
    }

-- The operation that parameters have reserved does not match others.
other_params_unmatched :
    (o : UploadOperation) (p q : UploadOperationParams)
    → matches_params o p ≡ true
    → q ≢ p
    → matches_params o q ≡ false
other_params_unmatched o p q h n = elim (Bool-cases (matches_params o q)) [
  | inl e ↦ absurd (n (sym (matched_params o q e) ∙ matched_params o p h))
  | inr e ↦ e
]

-- A key that a reservation has taken refuses other parameters: made in the database that the
-- reservation left, with an active incident, a reservation under the same operation and key whose
-- parameters differ in any field ends in the idempotency conflict.
pub reserve_upload_operation-conflict :
    (d d' : Db) (now later : ℕ) (id other : String) (p q : UploadOperationParams)
    (o : UploadOperation) (r : Incident)
    → reserve_upload_operation now id p d ≡ ok (o, d')
    → find_incident q.incident_id d' ≡ some r
    → is_active r.deletion_state ≡ true
    → q.operation ≡ p.operation
    → q.idempotency_key_hash ≡ p.idempotency_key_hash
    → q ≢ p
    → reserve_upload_operation later other q d' ≡ err Error.idempotency_conflict
unfolding reserve_upload_operation
reserve_upload_operation-conflict d d' now later id other p q o r e f a o_eq k_eq n =
    let s = reserve_upload_operation-stored d d' now id p o e in
    let g : find_row (operation_key q.operation q.idempotency_key_hash) d'.upload_operations
        ≡ some o =
      rw (o_eq, k_eq) s.0 in
    let different = other_params_unmatched o p q s.1 n in
    ground (arith, stored_not_ok d' later other q o g)
