-- ===== src/Coordination.antt =====
-- internal/coordination/coordinator.go: upload leases and rate limits on a Valkey service, whose
-- client is an interface.
pub mod Leases
pub mod Limits
use safety_recorder.Base.{
  ℕ, String, Bool, true, false, ◌||◌, Option, none, some, ◌==◌, if◌then◌else◌, eqb, leb,
}

-- What a client call reports; `interrupted` is the context's cancellation or deadline.
pub data ClientError : Type 0 where
  interrupted other_error : ClientError

pub data Reply {ℓ} (A : Type ℓ) : Type ℓ where
  answer : A → Reply A
  failure : ClientError → Reply A

-- `type Client`, on the state `S` of the service. Durations are natural numbers.
pub record Client (S : Type 0) : Type 0 where
  pub ping : S → Reply (Unit {0})
  pub increment_with_expiry : String → ℕ → S → Reply ℕ × S
  pub set_nx_with_expiry : String → String → ℕ → S → Reply Bool × S
  pub delete_if_value : String → String → S → Reply Bool × S

-- The errors that the coordinator returns.
pub data CoordinationError : Type 0 where
  context_error unavailable : CoordinationError

abbrev pub coordination_error : ClientError → CoordinationError
coordination_error interrupted = context_error
coordination_error other_error = unavailable

pub data Coordinated {ℓ} (A : Type ℓ) : Type ℓ where
  done : A → Coordinated A
  refused : CoordinationError → Coordinated A

pub record UploadLease : Type 0 where
  pub key : String
  pub token : String
  pub acquired : Bool
  pub retry_after : ℕ

-- The lease that stands for no coordination.
abbrev pub free_lease : UploadLease
free_lease = record { key = ""; token = ""; acquired = true; retry_after = 0 }

module _ {S : Type 0} (client : Client S) where
  unfoldable pub check : S → Coordinated (Unit {0})
  check s = elim (client.ping s) [ answer u ↦ done tt | failure e ↦ refused (coordination_error e) ]

  unfoldable pub allow : String → ℕ → ℕ → S → Coordinated Bool × S
  allow key limit window s =
      if eqb limit 0 || eqb window 0
      then (done true, s)
      else let r = client.increment_with_expiry key window s in
        elim r.0 [
          | answer count ↦ (done (leb count limit), r.1)
          | failure e ↦ (refused (coordination_error e), r.1)
        ]

  -- `token` is what `newLeaseToken` draws; `none` is its failure.
  unfoldable pub acquire_upload_lease : Option String → String → ℕ → S → Coordinated UploadLease × S
  acquire_upload_lease token key ttl s =
      if key == "" || eqb ttl 0 then (done free_lease, s) else elim token [
        | none ↦ (refused unavailable, s)
        | some t ↦
            let r = client.set_nx_with_expiry key t ttl s in
            elim r.0 [
              | failure e ↦ (refused (coordination_error e), r.1)
              | answer set ↦
                  if set
                  then (
                    done (record { key = key; token = t; acquired = true; retry_after = ttl }),
                    r.1,
                  )
                  else (
                    done (record { key = key; token = ""; acquired = false; retry_after = ttl }),
                    r.1,
                  )
            ]
      ]

  unfoldable pub release_upload_lease : UploadLease → S → Coordinated (Unit {0}) × S
  release_upload_lease lease s =
      if lease.key == "" || lease.token == ""
      then (done tt, s)
      else let r = client.delete_if_value lease.key lease.token s in
        elim r.0 [
          | answer removed ↦ (done tt, r.1)
          | failure e ↦ (refused (coordination_error e), r.1)
        ]
