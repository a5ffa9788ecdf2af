-- ===== src/Coordination/Leases.antt =====
-- Upload leases of internal/coordination/coordinator.go exclude each other.
use safety_recorder.Coordination.{
  Client, UploadLease, acquire_upload_lease, answer, done, release_upload_lease,
}
use safety_recorder.Base.{ℕ, String, true, false, Option, some, ◌==◌, ◌≡◌, arith, eqb, ==_refl, ap}

-- `SET key value NX` as the service documents it, where `holder` is the
-- value that is stored under a key.
pub record HoldsValues {S : Type 0} (client : Client S) (holder : String → S → Option String)
    : Type 0 where
  pub on_set :
      (k v : String) (ttl : ℕ) (s : S)
      → (client.set_nx_with_expiry k v ttl s).0 ≡ answer true
      → holder k (client.set_nx_with_expiry k v ttl s).1 ≡ some v
  pub on_busy :
      (k v w : String) (ttl : ℕ) (s : S)
      → holder k s ≡ some w
      → ((client.set_nx_with_expiry k v ttl s).0 ≡ answer true → ⊥)
        × (holder k (client.set_nx_with_expiry k v ttl s).1 ≡ some w)

module _ {S : Type 0} (client : Client S) (holder : String → S → Option String) where
  acquired_holds :
      HoldsValues client holder
      → (t k : String) (ttl : ℕ) (s s' : S) (l : UploadLease)
      → acquire_upload_lease client (some t) k ttl s ≡ (done l, s')
      → (k == "") ≡ false
      → eqb ttl 0 ≡ false
      → l.acquired ≡ true
      → holder k s' ≡ some t
  unfolding acquire_upload_lease
  acquired_holds law t k ttl s s' l h a b c = ground (arith, law.on_set k t ttl s)

  busy_refused :
      HoldsValues client holder
      → (t u k : String) (ttl : ℕ) (s s' : S) (m : UploadLease)
      → acquire_upload_lease client (some u) k ttl s ≡ (done m, s')
      → (k == "") ≡ false
      → eqb ttl 0 ≡ false
      → holder k s ≡ some t
      → (m.acquired ≡ false) × (m.token ≡ "") × (holder k s' ≡ some t)
  unfolding acquire_upload_lease
  busy_refused law t u k ttl s s' m h a b c = ground (arith, law.on_busy k u t ttl s c)

  -- While a lease on a key that is not empty is held, an attempt of another holder on the key does not
  -- acquire it, both made for a positive time, and releasing the lease that the attempt returned does
  -- not end the held one.
  pub held_lease_excludes :
      HoldsValues client holder
      → (t u k : String) (ttl later : ℕ) (s s1 s2 : S) (l m : UploadLease)
      → acquire_upload_lease client (some t) k ttl s ≡ (done l, s1)
      → (k == "") ≡ false
      → eqb ttl 0 ≡ false
      → eqb later 0 ≡ false
      → l.acquired ≡ true
      → acquire_upload_lease client (some u) k later s1 ≡ (done m, s2)
      → (m.acquired ≡ false) × (holder k (release_upload_lease client m s2).1 ≡ some t)
  unfolding release_upload_lease
  held_lease_excludes law t u k ttl later s s1 s2 l m h a b b' c h' =
      let held = acquired_holds law t k ttl s s1 l h a b c in
      let r = busy_refused law t u k later s1 s2 m h' a b' held in
      ground (arith, r, ==_refl "", ap (λ x. x == "") r.1)
