-- ===== src/Repository/Tokens/Access.antt =====
-- What a viewer token admits (internal/incidents/incident_tokens.go).
use safety_recorder.Model.{Db, IncidentToken, ok, err, Error}
use safety_recorder.Repository.Tokens.{
  create_incident_token, lookup_incident_token, revoke_incident_token, token_row_ok,
  active_incident, hash_key, is_expired, new_token, revocable, revoke_row,
}
use safety_recorder.Base.{
  ℕ, arith, ◌≡◌, ◌∷◌, [], ◌==◌, String, find_row, any_row, List, Option, false, none, true, ==_refl,
  find_row_sound, refl, find_row-append, find_row-update_where,
}

no_hash_key :
    (hash : String → String) (raw : String) (d : Db) (l : List IncidentToken)
    → any_row (λ (x : IncidentToken). x.token_hash == hash raw) l ≡ false
    → find_row (hash_key hash raw d) l ≡ none
unfolding find_row any_row
no_hash_key hash raw d [] h = refl
no_hash_key hash raw d (x ∷ xs) h = ground (arith, no_hash_key hash raw d xs)

module _ (hash : String → String) where
  -- A token that is created is what its raw text looks up, until it expires.
  pub lookup-create_incident_token :
      (d d' : Db) (now later : ℕ) (id raw incident label : String) (expires : Option ℕ)
      (t : IncidentToken)
      → create_incident_token hash now id raw incident label expires d ≡ ok ((t, raw), d')
      → is_expired hash later expires ≡ false
      → lookup_incident_token hash later raw d' ≡ ok (t, d')
  unfolding create_incident_token lookup_incident_token token_row_ok
  lookup-create_incident_token d d' now later id raw incident label expires t e x =
      let t0 = new_token hash now id raw incident label expires in
      ground (
        arith,
        ==_refl (hash raw),
        no_hash_key hash raw d' d.incident_tokens,
        find_row-append (hash_key hash raw d') d.incident_tokens t0,
      )

  -- A token that is looked up belongs to an incident that is not being deleted, has the hash of the
  -- text, is not revoked and has not expired.
  pub lookup_incident_token_sound :
      (d e : Db) (now : ℕ) (raw : String) (t : IncidentToken)
      → lookup_incident_token hash now raw d ≡ ok (t, e)
      → (active_incident t.incident_id d ≡ true)
        × ((t.token_hash == hash raw) ≡ true)
        × (t.revoked_at ≡ none)
        × (is_expired hash now t.expires_at ≡ false)
  unfolding lookup_incident_token
  lookup_incident_token_sound d e now raw t h =
      ground (arith, find_row_sound (hash_key hash raw d) d.incident_tokens t)

  -- A token that is looked up and then revoked is not looked up in the database that the revocation
  -- left, whatever the clock reads.
  pub lookup-revoke_incident_token :
      (d e d' : Db) (now later last : ℕ) (raw : String) (t : IncidentToken)
      → lookup_incident_token hash now raw d ≡ ok (t, e)
      → revoke_incident_token later t.id d ≡ ok (tt, d')
      → lookup_incident_token hash last raw d' ≡ err Error.not_found
  unfolding lookup_incident_token revoke_incident_token
  lookup-revoke_incident_token d e d' now later last raw t h r = ground (
    arith,
    ==_refl t.id,
    find_row-update_where (hash_key hash raw d) (revocable t.id) (revoke_row later) (λ x. refl)
        d.incident_tokens,
  )
