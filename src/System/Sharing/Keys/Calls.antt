-- ===== src/System/Sharing/Keys/Calls.antt =====
-- The calls that insert contact keys, as steps.
use safety_recorder.System.Sharing.Keys.Steps.{IsNewKey, KeyStep, superseding}
use safety_recorder.Repository.Sharing.KeyStates.{replace_contact_public_key}
use safety_recorder.System.Sharing.Keys.Defs.{highest}
use safety_recorder.Repository.Sharing.ContactKeys.{
  of_contact, owned_key, is_open_key, find_key, create_first_key, create_next_key,
  create_contact_public_key, create_key_version, new_contact_key, newest_key, contact_key_row_ok,
}
use safety_recorder.Base.{
  ℕ, String, ◌≡◌, true, arith, any_row, subst, ◌++◌, sym, ◌∷◌, [], refl, Option-cases, order_by,
  Bool, inl, inr, some, ==_refl, Bool-cases, find_row_sound, select-eq-nil_of, any_row_of_find,
  ◌==◌, ap, ◌+◌, ◌∙◌,
}
use safety_recorder.Model.{
  Db, after, ContactPublicKey, CreateContactPublicKeyParams, after_elim, ok,
  ReplaceContactPublicKeyParams, KeyState,
}

abbrev pub KeysStep : Db → Db → Type 0
KeysStep d e = KeyStep d.contact_public_keys e.contact_public_keys

-- An insert that keeps the constraints of the table.
row_ok_facts :
    (r : ContactPublicKey) (d : Db)
    → contact_key_row_ok r d ≡ true
    → is_open_key r.key_state ≡ true
    → IsNewKey r d.contact_public_keys
unfolding contact_key_row_ok
row_ok_facts r d h o = ground arith

create_first_rows :
    (now : ℕ) (contact id audit : String) (p : CreateContactPublicKeyParams) (d d' : Db)
    (k : ContactPublicKey)
    → create_first_key now contact id audit p d ≡ ok (k, d')
    → (contact_key_row_ok (new_contact_key now id p contact 1) d ≡ true)
      × (d'.contact_public_keys ≡ d.contact_public_keys ++ new_contact_key now id p contact 1 ∷ [])
unfolding create_first_key
create_first_rows now contact id audit p d d' k e = ground arith

create_first-KeysStep :
    (now : ℕ) (contact id audit : String) (p : CreateContactPublicKeyParams) (d : Db)
    → is_open_key p.key_state ≡ true
    → KeysStep d (after d (create_first_key now contact id audit p d))
create_first-KeysStep now contact id audit p d o =
    after_elim (KeysStep d) d (create_first_key now contact id audit p d) KeyStep.same λ k d' e.
      let s = create_first_rows now contact id audit p d d' k e in
      let r = new_contact_key now id p contact 1 in
      subst (KeyStep d.contact_public_keys) (sym s.1)
        (KeyStep.insert r (row_ok_facts r d s.0 o) refl)

newest_key-found :
    (p : ContactPublicKey → Bool) (d : Db) (r : ContactPublicKey)
    → newest_key p d ≡ some r
    → any_row p d.contact_public_keys ≡ true
unfolding order_by
newest_key-found p d r e = elim (Bool-cases (any_row p d.contact_public_keys)) [
  | inl h ↦ h
  | inr n ↦ absurd (ground (arith, select-eq-nil_of p d.contact_public_keys n))
]

-- A call that inserts `k` and replaces the open keys of its contact.
abbrev Supersedes : ℕ → KeyState → ContactPublicKey → Db → Db → Type 0
Supersedes now s k d d' =
    (contact_key_row_ok k d ≡ true)
    × (k.key_state ≡ s)
    × (k.version ≡ highest k.owner_account_id k.contact_id d.contact_public_keys + 1)
    × (any_row (of_contact k.owner_account_id k.contact_id) d.contact_public_keys ≡ true)
    × (d'.contact_public_keys ≡ superseding now k d.contact_public_keys)

Supersedes-KeysStep :
    (now : ℕ) (s : KeyState) (k : ContactPublicKey) (d d' : Db)
    → is_open_key s ≡ true
    → Supersedes now s k d d'
    → KeysStep d d'
Supersedes-KeysStep now s k d d' o h =
    subst (KeyStep d.contact_public_keys) (sym h.4)
      (KeyStep.supersede now k (row_ok_facts k d h.0 (ap is_open_key h.1 ∙ o)) h.2 h.3)

create_next_rows :
    (now : ℕ) (id audit : String) (p : CreateContactPublicKeyParams) (d d' : Db)
    (k : ContactPublicKey)
    → create_next_key now id audit p d ≡ ok (k, d')
    → Supersedes now p.key_state k d d'
unfolding create_next_key
create_next_rows now id audit p d d' k e =
    elim (Option-cases (newest_key (of_contact p.owner_account_id p.contact_id) d)) [
      | inl f ↦ absurd (ground arith)
      | inr (r, f) ↦
          ground (arith, newest_key-found (of_contact p.owner_account_id p.contact_id) d r f)
    ]

create_next-KeysStep :
    (now : ℕ) (id audit : String) (p : CreateContactPublicKeyParams) (d : Db)
    → is_open_key p.key_state ≡ true
    → KeysStep d (after d (create_next_key now id audit p d))
create_next-KeysStep now id audit p d o =
    after_elim (KeysStep d) d (create_next_key now id audit p d) KeyStep.same λ k d' e.
      Supersedes-KeysStep now p.key_state k d d' o (create_next_rows now id audit p d d' k e)

create_key_checks :
    (now : ℕ) (contact id audit : String) (p : CreateContactPublicKeyParams) (d d' : Db)
    (k : ContactPublicKey)
    → create_contact_public_key now contact id audit p d ≡ ok (k, d')
    → (is_open_key p.key_state ≡ true) × (create_key_version now contact id audit p d ≡ ok (k, d'))
unfolding create_contact_public_key
create_key_checks now contact id audit p d d' k e = ground arith

create_version-KeysStep :
    (now : ℕ) (contact id audit : String) (p : CreateContactPublicKeyParams) (d : Db)
    → is_open_key p.key_state ≡ true
    → KeysStep d (after d (create_key_version now contact id audit p d))
unfolding create_key_version
create_version-KeysStep now contact id audit p d o = elim (Bool-cases (p.contact_id == "")) [
  | inl e ↦ rw e (create_first-KeysStep now contact id audit p d o)
  | inr e ↦ rw e (create_next-KeysStep now id audit p d o)
]

pub create_key-KeysStep :
    (now : ℕ) (contact id audit : String) (p : CreateContactPublicKeyParams) (d : Db)
    → KeysStep d (after d (create_contact_public_key now contact id audit p d))
create_key-KeysStep now contact id audit p d =
    after_elim (KeysStep d) d (create_contact_public_key now contact id audit p d) KeyStep.same
      λ k d' e.
        let s = create_key_checks now contact id audit p d d' k e in
        subst (λ r. KeysStep d (after d r)) s.1
          (create_version-KeysStep now contact id audit p d s.0)

replace_rows :
    (now at : ℕ) (id audit : String) (p : ReplaceContactPublicKeyParams) (d d' : Db)
    (k : ContactPublicKey)
    → replace_contact_public_key now at id audit p d ≡ ok (k, d')
    → Supersedes at p.key_state k d d'
unfolding replace_contact_public_key
replace_rows now at id audit p d d' k e =
    elim (Option-cases (find_key p.owner_account_id p.public_key_id d)) [
      | inl f ↦ absurd (ground arith)
      | inr (r, f) ↦ ground (
        arith,
        ==_refl r.contact_id,
        find_row_sound (owned_key p.owner_account_id p.public_key_id) d.contact_public_keys r f,
        any_row_of_find (of_contact p.owner_account_id r.contact_id)
            (owned_key p.owner_account_id p.public_key_id) d.contact_public_keys r f,
      )
    ]

replace_opens :
    (now at : ℕ) (id audit : String) (p : ReplaceContactPublicKeyParams) (d d' : Db)
    (k : ContactPublicKey)
    → replace_contact_public_key now at id audit p d ≡ ok (k, d')
    → is_open_key p.key_state ≡ true
unfolding replace_contact_public_key
replace_opens now at id audit p d d' k e = ground arith

pub replace_key-KeysStep :
    (now at : ℕ) (id audit : String) (p : ReplaceContactPublicKeyParams) (d : Db)
    → KeysStep d (after d (replace_contact_public_key now at id audit p d))
replace_key-KeysStep now at id audit p d =
    after_elim (KeysStep d) d (replace_contact_public_key now at id audit p d) KeyStep.same
      λ k d' e.
        Supersedes-KeysStep at p.key_state k d d' (replace_opens now at id audit p d d' k e)
          (replace_rows now at id audit p d d' k e)
