-- ===== src/System/Sharing/Keys/Keyed.antt =====
-- The steps keep one key at most of a contact open.
use safety_recorder.System.Sharing.Keys.Update.{allowed_update_open, found-IsKeyed, closed-IsKeyed}
use safety_recorder.System.Sharing.Keys.Supersede.{superseding-IsKeyed}
use safety_recorder.System.Sharing.Keys.Insert.{append-IsKeyed}
use safety_recorder.System.Sharing.Keys.Defs.{IsKeyed, is_unknown, initial_of}
use safety_recorder.Repository.Sharing.ContactKeys.{is_open_key, of_contact, owned_key}
use safety_recorder.Repository.Sharing.KeyStates.{
  KeyEnd, end_row, update_allowed, with_state, with_label, updated_row,
}
use safety_recorder.System.Sharing.Keys.Steps.{KeyStep, computed_key}
use safety_recorder.Base.{
  ℕ, String, ◌≡◌, true, arith, Option, none, some, List, refl, inl, inr, Bool, false, find_row,
  Bool-cases, any_row_of_find,
}
use safety_recorder.Model.{ContactPublicKey, KeyState, valid_contact_key_state}

pub found_known :
    (q : ContactPublicKey → Bool) (l : List ContactPublicKey) (r : ContactPublicKey)
    → IsKeyed l
    → find_row q l ≡ some r
    → valid_contact_key_state r.key_state ≡ true
found_known q l r v f = elim (Bool-cases (valid_contact_key_state r.key_state)) [
  | inl h ↦ h
  | inr n ↦ ground (arith, v.known, any_row_of_find is_unknown q l r f)
]

pub computed_open :
    (s : Option KeyState) (label : Option String) (r : ContactPublicKey)
    → valid_contact_key_state r.key_state ≡ true
    → update_allowed s r.key_state ≡ true
    → (is_open_key (with_state s (with_label label r)).key_state ≡ is_open_key r.key_state)
      × (valid_contact_key_state (with_state s (with_label label r)).key_state ≡ true)
computed_open none none r k h = ground arith
computed_open none (some label) r k h = ground arith
computed_open (some s) none r k h = allowed_update_open r.key_state s k h
computed_open (some s) (some label) r k h = allowed_update_open r.key_state s k h

pub end_row-closes :
    (now : ℕ) (e : KeyEnd) (x : ContactPublicKey)
    → (is_open_key (end_row now e x).key_state ≡ false) × (is_unknown (end_row now e x) ≡ false)
end_row-closes now KeyEnd.revoked x = (refl, refl)
end_row-closes now KeyEnd.lost x = (refl, refl)

pub end_row-same :
    (now : ℕ) (e : KeyEnd) (x : ContactPublicKey)
    → ((end_row now e x).id ≡ x.id)
      × ((o c : String) → of_contact o c (end_row now e x) ≡ of_contact o c x)
      × ((o c : String) → initial_of o c (end_row now e x) ≡ initial_of o c x)
      × ((end_row now e x).version ≡ x.version)
end_row-same now KeyEnd.revoked x = (refl, λ o c. refl, λ o c. refl, refl)
end_row-same now KeyEnd.lost x = (refl, λ o c. refl, λ o c. refl, refl)

pub KeyStep-IsKeyed : {l m : List ContactPublicKey} → KeyStep l m → IsKeyed l → IsKeyed m
KeyStep-IsKeyed KeyStep.same v = v
KeyStep-IsKeyed {l} (KeyStep.insert r n k) v = append-IsKeyed l v r n.fresh n.valid k n.next
KeyStep-IsKeyed {l} (KeyStep.supersede now r n k c) v =
    superseding-IsKeyed now l v r n.fresh n.valid c
KeyStep-IsKeyed {l} (KeyStep.update now p r f a) v =
    let q = owned_key p.owner_account_id p.public_key_id in
    let c = computed_open p.key_state p.display_label r (found_known q l r v f) a in
    found-IsKeyed l v p.owner_account_id p.public_key_id (updated_row now (computed_key p r))
      (λ x. refl) (λ o t x. refl) (λ o t x. refl) r f c.0 (λ x. ground (arith, c.1))
KeyStep-IsKeyed {l} (KeyStep.end now e owner id) v =
    closed-IsKeyed l v owner id (end_row now e) (λ x. (end_row-same now e x).0)
      (λ o c x. (end_row-same now e x).1 o c) (λ o c x. (end_row-same now e x).2 o c)
      (λ x. (end_row-closes now e x).0) (λ x. (end_row-closes now e x).1)
