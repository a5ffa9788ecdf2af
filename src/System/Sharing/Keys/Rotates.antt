-- ===== src/System/Sharing/Keys/Rotates.antt =====
-- An inserted contact key as a step of the register of each contact.
use safety_recorder.System.Sharing.Keys.Insert.{of_contact_same, first-none}
use safety_recorder.System.Sharing.Keys.Supersede.{superseded_of, superseded_none_open}
use safety_recorder.System.Sharing.Keys.Register.{
  Register, RegisterStep, OpenKey, found_register, opened,
}
use safety_recorder.Repository.Sharing.ContactKeys.{
  of_contact, superseded, is_open_key, replaced_row,
}
use safety_recorder.System.Sharing.Keys.Defs.{IsKeyed, highest, open_of, named_key}
use safety_recorder.System.Sharing.Keys.Steps.{IsNewKey, superseding}
use safety_recorder.Base.{
  ℕ, ◌+◌, String, List, [], ◌∷◌, ◌++◌, ◌≡◌, true, false, some, arith, any_row, find_row, sym, refl,
  inl, inr, Bool-cases, Option-cases, update_where, find_row-append, find_row-none_of,
  select-append, select-append_ne, max_of-append, max_of-update_where, subst₂, ==_refl, ap, select,
  ◌∙◌, update_where-append, find_row-update_unseen, ap₂, eq_of_==, none_keyed, select-eq-nil_of,
  max_of,
}
use safety_recorder.Model.{ContactPublicKey, KeyState}

abbrev pub RegisterStepTo : Register → ℕ → List OpenKey → Type 0
RegisterStepTo v n s = RegisterStep v (record { version = n; open_keys = s })

-- A step to a register with these fields.
pub step_to :
    {v : Register} {n m : ℕ} {s t : List OpenKey}
    → RegisterStepTo v n s
    → m ≡ n
    → t ≡ s
    → RegisterStepTo v m t
step_to {v} h e f = subst₂ (RegisterStepTo v) (sym e) (sym f) h

abbrev numbered : KeyState → ℕ → List OpenKey
numbered s n = record { version = n; key_state = s } ∷ []

module _ (o c : String) where
  highest-append :
      (l : List ContactPublicKey) (r : ContactPublicKey)
      → of_contact o c r ≡ true
      → r.version ≡ highest o c l + 1
      → highest o c (l ++ r ∷ []) ≡ highest o c l + 1
  highest-append l r e v = ground (
    arith,
    select-append (of_contact o c) l r,
    max_of-append (λ (x : ContactPublicKey). x.version) (select (of_contact o c) l) r,
  )

  highest-append_ne :
      (l : List ContactPublicKey) (r : ContactPublicKey)
      → of_contact o c r ≡ false
      → highest o c (l ++ r ∷ []) ≡ highest o c l
  highest-append_ne l r e = ground (arith, select-append_ne (of_contact o c) l r)

  -- A row of another contact that is inserted is not seen.
  append_unseen :
      (l : List ContactPublicKey) (r : ContactPublicKey)
      → of_contact o c r ≡ false
      → find_row (open_of o c) (l ++ r ∷ []) ≡ find_row (open_of o c) l
  append_unseen l r n = elim (Option-cases (find_row (open_of o c) l)) [
    | inl f ↦ ground (arith, find_row-append (open_of o c) l r)
    | inr (x, f) ↦ ground (arith, find_row-append (open_of o c) l r)
  ]

  -- An open row that is inserted is found, if no other is open.
  append_seen :
      (l : List ContactPublicKey) (r : ContactPublicKey)
      → any_row (open_of o c) l ≡ false
      → open_of o c r ≡ true
      → find_row (open_of o c) (l ++ r ∷ []) ≡ some r
  append_seen l r n h =
      ground (arith, find_row-none_of (open_of o c) l, find_row-append (open_of o c) l r)

  pub insert_refines :
      (l : List ContactPublicKey) (r : ContactPublicKey)
      → IsKeyed l
      → IsNewKey r l
      → r.version ≡ 1
      → RegisterStep (found_register o c l) (found_register o c (l ++ r ∷ []))
  unfolding max_of
  insert_refines l r v n k = elim (Bool-cases (of_contact o c r)) [
    | inr e ↦ step_to RegisterStep.stay (highest-append_ne l r e) (ap opened (append_unseen l r e))
    | inl e ↦
        let none_of =
          of_contact_same l v r n.fresh n.valid o c e ∙ first-none l v r n.fresh n.valid k n.next in
        let closed =
          none_keyed (open_of o c) (open_of o c) (of_contact o c) (λ x. x) (λ x q. ground arith) l
            none_of in
        let first : 1 ≡ highest o c l + 1 =
          ground (arith, select-eq-nil_of (of_contact o c) l none_of) in
        step_to (RegisterStep.rotate r.key_state n.opens) (highest-append l r e (k ∙ first)) (
          ap opened (append_seen l r closed (ground (arith, n.opens)))
          ∙ ap (numbered r.key_state) (k ∙ first))
  ]

  superseded_unseen :
      (r x : ContactPublicKey)
      → of_contact o c r ≡ false
      → superseded r.owner_account_id r.contact_id r.id x ≡ true
      → open_of o c x ≡ false
  superseded_unseen r x n s = elim (Bool-cases (open_of o c x)) [
    | inr e ↦ e
    | inl e ↦
        ground
          (arith, superseded_of r.owner_account_id r.contact_id r.id o c x s, ==_refl o, ==_refl c)
  ]

  highest-superseding :
      (now : ℕ) (l : List ContactPublicKey) (r : ContactPublicKey)
      → highest o c (superseding now r l) ≡ highest o c (l ++ r ∷ [])
  highest-superseding now l r =
      max_of-update_where (of_contact o c) (superseded r.owner_account_id r.contact_id r.id)
        (replaced_row now r.id) (λ (x : ContactPublicKey). x.version) (λ x. refl) (λ x. refl)
        (l ++ r ∷ [])

  superseding_seen :
      (now : ℕ) (l : List ContactPublicKey) (r : ContactPublicKey)
      → of_contact o c r ≡ true
      → any_row (named_key r.id) l ≡ false
      → is_open_key r.key_state ≡ true
      → find_row (open_of o c) (superseding now r l) ≡ some r
  superseding_seen now l r e fresh h =
      let q = superseded r.owner_account_id r.contact_id r.id in
      let kept = update_where q (replaced_row now r.id) l in
      ground (
        arith,
        ==_refl r.id,
        update_where-append q (replaced_row now r.id) l r,
        superseded_none_open now r.owner_account_id r.contact_id r.id l fresh,
        ap₂ (λ o' c'. any_row (open_of o' c') kept) (eq_of_== r.owner_account_id o (ground arith))
            (eq_of_== r.contact_id c (ground arith)),
        append_seen kept r,
      )

  pub supersede_refines :
      (now : ℕ) (l : List ContactPublicKey) (r : ContactPublicKey)
      → IsNewKey r l
      → r.version ≡ highest r.owner_account_id r.contact_id l + 1
      → RegisterStep (found_register o c l) (found_register o c (superseding now r l))
  supersede_refines now l r n k = elim (Bool-cases (of_contact o c r)) [
    | inr e ↦ step_to RegisterStep.stay (highest-superseding now l r ∙ highest-append_ne l r e) (
        ap opened (
          find_row-update_unseen (open_of o c) (superseded r.owner_account_id r.contact_id r.id)
            (replaced_row now r.id) (λ x s. superseded_unseen r x e s) (λ x s. ground arith)
            (l ++ r ∷ [])
          ∙ append_unseen l r e))
    | inl e ↦
        let same =
          ap₂ (λ o' c'. highest o' c' l + 1) (eq_of_== r.owner_account_id o (ground arith))
            (eq_of_== r.contact_id c (ground arith)) in
        step_to (RegisterStep.rotate r.key_state n.opens)
          (highest-superseding now l r ∙ highest-append l r e (k ∙ same))
          (ap opened (superseding_seen now l r e n.fresh n.opens)
            ∙ ap (numbered r.key_state) (k ∙ same))
  ]
