-- ===== src/System/Sharing/Keys/Supersede.antt =====
-- A key that is inserted for a known contact, with the open keys of the contact replaced.
use safety_recorder.System.Sharing.Keys.Steps.{superseding}
use safety_recorder.System.Sharing.Keys.Insert.{append-has_first, append_unique, append_known}
use safety_recorder.Model.{ContactPublicKey, valid_contact_key_state}
use safety_recorder.Repository.Sharing.ContactKeys.{of_contact, superseded, replaced_row}
use safety_recorder.System.Sharing.Keys.Defs.{IsKeyed, is_unknown, open_of, named_key, initial_of}
use safety_recorder.Base.{
  ℕ, String, List, [], ◌∷◌, ◌++◌, ◌≡◌, ◌≤◌, true, false, arith, any_row, count_where, update_where,
  refl, ==_refl, count_where-append, eq_of_==, Bool-cases, count_where-update_where_le,
  update_where-append, ap₂, inl, count_where-eq_zero_of, inr, any_row-update_where,
  count_where-update_where, any_row_of_count_where,
}

-- A replaced row is of one contact only.
pub superseded_of :
    (owner contact id o c : String) (x : ContactPublicKey)
    → superseded owner contact id x ≡ true
    → of_contact o c x ≡ true
    → (owner ≡ o) × (contact ≡ c)
superseded_of owner contact id o c x s e = ground (
  arith,
  eq_of_== x.owner_account_id owner,
  eq_of_== x.owner_account_id o,
  eq_of_== x.contact_id contact,
  eq_of_== x.contact_id c,
)

pub superseded_none_open :
    (now : ℕ) (owner contact id : String) (l : List ContactPublicKey)
    → any_row (named_key id) l ≡ false
    → any_row
        (open_of owner contact)
        (update_where (superseded owner contact id) (replaced_row now id) l)
      ≡ false
unfolding any_row update_where
superseded_none_open now owner contact id [] h = refl
superseded_none_open now owner contact id (x ∷ l) h =
    ground (arith, superseded_none_open now owner contact id l)

module _ (now : ℕ) (l : List ContactPublicKey) (v : IsKeyed l) (r : ContactPublicKey)
    (fresh : any_row (named_key r.id) l ≡ false) where
  superseding_same :
      (owner contact : String)
      → of_contact owner contact r ≡ true
      → count_where (open_of owner contact) (superseding now r l) ≤ 1
  superseding_same owner contact e =
      let q = superseded r.owner_account_id r.contact_id r.id in
      let kept = update_where q (replaced_row now r.id) l in
      ground (
        arith,
        ==_refl r.id,
        update_where-append q (replaced_row now r.id) l r,
        superseded_none_open now r.owner_account_id r.contact_id r.id l fresh,
        ap₂ (λ o c. any_row (open_of o c) kept) (eq_of_== r.owner_account_id owner (ground arith))
            (eq_of_== r.contact_id contact (ground arith)),
        count_where-eq_zero_of (open_of owner contact) kept,
        count_where-append (open_of owner contact) kept r,
      )

  superseding_other :
      (owner contact : String)
      → of_contact owner contact r ≡ false
      → count_where (open_of owner contact) (superseding now r l) ≤ 1
  superseding_other owner contact n = ground (
    arith,
    v.one_open owner contact,
    count_where-append (open_of owner contact) l r,
    count_where-update_where_le (open_of owner contact)
        (superseded r.owner_account_id r.contact_id r.id) (replaced_row now r.id)
        (λ x s o. absurd (ground arith)) (l ++ r ∷ []),
  )

  pub superseding-IsKeyed :
      valid_contact_key_state r.key_state ≡ true
      → any_row (of_contact r.owner_account_id r.contact_id) l ≡ true
      → IsKeyed (superseding now r l)
  superseding-IsKeyed valid k =
      let q = superseded r.owner_account_id r.contact_id r.id in
      let f = replaced_row now r.id in
      record {
        one_open = λ owner contact. elim (Bool-cases (of_contact owner contact r)) [
          | inl e ↦ superseding_same owner contact e
          | inr n ↦ superseding_other owner contact n
        ];
        has_first = λ owner contact h. ground (
          arith,
          any_row-update_where (of_contact owner contact) q f (λ x. refl) (l ++ r ∷ []),
          any_row-update_where (initial_of owner contact) q f (λ x. refl) (l ++ r ∷ []),
          append-has_first l v r fresh valid (inl k) owner contact,
        );
        unique = λ id. ground (
          arith,
          count_where-update_where (named_key id) q f (λ x e. refl) (l ++ r ∷ []),
          append_unique l v r fresh valid id,
        );
        known = ground (
          arith,
          append_known l v r fresh valid,
          count_where-eq_zero_of is_unknown (l ++ r ∷ []),
          count_where-update_where_le is_unknown q f (λ x e u. absurd (ground arith)) (l ++ r ∷ []),
          any_row_of_count_where is_unknown (superseding now r l),
        );
      }
