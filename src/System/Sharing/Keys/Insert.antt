-- ===== src/System/Sharing/Keys/Insert.antt =====
-- A key that is inserted: the first of its contact, or one that replaces the open ones.
use safety_recorder.Repository.Sharing.ContactKeys.{of_contact, same_version}
use safety_recorder.System.Sharing.Keys.Defs.{IsKeyed, is_unknown, open_of, named_key, initial_of}
use safety_recorder.Model.{ContactPublicKey, valid_contact_key_state}
use safety_recorder.Base.{
  String, List, [], ◌∷◌, ◌++◌, ◌≡◌, ◌≤◌, true, false, ◌&&◌, eqb, arith, any_row, ◌==◌, count_where,
  Bool-cases, any_row-append, ap₂, ◌⊎◌, count_where-eq_zero_of, inl, sym, ap, count_where-append,
  eq_of_==, inr, none_keyed,
}

module _ (l : List ContactPublicKey) (v : IsKeyed l) (r : ContactPublicKey)
    (fresh : any_row (named_key r.id) l ≡ false)
    (valid : valid_contact_key_state r.key_state ≡ true) where
  pub append_unique : (id : String) → count_where (named_key id) (l ++ r ∷ []) ≤ 1
  append_unique id = elim (Bool-cases (r.id == id)) [
    | inl e ↦ ground (
      arith,
      count_where-append (named_key id) l r,
      count_where-eq_zero_of (named_key id) l,
      ap (λ s. any_row (named_key s) l) (eq_of_== r.id id e),
    )
    | inr n ↦ ground (arith, count_where-append (named_key id) l r, v.unique id)
  ]

  pub append_known : any_row is_unknown (l ++ r ∷ []) ≡ false
  append_known = ground (arith, any_row-append is_unknown l r, v.known)

  -- The rows of the contact of `r`, by either name of it.
  pub of_contact_same :
      (owner contact : String)
      → of_contact owner contact r ≡ true
      → any_row (of_contact owner contact) l
        ≡ any_row (of_contact r.owner_account_id r.contact_id) l
  of_contact_same owner contact e =
      ap₂ (λ o c. any_row (of_contact o c) l)
        (sym (eq_of_== r.owner_account_id owner (ground arith)))
        (sym (eq_of_== r.contact_id contact (ground arith)))

  none_open :
      (owner contact : String)
      → any_row (of_contact owner contact) l ≡ false
      → count_where (open_of owner contact) l ≡ 0
  none_open owner contact h = count_where-eq_zero_of (open_of owner contact) l (
      none_keyed (open_of owner contact) (open_of owner contact) (of_contact owner contact) (λ x. x)
        (λ x e. ground arith) l h)

  pub append-has_first :
      (any_row (of_contact r.owner_account_id r.contact_id) l ≡ true) ⊎ (r.version ≡ 1)
      → (owner contact : String) → any_row (of_contact owner contact) (l ++ r ∷ []) ≡ true
      → any_row (initial_of owner contact) (l ++ r ∷ []) ≡ true
  append-has_first (inl k) owner contact h = elim (Bool-cases (of_contact owner contact r)) [
    | inl e ↦ ground (
      arith,
      of_contact_same owner contact e,
      v.has_first owner contact,
      any_row-append (initial_of owner contact) l r,
    )
    | inr n ↦ ground (
      arith,
      v.has_first owner contact,
      any_row-append (of_contact owner contact) l r,
      any_row-append (initial_of owner contact) l r,
    )
  ]
  append-has_first (inr k) owner contact h = ground (
    arith,
    v.has_first owner contact,
    any_row-append (of_contact owner contact) l r,
    any_row-append (initial_of owner contact) l r,
  )

  -- A key with the version 1 is the first of its contact.
  pub first-none :
      r.version ≡ 1
      → any_row (same_version r) l ≡ false
      → any_row (of_contact r.owner_account_id r.contact_id) l ≡ false
  first-none k n = ground (
    arith,
    v.has_first r.owner_account_id r.contact_id,
    ap (λ m. any_row (λ x. of_contact r.owner_account_id r.contact_id x && eqb x.version m) l) k,
  )

  -- The first key of a contact that has none.
  pub append-IsKeyed : r.version ≡ 1 → any_row (same_version r) l ≡ false → IsKeyed (l ++ r ∷ [])
  append-IsKeyed k n = record {
    one_open = λ owner contact. elim (Bool-cases (of_contact owner contact r)) [
      | inl e ↦ ground (
        arith,
        of_contact_same owner contact e,
        first-none k n,
        none_open owner contact,
        count_where-append (open_of owner contact) l r,
      )
      | inr m ↦
          ground (arith, v.one_open owner contact, count_where-append (open_of owner contact) l r)
    ];
    has_first = append-has_first (inr k);
    unique = append_unique;
    known = append_known;
  }
