-- ===== src/System/Sharing/Keys/Update.antt =====
-- A key whose label or state is changed.
use safety_recorder.Repository.Sharing.KeyStates.{allowed_contact_key_update}
use safety_recorder.Model.{ContactPublicKey, KeyState, valid_contact_key_state}
use safety_recorder.Repository.Sharing.ContactKeys.{of_contact, owned_key, is_open_key}
use safety_recorder.System.Sharing.Keys.Defs.{IsKeyed, is_unknown, open_of, named_key, initial_of}
use safety_recorder.Base.{
  String, List, ◌≡◌, ◌≤◌, true, false, arith, any_row, count_where, update_where,
  any_row-update_where, count_where-eq_zero_of, count_where-update_where,
  count_where-update_where_le, find_row, any_row_of_count_where, ap, some, count_where-update_found,
  ◌==◌,
}

-- The states that an update may write keep a key open or closed.
pub allowed_update_open :
    (a b : KeyState)
    → valid_contact_key_state a ≡ true
    → allowed_contact_key_update a b ≡ true
    → (is_open_key b ≡ is_open_key a) × (valid_contact_key_state b ≡ true)
allowed_update_open a b k h = ground arith

-- An update of one key that keeps whose it is.
module _ (l : List ContactPublicKey) (v : IsKeyed l) (owner id : String)
    (f : ContactPublicKey → ContactPublicKey) (same_id : (x : ContactPublicKey) → (f x).id ≡ x.id)
    (same_contact : (o c : String) (x : ContactPublicKey) → of_contact o c (f x) ≡ of_contact o c x)
    (same_first : (o c : String) (x : ContactPublicKey)
      → initial_of o c (f x) ≡ initial_of o c x) where
  updated_has_first :
      (o c : String)
      → any_row (of_contact o c) (update_where (owned_key owner id) f l) ≡ true
      → any_row (initial_of o c) (update_where (owned_key owner id) f l) ≡ true
  updated_has_first o c h = ground (
    arith,
    v.has_first o c,
    any_row-update_where (of_contact o c) (owned_key owner id) f (same_contact o c) l,
    any_row-update_where (initial_of o c) (owned_key owner id) f (same_first o c) l,
  )

  updated_unique :
      (k : String) → count_where (named_key k) (update_where (owned_key owner id) f l) ≤ 1
  updated_unique k = ground (
    arith,
    v.unique k,
    count_where-update_where (named_key k) (owned_key owner id) f
        (λ x e. ap (λ s. s == k) (same_id x)) l,
  )

  updated_known :
      ((x : ContactPublicKey) → is_unknown (f x) ≡ false)
      → any_row is_unknown (update_where (owned_key owner id) f l) ≡ false
  updated_known h = ground (
    arith,
    v.known,
    count_where-eq_zero_of is_unknown l,
    count_where-update_where_le is_unknown (owned_key owner id) f
        (λ x e u. absurd (ground (arith, h x))) l,
    any_row_of_count_where is_unknown (update_where (owned_key owner id) f l),
  )

  -- Where it closes the key.
  pub closed-IsKeyed :
      ((x : ContactPublicKey) → is_open_key (f x).key_state ≡ false)
      → ((x : ContactPublicKey) → is_unknown (f x) ≡ false)
      → IsKeyed (update_where (owned_key owner id) f l)
  closed-IsKeyed h k = record {
    one_open = λ o c. ground (
      arith,
      v.one_open o c,
      count_where-update_where_le (open_of o c) (owned_key owner id) f
          (λ x e u. absurd (ground (arith, h x))) l,
    );
    has_first = updated_has_first;
    unique = updated_unique;
    known = updated_known k;
  }

  -- Where the key is found, and stays open or closed.
  pub found-IsKeyed :
      (a : ContactPublicKey)
      → find_row (owned_key owner id) l ≡ some a
      → is_open_key (f a).key_state ≡ is_open_key a.key_state
      → ((x : ContactPublicKey) → is_unknown (f x) ≡ false)
      → IsKeyed (update_where (owned_key owner id) f l)
  found-IsKeyed a e h k = record {
    one_open = λ o c. ground (
      arith,
      v.one_open o c,
      v.unique id,
      same_contact o c a,
      count_where-update_found (open_of o c) (owned_key owner id) (named_key id) f
          (λ x q. ground arith) l a,
    );
    has_first = updated_has_first;
    unique = updated_unique;
    known = updated_known k;
  }
