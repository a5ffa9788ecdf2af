-- ===== src/System/Sharing/Keys/Defs.antt =====
-- Of each contact, one key at most is open: pending verification, or active.
use safety_recorder.Repository.Sharing.ContactKeys.{of_contact, is_open_key}
use safety_recorder.Model.{ContactPublicKey, valid_contact_key_state}
use safety_recorder.Base.{
  String, Bool, List, ◌≡◌, ◌≤◌, true, false, not, ◌&&◌, eqb, any_row, count_where, ◌==◌, ℕ, max_of,
  select,
}

abbrev pub open_of : String → String → ContactPublicKey → Bool
open_of owner contact r = of_contact owner contact r && is_open_key r.key_state

abbrev pub initial_of : String → String → ContactPublicKey → Bool
initial_of owner contact r = of_contact owner contact r && eqb r.version 1

abbrev pub named_key : String → ContactPublicKey → Bool
named_key id r = r.id == id

abbrev pub is_unknown : ContactPublicKey → Bool
is_unknown r = not (valid_contact_key_state r.key_state)

pub record IsKeyed (l : List ContactPublicKey) : Type 0 where
  pub one_open : (owner contact : String) → count_where (open_of owner contact) l ≤ 1
  pub has_first :
      (owner contact : String)
      → any_row (of_contact owner contact) l ≡ true
      → any_row (initial_of owner contact) l ≡ true
  pub unique : (id : String) → count_where (named_key id) l ≤ 1
  pub known : any_row is_unknown l ≡ false

-- The highest version of the keys of a contact.
abbrev pub highest : String → String → List ContactPublicKey → ℕ
highest owner contact l =
    max_of (λ (r : ContactPublicKey). r.version) (select (of_contact owner contact) l)
