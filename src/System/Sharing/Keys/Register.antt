-- ===== src/System/Sharing/Keys/Register.antt =====
-- What a contact is to its owner: the highest version of its keys, and its open keys with their
-- versions and states. The abstract steps of this register.
use safety_recorder.System.Sharing.Keys.Defs.{highest, open_of}
use safety_recorder.Repository.Sharing.ContactKeys.{is_open_key}
use safety_recorder.Base.{
  ℕ, ◌+◌, String, Option, none, some, List, [], ◌∷◌, ◌≡◌, true, map, select, find_row,
}
use safety_recorder.Model.{ContactPublicKey, KeyState}

pub record OpenKey : Type 0 where
  pub version : ℕ
  pub key_state : KeyState

pub record Register : Type 0 where
  pub version : ℕ
  pub open_keys : List OpenKey

abbrev pub open_key : ContactPublicKey → OpenKey
open_key r = record { version = r.version; key_state = r.key_state }

abbrev pub opened : Option ContactPublicKey → List OpenKey
opened none = []
opened (some r) = open_key r ∷ []

abbrev pub register : String → String → List ContactPublicKey → Register
register owner contact l = record {
  version = highest owner contact l;
  open_keys = map open_key (select (open_of owner contact) l);
}

-- The register as the first open key shows it.
abbrev pub found_register : String → String → List ContactPublicKey → Register
found_register owner contact l = record {
  version = highest owner contact l;
  open_keys = opened (find_row (open_of owner contact) l);
}

-- A further version takes the next number and is the only open key, in any open state; the open key
-- goes to an open state, or it is ended.
pub data RegisterStep (v : Register) : Register → Type 0 where
  stay : RegisterStep v v
  rotate :
      (s : KeyState)
      → is_open_key s ≡ true
      → RegisterStep v (record {
        version = v.version + 1;
        open_keys = record { version = v.version + 1; key_state = s } ∷ [];
      })
  update :
      (k : OpenKey) (t : KeyState)
      → v.open_keys ≡ k ∷ []
      → is_open_key t ≡ true
      → RegisterStep v (record v { open_keys = record k { key_state = t } ∷ [] })
  end : (k : OpenKey) → v.open_keys ≡ k ∷ [] → RegisterStep v (record v { open_keys = [] })

pub data Reachable : Register → Type 0 where
  start : Reachable (record { version = 0; open_keys = [] })
  next : {v w : Register} → Reachable v → RegisterStep v w → Reachable w
