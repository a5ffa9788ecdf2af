-- ===== src/System/Sharing/Keys/Refines.antt =====
-- The table of contact keys refines the register of each contact.
use safety_recorder.System.Sharing.Keys.Keyed.{
  KeyStep-IsKeyed, computed_open, end_row-closes, found_known, end_row-same,
}
use safety_recorder.System.Sharing.Keys.OneOpen.{empty-IsKeyed, run-IsKeyed}
use safety_recorder.System.Sharing.Keys.Rotates.{insert_refines, supersede_refines, step_to}
use safety_recorder.System.Sharing.Keys.Run.{exec-KeysStep}
use safety_recorder.Repository.Sharing.ContactKeys.{owned_key, of_contact}
use safety_recorder.System.Sharing.Keys.Register.{
  Reachable, RegisterStep, register, found_register, opened, open_key,
}
use safety_recorder.Repository.Sharing.KeyStates.{KeyEnd, update_allowed, end_row, updated_row}
use safety_recorder.System.Sharing.Keys.Steps.{KeyStep, computed_key}
use safety_recorder.System.Sharing.Keys.Defs.{IsKeyed, open_of, named_key, highest}
use safety_recorder.System.{run, Command, empty_db, exec}
use safety_recorder.Base.{
  ℕ, String, List, [], ◌∷◌, ◌≡◌, true, false, some, arith, find_row, sym, refl, inl, inr,
  Bool-cases, Option-cases, update_where, max_of, select, max_of-update_where, find_row-only, ap,
  find_row-none_of, ◌∙◌, any_row-update_hides, find_row-update_only, any_row-eq-is_some,
  any_row-update_hides_only, find_row-update_found, find_row-update_keeps, Bool, subst₂,
  count_where, ◌≤◌, map, any_row_of_count_where,
}
use safety_recorder.Model.{ContactPublicKey, AccountRow, Db, UpdateContactPublicKeyParams}

opened-select :
    (p : ContactPublicKey → Bool) (l : List ContactPublicKey)
    → count_where p l ≤ 1
    → opened (find_row p l) ≡ map open_key (select p l)
unfolding find_row select
opened-select p [] h = refl
opened-select p (x ∷ l) h =
    ground (arith, opened-select p l, any_row_of_count_where p l, find_row-none_of p l)

module _ (o c : String) (l : List ContactPublicKey) (v : IsKeyed l) where
  -- A key whose state changes, and that stays open if it was.
  update_refines :
      (now : ℕ) (p : UpdateContactPublicKeyParams) (r : ContactPublicKey)
      → find_row (owned_key p.owner_account_id p.public_key_id) l ≡ some r
      → update_allowed p.key_state r.key_state ≡ true
      → RegisterStep (found_register o c l) (
          found_register o c (
            update_where
              (owned_key p.owner_account_id p.public_key_id)
              (updated_row now (computed_key p r))
              l))
  update_refines now p r f a =
      let q = owned_key p.owner_account_id p.public_key_id in
      let g = updated_row now (computed_key p r) in
      let k = computed_open p.key_state p.display_label r (found_known q l r v f) a in
      let same =
        max_of-update_where (of_contact o c) q g (λ (x : ContactPublicKey). x.version) (λ x. refl)
          (λ x. refl) l in
      elim (Bool-cases (open_of o c r)) [
        | inl e ↦
            let seen = find_row-only (open_of o c) q l r f e (v.one_open o c) in
            step_to
              (RegisterStep.update (open_key r) (computed_key p r).key_state (ap opened seen)
                (k.0 ∙ ground arith))
              same
              (ap opened (
                find_row-update_only (open_of o c) q (named_key p.public_key_id) g
                  (λ x s. ground arith) l r f seen (v.unique p.public_key_id)
                  (ground (arith, k.0))))
        | inr e ↦ step_to RegisterStep.stay same (
            ap opened (
              find_row-update_found (open_of o c) q (named_key p.public_key_id) g
                (λ x s. ground arith) l r f (v.unique p.public_key_id) (ground (arith, k.0)) e))
      ]

  -- A key that is ended.
  end_refines :
      (now : ℕ) (e : KeyEnd) (owner id : String)
      → RegisterStep
          (found_register o c l)
          (found_register o c (update_where (owned_key owner id) (end_row now e) l))
  end_refines now e owner id =
      let p = open_of o c in
      let q = owned_key owner id in
      let f = end_row now e in
      let closes = λ (x : ContactPublicKey) (s : q x ≡ true). shut x in
      let same =
        max_of-update_where (of_contact o c) q f (λ (x : ContactPublicKey). x.version)
          (λ x. (end_row-same now e x).1 o c) (λ x. (end_row-same now e x).3) l in
      elim (Option-cases (find_row p l)) [
        | inl n ↦ step_to RegisterStep.stay same (
            ap opened (
              find_row-none_of p (update_where q f l)
                (any_row-update_hides p q f closes l (ground (arith, any_row-eq-is_some p l)))
              ∙ sym n))
        | inr (a, s) ↦ elim (Bool-cases (q a)) [
          | inl h ↦ step_to (RegisterStep.end (open_key a) (ap opened s)) same (
              ap opened (
                find_row-none_of p (update_where q f l)
                  (any_row-update_hides_only p q f closes l a s h (v.one_open o c))))
          | inr h ↦
              step_to RegisterStep.stay same
                (ap opened (find_row-update_keeps p q f closes l a s h ∙ sym s))
        ]
      ]
    where
      shut : (x : ContactPublicKey) → open_of o c (end_row now e x) ≡ false
      shut x = ground (arith, (end_row-closes now e x).0)

found_step :
    {l m : List ContactPublicKey} (o c : String)
    → IsKeyed l
    → KeyStep l m
    → RegisterStep (found_register o c l) (found_register o c m)
found_step o c v KeyStep.same = RegisterStep.stay
found_step {l} o c v (KeyStep.insert r n k) = insert_refines o c l r v n k
found_step {l} o c v (KeyStep.supersede now r n k h) = supersede_refines o c now l r n k
found_step {l} o c v (KeyStep.update now p r f a) = update_refines o c l v now p r f a
found_step {l} o c v (KeyStep.end now e owner id) = end_refines o c l v now e owner id

-- With one open key at most, the first one is all of them.
register-found :
    (o c : String) (l : List ContactPublicKey) → IsKeyed l → found_register o c l ≡ register o c l
register-found o c l v =
    ap (λ ks. record { version = highest o c l; open_keys = ks })
      (opened-select (open_of o c) l (v.one_open o c))

pub KeyStep-RegisterStep :
    {l m : List ContactPublicKey} (o c : String)
    → IsKeyed l
    → KeyStep l m
    → RegisterStep (register o c l) (register o c m)
KeyStep-RegisterStep {l} {m} o c v s =
    subst₂ RegisterStep (register-found o c l v) (register-found o c m (KeyStep-IsKeyed s v))
      (found_step o c v s)

run_refines :
    (hash : String → String) (o c : String) (cs : List Command) (d : Db)
    → IsKeyed d.contact_public_keys
    → Reachable (register o c d.contact_public_keys)
    → Reachable (register o c (run hash cs d).contact_public_keys)
unfolding run
run_refines hash o c [] d v h = h
run_refines hash o c (m ∷ cs) d v h =
    let s = exec-KeysStep hash m d in
    run_refines hash o c cs (exec hash m d) (KeyStep-IsKeyed s v)
      (Reachable.next h (KeyStep-RegisterStep o c v s))

-- From an empty database, after any of the modelled writing calls in any order, the keys of a contact
-- read as a register that its abstract steps reach, and each further call makes a step of the
-- register or leaves it as it is, where the register is the highest version and the list of all open
-- keys with their versions and states. In a step, a further version takes the next number and is the
-- only open key, pending or active; or the only open key, of the same version, goes to pending or
-- active; or the only open key is ended. So no version is skipped, and no ended key is opened again.
pub keys_refine_register :
    (hash : String → String) (accounts : List AccountRow) (cs : List Command) (m : Command)
    (owner contact : String)
    → Reachable (register owner contact (run hash cs (empty_db accounts)).contact_public_keys)
      × RegisterStep
          (register owner contact (run hash cs (empty_db accounts)).contact_public_keys)
          (register owner contact
            (exec hash m (run hash cs (empty_db accounts))).contact_public_keys)
unfolding max_of select
keys_refine_register hash accounts cs m owner contact = (
  run_refines hash owner contact cs (empty_db accounts) empty-IsKeyed Reachable.start,
  KeyStep-RegisterStep owner contact (run-IsKeyed hash cs (empty_db accounts) empty-IsKeyed)
      (exec-KeysStep hash m (run hash cs (empty_db accounts))),
)
