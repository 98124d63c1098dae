-- ===== src/Network/Registry/Alike.antt =====
-- free_network and the registry's functions on states that differ in the order of the dictionary.
use vmnet_broker.Base.{
  Bool, true, false, ℕ, ◌≡◌, ap, Unique, refl, sym, ◌∙◌, inl, inr, Option, none, some, [], CString,
  lookup, insert, erase, lookup-insert, lookup-erase, insert-Unique, erase-Unique, arith,
}
use vmnet_broker.Machine.{
  Ptr, State, cf_string, released, ◌>>=◌, ◌>>◌, Cmd, ok, and_then, CoreFoundation,
}
use vmnet_broker.Machine.Alike.{
  Alike, RunAlike, ends, ends_equal, faults, bind, Entries, alike_rules, emit-Alike, non_null-Alike,
}
use vmnet_broker.Network.Registry.{
  release_ref, release_serialization, stop_timer, free_network, init_registry, registry_get,
  registry_set, registry_remove, dictionary, set_dictionary, create_key, release_key,
}

module _ {s s' : State} (a : Alike s s') where
  release_ref-Alike : (o : Option ℕ) → RunAlike (release_ref o s) (release_ref o s')
  release_ref-Alike none = ends a
  release_ref-Alike (some r) = search alike_rules

  release_serialization-Alike :
      (o : Option ℕ) → RunAlike (release_serialization o s) (release_serialization o s')
  release_serialization-Alike none = ends a
  release_serialization-Alike (some x) = search alike_rules

  stop_timer-Alike : (o : Option ℕ) → RunAlike (stop_timer o s) (stop_timer o s')
  stop_timer-Alike none = ends a
  stop_timer-Alike (some t) = search alike_rules

ruleset free_rules = (alike_rules, release_ref-Alike, release_serialization-Alike, stop_timer-Alike)

module _ {s s' : State} (a : Alike s s') where
  pub free_network-Alike : (o : Option Ptr) → RunAlike (free_network o s) (free_network o s')
  unfolding free_network
  free_network-Alike none = ends a
  free_network-Alike (some p) = search free_rules depth 12

-- Two lists of entries with the same values.
abbrev Same : Entries → Entries → Type 0
Same m m' = Unique m' × ((k : ℕ) → lookup k m' ≡ lookup k m)

insert-Same : (k : ℕ) (p : Ptr) (m m' : Entries) → Same m m' → Same (insert k p m) (insert k p m')
insert-Same k p m m' (unique, same) = (
  insert-Unique k p m' unique,
  λ j. ground (arith, lookup-insert k j p m, lookup-insert k j p m', same j),
)

erase-Same : (k : ℕ) (m m' : Entries) → Same m m' → Same (erase k m) (erase k m')
erase-Same k m m' (unique, same) =
    (erase-Unique k m' unique, λ j. ground (arith, lookup-erase k j m, lookup-erase k j m', same j))

module _ (s : State) where
  init_none : s.registry ≡ none → init_registry true s ≡ set_dictionary [] s
  unfolding init_registry
  init_none e = ground (arith, e)

  init_null : s.registry ≡ none → init_registry false s ≡ ok tt (record s { registry = none })
  unfolding init_registry
  init_null e = ground (arith, e)

  init_some : (made : Bool) (m : Entries) → s.registry ≡ some m → init_registry made s ≡ ok tt s
  unfolding init_registry
  init_some made m e = ground (arith, e)

module _ {s s' : State} (a : Alike s s') where
  registry-Alike : s'.registry ≡ a.registry
  registry-Alike = ap (λ t. t.registry) a.rest

  set_dictionary-Alike :
      (m m' : Entries) → Same m m' → RunAlike (set_dictionary m s) (set_dictionary m' s')
  set_dictionary-Alike m m' (unique, same) =
      let put : State → State = λ t. record t { registry = some m' } in
      ends (record {
        registry = some m';
        same = inr (m, m', refl, refl, unique, same);
        rest = ap put a.rest;
      })

  dictionary-Alike {κ} :
      {B : Type κ} (f : Entries → Cmd B)
      → ((m m' : Entries) → Same m m' → RunAlike (f m s) (f m' s'))
      → RunAlike (and_then (dictionary s) f) (and_then (dictionary s') f)
  dictionary-Alike f next = elim a.same [
    | inl (e, e') ↦ rw (dictionary, e, registry-Alike ∙ e') faults
    | inr (m, m', e, e', unique, same) ↦
        rw (dictionary, e, registry-Alike ∙ e') (next m m' (unique, same))
  ]

  no_dictionary-Alike :
      RunAlike {A = Unit {0}}
        (ok tt (record s { registry = none }))
        (ok tt (record s' { registry = none }))
  no_dictionary-Alike =
      let put : State → State = λ t. record t { registry = none } in
      ends (record { registry = none; same = inl (refl, refl); rest = ap put a.rest })

  new_dictionary-Alike :
      (made : Bool)
      → s.registry ≡ none
      → s'.registry ≡ none
      → RunAlike (init_registry made s) (init_registry made s')
  unfolding lookup
  new_dictionary-Alike true e e' =
      rw (init_none s e) (rw (init_none s' e') (set_dictionary-Alike [] [] (tt, λ k. refl)))
  new_dictionary-Alike false e e' = rw (init_null s e) (rw (init_null s' e') no_dictionary-Alike)

  pub init_registry-Alike : (made : Bool) → RunAlike (init_registry made s) (init_registry made s')
  unfolding lookup
  init_registry-Alike made = elim a.same [
    | inl (e, e') ↦ new_dictionary-Alike made e (registry-Alike ∙ e')
    | inr (m, m', e, e', unique, same) ↦
        rw (init_some s made m e) (rw (init_some s' made m' (registry-Alike ∙ e')) (ends a))
  ]

  free_network-equal :
      (o o' : Option Ptr) → o ≡ o' → RunAlike (free_network o s) (free_network o' s')
  free_network-equal o o' e = rw⁻¹ e (free_network-Alike a o)

module _ {s s' : State} (a : Alike s s') (cf : CoreFoundation) (name : CString) where
  pub registry_get-Alike : RunAlike (registry_get cf name s) (registry_get cf name s')
  unfolding registry_get
  registry_get-Alike =
      bind (bind (non_null-Alike a (cf.create_string name)) λ k t t' b. search alike_rules)
        λ k t t' b. dictionary-Alike b _ λ m m' (_, same).
          bind (emit-Alike b (released (cf_string k))) λ _ u u' c. ends_equal (sym (same k)) c

  -- What registry_set and registry_remove do with the key.
  change_entry :
      (change : ℕ → Entries → Entries)
      → ((k : ℕ) (m m' : Entries) → Same m m' → Same (change k m) (change k m'))
      → RunAlike
          ((do
            k ← create_key cf name
            m ← dictionary
            set_dictionary (change k m)
            free_network (lookup k m)
            release_key k)
            s)
          ((do
            k ← create_key cf name
            m ← dictionary
            set_dictionary (change k m)
            free_network (lookup k m)
            release_key k)
            s')
  change_entry change keeps =
      bind (bind (non_null-Alike a (cf.create_string name)) λ k t t' b. search alike_rules)
        λ k t t' b. dictionary-Alike b _ λ m m' h.
          bind
            (bind (set_dictionary-Alike b (change k m) (change k m') (keeps k m m' h))
              λ _ u u' c. free_network-equal c (lookup k m) (lookup k m') (sym (h.1 k)))
            λ _ u u' c. emit-Alike c (released (cf_string k))

  pub registry_set-Alike :
      (p : Ptr) → RunAlike (registry_set cf name p s) (registry_set cf name p s')
  unfolding registry_set
  registry_set-Alike p = change_entry (λ k. insert k p) (λ k. insert-Same k p)

  pub registry_remove-Alike : RunAlike (registry_remove cf name s) (registry_remove cf name s')
  unfolding registry_remove
  registry_remove-Alike = change_entry erase erase-Same
