-- ===== src/Network/Registry.antt =====
-- broker/network.c: free_network and the registry functions.
pub mod Alike
use vmnet_broker.Base.{
  Bool, if◌then◌else◌, ℕ, Option, none, some, List, [], ◌∷◌, CString, lookup, erase, insert,
}
use vmnet_broker.Machine.{
  Ptr, cf_string, network_ref, serialization, created, released, null_argument, ok, crashed, Cmd,
  pure, ◌>>=◌, ◌>>◌, emit, load, store, non_null, cancel_timer, CoreFoundation,
}

abbrev release_ref : Option ℕ → Cmd (Unit {0})
release_ref none = pure tt
release_ref (some r) = emit (released (network_ref r))

abbrev release_serialization : Option ℕ → Cmd (Unit {0})
release_serialization none = pure tt
release_serialization (some x) = emit (released (serialization x))

abbrev stop_timer : Option ℕ → Cmd (Unit {0})
stop_timer none = pure tt
stop_timer (some t) = cancel_timer t

unfoldable pub free_network : Option Ptr → Cmd (Unit {0})
free_network none = pure tt
free_network (some p) = do
  n ← load p
  release_ref n.ref
  release_serialization n.serialization
  stop_timer n.idle_timer
  store p none

-- `made` is whether CFDictionaryCreateMutable returns a dictionary, not NULL.
unfoldable pub init_registry : (made : Bool) → Cmd (Unit {0})
init_registry made s = elim s.registry [
  | none ↦ ok tt (record s { registry = if made then some [] else none })
  | some m ↦ ok tt s
]

-- CFRelease of the dictionary: registry_release on each value.
unfoldable pub release_values : List (ℕ × Ptr) → Cmd (Unit {0})
release_values [] = pure tt
release_values ((k, p) ∷ m) = do free_network (some p); release_values m

release_registry : Cmd (Unit {0})
unfolding release_values
release_registry s = elim s.registry [
  | none ↦ ok tt s
  | some m ↦ (do release_values m; λ s'. ok tt (record s' { registry = none })) s
]

-- The dictionary, which a call on it wants not to be NULL.
abbrev pub dictionary : Cmd (List (ℕ × Ptr))
dictionary s = elim s.registry [ none ↦ crashed null_argument | some m ↦ ok m s ]

abbrev set_dictionary : List (ℕ × Ptr) → Cmd (Unit {0})
set_dictionary m s = ok tt (record s { registry = some m })

-- The key of the functions below. A NULL key crashes the dictionary's call and CFRelease.
abbrev pub create_key : CoreFoundation → CString → Cmd ℕ
create_key cf name = do k ← non_null (cf.create_string name); emit (created (cf_string k)); pure k

abbrev release_key : ℕ → Cmd (Unit {0})
release_key k = emit (released (cf_string k))

unfoldable pub registry_get : CoreFoundation → CString → Cmd (Option Ptr)
registry_get cf name = do k ← create_key cf name; m ← dictionary; release_key k; pure (lookup k m)

-- The value that an entry's key had is released.
unfoldable pub registry_set : CoreFoundation → CString → Ptr → Cmd (Unit {0})
registry_set cf name p = do
  k ← create_key cf name
  m ← dictionary
  set_dictionary (insert k p m)
  free_network (lookup k m)
  release_key k

-- The dictionary releases the value: registry_release.
unfoldable pub registry_remove : CoreFoundation → CString → Cmd (Unit {0})
registry_remove cf name = do
  k ← create_key cf name
  m ← dictionary
  set_dictionary (erase k m)
  free_network (lookup k m)
  release_key k

unfoldable pub shutdown_networks : Cmd (Unit {0})
unfolding release_registry
shutdown_networks = release_registry
