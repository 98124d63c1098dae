-- ===== src/Network/Alike.antt =====
-- broker/network.c's requests and releases on states that differ in the order of the dictionary.
use vmnet_broker.Base.{◌+◌, ◌==◌, ℕ, zero, suc, Option, none, some, CString, get_elem?}
use vmnet_broker.Machine.{Ptr, Context, Result, value, err, CoreFoundation, Outcomes}
use vmnet_broker.Machine.Alike.{
  Respects, ends, faults, if-Alike, option-Alike, result-Alike, bind, alike_rules, load-Alike,
}
use vmnet_broker.Config.Alike.{create_configuration-Alike}
use vmnet_broker.Network.{
  create_network_failure, copy_serialization, create_ref, copy_name, create_network, remove_later,
  cancel_remove_later, add_network_to_peer, owns_from, peer_owns_network, update_peer_ownership,
  register_created, create_configured, create_and_register, share_network, share_created,
  acquire_found, acquire_network, release_network, release_loop, release_peer_networks,
}
use vmnet_broker.Network.Registry.Alike.{
  free_network-Alike, init_registry-Alike, registry_get-Alike, registry_set-Alike,
}

ruleset network_rules = (alike_rules, free_network-Alike, registry_set-Alike)

module _ (out : Outcomes) where
  copy_serialization-Alike : (p : Ptr) → Respects (copy_serialization out p)
  unfolding copy_serialization create_network_failure
  copy_serialization-Alike p s s' a =
      option-Alike out.copy_serialization _ _ _ _ (search network_rules depth 9)
        λ x. search network_rules depth 12

  create_ref-Alike : (p : Ptr) → Respects (create_ref out p)
  unfolding create_ref create_network_failure
  create_ref-Alike p s s' a =
      option-Alike out.network_create _ _ _ _ (search network_rules depth 9)
        λ x. search (network_rules, copy_serialization-Alike) depth 12

  copy_name-Alike : (name : CString) (p : Ptr) → Respects (copy_name out name p)
  unfolding copy_name create_network_failure
  copy_name-Alike name p s s' a = search (network_rules, create_ref-Alike) depth 12

  pub create_network-Alike : (name : CString) → Respects (create_network out name)
  unfolding create_network
  create_network-Alike name s s' a =
      option-Alike out.calloc _ _ _ _ (search network_rules depth 9)
        λ p. search (network_rules, copy_name-Alike) depth 12

remove_later-Alike : (source : Option ℕ) (p : Ptr) → Respects (remove_later source p)
unfolding remove_later
remove_later-Alike source p s s' a = bind (load-Alike a p) λ n t t' b.
    option-Alike n.idle_timer _ _ _ _
      (option-Alike source _ _ _ _ faults λ u. search network_rules depth 9) λ u. faults

cancel_remove_later-Alike : (p : Ptr) → Respects (cancel_remove_later p)
unfolding cancel_remove_later
cancel_remove_later-Alike p s s' a =
    bind (load-Alike a p)
      λ n t t' b. option-Alike n.idle_timer _ _ _ _ (ends b) λ u. search network_rules depth 9

add_network_to_peer-Alike : (ctx : Context) (p : Ptr) → Respects (add_network_to_peer ctx p)
unfolding add_network_to_peer
add_network_to_peer-Alike ctx p s s' a = search network_rules depth 12

owns_from-Alike : (rounds i : ℕ) (ctx : Context) (p : Ptr) → Respects (owns_from rounds i ctx p)
unfolding owns_from
owns_from-Alike zero i ctx p s s' a = ends a
owns_from-Alike (suc rounds) i ctx p s s' a =
    option-Alike (get_elem? ctx.networks i) _ _ _ _ faults
      λ q. if-Alike (q == p) _ _ (ends a) (owns_from-Alike rounds (i + 1) ctx p s s' a)

peer_owns_network-Alike : (ctx : Context) (p : Ptr) → Respects (peer_owns_network ctx p)
unfolding peer_owns_network
peer_owns_network-Alike ctx p s s' a = owns_from-Alike ctx.network_count 0 ctx p s s' a

update_peer_ownership-Alike : (ctx : Context) (p : Ptr) → Respects (update_peer_ownership ctx p)
unfolding update_peer_ownership
update_peer_ownership-Alike ctx p s s' a =
    search (network_rules, peer_owns_network-Alike, add_network_to_peer-Alike) depth 12

share_network-Alike : (ctx : Context) (p : Ptr) → Respects (share_network ctx p)
unfolding share_network
share_network-Alike ctx p s s' a = bind (update_peer_ownership-Alike ctx p s s' a) λ x t t' b.
    result-Alike x.1 _ _ _ _ (λ e. ends b)
      λ _. search (network_rules, cancel_remove_later-Alike) depth 12

register_created-Alike :
    (cf : CoreFoundation) (name : CString) (r : Result Ptr) → Respects (register_created cf name r)
unfolding register_created
register_created-Alike cf name (err e) s s' a = ends a
register_created-Alike cf name (value p) s s' a = search network_rules depth 9

create_configured-Alike :
    (cf : CoreFoundation) (out : Outcomes) (name : CString) (r : Result ℕ)
    → Respects (create_configured cf out name r)
unfolding create_configured
create_configured-Alike cf out name (err e) s s' a = ends a
create_configured-Alike cf out name (value c) s s' a =
    search (network_rules, create_network-Alike, register_created-Alike) depth 12

create_and_register-Alike :
    (cf : CoreFoundation) (out : Outcomes) (ctx : Context) (name : CString)
    → Respects (create_and_register cf out ctx name)
unfolding create_and_register
create_and_register-Alike cf out ctx name s s' a =
    search (network_rules, create_configured-Alike, create_configuration-Alike) depth 12

share_created-Alike : (ctx : Context) (r : Result Ptr) → Respects (share_created ctx r)
unfolding share_created
share_created-Alike ctx (err e) s s' a = ends a
share_created-Alike ctx (value p) s s' a = share_network-Alike ctx p s s' a

acquire_found-Alike :
    (cf : CoreFoundation) (out : Outcomes) (ctx : Context) (name : CString) (o : Option Ptr)
    → Respects (acquire_found cf out ctx name o)
unfolding acquire_found
acquire_found-Alike cf out ctx name (some p) s s' a = share_network-Alike ctx p s s' a
acquire_found-Alike cf out ctx name none s s' a =
    search (network_rules, create_and_register-Alike, share_created-Alike) depth 12

pub acquire_network-Alike :
    (cf : CoreFoundation) (out : Outcomes) (ctx : Context) (name : CString)
    → Respects (acquire_network cf out ctx name)
unfolding acquire_network
acquire_network-Alike cf out ctx name s s' a =
    search (network_rules, init_registry-Alike, registry_get-Alike, acquire_found-Alike) depth 12

release_network-Alike :
    (sources : Ptr → Option ℕ) (ctx : Context) (i : ℕ) → Respects (release_network sources ctx i)
unfolding release_network
release_network-Alike sources ctx i s s' a =
    option-Alike (get_elem? ctx.networks i) _ _ _ _ faults
      λ p. search (network_rules, remove_later-Alike) depth 12

release_loop-Alike :
    (sources : Ptr → Option ℕ) (ctx : Context) (k : ℕ) → Respects (release_loop sources ctx k)
unfolding release_loop
release_loop-Alike sources ctx zero s s' a = ends a
release_loop-Alike sources ctx (suc k) s s' a =
    bind (release_network-Alike sources ctx k s s' a)
      λ _ t t' b. release_loop-Alike sources ctx k t t' b

pub release_peer_networks-Alike :
    (sources : Ptr → Option ℕ) (ctx : Context) → Respects (release_peer_networks sources ctx)
unfolding release_peer_networks
release_peer_networks-Alike sources ctx = release_loop-Alike sources ctx ctx.network_count
