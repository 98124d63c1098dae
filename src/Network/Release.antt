-- ===== src/Network/Release.antt =====
-- release_peer_networks: the peer gives up its networks, and those without peers wait for their
-- removal.
pub mod Runs
pub mod Round
use vmnet_broker.Base.{
  ℕ, zero, suc, ◌≡◌, refl, subst, fun_ext, Option, none, arith, get_elem?_of_lt,
}
use vmnet_broker.Machine.{Ptr, Context, State, source, CoreFoundation}
use vmnet_broker.Machine.Returns
use vmnet_broker.Machine.Returns.{Returns, returns}
use vmnet_broker.Network.{release_loop, release_peer_networks}
use vmnet_broker.Network.Ownership.{IsValid}
use vmnet_broker.Network.Steady.{Steady-same, Steady-trans}
use vmnet_broker.Network.Contract.{owners, Consistent, Settled, Kept-frame, Kept-trans}
pub use vmnet_broker.Network.Release.Round.{HasSources, Released, with_count}
use vmnet_broker.Network.Release.Round.{with_count-IsValid, release_network-Round}

module _ (cf : CoreFoundation) (others : Ptr → ℕ) (sources : Ptr → Option ℕ) (ctx : Context) where
  Released-trans :
      {own own' : Ptr → ℕ} {s t u : State}
      → Released cf own sources s t
      → Released cf own' sources t u
      → Released cf own' sources s u
  Released-trans a b = record {
    consistent = b.consistent;
    settled = b.settled;
    kept = Kept-trans a.kept b.kept;
    steady = Steady-trans a.kept.now a.steady b.steady;
    timers = λ t absent other. b.timers t (a.timers t absent other) other;
  }

  -- What the loop returns: the context without networks.
  abbrev Done : State → Context → State → Type 0
  Done s ctx' s' =
      Released cf (owners others (with_count ctx 0)) sources s s' × (ctx' ≡ with_count ctx 0)

  release_loop-Done :
      (k : ℕ) (s : State)
      → IsValid (with_count ctx k)
      → Consistent cf (owners others (with_count ctx k)) s
      → Settled s.heap (owners others (with_count ctx k))
      → HasSources sources s.timers (with_count ctx k)
      → Returns (Done s) (release_loop sources ctx k s)
  unfolding release_loop
  release_loop-Done zero s v consistent settled given = returns (
    record {
      consistent = consistent;
      settled = settled;
      kept = Kept-frame s s.heap s.registry s.timers s.effects refl;
      steady = Steady-same s s refl refl refl (λ o. refl);
      timers = λ t absent other. absent;
    },
    refl,
  )
  release_loop-Done (suc k) s v consistent settled given =
      let (p, slot) = get_elem?_of_lt ctx.networks k (omega (arith, v.slots, v.within)) in
      Returns.bind
        (release_network-Round others ctx k p slot sources s v consistent settled given
          (consistent.site p))
        λ _ s' (round, left).
          Returns.weaken
            (release_loop-Done k s' (with_count-IsValid others ctx k p slot v) round.consistent
              round.settled left)
            λ ctx' u (rest, same). (Released-trans round rest, same)

  -- When a peer disconnects, its networks are released: its context is empty, the others'
  -- networks stay counted as they are, and each network that nobody owns any more has its
  -- removal timer set. The context and the state are in order, and dispatch gives each network
  -- a new source of its own.
  pub release_peer_networks-Released :
      (s : State)
      → IsValid ctx
      → Consistent cf (owners others ctx) s
      → Settled s.heap (owners others ctx)
      → HasSources sources s.timers ctx
      → Returns
          (λ ctx' s'. Released cf others sources s s' × (ctx' ≡ with_count ctx 0))
          (release_peer_networks sources ctx s)
  unfolding release_peer_networks
  release_peer_networks-Released s v consistent settled given =
      Returns.weaken (release_loop-Done ctx.network_count s v consistent settled given)
        λ ctx' s' (released, same).
          let none_left : owners others (with_count ctx 0) ≡ others = fun_ext λ q. omega arith in
          (subst (λ own. Released cf own sources s s') none_left released, same)
