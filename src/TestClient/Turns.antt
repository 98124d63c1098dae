-- ===== src/TestClient/Turns.antt =====
-- The loop of test/test.c's main that acquires the networks and starts the interfaces.
use vmnet_broker.Base.{
  ℕ, ◌+◌, ◌≤◌, ◌<◌, ◌≡◌, refl, sym, ap, ◌∙◌, List, [], ◌∷◌, CString, length, set, get_elem?,
  length-set, arith,
}
use vmnet_broker.TestClient.{
  max_interfaces, lines, Session, created_network, released_network, released_serialization,
  started, Calls,
}
use vmnet_broker.TestClient.Options.{or_shared}
use vmnet_broker.TestClient.Main.{start_each}
use vmnet_broker.TestClient.Ending.{Ends, returns, bind}
use vmnet_broker.TestClient.Trace.{
  Started, get_elem?-names_onto, length-names_onto, lines-starts, names_onto, prepared,
}
use vmnet_broker.TestClient.Slots.{Slots-set, Standing, get_elem?-set, slot}
use vmnet_broker.TestClient.Acquire.{Acquired, acquire_network-Ends, start_interface-Ends}

module _ (calls : Calls) where
  -- A turn's network, once it is acquired.
  abbrev turn :
      {i : ℕ} {name : CString} {s s' : Session} {network : ℕ}
      → Acquired calls i name s network s'
      → Started
  turn {i} {name} {network} a = record {
    name = name;
    serialization = a.serialization;
    network = network;
    iface = (calls.start i).iface;
  }

  -- One turn of the loop, with the release of the network.
  turn-Standing :
      (vs : List Started) (name : CString) (s s₁ s₂ : Session) (network : ℕ)
      → Standing calls vs s
      → length vs < max_interfaces
      → (a : Acquired calls (length vs) name s network s₁)
      → s₂ ≡ record s₁ {
        interfaces = set s₁.interfaces s₁.interface_count (slot (turn a));
        interface_count = s₁.interface_count + 1;
        log = started (turn a).iface ∷ s₁.log;
      }
      → Standing calls (turn a ∷ vs) (record s₂ { log = released_network network ∷ s₂.log })
  turn-Standing vs name s s₁ s₂ network standing room a now =
      let iface = (turn a).iface in
      let count : s₁.interface_count ≡ length vs =
        ap (λ t. t.interface_count) a.same ∙ standing.count in
      let interfaces : s₁.interfaces ≡ s.interfaces = ap (λ t. t.interfaces) a.same in
      let slots : s₂.interfaces ≡ set s.interfaces (length vs) (slot (turn a)) =
        ap (λ t. t.interfaces) now ∙ rw (count, interfaces) refl in
      record {
        came = ((a.answered, a.create, refl), standing.came);
        count = ap (λ t. t.interface_count) now ∙ rw count (omega arith);
        size =
            ap length slots ∙ length-set s.interfaces (length vs) (slot (turn a)) ∙ standing.size;
        slots = rw slots (
          get_elem?-set s.interfaces (length vs) (slot (turn a)) (omega (arith, standing.size)),
          Slots-set vs s.interfaces (length vs) (slot (turn a)) (omega arith) standing.slots,
        );
        retained =
            ap (λ t. t.client.retained) now
            ∙ a.retained
            ∙ ap (λ l. a.serialization ∷ l) standing.retained;
        queue = ap (λ t. t.vmnet_queue) now ∙ ap (λ t. t.vmnet_queue) a.same ∙ standing.queue;
        log =
            ap (λ t. released_network network ∷ t.log) now
            ∙ ap (λ t. released_network network ∷ started iface ∷ t.log) a.same
            ∙ ap
                (λ l.
                  released_network network
                  ∷ started iface
                  ∷ released_serialization a.serialization
                  ∷ created_network network
                  ∷ l)
                standing.log;
      }

  pub quiet-Standing : {vs : List Started} {s : Session} → Standing calls vs s → lines s.log ≡ []
  quiet-Standing {vs} standing = ap lines standing.log ∙ lines-starts vs (prepared calls)

  pub start_each-Ends :
      (names : List CString) (vs : List Started) (s : Session)
      → Standing calls vs s
      → names_onto vs names ≡ or_shared calls.arguments
      → length vs + length names ≤ max_interfaces
      → Ends calls
          (λ _ s'.
            (ws : List Started) × Standing calls ws s'
            × (names_onto ws [] ≡ or_shared calls.arguments))
          (start_each calls.start (length vs) names s)
  unfolding start_each
  start_each-Ends [] vs s standing named room = returns (vs, standing, named)
  start_each-Ends (name ∷ names) vs s standing named room =
      bind
        (acquire_network-Ends calls (length vs) name s
          (ap (λ l. get_elem? l (length vs)) (sym named)
            ∙ ap (get_elem? (names_onto vs (name ∷ names))) (omega arith)
            ∙ get_elem?-names_onto vs (name ∷ names) 0)
          (quiet-Standing standing))
        λ network s₁ a.
          let count : s₁.interface_count ≡ length vs =
            ap (λ t. t.interface_count) a.same ∙ standing.count in
          let size : length s₁.interfaces ≡ max_interfaces =
            ap (λ t. length t.interfaces) a.same ∙ standing.size in
          let quiet : lines s₁.log ≡ [] = ap (λ t. lines t.log) a.same ∙ quiet-Standing standing in
          let below : length vs < length (or_shared calls.arguments) =
            omega (arith, ap length named, length-names_onto vs (name ∷ names)) in
          bind
            (start_interface-Ends calls (length vs) name s₁ (omega (arith, count, size))
              (omega (arith, count)) below quiet)
            λ _ s₂ now.
              start_each-Ends names (turn a ∷ vs)
                (record s₂ { log = released_network network ∷ s₂.log })
                (turn-Standing vs name s s₁ s₂ network standing (omega arith) a now) named
                (omega arith)
