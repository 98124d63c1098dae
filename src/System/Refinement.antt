-- ===== src/System/Refinement.antt =====
-- The broker implements the specification of System/Spec.
use vmnet_broker.Base.{◌≡◌, List, ◌∷◌, none, [], lookup}
use vmnet_broker.Machine.{State, ok, CoreFoundation}
use vmnet_broker.Broker.{Env}
use vmnet_broker.System.{Event, Peers, initial, step}
use vmnet_broker.System.Spec.{Abstract, Rule}
use vmnet_broker.System.View.{view}
use vmnet_broker.System.Invariant.{Allowed}
use vmnet_broker.System.Safety.{Reach, start, next, Reach-SystemInv, step-Moved}

-- The runs of the specification, from a broker that nobody is connected to.
abbrev pub nobody_connected : Abstract
nobody_connected = record { holdings = λ c. none; outbox = [] }

pub data Specified : List Event → Abstract → Type 0 where
  begin : Specified [] nobody_connected
  rule :
      {es : List Event} {a b : Abstract} (e : Event)
      → Specified es a
      → Rule a e b
      → Specified (e ∷ es) b

-- The events of a run, the last one first.
unfoldable pub history :
    {cf : CoreFoundation} {peers : Peers} {s : State} → Reach cf peers s → List Event
history start = []
history (next env e before can run) = e ∷ history before

-- In every state that the broker comes to, an event that may come does to the view of the clients
-- what the specification says: a connection starts with no network; a request to acquire a
-- builtin network adds its name to what the connection holds and is answered with the network,
-- or nothing changes and it is answered with an error that has its reason; a disconnection gives
-- up what the connection held; and no other event changes what any connection holds, or sends a
-- reply.
pub step-Rule :
    {cf : CoreFoundation} {peers peers' : Peers} {s s' : State} (env : Env) (e : Event)
    → Reach cf peers s
    → Allowed cf env peers s e
    → step cf env e peers s ≡ ok peers' s'
    → Rule (view peers s) e (view peers' s')
step-Rule env e reach can run = (step-Moved env e (Reach-SystemInv reach) can run).1.rule

-- Every run of the broker from its start, as its clients see it, is a run of the specification
-- with the same events: a connection starts with no network; a request to acquire a builtin
-- network adds its name to what the connection holds and is answered with a network, or nothing
-- changes and it is answered with an error that has its reason; a disconnection gives up what
-- the connection held; and no other event changes what any connection holds, or sends a reply.
pub Reach-Specified :
    {cf : CoreFoundation} {peers : Peers} {s : State} (reach : Reach cf peers s)
    → Specified (history reach) (view peers s)
unfolding initial lookup history
Reach-Specified start = begin
Reach-Specified (next env e before can run) =
    rule e (Reach-Specified before) (step-Rule env e before can run)
