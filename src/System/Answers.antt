-- ===== src/System/Answers.antt =====
-- What the specification says of whole runs: each request is answered once.
use vmnet_broker.Base.{
  ℕ, ◌+◌, ◌≡◌, ◌&&◌, ◌==◌, Bool, refl, ap, ◌∙◌, List, [], ◌∷◌, arith, if◌then◌else◌, false,
}
use vmnet_broker.Machine.{Reply, State, CoreFoundation, replies}
use vmnet_broker.Xpc.{Request, dictionary}
use vmnet_broker.System.{Event, peer, Peers}
use vmnet_broker.System.Spec.{
  Abstract, Rule, IsInternal, connect, grant, refuse, leave, stay, post, other_message, noise,
  object, fired, ignored_signal, time,
}
use vmnet_broker.System.View.{view}
use vmnet_broker.System.Safety.{Reach}
use vmnet_broker.System.Refinement.{Specified, begin, rule, history, Reach-Specified}

-- How many replies were sent to a connection.
unfoldable pub answers_to : ℕ → List (ℕ × Reply) → ℕ
answers_to c [] = 0
answers_to c ((d, r) ∷ outbox) = let n = answers_to c outbox in if c == d then n + 1 else n

abbrev is_asked : ℕ → Event → Bool
is_asked c (peer d (dictionary event)) = (c == d) && event.has_return_address
is_asked c e = false

-- How many requests with a return address a connection sent.
unfoldable pub requests_of : ℕ → List Event → ℕ
requests_of c [] = 0
requests_of c (e ∷ es) = let n = requests_of c es in if is_asked c e then n + 1 else n

module _ (c : ℕ) where
  answers_to-post :
      (d : ℕ) (event : Request) (r : Reply) (outbox : List (ℕ × Reply))
      → answers_to c (post event d r outbox) ≡ (
          if is_asked c (peer d (dictionary event))
          then answers_to c outbox + 1
          else answers_to c outbox)
  unfolding answers_to
  answers_to-post d event r outbox = ground arith

  is_asked-internal : (e : Event) → IsInternal e → is_asked c e ≡ false
  is_asked-internal e other_message = refl
  is_asked-internal e noise = refl
  is_asked-internal e object = refl
  is_asked-internal e fired = refl
  is_asked-internal e ignored_signal = refl
  is_asked-internal e time = refl

  answers_to-Rule :
      {a b : Abstract} (e : Event)
      → Rule a e b
      → answers_to c b.outbox
        ≡ (if is_asked c e then answers_to c a.outbox + 1 else answers_to c a.outbox)
  answers_to-Rule e (connect _ _ same) = ap (answers_to c) same
  answers_to-Rule {a = a} e (grant {c = d} {event} held name x _ _ _ _ sent) =
      ap (answers_to c) sent ∙ answers_to-post d event _ a.outbox
  answers_to-Rule {a = a} e (refuse {c = d} {event} x _ _ sent) =
      ap (answers_to c) sent ∙ answers_to-post d event _ a.outbox
  answers_to-Rule e (leave _ same) = ap (answers_to c) same
  answers_to-Rule e (stay internal _ same) =
      ground (arith, is_asked-internal e internal, ap (answers_to c) same)

  answers_to-Specified :
      (es : List Event) (a : Abstract) → Specified es a → answers_to c a.outbox ≡ requests_of c es
  unfolding answers_to requests_of
  answers_to-Specified _ _ begin = refl
  answers_to-Specified _ _ (rule {es} {a} e before r) =
      ground (arith, answers_to-Specified es a before, answers_to-Rule e r)

-- In every run of the broker, each connection was sent exactly as many replies as it sent
-- requests with a return address, whatever the other connections, the timers and the signals
-- did.
pub answers_to-requests_of :
    {cf : CoreFoundation} {peers : Peers} {s : State} (c : ℕ) (reach : Reach cf peers s)
    → answers_to c (replies s.effects) ≡ requests_of c (history reach)
answers_to-requests_of {peers = peers} {s = s} c reach =
    answers_to-Specified c (history reach) (view peers s) (Reach-Specified reach)
