-- ===== src/Tests/Scenario/Again.antt =====
-- A peer that asks for the shared network, and again after some time.
use vmnet_broker.Base.{◌≡◌, refl, ap, sym, inl, List, [], ◌∷◌, some, CString, arith}
use vmnet_broker.Machine.{State, Reply, network, replies, ok}
use vmnet_broker.Config.{shared_name}
use vmnet_broker.Network.Grant.{IsAvailable}
use vmnet_broker.Broker.{Env}
use vmnet_broker.Broker.Requests.{IsServable}
use vmnet_broker.Client.{message, deliver}
use vmnet_broker.Clients.{asks, call, new_reply}
use vmnet_broker.Clients.Asked.{Asked, asked_nothing, asked_next}
use vmnet_broker.System.{Peers, step}
use vmnet_broker.System.Later.{now}
use vmnet_broker.Tests.Scenario.{cf, env, out, available, encodable, run, result}
use vmnet_broker.Tests.Scenario.Pair.{
  context_of, pair, pair-Reach, pair-peer, pair-IsServable, served, served_step, served-Later,
  served-KeepsOpen, waited, waited-peer,
}

abbrev env_again : Env
env_again = record env { outcomes = record out { calloc = some 200 } }

available_again : IsAvailable env_again.outcomes shared_name
available_again = record {
  configured = available.configured;
  allocated = (200, refl);
  copied = refl;
  made = available.made;
  serialized = available.serialized;
}

waited-IsServable : IsServable cf env_again.outcomes (deliver (message shared_name)) waited.1
unfolding run call
waited-IsServable = record {
  encodable = λ name asked. encodable name asked.1;
  fresh = λ p e. let here : 200 ≡ p = ground (arith, e) in ap waited.1.heap (sym here);
  registered = λ e. refl;
}

abbrev pub again : Peers × State
again = result (step cf env_again (asks 5 shared_name) waited.0 waited.1)

again_run : step cf env_again (asks 5 shared_name) waited.0 waited.1 ≡ ok again.0 again.1
unfolding run call
again_run = refl

served_reply : new_reply 5 (replies pair.1.effects) (replies served.1.effects) ≡ some (network 70)
unfolding run call
served_reply = refl

again_reply : new_reply 5 (replies waited.1.effects) (replies again.1.effects) ≡ some (network 70)
unfolding run call
again_reply = refl

abbrev pub answers : List (CString × Reply)
answers = (shared_name, network 70) ∷ (shared_name, network 70) ∷ []

pub again-Asked : Asked cf 5 answers again.0 again.1
again-Asked =
    asked_next
      (asked_next (asked_nothing pair-Reach) now tt env shared_name (context_of 5 pair) (network 70)
        pair-peer (inl refl) pair-IsServable available served_step served_reply)
      served-Later served-KeepsOpen env_again shared_name (context_of 5 waited) (network 70)
      waited-peer (inl refl) waited-IsServable available_again again_run again_reply
