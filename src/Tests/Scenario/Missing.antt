-- ===== src/Tests/Scenario/Missing.antt =====
-- A peer that asks for a network that the broker does not know.
use vmnet_broker.Base.{
  ℕ, ◌≡◌, refl, ap, inl, inr, [], Option, none, some, CString, bytes, bytes_eq, bytes_eq→eq, lookup,
  arith, if◌then◌else◌,
}
use vmnet_broker.Status.{code, not_found}
use vmnet_broker.Machine.{State, error, replies, ok, CoreFoundation}
use vmnet_broker.Config.Builtin.{IsBuiltin}
use vmnet_broker.Broker.Requests.{IsServable}
use vmnet_broker.Client.{message, deliver}
use vmnet_broker.Clients.{asks, call, new_reply}
use vmnet_broker.System.{Peers, step, initial}
use vmnet_broker.System.Invariant.{connects}
use vmnet_broker.System.Safety.{Reach, start, next}
use vmnet_broker.Tests.Scenario.{env, connect, run, result}
use vmnet_broker.Tests.Scenario.Pair.{context_of}

abbrev pub missing_name : CString
missing_name = bytes "no-such-network"

-- A CFString for this name alone.
abbrev create_strings : CString → Option ℕ
create_strings name = if bytes_eq missing_name name then some 2 else none

pub create_strings-one :
    (a b : CString) (k : ℕ) → create_strings a ≡ some k → create_strings b ≡ some k → a ≡ b
create_strings-one a b k e f =
    ground (arith, bytes_eq→eq missing_name a, bytes_eq→eq missing_name b)

abbrev pub cf : CoreFoundation
cf = record { create_string = create_strings; create_string_injective = create_strings-one }

abbrev pub joined : Peers × State
joined = result (step cf env connect [] initial)

joined_run : step cf env connect [] initial ≡ ok joined.0 joined.1
unfolding run
joined_run = refl

pub joined-Reach : Reach cf joined.0 joined.1
unfolding lookup
joined-Reach = next env connect start (connects refl) joined_run

pub joined-peer : lookup 5 joined.0 ≡ some (context_of 5 joined)
unfolding run call
joined-peer = refl

pub missing-IsServable : IsServable cf env.outcomes (deliver (message missing_name)) joined.1
unfolding run call
missing-IsServable = record {
  encodable = λ name asked.
      let same : name ≡ missing_name = ground (arith, asked.1) in (2, ap create_strings same);
  fresh = λ p e. refl;
  registered = λ e. refl;
}

abbrev pub refused : Peers × State
refused = result (step cf env (asks 5 missing_name) joined.0 joined.1)

pub refused_run : step cf env (asks 5 missing_name) joined.0 joined.1 ≡ ok refused.0 refused.1
unfolding run call
refused_run = refl

pub refused_reply :
    new_reply 5 (replies joined.1.effects) (replies refused.1.effects)
    ≡ some (error (code not_found))
unfolding run call
refused_reply = refl

pub missing_unknown : ¬ IsBuiltin missing_name
missing_unknown (inl e) = cc e
missing_unknown (inr e) = cc e
