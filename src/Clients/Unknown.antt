-- ===== src/Clients/Unknown.antt =====
-- The test client of test/test.c with a name that the broker does not know.
use vmnet_broker.Base.{
  ℕ, suc, ◌≤◌, ◌≡◌, refl, sym, ap, subst, ◌∙◌, inl, inr, Option, some, none, ℤ, List, [], ◌∷◌, ◌-◌,
  ◌==◌, Bool-cases, pos, CString, All, length, get_elem?, lookup, arith,
}
use vmnet_broker.Status.{code, not_found}
use vmnet_broker.Machine.{Reply, replies, value, Context, State, ok, CoreFoundation}
use vmnet_broker.Config.Builtin.{IsBuiltin}
use vmnet_broker.Network.Contract.{Outcome, IsFailure}
use vmnet_broker.Network.Invariant.{Healthy-of_Inv}
use vmnet_broker.Broker.{Env}
use vmnet_broker.Broker.Requests.{IsServable}
use vmnet_broker.Client.{message, deliver, read_reply, reply_object}
use vmnet_broker.System.{Peers, step}
use vmnet_broker.System.Safety.{Reach, Reach-SystemInv, network_count-bound}
use vmnet_broker.System.Later.{Later, Reach-Later}
use vmnet_broker.TestClient.{Session, exited, initial_session, lines, failed, broker_status, Calls}
use vmnet_broker.TestClient.Options.{or_shared}
use vmnet_broker.TestClient.Main.{main}
use vmnet_broker.TestClient.Trace.{Started, names_onto, AllCame}
use vmnet_broker.TestClient.Success.{Ready, only_refused, main-Ended}
use vmnet_broker.Clients.{new_reply, asks}
use vmnet_broker.Clients.Served.{
  AnsweredBy, names_of, turn_names, answer_names, names-same, answer_at,
}
use vmnet_broker.Clients.Calls.{call_done, Done-same, Done-Reach}
use vmnet_broker.Clients.Asked.{Asked, IsHeld, asked-IsHeld, no_client}

module _ {cf : CoreFoundation} {peers : Peers} {s : State} (reach : Reach cf peers s) where
  -- Networks that are alive have builtin names.
  live-IsBuiltin :
      (name : CString) (ctx ctx' : Context) (x : ℕ)
      → Outcome name ctx ctx' s.heap (value x)
      → IsBuiltin name
  live-IsBuiltin name ctx ctx' x (p, n, at, named, _, _, _) =
      let h = Healthy-of_Inv p n (Reach-SystemInv reach).consistent at in
      let same : h.name ≡ name = ground (arith, h.named, named) in subst IsBuiltin same h.builtin

module _ {cf : CoreFoundation} {peers : Peers} {s : State} (reach : Reach cf peers s) where
  -- A failure of a request for any other name.
  failure_unknown :
      (c : ℕ) (name : CString) (ctx : Context) (e : _)
      → lookup c peers ≡ some ctx
      → ¬ IsBuiltin name
      → IsFailure name ctx e
      → e ≡ not_found
  failure_unknown c name ctx e found unknown (inl (inl (_, builtin))) = absurd (unknown builtin)
  failure_unknown c name ctx e found unknown (inl (inr (is, _))) = is
  failure_unknown c name ctx e found unknown (inr (_, full)) =
      let few = network_count-bound reach c ctx found in absurd (ground (arith, few, full))

  -- The reply to a request for a name that is not builtin.
  pub unknown-reply :
      (env : Env) (c : ℕ) (name : CString) (ctx : Context) (r : Reply) {peers' : Peers} {s' : State}
      → lookup c peers ≡ some ctx
      → ¬ IsBuiltin name
      → IsServable cf env.outcomes (deliver (message name)) s
      → step cf env (asks c name) peers s ≡ ok peers' s'
      → new_reply c (replies s.effects) (replies s'.effects) ≡ some r
      → read_reply (reply_object r) ≡ (none, pos (code not_found))
  unknown-reply env c name ctx r found unknown can ran sent =
      let d = call_done reach env c 0 name no_client ctx found can in
      let (_, _, is_r) = Done-same reach env c 0 name no_client ctx found can d ran sent in
      let after = Done-Reach reach env c 0 name no_client ctx found can d in
      ap (λ y. read_reply (reply_object y)) (sym is_r) ∙ elim d.received [
        | inl (x, _, granted) ↦ absurd (unknown (live-IsBuiltin after name ctx d.context x granted))
        | inr (_, e, failure, is) ↦
            is ∙ ap (λ e. (none, pos (code e))) (failure_unknown c name ctx e found unknown failure)
      ]

length-turn_names : (vs : List Started) → length (turn_names vs) ≡ length vs
length-turn_names [] = refl
length-turn_names (v ∷ vs) = ap suc (length-turn_names vs)

length-answer_names :
    (answers : List (CString × Reply)) → length (answer_names answers) ≡ length answers
length-answer_names [] = refl
length-answer_names ((name, r) ∷ answers) = ap suc (length-answer_names answers)

module _ (calls : Calls) (answers : List (CString × Reply)) (name : CString) (r : Reply)
    (unknown : read_reply (reply_object r) ≡ (none, pos (code not_found)))
    (by : AnsweredBy calls.start ((name, r) ∷ answers))
    (named : names_of ((name, r) ∷ answers) [] ≡ or_shared calls.arguments) where
  -- The last request is read as a refusal.
  last_refused :
      (i k : ℕ) (n : CString)
      → length answers ≡ i
      → name ≡ n
      → read_reply ((calls.start i).answer k (message n)) ≡ (none, pos (code not_found))
  last_refused i k n same_index same_name =
      ap (λ j. read_reply ((calls.start j).answer k (message n))) (sym same_index)
      ∙ ap (λ m. read_reply ((calls.start (length answers)).answer k (message m))) (sym same_name)
      ∙ ap read_reply (by.0 k)
      ∙ unknown

  -- The turn of the last name had no network.
  not-Passed :
      (vs : List Started) → names_onto vs [] ≡ or_shared calls.arguments → ¬ AllCame calls.start vs
  not-Passed [] e came = cc (names-same [] ((name, r) ∷ answers) (e ∙ sym named))
  not-Passed (v ∷ vs) e (((k, reply), _, _), came) =
      let same = names-same (v ∷ vs) ((name, r) ∷ answers) (e ∙ sym named) in
      let same_name : v.name ≡ name = cc same in
      let rest : turn_names vs ≡ answer_names answers = cc same in
      let same_index : length vs ≡ length answers =
        sym (length-turn_names vs) ∙ ap length rest ∙ length-answer_names answers in
      cc (reply, last_refused (length vs) k v.name (sym same_index) (sym same_name))

  -- A turn that is refused is that of the last name.
  refused-last :
      (c : ℕ) (peers : Peers) (s : State) (i k : ℕ) (n : CString) (status : ℤ)
      → All (IsHeld c peers s) answers
      → get_elem? (or_shared calls.arguments) i ≡ some n
      → read_reply ((calls.start i).answer k (message n)) ≡ (none, status)
      → status ≡ pos (code not_found)
  refused-last c peers s i k n status held place reply =
      elim (answer_at calls.start c peers s answers (name ∷ []) i k n
        (ap (λ l. get_elem? l i) named ∙ place) by.1 held) [
          | inl (_, x, given) ↦ cc (given, reply)
          | inr (above, there) ↦ elim (Bool-cases (i == length answers)) [
            | inl e ↦
                let same_index : length answers ≡ i = ground (arith, e) in
                let first : 0 ≡ i - length answers = omega (arith, same_index) in
                let same_name : name ≡ n = cc (ap (get_elem? (name ∷ [])) first ∙ there) in
                let got : ◌≡◌ {A = Option ℕ × ℤ} (none, status) (none, pos (code not_found)) =
                  sym reply ∙ last_refused i k n same_index same_name in
                cc got
            | inr e ↦
                let behind : suc (length answers) ≤ i = ground (arith, above, e) in
                let next : suc (i - suc (length answers)) ≡ i - length answers =
                  omega (arith, behind) in
                cc (ap (get_elem? (name ∷ [])) next ∙ there)
          ]
        ]

-- If the last name that the test client is given is not builtin, it fails as the broker says:
-- it exits with failure, and the one line that it prints is of acquire_network with NOT_FOUND.
-- Its requests are those of one open connection to a broker in states that it comes to, among
-- any other events; those for the names before, all builtin, are as in a run that passes, the
-- last can be served, and XPC returns the broker's replies. The options are in order, and the
-- other calls of the test client succeed.
pub main-NotFound :
    {cf : CoreFoundation} {c : ℕ} {answers : List (CString × Reply)} {peers peers₁ peers₂ : Peers}
    {s s₁ s₂ : State}
    → Asked cf c answers peers s
    → (l : Later cf peers s peers₁ s₁) → (env : Env) (name : CString) (ctx : Context) (r : Reply)
    → lookup c peers₁ ≡ some ctx
    → ¬ IsBuiltin name
    → IsServable cf env.outcomes (deliver (message name)) s₁
    → step cf env (asks c name) peers₁ s₁ ≡ ok peers₂ s₂
    → new_reply c (replies s₁.effects) (replies s₂.effects) ≡ some r
    → (calls : Calls) → AnsweredBy calls.start ((name, r) ∷ answers)
    → names_of ((name, r) ∷ answers) [] ≡ or_shared calls.arguments
    → Ready calls
    → (end : Session) × (main calls initial_session ≡ exited 1 end)
      × (lines end.log ≡ failed "acquire_network" (broker_status (pos (code not_found))) ∷ [])
main-NotFound {c} {answers} {peers} {s} asked l env name ctx r found unknown can ran sent calls by
      named ready =
    let (reach, held) = asked-IsHeld c asked in
    let refused = unknown-reply (Reach-Later reach l) env c name ctx r found unknown can ran sent in
    let (n, end, exits, ended) = main-Ended ready in
    elim ended [
      | inl (_, p) ↦
          absurd (not-Passed calls answers name r refused by named p.turns p.all_names p.came)
      | inr (one, step, why, failure, printed) ↦
          let (i, k, m, status, place, reply, is_step, is_why) = only_refused ready failure in
          let is_status =
            refused-last calls answers name r refused by named c peers s i k m status held place
              reply in
          (
            end,
            exits ∙ ap (λ k. exited k end) one,
            printed
                ∙ ap (λ x. failed x why ∷ []) is_step
                ∙ ap (λ x. failed "acquire_network" x ∷ []) (is_why ∙ ap broker_status is_status),
          )
    ]
