-- ===== src/Clients/Served.antt =====
-- The test client of test/test.c at the broker: its requests are the broker's events.
use mathlib.Core.List.{append-nil}
use vmnet_broker.Base.{
  ℕ, suc, ◌≤◌, ◌<◌, ◌≡◌, ◌⊎◌, refl, sym, ap, ◌∙◌, inl, inr, Option, some, List, [], ◌∷◌, ◌++◌, ◌-◌,
  ◌==◌, ℤ, pos, CString, All, length, get_elem?, arith, Bool-cases,
}
use vmnet_broker.Status.{code, success}
use vmnet_broker.Machine.{Reply, network, State, CoreFoundation}
use vmnet_broker.Client.{message, read_reply, reply_object}
use vmnet_broker.Client.Outcome.{read_shared}
use vmnet_broker.System.{Peers}
use vmnet_broker.TestClient.{Session, exited, initial_session, Starting, Calls}
use vmnet_broker.TestClient.Options.{or_shared}
use vmnet_broker.TestClient.Main.{main}
use vmnet_broker.TestClient.Ending.{Passed}
use vmnet_broker.TestClient.Success.{Ready, Granted, main-Passed}
use vmnet_broker.Clients.Asked.{Asked, IsHeld, asked-IsHeld, OnePerName, held-OnePerName}
use vmnet_broker.TestClient.Trace.{AllCame, Started, names_onto}

-- The names in the order of the requests, before `later`.
abbrev pub names_of : List (CString × Reply) → List CString → List CString
names_of [] later = later
names_of ((name, r) ∷ answers) later = names_of answers (name ∷ later)

-- XPC returns these replies to the test client's messages, the one of index 0 being the oldest.
abbrev pub AnsweredBy : (ℕ → Starting) → List (CString × Reply) → Type 0
AnsweredBy start [] = Unit
AnsweredBy start ((name, r) ∷ answers) =
    ((connection : ℕ) → (start (length answers)).answer connection (message name) ≡ reply_object r)
    × AnsweredBy start answers

-- What the test client got in its turns.
abbrev pub acquired : List Started → List (CString × Reply)
acquired [] = []
acquired (v ∷ vs) = (v.name, network v.serialization) ∷ acquired vs

-- `xs` from its end, before `later`.
turned : List CString → List CString → List CString
turned [] later = later
turned (x ∷ xs) later = turned xs (x ∷ later)

turned_twice :
    (xs later after : List CString) → turned (turned xs later) after ≡ turned later (xs ++ after)
unfolding turned
turned_twice [] later after = refl
turned_twice (x ∷ xs) later after = turned_twice xs (x ∷ later) after

-- The names of both, newest first.
abbrev pub turn_names : List Started → List CString
turn_names [] = []
turn_names (v ∷ vs) = v.name ∷ turn_names vs

abbrev pub answer_names : List (CString × Reply) → List CString
answer_names [] = []
answer_names ((name, r) ∷ answers) = name ∷ answer_names answers

names_onto-turned :
    (vs : List Started) (later : List CString) → names_onto vs later ≡ turned (turn_names vs) later
unfolding turned
names_onto-turned [] later = refl
names_onto-turned (v ∷ vs) later = names_onto-turned vs (v.name ∷ later)

names_of-turned :
    (answers : List (CString × Reply)) (later : List CString)
    → names_of answers later ≡ turned (answer_names answers) later
unfolding turned
names_of-turned [] later = refl
names_of-turned ((name, r) ∷ answers) later = names_of-turned answers (name ∷ later)

turned-injective : (xs ys : List CString) → turned xs [] ≡ turned ys [] → xs ≡ ys
unfolding turned
turned-injective xs ys e =
    sym (append-nil xs)
    ∙ sym (turned_twice xs [] [])
    ∙ ap (λ l. turned l []) e
    ∙ turned_twice ys [] []
    ∙ append-nil ys

-- The names of the turns are those of the requests, in order.
pub names-same :
    (vs : List Started) (answers : List (CString × Reply))
    → names_onto vs [] ≡ names_of answers []
    → turn_names vs ≡ answer_names answers
names-same vs answers e =
    turned-injective (turn_names vs) (answer_names answers)
      (sym (names_onto-turned vs []) ∙ e ∙ names_of-turned answers [])

length-acquired : (vs : List Started) → length (acquired vs) ≡ length vs
length-acquired [] = refl
length-acquired (v ∷ vs) = ap suc (length-acquired vs)

module _ (start : ℕ → Starting) (c : ℕ) (peers : Peers) (s : State) where
  read_held :
      (name : CString) (r : Reply)
      → IsHeld c peers s (name, r)
      → (x : ℕ) × (r ≡ network x) × (read_reply (reply_object r) ≡ (some x, pos (code success)))
  read_held name r (x, is, _, _, _) =
      (x, is, ap (λ y. read_reply (reply_object y)) is ∙ read_shared x)

  acquired-eq :
      (vs : List Started) (answers : List (CString × Reply))
      → turn_names vs ≡ answer_names answers
      → AllCame start vs
      → AnsweredBy start answers
      → All (IsHeld c peers s) answers
      → acquired vs ≡ answers
  acquired-eq [] [] e came by held = refl
  acquired-eq [] ((name, r) ∷ answers) e came by held = cc e
  acquired-eq (v ∷ vs) [] e came by held = cc e
  acquired-eq (v ∷ vs) ((name, r) ∷ answers) e (((k, reply), _, _), came) (by, rest)
        (held, others) =
      let tail = acquired-eq vs answers (cc e) came rest others in
      let same_index = sym (length-acquired vs) ∙ ap length tail in
      let same_name : v.name ≡ name = cc e in
      let (x, is, reads) = read_held name r held in
      let got : ◌≡◌ {A = Option ℕ × ℤ} (some v.serialization, pos (code success))
          (some x, pos (code success)) =
        sym reply
        ∙ ap (λ j. read_reply ((start j).answer k (message v.name))) same_index
        ∙ ap (λ m. read_reply ((start (length answers)).answer k (message m))) same_name
        ∙ ap read_reply (by k)
        ∙ reads in
      let same_reply : network v.serialization ≡ r = cc (got, is) in
      cc (same_name, same_reply, tail)

  -- The reply to the request of an index.
  pub answer_at :
      (answers : List (CString × Reply)) (later : List CString) (i k : ℕ) (name : CString)
      → get_elem? (names_of answers later) i ≡ some name
      → AnsweredBy start answers
      → All (IsHeld c peers s) answers
      → ((i < length answers)
          × (x : ℕ) × (read_reply ((start i).answer k (message name))
              ≡ (some x, pos (code success))))
        ⊎ (length answers ≤ i) × (get_elem? later (i - length answers) ≡ some name)
  answer_at [] later i k name at by held =
      inr (omega arith, ap (get_elem? later) (omega arith) ∙ at)
  answer_at ((n, r) ∷ answers) later i k name at (by, rest) (held, others) =
      elim (answer_at answers (n ∷ later) i k name at rest others) [
        | inl (below, x, got) ↦ inl (omega (arith, below), x, got)
        | inr (above, there) ↦ elim (Bool-cases (i == length answers)) [
          | inl e ↦
              let same_index : length answers ≡ i = ground (arith, e) in
              let first : 0 ≡ i - length answers = omega (arith, same_index) in
              let same_name : n ≡ name = cc (ap (get_elem? (n ∷ later)) first ∙ there) in
              let (x, is, reads) = read_held n r held in
              inl (
                omega (arith, same_index),
                x,
                ap (λ j. read_reply ((start j).answer k (message name))) (sym same_index)
                    ∙ ap (λ m. read_reply ((start (length answers)).answer k (message m)))
                        (sym same_name)
                    ∙ ap read_reply (by k)
                    ∙ reads,
              )
          | inr e ↦
              let behind : suc (length answers) ≤ i = ground (arith, above, e) in
              let next : suc (i - suc (length answers)) ≡ i - length answers =
                omega (arith, behind) in
              inr (behind, ap (get_elem? (n ∷ later)) next ∙ there)
        ]
      ]

-- What the test client has when it passes, in terms of the broker's answers.
pub record Shared (c : ℕ) (answers : List (CString × Reply)) (peers : Peers) (s : State)
    (calls : Calls) (end : Session) : Type 0 where
  pub passed : Passed calls end
  pub got : acquired passed.turns ≡ answers
  pub held : All (IsHeld c peers s) answers
  pub one_per_name : OnePerName answers

-- The test client passes against the broker. Its requests, for builtin names, are those of one
-- open connection to a broker in states that it comes to, among any other events but a
-- disconnection of that connection; each can be served, its external calls succeed, and XPC
-- returns the broker's replies. The options are in order, and the other calls of the test
-- client succeed. Then main exits with success, having stopped every interface that it started
-- and released every network that it created; each turn got what the broker answered, a network
-- of the name asked for, which the connection holds at the end, and turns for one name got one
-- network.
pub main-Shared :
    {cf : CoreFoundation} {c : ℕ} {answers : List (CString × Reply)} {peers : Peers} {s : State}
    → Asked cf c answers peers s
    → (calls : Calls) → AnsweredBy calls.start answers
    → names_of answers [] ≡ or_shared calls.arguments
    → Ready calls
    → (end : Session) × (main calls initial_session ≡ exited 0 end)
      × Shared c answers peers s calls end
main-Shared {c} {answers} {peers} {s} asked calls by named ready =
    let (reach, held) = asked-IsHeld c asked in
    let granted : Granted calls = λ i k name at.
      elim (answer_at calls.start c peers s answers [] i k name (ap (λ l. get_elem? l i) named ∙ at)
        by held) [ inl (_, x, got) ↦ (x, got) | inr (_, nothing) ↦ cc nothing ] in
    let (end, ran, passed) = main-Passed calls ready granted in
    let same_names = names-same passed.turns answers (passed.all_names ∙ sym named) in
    (
      end,
      ran,
      record {
        passed = passed;
        got = acquired-eq calls.start c peers s passed.turns answers same_names passed.came by held;
        held = held;
        one_per_name = held-OnePerName c reach answers held;
      },
    )
