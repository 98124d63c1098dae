-- ===== src/TestClient/Trace.antt =====
-- What the turns of test/test.c's main log, and the names, answers and interfaces that they had.
use vmnet_broker.Base.{
  ℕ, suc, ◌+◌, ◌≡◌, refl, ap, ◌∙◌, some, Option, List, [], ◌∷◌, pos, CString, length, get_elem?,
  arith,
}
use vmnet_broker.Status.{code, success}
use vmnet_broker.Client.{message, read_reply}
use vmnet_broker.TestClient.{
  lines, Action, logged, created_queue, created_network, released_network, released_serialization,
  started, stopped, Starting, Calls,
}
use vmnet_broker.TestClient.Options.{or_shared, log_names, empty_buffer}

-- What a network's turn in the loop of main came to.
pub record Started : Type 0 where
  pub name : CString
  pub serialization : ℕ
  pub network : ℕ
  pub iface : Option ℕ

-- It came of these calls: the broker's answer, vmnet's network and interface.
abbrev pub Came : Starting → Started → Type 0
Came at v =
    ((connection : ℕ) × (read_reply (at.answer connection (message v.name))
        ≡ (some v.serialization, pos (code success))))
    × (at.create v.serialization ≡ some v.network)
    × (at.iface ≡ v.iface)

-- The lists of these have the newest first, so that the index of the first is the length of the rest.
abbrev pub AllCame : (ℕ → Starting) → List Started → Type 0
AllCame start [] = Unit
AllCame start (v ∷ vs) = Came (start (length vs)) v × AllCame start vs

abbrev pub serializations : List Started → List ℕ
serializations [] = []
serializations (v ∷ vs) = v.serialization ∷ serializations vs

-- The names in the order of the turns, before `later`.
abbrev pub names_onto : List Started → List CString → List CString
names_onto [] later = later
names_onto (v ∷ vs) later = names_onto vs (v.name ∷ later)

-- What the turns log, newest first.
abbrev pub starts : List Started → List Action → List Action
starts [] log = log
starts (v ∷ vs) log =
    released_network v.network
    ∷ started v.iface
    ∷ released_serialization v.serialization
    ∷ created_network v.network
    ∷ starts vs log

-- What stopping logs: the interface that was started last is stopped first.
abbrev pub stops : List Started → List Action → List Action
stops [] log = log
stops (v ∷ vs) log = stops vs (stopped v.iface ∷ log)

-- What is logged before the first turn.
abbrev pub prepared : Calls → List Action
prepared calls =
    created_queue ∷ logged (log_names (or_shared calls.arguments) empty_buffer).text ∷ []

pub get_elem?-names_onto :
    (vs : List Started) (later : List CString) (i : ℕ)
    → get_elem? (names_onto vs later) (length vs + i) ≡ get_elem? later i
get_elem?-names_onto [] later i = ap (get_elem? later) (omega arith)
get_elem?-names_onto (v ∷ vs) later i =
    ap (get_elem? (names_onto vs (v.name ∷ later))) (omega arith)
    ∙ get_elem?-names_onto vs (v.name ∷ later) (suc i)

pub length-names_onto :
    (vs : List Started) (later : List CString)
    → length (names_onto vs later) ≡ length vs + length later
length-names_onto [] later = omega arith
length-names_onto (v ∷ vs) later = omega (arith, length-names_onto vs (v.name ∷ later))

pub lines-starts : (vs : List Started) (log : List Action) → lines (starts vs log) ≡ lines log
lines-starts [] log = refl
lines-starts (v ∷ vs) log = lines-starts vs log

pub lines-stops : (vs : List Started) (log : List Action) → lines (stops vs log) ≡ lines log
lines-stops [] log = refl
lines-stops (v ∷ vs) log = lines-stops vs (stopped v.iface ∷ log)
