-- ===== src/TestClient/Acquire.antt =====
-- acquire_network and start_interface of test/test.c.
use vmnet_broker.Base.{
  ℕ, ◌+◌, ◌<◌, ◌≡◌, refl, ap, ◌∙◌, inl, inr, true, false, Option, none, some, [], ◌∷◌, ℤ, pos,
  CString, length, set, get_elem?, ltb, leb, arith, Bool-cases, Option-cases,
}
use vmnet_broker.Status.{code, success, is_success}
use vmnet_broker.Client.{
  message, retain, read_reply, connect_to_broker, vmnet_broker_acquire_network,
}
use vmnet_broker.Client.Outcome.{IsResult, vmnet_broker_acquire_network-IsResult}
use vmnet_broker.TestClient.{
  max_interfaces, lines, Session, created_network, released_serialization, started, Calls,
}
use vmnet_broker.TestClient.Interfaces.{
  call_library, create_with_serialization, check_acquired, acquire_network, complete_start,
  start_interface,
}
use vmnet_broker.TestClient.Options.{or_shared}
use vmnet_broker.TestClient.Ending.{
  Ends, returns, blocks, bind, fail-Ends, refused, not_created, not_started, not_called_on_start,
}

module _ (calls : Calls) where
  -- What acquire_network of the program comes to at its turn.
  pub record Acquired (i : ℕ) (name : CString) (s : Session) (network : ℕ) (s' : Session)
      : Type 0 where
    pub serialization : ℕ
    pub answered :
        (connection : ℕ) × (read_reply ((calls.start i).answer connection (message name))
          ≡ (some serialization, pos (code success)))
    pub create : (calls.start i).create serialization ≡ some network
    pub retained : s'.client.retained ≡ serialization ∷ s.client.retained
    pub same : s' ≡ record s {
      client = s'.client;
      log = released_serialization serialization ∷ created_network network ∷ s.log;
    }

  module _ (i : ℕ) (name : CString) where
    -- What the library's call returns, and leaves.
    abbrev Called : Session → Option ℕ × ℤ → Session → Type 0
    Called s r s' =
        IsResult r
        × ((connection : ℕ) × (read_reply ((calls.start i).answer connection (message name)) ≡ r))
        × (s'.client.retained ≡ retain r.0 s.client.retained)
        × (s' ≡ record s { client = s'.client })

    call_library-Ends : (s : Session) → Ends calls (Called s) (call_library (calls.start i) name s)
    unfolding vmnet_broker_acquire_network
    call_library-Ends s =
        let at = calls.start i in
        let (result, kept, _) =
          vmnet_broker_acquire_network-IsResult at.mach_service at.answer name s.client in
        returns (result, ((connect_to_broker at.mach_service s.client).0, refl), kept, refl)

    create_with_serialization-Ends :
        (s s' : Session) (x : ℕ) (status : ℤ)
        → get_elem? (or_shared calls.arguments) i ≡ some name
        → Called s (some x, status) s'
        → lines s.log ≡ []
        → Ends calls (Acquired i name s) (create_with_serialization (calls.start i) x s')
    unfolding create_with_serialization
    create_with_serialization-Ends s s' x status place (inr (missing, _), _, _, _) quiet =
        cc missing
    create_with_serialization-Ends s s' x status place
          (inl (y, got), (connection, reply), kept, same) quiet =
        elim (Option-cases ((calls.start i).create x)) [
          | inl missing ↦
              rw (missing, create_with_serialization)
                (fail-Ends _ _ _ (not_created i connection name x place (reply ∙ cc got) missing)
                  (rw same quiet))
          | inr (network, made) ↦
              rw (made, create_with_serialization)
                (returns (record {
                  serialization = x;
                  answered = (connection, reply ∙ cc got);
                  create = made;
                  retained = kept;
                  same =
                      ap {A = Session}
                        (λ t. record t {
                          client = s'.client;
                          log = released_serialization x ∷ created_network network ∷ t.log;
                        })
                        same;
                }))
        ]

    check_acquired-Ends :
        (s s' : Session) (found : Option ℕ × ℤ)
        → get_elem? (or_shared calls.arguments) i ≡ some name
        → Called s found s'
        → lines s.log ≡ []
        → Ends calls (Acquired i name s) (check_acquired (calls.start i) found s')
    check_acquired-Ends s s' (none, status) place (inl (x, got), _, _, _) quiet = cc got
    check_acquired-Ends s s' (none, status) place (inr (_, bad), (connection, reply), _, same)
          quiet =
        fail-Ends _ _ _ (refused i connection name status place reply bad) (rw same quiet)
    check_acquired-Ends s s' (some x, status) place called quiet =
        create_with_serialization-Ends s s' x status place called quiet

    pub acquire_network-Ends :
        (s : Session)
        → get_elem? (or_shared calls.arguments) i ≡ some name
        → lines s.log ≡ []
        → Ends calls (Acquired i name s) (acquire_network (calls.start i) name s)
    unfolding acquire_network
    acquire_network-Ends s place quiet =
        bind (call_library-Ends s)
          λ found s' called. check_acquired-Ends s s' found place called quiet

  -- start_interface below the limit: it returns if the interface is started.
  pub start_interface-Ends :
      (i : ℕ) (name : CString) (s : Session)
      → s.interface_count < length s.interfaces
      → s.interface_count < max_interfaces
      → i < length (or_shared calls.arguments)
      → lines s.log ≡ []
      → Ends calls
          (λ _ s'. s' ≡ record s {
            interfaces =
                set s.interfaces s.interface_count
                  (record { network_name = some name; iface = (calls.start i).iface });
            interface_count = s.interface_count + 1;
            log = started (calls.start i).iface ∷ s.log;
          })
          (start_interface (calls.start i) name s)
  unfolding start_interface complete_start
  start_interface-Ends i name s room below named quiet =
      let free : leb max_interfaces s.interface_count ≡ false = ground arith in
      let inside : ltb s.interface_count (length s.interfaces) ≡ true = ground arith in
      elim (Option-cases (calls.start i).completion) [
        | inl e ↦ rw (free, e) (blocks (not_called_on_start i named e) quiet)
        | inr (status, e) ↦ elim (Bool-cases (is_success status)) [
          | inl good ↦ rw (free, e, good, inside) (returns refl)
          | inr bad ↦ rw (free, e, bad) (fail-Ends _ _ s (not_started i status named e bad) quiet)
        ]
      ]
