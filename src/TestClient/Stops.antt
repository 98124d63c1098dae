-- ===== src/TestClient/Stops.antt =====
-- stop_interfaces of test/test.c.
use vmnet_broker.Base.{
  arith, ℕ, ◌<◌, ◌≤◌, ◌≡◌, refl, sym, subst, ap, inl, inr, false, some, List, [], ◌∷◌, length,
  get_elem?, Bool-cases,
}
use vmnet_broker.Status.{VmnetReturn, is_success}
use vmnet_broker.TestClient.{
  lines, Session, released_queue, stopped, vmnet_status, Completion, never, early, late, Calls,
}
use vmnet_broker.TestClient.Options.{or_shared}
use vmnet_broker.TestClient.Interfaces.{
  on_stopped, await_stop, stop_interface, stop_each, release_queue, stop_interfaces,
}
use vmnet_broker.TestClient.Ending.{
  Failure, Ends, returns, blocks, bind, fail-Ends, not_stopped, not_completed_early,
  not_completed_late, not_called_on_stop,
}
use vmnet_broker.TestClient.Turns.{quiet-Standing}
use vmnet_broker.TestClient.Trace.{Started, stops}
use vmnet_broker.TestClient.Slots.{Slots, Standing, slot}

module _ (calls : Calls) where
  module _ (s : Session) (quiet : lines s.log ≡ []) where
    on_stopped-Ends :
        (status : VmnetReturn)
        → (is_success status ≡ false → Failure calls "stop_interface" (vmnet_status status))
        → Ends calls (λ _ s'. s' ≡ s) (on_stopped status s)
    on_stopped-Ends status because = elim (Bool-cases (is_success status)) [
      | inl good ↦ rw good (returns refl)
      | inr bad ↦ rw bad (fail-Ends _ _ s (because bad) quiet)
    ]

  await_stop-Ends :
      (i : ℕ) (s : Session) (c : Completion)
      → i < length (or_shared calls.arguments)
      → (calls.stop i).completion ≡ c
      → lines s.log ≡ []
      → Ends calls (λ _ s'. s' ≡ s) (await_stop (calls.stop i).stop_status c s)
  await_stop-Ends i s never named e quiet =
      bind (on_stopped-Ends s quiet (calls.stop i).stop_status (not_stopped i named))
        λ _ s' same. blocks (not_called_on_stop i named e) (rw same quiet)
  await_stop-Ends i s (early status) named e quiet =
      bind (on_stopped-Ends s quiet status (not_completed_early i status named e)) λ _ s' same.
        rw same (on_stopped-Ends s quiet (calls.stop i).stop_status (not_stopped i named))
  await_stop-Ends i s (late status) named e quiet =
      bind (on_stopped-Ends s quiet (calls.stop i).stop_status (not_stopped i named))
        λ _ s' same. rw same (on_stopped-Ends s quiet status (not_completed_late i status named e))

  stop_interface-Ends :
      (i : ℕ) (v : Started) (s : Session)
      → get_elem? s.interfaces i ≡ some (slot v)
      → i < length (or_shared calls.arguments)
      → lines s.log ≡ []
      → Ends calls
          (λ _ s'. s' ≡ record s { interface_count = i; log = stopped v.iface ∷ s.log })
          (stop_interface (calls.stop i) i s)
  unfolding stop_interface
  stop_interface-Ends i v s here named quiet =
      rw (here, stop_interface)
        (bind
          (await_stop-Ends i (record s { interface_count = i }) (calls.stop i).completion named refl
            quiet)
          λ _ s' same.
            returns (ap {A = Session} (λ t. record t { log = stopped v.iface ∷ t.log }) same))

  stop_each-Ends :
      (vs : List Started) (s : Session)
      → Slots vs s.interfaces
      → s.interface_count ≡ length vs
      → length vs ≤ length (or_shared calls.arguments)
      → lines s.log ≡ []
      → Ends calls
          (λ _ s'. s' ≡ record s { interface_count = 0; log = stops vs s.log })
          (stop_each calls.stop (length vs) s)
  unfolding stop_each
  stop_each-Ends [] s slots count named quiet = returns (rw⁻¹ count refl)
  stop_each-Ends (v ∷ vs) s (here, slots) count named quiet =
      bind (stop_interface-Ends (length vs) v s here (omega (arith, named)) quiet) λ _ s' same.
        rw same (
          stop_each-Ends vs
            (record s { interface_count = length vs; log = stopped v.iface ∷ s.log }) slots refl
            (omega (arith, named)) quiet)

  -- The session when all is stopped.
  abbrev pub Stopped : List Started → Session → Session → Type 0
  Stopped vs s s' =
      s'
      ≡ record s { interface_count = 0; vmnet_queue = false; log = released_queue ∷ stops vs s.log }

  pub stop_interfaces-Ends :
      (vs : List Started) (s : Session)
      → Standing calls vs s
      → length vs ≤ length (or_shared calls.arguments)
      → Ends calls (λ _ s'. Stopped vs s s') (stop_interfaces calls.stop s)
  unfolding stop_interfaces release_queue
  stop_interfaces-Ends vs s standing named =
      let all : Ends calls (λ _ s'. s' ≡ record s { interface_count = 0; log = stops vs s.log })
          (stop_each calls.stop s.interface_count s) =
        subst
          (λ n.
            Ends calls (λ _ s'. s' ≡ record s { interface_count = 0; log = stops vs s.log })
              (stop_each calls.stop n s))
          (sym standing.count)
          (stop_each-Ends vs s standing.slots standing.count named
            (quiet-Standing calls standing)) in
      bind all λ _ s' same. rw same (rw standing.queue (returns refl))
