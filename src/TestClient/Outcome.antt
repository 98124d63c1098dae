-- ===== src/TestClient/Outcome.antt =====
-- Every ending of test/test.c's main.
use vmnet_broker.Base.{
  length, ℕ, zero, suc, ◌≡◌, refl, sym, ap, ◌∙◌, inl, inr, ◌&&◌, true, false, Bool, some, List, [],
  ◌∷◌, arith, ◌==◌, if◌then◌else◌, Bool-cases,
}
use vmnet_broker.TestClient.{
  lines, pure, ok, fail, error_number, errno, released_queue, created_queue, Session,
  initial_session, KernelEvent, kevent_error, signal, other, Calls, printed, passed,
}
use vmnet_broker.TestClient.Options.{Options, or_shared}
use vmnet_broker.TestClient.Main.{setup_kq, wait_for_termination, main}
use vmnet_broker.TestClient.Ending.{
  is_quick, awaited, Ends, returns, exits, blocks, bind, fail-Ends, not_set_up, passes, not_awaited,
  no_signal,
}
use vmnet_broker.TestClient.Parsed.{Parsed, parse_options-Ends}
use vmnet_broker.TestClient.Turns.{start_each-Ends, quiet-Standing}
use vmnet_broker.TestClient.Stops.{Stopped, stop_interfaces-Ends}
use vmnet_broker.TestClient.Trace.{Started, length-names_onto, lines-stops, names_onto, stops}
use vmnet_broker.TestClient.Slots.{Standing}

module _ (calls : Calls) where
  wait_for_termination-Ends :
      (events : List KernelEvent) (s : Session)
      → is_quick calls.flags ≡ false
      → awaited calls.kevents ≡ awaited events
      → lines s.log ≡ []
      → Ends calls
          (λ err s'. (s' ≡ s) × (awaited calls.kevents ≡ some err))
          (wait_for_termination events s)
  unfolding wait_for_termination
  wait_for_termination-Ends [] s slow same quiet = blocks (no_signal slow same) quiet
  wait_for_termination-Ends (kevent_error err ∷ events) s slow same quiet = returns (refl, same)
  wait_for_termination-Ends (signal ∷ events) s slow same quiet = returns (refl, same)
  wait_for_termination-Ends (other ∷ events) s slow same quiet =
      wait_for_termination-Ends events s slow same quiet

  setup_kq-Ends :
      (s : Session)
      → s.client.sent ≡ []
      → lines s.log ≡ []
      → Ends calls (λ _ s'. s' ≡ s) (setup_kq calls s)
  setup_kq-Ends s silent quiet =
      elim (Bool-cases (calls.kqueue && calls.sigprocmask && calls.kevent_add)) [
        | inl good ↦ rw good (returns refl)
        | inr bad ↦ rw bad (exits (not_set_up bad silent quiet))
      ]

  -- What the wait of main gives.
  Waited : (quick : Bool) (err : ℕ) → Type 0
  Waited true err = err ≡ 0
  Waited false err = awaited calls.kevents ≡ some err

  wait-Ends :
      (quick : Bool) (s : Session)
      → quick ≡ is_quick calls.flags
      → lines s.log ≡ []
      → Ends calls
          (λ err s'. (s' ≡ s) × Waited quick err)
          ((if quick then pure 0 else wait_for_termination calls.kevents) s)
  unfolding Waited
  wait-Ends true s same quiet = returns (refl, refl)
  wait-Ends false s same quiet = wait_for_termination-Ends calls.kevents s (sym same) refl quiet

  -- The end of main, when all is stopped.
  last-Ends :
      (vs : List Started) (quick : Bool) (err : ℕ) (s s' : Session)
      → Standing calls vs s
      → names_onto vs [] ≡ or_shared calls.arguments
      → Stopped calls vs s s'
      → quick ≡ is_quick calls.flags
      → Waited quick err
      → Ends calls {A = Unit {0}}
          (λ _ _. ⊥)
          ((if err == 0 then ok else fail "kevent" (error_number (errno err))) s')
  unfolding Waited
  last-Ends vs quick zero s s' standing named stopped same waited = exits (
      passes (record {
        turns = vs;
        came = standing.came;
        all_names = named;
        retained = ap (λ t. t.client.retained) stopped ∙ standing.retained;
        none_left = ap (λ t. t.interface_count) stopped;
        log =
            ap (λ t. printed passed ∷ t.log) stopped
            ∙ ap (λ l. printed passed ∷ released_queue ∷ stops vs l) standing.log;
      }))
  last-Ends vs true (suc err) s s' standing named stopped same waited = ground (arith, waited)
  last-Ends vs false (suc err) s s' standing named stopped same waited =
      let nonzero : (suc err == 0) ≡ false = ground arith in
      rw nonzero (
        fail-Ends _ _ s' (not_awaited (suc err) (sym same) waited (omega arith))
          (ap (λ t. lines t.log) stopped ∙ lines-stops vs s.log ∙ quiet-Standing calls standing))

  -- The session at the first turn.
  prepared-Standing :
      (opt : Options) (s : Session)
      → Parsed calls opt s
      → Standing calls [] (record s { vmnet_queue = true; log = created_queue ∷ s.log })
  prepared-Standing opt s parsed = rw parsed.same (record {
    came = tt;
    count = refl;
    size = refl;
    slots = tt;
    retained = refl;
    queue = refl;
    log = refl;
  })

  -- main of the test client never crashes or returns, and ends in one of these ways. It exits
  -- as an option asks, with nothing done. It exits with failure and prints nothing, since the
  -- signals could not be set up, before any message is sent. It prints ok and exits with
  -- success: it has acquired the networks of the command line in turn, started an interface on
  -- each and released its network, and then stopped all interfaces, the last one first. It
  -- prints a step and a code and exits with failure, with a call that failed so as the reason,
  -- or more networks than the limit; the limit of start_interface is never a reason. Or it
  -- waits for good and has printed nothing, since a block was never called or no signal came.
  pub main-Ends : Ends calls (λ _ _. ⊥) (main calls initial_session)
  unfolding main
  main-Ends = bind (parse_options-Ends calls) λ opt s parsed.
      bind
        (setup_kq-Ends s (ap (λ t. t.client.sent) parsed.same) (ap (λ t. lines t.log) parsed.same))
        λ _ s₁ same. rw same (
          bind
            (start_each-Ends calls opt.network_names []
              (record s { vmnet_queue = true; log = created_queue ∷ s.log })
              (prepared-Standing opt s parsed) parsed.names (omega (arith, parsed.within)))
            λ _ s₂ (vs, standing, named).
              bind (wait-Ends opt.quick s₂ parsed.quick (quiet-Standing calls standing))
                λ err s₃ (kept, waited). rw kept (
                  bind
                    (stop_interfaces-Ends calls vs s₂ standing
                      (omega (arith, ap length named, length-names_onto vs [])))
                    λ _ s₄ stopped.
                      last-Ends vs opt.quick err s₂ s₄ standing named stopped parsed.quick waited))
