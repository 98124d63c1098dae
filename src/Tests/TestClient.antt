-- ===== src/Tests/TestClient.antt =====
-- The theorems on the test client, each at a concrete input.
use vmnet_broker.Base.{
  inl, pos, ℕ, ◌+◌, ◌<◌, ◌≤◌, ◌≡◌, ◌⊎◌, refl, inr, true, some, [], ◌∷◌, length, take, bytes, arith,
}
use vmnet_broker.Status.{code, not_found, vmnet_success}
use vmnet_broker.Machine.{network, error}
use vmnet_broker.Config.{shared_name}
use vmnet_broker.Client.{reply_object}
use vmnet_broker.Client.Outcome.{read_shared}
use vmnet_broker.Tests.Scenario.{env}
use vmnet_broker.Tests.Scenario.Pair.{context_of}
use vmnet_broker.Tests.Scenario.Missing.{
  missing_name, joined, joined-Reach, joined-peer, missing-IsServable, refused_run, refused_reply,
  missing_unknown,
}
use vmnet_broker.System.Later.{now}
use vmnet_broker.Clients.Asked.{asked_nothing}
use vmnet_broker.Clients.Unknown.{main-NotFound}
use vmnet_broker.TestClient.{
  lines, failed, broker_status, quick_mode, Session, exited, initial_session, Starting, Stopping,
  late, signal, other, Calls,
}
use vmnet_broker.TestClient.Options.{buffer_size, log_names, empty_buffer}
use vmnet_broker.TestClient.Main.{main}
use vmnet_broker.TestClient.Ending.{Ends}
use vmnet_broker.TestClient.Outcome.{main-Ends}
use vmnet_broker.TestClient.Success.{Ready, Granted}
use vmnet_broker.Clients.Served.{AnsweredBy, Shared, main-Shared}
use vmnet_broker.Tests.Scenario.Again.{again, answers, again-Asked}
use vmnet_broker.TestClient.Buffer.{written, kept, log_names-fits}

-- Every call succeeds, and the broker answers with one network.
abbrev starting : ℕ → Starting
starting i = record {
  mach_service = 9;
  answer = λ connection m. reply_object (network 70);
  create = λ x. some (x + 1);
  create_status = vmnet_success;
  iface = some i;
  completion = some vmnet_success;
}

abbrev stopping : ℕ → Stopping
stopping i = record { stop_status = vmnet_success; completion = late vmnet_success }

abbrev twice_shared : Calls
twice_shared = record {
  flags = [];
  arguments = shared_name ∷ shared_name ∷ [];
  kqueue = true;
  sigprocmask = true;
  kevent_add = true;
  start = starting;
  stop = stopping;
  kevents = other ∷ signal ∷ [];
}

ready : Ready twice_shared
ready = record {
  options = refl;
  few = omega arith;
  set_up = refl;
  created = λ i x. (x + 1, refl);
  started = λ i. (vmnet_success, refl, refl);
  stop_called = λ i. refl;
  stopped = λ i. (vmnet_success, inr refl, refl);
  signalled = inr refl;
}

granted : Granted twice_shared
granted i connection name at = (70, read_shared 70)

main-Ends_example : Ends twice_shared (λ _ _. ⊥) (main twice_shared initial_session)
main-Ends_example = main-Ends twice_shared

log_names-fits_example :
    let names = bytes "shared" ∷ bytes "host" ∷ [] in
    let b = log_names names empty_buffer in
    (length b.text < buffer_size)
    × (take b.pos b.text ≡ kept buffer_size names)
    × ((b.text ≡ written names) ⊎ (buffer_size ≤ length (written names)))
log_names-fits_example = log_names-fits (bytes "shared" ∷ bytes "host" ∷ [])

twice-AnsweredBy : AnsweredBy twice_shared.start answers
twice-AnsweredBy = (λ connection. refl, (λ connection. refl, tt))

main-Shared_example :
    (end : Session) × (main twice_shared initial_session ≡ exited 0 end)
    × Shared 5 answers again.0 again.1 twice_shared end
main-Shared_example = main-Shared again-Asked twice_shared twice-AnsweredBy refl ready

abbrev missing : Calls
missing = record twice_shared {
  flags = quick_mode ∷ [];
  arguments = missing_name ∷ [];
  start =
      λ i. record (starting i) { answer = λ connection m. reply_object (error (code not_found)) };
}

missing-Ready : Ready missing
missing-Ready = record {
  options = refl;
  few = omega arith;
  set_up = refl;
  created = λ i x. (x + 1, refl);
  started = λ i. (vmnet_success, refl, refl);
  stop_called = λ i. refl;
  stopped = λ i. (vmnet_success, inr refl, refl);
  signalled = inl refl;
}

missing-AnsweredBy : AnsweredBy missing.start ((missing_name, error (code not_found)) ∷ [])
missing-AnsweredBy = (λ connection. refl, tt)

main-NotFound_example :
    (end : Session) × (main missing initial_session ≡ exited 1 end)
    × (lines end.log ≡ failed "acquire_network" (broker_status (pos (code not_found))) ∷ [])
main-NotFound_example =
    main-NotFound (asked_nothing joined-Reach) now env missing_name (context_of 5 joined)
      (error (code not_found)) joined-peer missing_unknown missing-IsServable refused_run
      refused_reply missing missing-AnsweredBy refl missing-Ready
