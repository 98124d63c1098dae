-- ===== src/TestClient/Success.antt =====
-- A run of test/test.c's main in which the broker, the frameworks and the system do their part.
use vmnet_broker.Base.{
  [], ◌∷◌, ℤ, inl, inr, ◌∙◌, ℕ, ◌≤◌, ◌≡◌, ◌⊎◌, refl, ap, ◌&&◌, true, some, none, pos, CString,
  length, get_elem?, arith,
}
use vmnet_broker.Status.{VmnetReturn, code, success, is_success}
use vmnet_broker.Client.{message, read_reply}
use vmnet_broker.TestClient.{
  broker_status, lines, failed, max_interfaces, Code, Session, Run, exited, initial_session, early,
  late, Calls,
}
use vmnet_broker.TestClient.Options.{or_shared}
use vmnet_broker.TestClient.Main.{main}
use vmnet_broker.TestClient.Ending.{
  is_quick, usage, awaited, Passed, Failure, too_many, refused, not_created, not_started,
  not_stopped, not_completed_early, not_completed_late, not_awaited, Blocked, not_called_on_start,
  not_called_on_stop, no_signal, Exit, by_usage, not_set_up, passes, fails, Ends, returns, exits,
  blocks,
}
use vmnet_broker.TestClient.Outcome.{main-Ends}
use Prim.Native.String.{String}

-- The options and the arguments are in order, and every call but the library's succeeds.
pub record Ready (calls : Calls) : Type 0 where
  pub options : usage calls.flags ≡ none
  pub few : length calls.arguments ≤ max_interfaces
  pub set_up : (calls.kqueue && calls.sigprocmask && calls.kevent_add) ≡ true
  pub created : (i x : ℕ) → (network : ℕ) × ((calls.start i).create x ≡ some network)
  pub started :
      (i : ℕ)
      → (status : VmnetReturn) × ((calls.start i).completion ≡ some status)
        × (is_success status ≡ true)
  pub stop_called : (i : ℕ) → is_success (calls.stop i).stop_status ≡ true
  pub stopped :
      (i : ℕ)
      → (status : VmnetReturn) × (((calls.stop i).completion ≡ early status)
          ⊎ ((calls.stop i).completion ≡ late status))
        × (is_success status ≡ true)
  pub signalled : (is_quick calls.flags ≡ true) ⊎ (awaited calls.kevents ≡ some 0)

-- The reply for each network to acquire is a network.
abbrev pub Granted : Calls → Type 0
Granted calls =
    (i connection : ℕ) (name : CString)
    → get_elem? (or_shared calls.arguments) i ≡ some name
    → (x : ℕ) × (read_reply ((calls.start i).answer connection (message name))
        ≡ (some x, pos (code success)))

module _ {calls : Calls} (good : Ready calls) where
  -- If all else succeeds, what fails is a request of the library's.
  pub only_refused :
      {step : String} {why : Code}
      → Failure calls step why
      → (i connection : ℕ) × (name : CString) × (status : ℤ) × (get_elem?
            (or_shared calls.arguments)
            i
          ≡ some name)
        × (read_reply ((calls.start i).answer connection (message name)) ≡ (none, status))
        × (step ≡ "acquire_network")
        × (why ≡ broker_status status)
  only_refused (too_many h) = absurd (omega (arith, good.few))
  only_refused (refused i connection name status place reply bad) =
      (i, connection, name, status, place, reply, refl, refl)
  only_refused (not_created i connection name x place reply missing) =
      let (n, made) = good.created i x in cc (made, missing)
  only_refused (not_started i status _ e bad) =
      let (status', e', fine) = good.started i in absurd (ground (arith, e, e', bad, fine))
  only_refused (not_stopped i _ bad) = cc (good.stop_called i, bad)
  only_refused (not_completed_early i status _ e bad) =
      let (status', e', fine) = good.stopped i in absurd (ground (arith, e, e', bad, fine))
  only_refused (not_completed_late i status _ e bad) =
      let (status', e', fine) = good.stopped i in absurd (ground (arith, e, e', bad, fine))
  only_refused (not_awaited err slow e bad) = absurd (ground (arith, good.signalled, slow, e, bad))

  no_block : Blocked calls → ⊥
  no_block (not_called_on_start i _ e) = let (status, e', _) = good.started i in cc (e, e')
  no_block (not_called_on_stop i _ e) =
      let (status, e', _) = good.stopped i in ground (arith, e, e')
  no_block (no_signal slow e) = ground (arith, good.signalled, slow, e)

  -- The program passes, or fails for a reason.
  abbrev pub Ended : ℕ → Session → Type 0
  Ended n s =
      ((n ≡ 0) × Passed calls s)
      ⊎ ((n ≡ 1)
          × (step : String) × (why : Code) × Failure calls step why
          × (lines s.log ≡ failed step why ∷ []))

  Exit-Ended : (n : ℕ) (s : Session) → Exit calls s n → Ended n s
  Exit-Ended n s (by_usage asked _) = cc (asked, good.options)
  Exit-Ended n s (not_set_up bad _ _) = cc (bad, good.set_up)
  Exit-Ended n s (passes p) = inl (refl, p)
  Exit-Ended n s (fails why printed) = inr (refl, _, _, why, printed)

  run-Ended :
      (r : Run (Unit {0}))
      → Ends calls (λ _ _. ⊥) r
      → (n : ℕ) × (s : Session) × (r ≡ exited n s) × Ended n s
  run-Ended r (returns never_returns) = absurd never_returns
  run-Ended r (blocks why _) = absurd (no_block why)
  run-Ended r (exits {n} {s} e) = (n, s, refl, Exit-Ended n s e)

  pub main-Ended : (n : ℕ) × (s : Session) × (main calls initial_session ≡ exited n s) × Ended n s
  main-Ended = run-Ended (main calls initial_session) (main-Ends calls)

-- The program passes if each request is granted, too.
pub main-Passed :
    (calls : Calls)
    → Ready calls
    → Granted calls
    → (s : Session) × (main calls initial_session ≡ exited 0 s) × Passed calls s
main-Passed calls good granted =
    let (n, s, ran, ended) = main-Ended good in
    elim ended [
      | inl (zero, p) ↦ (s, ran ∙ ap (λ k. exited k s) zero, p)
      | inr (_, step, why, failure, _) ↦
          let (i, k, name, status, place, reply, _, _) = only_refused good failure in
          let (x, given) = granted i k name place in cc (given, reply)
    ]
