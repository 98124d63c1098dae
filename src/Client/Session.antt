-- ===== src/Client/Session.antt =====
-- A process that acquires networks in turn.
use vmnet_broker.Base.{
  ℕ, suc, ◌+◌, ◌≡◌, refl, ap, inl, inr, some, none, List, [], ◌∷◌, CString, length, All, arith,
  Option-cases,
}
use vmnet_broker.Client.{
  Client, Message, ReplyObject, vmnet_broker_acquire_network, connect_to_broker,
}

-- The calls of vmnet_broker_acquire_network, each with what xpc_connection_create_mach_service would
-- return then, and the names.
unfoldable pub acquire_each : (ℕ → Message → ReplyObject) → List (ℕ × CString) → Client → Client
acquire_each answer [] c = c
acquire_each answer ((mach_service, name) ∷ calls) c =
    acquire_each answer calls (vmnet_broker_acquire_network mach_service answer name c).1

-- All messages went over the connection that is open.
abbrev pub IsOver : ℕ → Client → Type 0
IsOver connection c = (c.connection ≡ some connection) × All (λ (used, m). used ≡ connection) c.sent

module _ (answer : ℕ → Message → ReplyObject) where
  call-length :
      (mach_service : ℕ) (name : CString) (c : Client)
      → length (vmnet_broker_acquire_network mach_service answer name c).1.sent
        ≡ suc (length c.sent)
  unfolding vmnet_broker_acquire_network connect_to_broker
  call-length mach_service name c = elim (Option-cases c.connection) [
    | inl e ↦ ground (arith, e)
    | inr (k, e) ↦ ground (arith, e)
  ]

  IsOver-call :
      (mach_service k : ℕ) (name : CString) (c : Client)
      → IsOver k c
      → IsOver k (vmnet_broker_acquire_network mach_service answer name c).1
  unfolding vmnet_broker_acquire_network connect_to_broker
  IsOver-call mach_service k name c (e, over) = rw e (refl, (refl, over))

  IsOver-calls :
      (k : ℕ) (calls : List (ℕ × CString)) (c : Client)
      → IsOver k c
      → IsOver k (acquire_each answer calls c)
  unfolding acquire_each
  IsOver-calls k [] c over = over
  IsOver-calls k ((mach_service, name) ∷ calls) c over =
      IsOver-calls k calls _ (IsOver-call mach_service k name c over)

  calls-length :
      (calls : List (ℕ × CString)) (c : Client)
      → length (acquire_each answer calls c).sent ≡ length calls + length c.sent
  unfolding acquire_each
  calls-length [] c = omega arith
  calls-length ((mach_service, name) ∷ calls) c =
      omega (arith, calls-length calls _, call-length mach_service name c)

  -- A process that has no connection yet opens one for its first request and sends one message
  -- for each request, all of them over that connection, whatever the replies are.
  pub acquire_each-IsOver :
      (mach_service : ℕ) (name : CString) (calls : List (ℕ × CString)) (c : Client)
      → c.connection ≡ none
      → c.sent ≡ []
      → IsOver mach_service (acquire_each answer ((mach_service, name) ∷ calls) c)
        × (length (acquire_each answer ((mach_service, name) ∷ calls) c).sent ≡ suc (length calls))
  unfolding acquire_each vmnet_broker_acquire_network connect_to_broker
  acquire_each-IsOver mach_service name calls c closed silent = (
    IsOver-calls mach_service calls _ (rw closed (rw silent (refl, (refl, tt)))),
    omega (arith, calls-length ((mach_service, name) ∷ calls) c, ap length silent),
  )
