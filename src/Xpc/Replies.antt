-- ===== src/Xpc/Replies.antt =====
-- What sending a reply does: one reply on the peer's connection, or none without a return address.
use vmnet_broker.Base.{refl, ◌≡◌, Bool, true, false, List, ◌∷◌, ℕ, arith, if◌then◌else◌}
use vmnet_broker.Machine.{
  State, Context, Reply, Effect, ok, replies, created, sent, released, reply, error, network,
}
use vmnet_broker.Machine.Ledger.{Even}
use vmnet_broker.Xpc.{Request, send, send_xpc_error, send_xpc_network}

-- The log with the reply.
abbrev pub reply_log : Bool → ℕ → Reply → List Effect → List Effect
reply_log true c r log = released (reply c) ∷ sent c r ∷ created (reply c) ∷ log
reply_log false c r log = log

module _ (ctx : Context) (event : Request) (s : State) where
  send_lem :
      (r : Reply)
      → send ctx event r s
        ≡ ok tt
            (record s { effects = reply_log event.has_return_address ctx.connection r s.effects })
  unfolding send
  send_lem r = ground arith

  pub send_xpc_error_lem :
      (code : ℕ)
      → send_xpc_error ctx event code s
        ≡ ok tt (record s {
          effects = reply_log event.has_return_address ctx.connection (error code) s.effects;
        })
  unfolding send_xpc_error
  send_xpc_error_lem code = send_lem (error code)

  pub send_xpc_network_lem :
      (x : ℕ)
      → send_xpc_network ctx event x s
        ≡ ok tt (record s {
          effects = reply_log event.has_return_address ctx.connection (network x) s.effects;
        })
  unfolding send_xpc_network
  send_xpc_network_lem x = send_lem (network x)

pub replies-reply_log :
    (b : Bool) (c : ℕ) (r : Reply) (log : List Effect)
    → replies (reply_log b c r log) ≡ (if b then (c, r) ∷ replies log else replies log)
replies-reply_log b c r log = ground arith

-- The reply's object is released.
pub reply_log-Even :
    (b : Bool) (c : ℕ) (r : Reply) (log : List Effect) → Even (reply_log b c r log) log
reply_log-Even true c r log o = ground arith
reply_log-Even false c r log o = refl
