-- ===== src/Tests/Arrivals/Trace.antt =====
-- A peer that arrives at a new carrier and then sends a message.
use ouroboros_db.Base.{ℕ, nat_eq, ◌≡◌, refl, true, List, [], ◌∷◌, some, none, ok, has, Any}
use ouroboros_db.Auth.Types.{scope_admin}
use ouroboros_db.Control.{
  Handlers, Message, Proto, Dispatch, handle_incoming_message, check_access, allows, allows_any,
  get_effective_scopes,
}
use ouroboros_db.Transport.Registry.{set_status, update_last_seen}
use ouroboros_db.Transport.Carrier.{
  controls, to_controller, dispatch_message, new_carrier, mark_peer_seen, scope_for_node, step,
  set_controller,
}
use ouroboros_db.Transport.Connect.{incoming, arrive}
use ouroboros_db.Transport.Connect.Trace.{
  Event, arrives, does, event, events, Verifies, events-dispatch_message,
}
use ouroboros_db.Tests.World.{world}
use ouroboros_db.Tests.Peering.{codec}
use ouroboros_db.Tests.Arrivals.{program, network, config, now, is_zero}

abbrev proto : Proto ℕ
proto = record {
  empty_user_message = 0;
  unmarshal = λ bytes empty. elim bytes [ [] ↦ none | b ∷ rest ↦ some b ];
}

abbrev handlers : Handlers ℕ ℕ
handlers =
    (
      5,
      record { msg_type = 5; allowed_scopes = scope_admin ∷ []; new_payload = some 0; handler = 9 },
    )
    ∷ []

abbrev history : List (Event ℕ ℕ ℕ ℕ ℕ ℕ)
history = arrives (network true) config now (incoming 20) ∷ does (controls handlers) ∷ []

abbrev message : Message
message = record { typ = 5; payload = 3 ∷ [] }

abbrev call_9 : Dispatch ℕ ℕ ℕ
call_9 = record { handler = 9; payload = 3; peer = 5; peer_scope = scope_admin }

history_connects : has 5 (events world is_zero codec new_carrier history).connections ≡ true
unfolding program events event step set_controller arrive
history_connects = refl

history_calls :
    (dispatch_message proto (events world is_zero codec new_carrier history) 5 message 8).1
    ≡ to_controller (ok call_9)
unfolding program events event step set_controller arrive dispatch_message mark_peer_seen
    scope_for_node set_status update_last_seen handle_incoming_message check_access allows_any
    allows get_effective_scopes
history_calls = refl

events-dispatch_message_example : ◌≡◌ {A = ℕ} 5 5 × Any (Verifies world codec 5 scope_admin) history
events-dispatch_message_example =
    events-dispatch_message world is_zero codec history proto 5 message 8 call_9 (tt, (tt, tt))
      history_connects history_calls
