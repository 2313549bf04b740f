-- ===== src/Tests/Dispatch.antt =====
-- Handlers, connections and scopes, on concrete controllers and carriers.
use ouroboros_db.Base.{
  ℕ, nat_eq, ◌≡◌, refl, Bool, true, false, List, [], ◌∷◌, none, some, ok, ◌↔◌, lookup, has, insert,
  delete, eqb, Any,
}
use ouroboros_db.Auth.Types.{scope_admin, scope_user, AuthContext}
use ouroboros_db.Control.{
  Handlers, Message, MessageRegistration, Proto, Dispatch, registers as registers_handler,
  unregisters, message_handler, other_value, check_access, handle_incoming_message,
  register_handler, get_handler, control_run, new_cluster_controller, build_message_registration,
  message_schema, as_message_handler, allows, allows_any, get_effective_scopes,
}
use ouroboros_db.Control.Access.{
  check_access_iff, handle_incoming_message_iff, IsGranted, IsDelivered,
}
use ouroboros_db.Control.Registrations.{
  AreBuilt, register_handler-unregister_handler, control_run-new_cluster_controller-AreBuilt,
}
use ouroboros_db.Transport.Registry.{
  add_node, merge_with, compact_addresses, compact_from, set_status, update_last_seen,
}
use ouroboros_db.Transport.Carrier.{
  Carrier, to_controller, dispatch_message, drop_connection, new_carrier, step, steps, Step,
  registers, controls, drops, register_peer, set_controller, mark_peer_seen, scope_for_node,
}
use ouroboros_db.Transport.Carrier.Scopes.{
  drop_connection-dispatch_message, steps-dispatch_message, Authenticates,
}

-- A payload is a number, its decoding the first byte; a handler is a number.
abbrev proto : Proto ℕ
proto = record {
  empty_user_message = 0;
  unmarshal = λ bytes empty. elim bytes [ [] ↦ none | b ∷ rest ↦ some b ];
}

abbrev user_handler : MessageRegistration ℕ ℕ
user_handler = record {
  msg_type = 5;
  allowed_scopes = scope_user ∷ [];
  new_payload = some 0;
  handler = 9;
}

abbrev handlers : Handlers ℕ ℕ
handlers = (5, user_handler) ∷ []

abbrev admin_handlers : Handlers ℕ ℕ
admin_handlers = (5, record user_handler { allowed_scopes = scope_admin ∷ [] }) ∷ []

abbrev message : Message
message = record { typ = 5; payload = 3 ∷ [] }

check_access_iff_example :
    ((check_access handlers 5 scope_admin).allowed ≡ true)
    ↔ ((reg : MessageRegistration ℕ ℕ) × IsGranted handlers 5 scope_admin reg)
check_access_iff_example = check_access_iff handlers 5 scope_admin

abbrev call_9 : Dispatch ℕ ℕ ℕ
call_9 = record { handler = 9; payload = 3; peer = 1; peer_scope = scope_user }

handle_incoming_message_iff_example :
    (handle_incoming_message proto handlers message 1 scope_user ≡ ok call_9)
    ↔ IsDelivered handlers proto message 1 scope_user call_9
handle_incoming_message_iff_example =
    handle_incoming_message_iff handlers proto message 1 scope_user call_9

handled_call : handle_incoming_message proto handlers message 1 scope_user ≡ ok call_9
unfolding handle_incoming_message check_access lookup allows_any allows get_effective_scopes
handled_call = refl

registered_user :
    register_handler proto [] 5 (scope_user ∷ []) (message_handler (some 9)) ≡ ok handlers
unfolding register_handler build_message_registration message_schema as_message_handler lookup
    insert
registered_user = refl

register_handler-unregister_handler_example :
    (reg : MessageRegistration ℕ ℕ) × (get_handler handlers 5 ≡ some reg)
    × (reg.allowed_scopes ≡ scope_user ∷ [])
register_handler-unregister_handler_example =
    (register_handler-unregister_handler proto [] handlers 5 (scope_user ∷ [])
      (message_handler (some 9)) registered_user).0

control_run-new_cluster_controller-AreBuilt_example : AreBuilt {F = ℕ} proto (
    control_run proto new_cluster_controller (
      registers_handler 5 (scope_user ∷ []) (message_handler (some 9))
      ∷ registers_handler 6 (scope_user ∷ []) other_value
      ∷ unregisters 5
      ∷ []))
control_run-new_cluster_controller-AreBuilt_example =
    control_run-new_cluster_controller-AreBuilt {F = ℕ} proto (
      registers_handler 5 (scope_user ∷ []) (message_handler (some 9))
      ∷ registers_handler 6 (scope_user ∷ []) other_value
      ∷ unregisters 5
      ∷ [])

abbrev user_context : AuthContext ℕ
user_context = record {
  node_id = 1;
  effective_scope = scope_user;
  allowed_user_ca_owners = [];
  has_valid_admin_cert = false;
}

abbrev is_zero : ℕ → Bool
is_zero n = eqb n 0

abbrev user_registers : ℕ → Step ℕ ℕ ℕ ℕ ℕ
user_registers conn = registers user_context conn [] ("a" ∷ []) 7

-- A user peer that is connected, with a handler for admins only.
abbrev one_peer : Carrier ℕ ℕ ℕ ℕ ℕ
one_peer = record {
  registry = [];
  connections = (1, 20) ∷ [];
  controller = some admin_handlers;
  peer_scopes = (1, scope_user) ∷ [];
}

drop_connection-dispatch_message_example :
    (dispatch_message proto (drop_connection one_peer 1 20) 1 message 8).1
    ≡ to_controller (handle_incoming_message proto admin_handlers message 1 scope_admin)
drop_connection-dispatch_message_example =
    drop_connection-dispatch_message proto one_peer 1 20 admin_handlers message 8
      (unfold lookup in refl) refl refl

-- The handler for admins only then runs for the user peer.
dropped_runs :
    handle_incoming_message {N = ℕ} proto admin_handlers message 1 scope_admin
    ≡ ok (record { handler = 9; payload = 3; peer = 1; peer_scope = scope_admin })
unfolding handle_incoming_message check_access lookup allows_any allows get_effective_scopes
dropped_runs = refl

abbrev history : List (Step ℕ ℕ ℕ ℕ ℕ)
history = controls handlers ∷ user_registers 20 ∷ []

program : Unit {0}
unfolding steps step register_peer set_controller new_carrier add_node merge_with compact_addresses
    compact_from lookup insert delete dispatch_message mark_peer_seen scope_for_node set_status
    update_last_seen handle_incoming_message check_access allows_any allows get_effective_scopes
program = tt

history_connects : has 1 (steps is_zero new_carrier history).connections ≡ true
unfolding program
history_connects = refl

history_calls :
    (dispatch_message proto (steps is_zero new_carrier history) 1 message 8).1
    ≡ to_controller (ok call_9)
unfolding program
history_calls = refl

steps-dispatch_message_example : ◌≡◌ {A = ℕ} 1 1 × Any (Authenticates 1 scope_user) history
steps-dispatch_message_example =
    steps-dispatch_message is_zero history proto 1 message 8 call_9 history_connects history_calls

-- A user peer connects twice and closes the second connection; a message that then arrives over
-- the first runs the handler for admins only.
reconnected_runs :
    (dispatch_message proto
      (steps is_zero new_carrier
        (controls admin_handlers ∷ user_registers 20 ∷ user_registers 21 ∷ drops 1 21 ∷ []))
      1
      message
      8).1
    ≡ to_controller (ok (record { handler = 9; payload = 3; peer = 1; peer_scope = scope_admin }))
unfolding program drop_connection
reconnected_runs = refl
