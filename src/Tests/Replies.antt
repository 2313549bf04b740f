-- ===== src/Tests/Replies.antt =====
-- A message, its handling by the peer and its reply, on two concrete carriers.
use ouroboros_db.Base.{
  ℕ, nat_eq, string_eq, ◌≡◌, refl, subst, Bool, true, false, [], ◌∷◌, Option, none, some, ok,
  lookup, eqb, arith, ◌↔◌, ◌==◌, Bool-cases, inl, inr, if◌then◌else◌,
}
use ouroboros_db.Auth.Types.{Bytes, scope_admin, scope_user}
use ouroboros_db.Control.{
  Message, MessageRegistration, Proto, handle_incoming_message, check_access, allows, allows_any,
  get_effective_scopes,
}
use ouroboros_db.Transport.Registry.{set_status, update_last_seen}
use ouroboros_db.Transport.Carrier.{
  Carrier, connection_for_node, dispatch_message, mark_peer_seen, scope_for_node,
}
use ouroboros_db.Transport.Heartbeat.{HeartbeatCodec}
use ouroboros_db.Transport.Wire.{write_message_stream, read_message_stream}
use ouroboros_db.Transport.Replies.{
  MessageReply, ReplyCodec, Streams, Answers, write_message_reply, read_message_reply,
  encode_payload, send_message_to_node_reliable, dispatch_answer, handle_message_stream,
}
use ouroboros_db.Transport.Replies.Answered.{
  Decodes, Succeeds, zero_reply, send_message_to_node_reliable-handle_message_stream,
}

-- A reply without an error's text is its verdict and its payload; no other reply is encoded.
abbrev to_bytes : MessageReply → Option Bytes
to_bytes reply =
    if reply.error == "" then some ((if reply.success then 1 else 0) ∷ reply.payload) else none

abbrev of_bytes : Bytes → Option MessageReply
of_bytes [] = some zero_reply
of_bytes (b ∷ rest) = some (record { success = eqb b 1; error = ""; payload = rest })

abbrev codec : ReplyCodec ℕ
codec = record {
  marshal_payload = λ n. some (n ∷ []);
  marshal_reply = to_bytes;
  unmarshal_reply = of_bytes;
}

verdict_back : (b : Bool) → eqb (if b then 1 else 0) 1 ≡ b
verdict_back true = refl
verdict_back false = refl

read_back :
    (reply : MessageReply)
    → reply.error ≡ ""
    → of_bytes ((if reply.success then 1 else 0) ∷ reply.payload) ≡ some reply
read_back reply silent = cc (verdict_back reply.success, silent)

codec-Decodes : Decodes codec
codec-Decodes = record { back = back; empty = refl }
  where
    back :
        (reply : MessageReply) (bytes : Bytes)
        → to_bytes reply ≡ some bytes
        → of_bytes bytes ≡ some reply
    back reply bytes h = elim (Bool-cases (reply.error == "")) [
      | inl no_text ↦
          let written : some ((if reply.success then 1 else 0) ∷ reply.payload) ≡ some bytes =
            rw no_text at h in
          subst (λ bs. of_bytes bs ≡ some reply)
            {x = (if reply.success then 1 else 0) ∷ reply.payload} (cc written)
            (read_back reply ((string_eq.beq_iff reply.error "").0 no_text))
      | inr text ↦ cc (text, h)
    ]

abbrev proto : Proto ℕ
proto = record {
  empty_user_message = 0;
  unmarshal = λ bytes empty. elim bytes [ [] ↦ none | b ∷ rest ↦ some b ];
}

abbrev user_handler : MessageRegistration ℕ ℕ
user_handler = record {
  msg_type = 5;
  allowed_scopes = scope_user ∷ [];
  new_payload = some 0;
  handler = 9;
}

abbrev answers : Answers ℕ ℕ ℕ ℕ
answers = record {
  handler = λ call. (some (call.payload), none);
  empty_response = 0;
  control_text = λ bad. "refused by the controller";
  heartbeat_text = λ bad. "bad heartbeat";
  no_controller_text = λ typ. "no controller";
}

abbrev heartbeats : HeartbeatCodec ℕ
heartbeats = record {
  marshal = λ m. none;
  unmarshal = λ bytes. none;
  id_bytes = λ n. n ∷ [];
  id_copy = λ bytes. elim bytes [ [] ↦ 0 | b ∷ rest ↦ b ];
}

abbrev sender : Carrier ℕ ℕ ℕ ℕ ℕ
sender = record {
  registry = [];
  connections = (8, 80) ∷ [];
  controller = none;
  peer_scopes = (8, scope_admin) ∷ [];
}

abbrev receiver : Carrier ℕ ℕ ℕ ℕ ℕ
receiver = record {
  registry = [];
  connections = (7, 70) ∷ [];
  controller = some ((5, user_handler) ∷ []);
  peer_scopes = (7, scope_user) ∷ [];
}

abbrev message : Message
message = record { typ = 5; payload = 3 ∷ [] }

abbrev is_zero : ℕ → Bool
is_zero n = eqb n 0

-- The other end of connection 80 is the receiver's connection 70.
abbrev net : Streams ℕ
net = record {
  opens = λ conn. eqb conn 80;
  writes = λ conn bytes. true;
  closes = λ conn. true;
  answers = λ conn request.
      some
        (handle_message_stream proto is_zero 8 heartbeats answers codec receiver 7 request 100).1;
  sends_datagram = λ conn bytes. true;
}

sent : send_message_to_node_reliable codec net sender 8 message ≡ ok tt
unfolding send_message_to_node_reliable handle_message_stream dispatch_answer dispatch_message
    mark_peer_seen scope_for_node connection_for_node handle_incoming_message check_access allows
    allows_any get_effective_scopes write_message_stream read_message_stream write_message_reply
    read_message_reply encode_payload set_status update_last_seen lookup
sent = refl

request_of : write_message_stream message ≡ ok (5 ∷ 3 ∷ [])
unfolding write_message_stream
request_of = refl

way : connection_for_node sender 8 ≡ some 80
unfolding connection_for_node lookup
way = refl

send_message_to_node_reliable-handle_message_stream_example :
    (send_message_to_node_reliable codec net sender 8 message ≡ ok tt)
    ↔ Succeeds codec net proto is_zero 8 heartbeats answers receiver 7 message 100
send_message_to_node_reliable-handle_message_stream_example =
    send_message_to_node_reliable-handle_message_stream codec net proto is_zero 8 heartbeats answers
      sender receiver 8 7 80 message (5 ∷ 3 ∷ []) 100 codec-Decodes
      (record { connection = way; opened = refl; written = refl; closed = refl }) (omega arith)
      request_of refl
