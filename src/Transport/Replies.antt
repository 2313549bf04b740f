-- ===== src/Transport/Replies.antt =====
-- internal/transport/carrier_broadcast.go, carrier_dispatch.go and message_io.go: a message that is
-- sent on a stream of its own, its handling by the peer, and the reply. What the network does is an
-- argument, and so are the handlers' code and the texts of the errors that a reply carries. A
-- stream from which nothing more can be read is its content.
pub mod Answered
use ouroboros_db.Base.{
  ℕ, String, string_eq, Bool, true, false, not, List, [], ◌∷◌, Option, none, some, is_some, Result,
  ok, err, ◌>>=◌, ◌>>◌, or_fail, fail_if, ◌==◌, Eq, ltb, length, take, if◌then◌else◌,
}
use ouroboros_db.Auth.Types.{Bytes}
use ouroboros_db.Control.{Message, Proto, Dispatch, ControlError}
use ouroboros_db.Transport.Carrier.{
  Carrier, to_heartbeat, no_controller, to_controller, dispatch_message, connection_for_node,
}
use ouroboros_db.Transport.Heartbeat.{HeartbeatCodec, HeartbeatError}
use ouroboros_db.Transport.Heartbeat.Peers.{handle_heartbeat_message}
use ouroboros_db.Transport.Wire.{
  WireError, max_message_size, marshal_message, unmarshal_message, write_message_stream,
  read_message_stream,
}

-- `pb.MessageReply`.
pub record MessageReply : Type 0 where
  pub success : Bool
  pub error : String
  pub payload : Bytes

-- The protobuf encoder at a payload and at the reply.
pub record ReplyCodec (R : Type 0) : Type 0 where
  pub marshal_payload : R → Option Bytes
  pub marshal_reply : MessageReply → Option Bytes
  pub unmarshal_reply : Bytes → Option MessageReply

pub data ReplyError : Type 0 where
  marshal_payload_failed marshal_envelope_failed reply_too_large read_reply decode_reply :
      ReplyError

-- What a handler returns: a payload, `none` being nil, and the text of an error.
abbrev pub Handled : Type 0 → Type 0
Handled R = Option R × Option String

abbrev pub error_text : Option String → String
error_text none = ""
error_text (some text) = text

module _ {R : Type 0} (codec : ReplyCodec R) where
  unfoldable pub encode_payload : Option R → Result ReplyError Bytes
  encode_payload none = ok []
  encode_payload (some payload) = or_fail (codec.marshal_payload payload) marshal_payload_failed

  -- The bytes that are written.
  unfoldable pub write_message_reply : Handled R → Result ReplyError Bytes
  write_message_reply (payload, failure) = do
    encoded ← encode_payload payload
    reply ←
        or_fail
          (codec.marshal_reply (record {
            success = not (is_some failure);
            error = error_text failure;
            payload = encoded;
          }))
          marshal_envelope_failed
    fail_if (ltb max_message_size (length reply)) reply_too_large
    ok reply

  unfoldable pub read_message_reply : Option Bytes → Result ReplyError MessageReply
  read_message_reply stream = do
    bytes ← or_fail stream read_reply
    or_fail (codec.unmarshal_reply (take max_message_size bytes)) decode_reply

-- `OpenStream`, whether a request can be written and its side of the stream closed, what the peer
-- then writes until it closes its side (`none` if reading fails), and `SendDatagram`.
pub record Streams (K : Type 0) : Type 0 where
  pub opens : K → Bool
  pub writes : K → Bytes → Bool
  pub closes : K → Bool
  pub answers : K → Bytes → Option Bytes
  pub sends_datagram : K → Bytes → Bool

pub data SendError : Type 0 where
  not_connected open_stream not_written not_closed datagram_failed rejected : SendError
  bad_request : WireError → SendError
  no_reply : ReplyError → SendError
  refused : String → SendError

-- An error under the name of the operation that failed.
abbrev pub sending {ℓ} :
    {E : Type 0} {A : Type ℓ} → (E → SendError) → Result E A → Result SendError A
sending as_error (ok a) = ok a
sending as_error (err e) = err (as_error e)

module _ {N C K M F R : Type 0} ⦃e : Eq N⦄ (codec : ReplyCodec R) (net : Streams K) where
  unfoldable pub send_message_to_node_reliable :
      Carrier N C K M F → N → Message → Result SendError (Unit {0})
  send_message_to_node_reliable c node_id msg = do
    conn ← or_fail (connection_for_node c node_id) not_connected
    fail_if (not (net.opens conn)) open_stream
    request ← sending bad_request (write_message_stream msg)
    fail_if (not (net.writes conn request)) not_written
    fail_if (not (net.closes conn)) not_closed
    reply ← sending no_reply (read_message_reply codec (net.answers conn request))
    fail_if (not reply.success) (if reply.error == "" then rejected else refused reply.error)

-- A message to several nodes by datagrams: every node counts as attempted.
module _ {N C K M F : Type 0} ⦃e : Eq N⦄ (net : Streams K) where
  unfoldable pub send_message_to_node_unreliable :
      Carrier N C K M F → N → Message → Result SendError (Unit {0})
  send_message_to_node_unreliable c node_id msg = do
    conn ← or_fail (connection_for_node c node_id) not_connected
    fail_if (not (net.sends_datagram conn (marshal_message msg))) datagram_failed

-- The handlers' code, the empty response, and the texts of errors.
pub record Answers (N M F R : Type 0) : Type 0 where
  pub handler : Dispatch N M F → Handled R
  pub empty_response : R
  pub control_text : ControlError → String
  pub heartbeat_text : HeartbeatError → String
  pub no_controller_text : ℕ → String

module _ {N C K M F R : Type 0} ⦃e : Eq N⦄ (p : Proto M) (is_zero : N → Bool) (self_id : N)
    (heartbeats : HeartbeatCodec N) (answers : Answers N M F R) where
  -- `dispatchMessage` with what it returns. The nodes that a heartbeat told of are dialled by a
  -- goroutine of its own.
  unfoldable pub dispatch_answer :
      Carrier N C K M F → N → Message → ℕ → Carrier N C K M F × Handled R
  dispatch_answer c node_id msg now =
      let (seen, outcome) = dispatch_message p c node_id msg now in
      elim outcome [
        | to_heartbeat peer_id m ↦
            let (next, answer) =
              handle_heartbeat_message is_zero self_id heartbeats seen peer_id m now in
            (
              next,
              elim answer [
                | ok discovered ↦ (some answers.empty_response, none)
                | err bad ↦ (none, some (answers.heartbeat_text bad))
              ],
            )
        | no_controller ↦ (seen, (none, some (answers.no_controller_text msg.typ)))
        | to_controller (ok call) ↦ (seen, answers.handler call)
        | to_controller (err bad) ↦ (seen, (none, some (answers.control_text bad)))
      ]

  -- With the reply that is written before the stream is closed; nothing is written if the message
  -- cannot be read or the reply cannot be made.
  unfoldable pub handle_message_stream :
      ReplyCodec R → Carrier N C K M F → N → Bytes → ℕ → Carrier N C K M F × Bytes
  handle_message_stream codec c node_id stream now = elim (read_message_stream stream) [
    | err bad ↦ (c, [])
    | ok msg ↦
        let (next, handled) = dispatch_answer c node_id msg now in
        (next, elim (write_message_reply codec handled) [ ok bytes ↦ bytes | err bad ↦ [] ])
  ]

  -- A datagram is not answered.
  unfoldable pub handle_datagram : Carrier N C K M F → N → Bytes → ℕ → Carrier N C K M F
  handle_datagram c node_id bytes now = elim (unmarshal_message bytes) [
    | err bad ↦ c
    | ok msg ↦ (dispatch_answer c node_id msg now).0
  ]
