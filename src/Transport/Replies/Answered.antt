-- ===== src/Transport/Replies/Answered.antt =====
-- internal/transport: what the sender of a message learns of its handling by the peer.
use ouroboros_db.Base.{
  ℕ, ◌<◌, String, string_eq, ◌≡◌, refl, sym, ap, ◌∙◌, subst, Bool, true, false, not, [], Option,
  none, some, is_some, ok, err, or_fail, fail_if, Eq, ltb, length, take, >>=-eq-ok, fail_if-eq-ok,
  or_fail-eq-ok, Result-cases, inl, inr, arith, ◌↔◌,
}
use ouroboros_db.Auth.Types.{Bytes}
use ouroboros_db.Control.{Message, Proto}
use ouroboros_db.Transport.Carrier.{Carrier, connection_for_node}
use ouroboros_db.Transport.Heartbeat.{HeartbeatCodec}
use ouroboros_db.Transport.Wire.{
  max_message_size, write_message_stream, read_message_stream, take_all,
  write_message_stream-read_message_stream,
}
use ouroboros_db.Transport.Replies.{
  MessageReply, ReplyCodec, Streams, SendError, Answers, error_text, encode_payload,
  write_message_reply, read_message_reply, send_message_to_node_reliable, dispatch_answer,
  handle_message_stream,
}

-- A reply with default values.
abbrev pub zero_reply : MessageReply
zero_reply = record { success = false; error = ""; payload = [] }

-- The decoder gives back what was encoded, and no bytes are such a reply.
pub record Decodes {R : Type 0} (codec : ReplyCodec R) : Type 0 where
  pub back :
      (reply : MessageReply) (bytes : Bytes)
      → codec.marshal_reply reply ≡ some bytes
      → codec.unmarshal_reply bytes ≡ some reply
  pub empty : codec.unmarshal_reply [] ≡ some zero_reply

not_some : (o : Option String) → (not (is_some o) ≡ true) ↔ (o ≡ none)
not_some none = ((λ h. refl), (λ h. refl))
not_some (some text) = ((λ h. cc), (λ h. cc))

fail_if-not : (b : Bool) (bad : SendError) → (fail_if (not b) bad ≡ ok tt) ↔ (b ≡ true)
fail_if-not true bad = ((λ h. refl), (λ h. refl))
fail_if-not false bad = ((λ h. cc), (λ h. cc))

module _ {R : Type 0} (codec : ReplyCodec R) where
  -- A reply that is written is read back by the sender with the handler's verdict.
  pub write_message_reply-read_message_reply :
      (payload : Option R) (failure : Option String) (bytes : Bytes)
      → Decodes codec
      → write_message_reply codec (payload, failure) ≡ ok bytes
      → (reply : MessageReply) × (read_message_reply codec (some bytes) ≡ ok reply)
        × (reply.success ≡ not (is_some failure))
        × (reply.error ≡ error_text failure)
  unfolding write_message_reply read_message_reply
  write_message_reply-read_message_reply payload failure bytes laws h =
      let (encoded, made, h₁) = >>=-eq-ok (encode_payload codec payload) _ h in
      let reply : MessageReply = record {
        success = not (is_some failure);
        error = error_text failure;
        payload = encoded;
      } in
      let (out, marshalled, h₂) = >>=-eq-ok (or_fail (codec.marshal_reply reply) _) _ h₁ in
      let (fine, fits, h₃) = >>=-eq-ok (fail_if (ltb max_message_size (length out)) _) _ h₂ in
      let same : out ≡ bytes = cc h₃ in
      let whole : take max_message_size out ≡ out =
        take_all max_message_size out (ground (arith, fail_if-eq-ok _ _ fits)) in
      (
        reply,
        subst (λ bs. read_message_reply codec (some bs) ≡ ok reply) same
            (rw (whole, laws.back reply out (or_fail-eq-ok _ _ marshalled), read_message_reply)
              refl),
        refl,
        refl,
      )

  nothing_written : Decodes codec → read_message_reply codec (some []) ≡ ok zero_reply
  unfolding read_message_reply
  nothing_written laws = rw (laws.empty, read_message_reply) refl

module _ {N C K M F R : Type 0} ⦃e : Eq N⦄ (codec : ReplyCodec R) (net : Streams K) where
  -- The network carries a request for the node over the connection.
  pub record Carries (c : Carrier N C K M F) (node_id : N) (conn : K) (request : Bytes)
      : Type 0 where
    pub connection : connection_for_node c node_id ≡ some conn
    pub opened : net.opens conn ≡ true
    pub written : net.writes conn request ≡ true
    pub closed : net.closes conn ≡ true

  -- The sender's verdict is that of the reply.
  send-reply :
      (c : Carrier N C K M F) (node_id : N) (conn : K) (msg : Message) (request : Bytes)
      (reply : MessageReply)
      → Carries c node_id conn request
      → write_message_stream msg ≡ ok request
      → read_message_reply codec (net.answers conn request) ≡ ok reply
      → (send_message_to_node_reliable codec net c node_id msg ≡ ok tt) ↔ (reply.success ≡ true)
  unfolding send_message_to_node_reliable
  send-reply c node_id conn msg request reply way asks answered =
      rw
        (
          way.connection, way.opened, asks, way.written, way.closed, answered,
          send_message_to_node_reliable,
        )
        (fail_if-not reply.success _)

module _ {N C K M F R : Type 0} ⦃e : Eq N⦄ (codec : ReplyCodec R) (net : Streams K) (p : Proto M)
    (is_zero : N → Bool) (self_id : N) (heartbeats : HeartbeatCodec N)
    (answers : Answers N M F R) where
  -- The peer dispatches the message without an error and can write the reply.
  abbrev pub Succeeds : Carrier N C K M F → N → Message → ℕ → Type 0
  Succeeds d me msg now =
      let handled = (dispatch_answer p is_zero self_id heartbeats answers d me msg now).1 in
      (handled.1 ≡ none) × (bytes : Bytes) × (write_message_reply codec handled ≡ ok bytes)

  -- What is written for a message that can be read.
  written_answer :
      (d : Carrier N C K M F) (me : N) (request : Bytes) (msg : Message) (now : ℕ)
      → read_message_stream request ≡ ok msg
      → (handle_message_stream p is_zero self_id heartbeats answers codec d me request now).1
        ≡ elim (write_message_reply codec
            (dispatch_answer p is_zero self_id heartbeats answers d me msg now).1) [
              | ok bytes ↦ bytes
              | err bad ↦ []
            ]
  unfolding handle_message_stream
  written_answer d me request msg now reads = rw (reads, handle_message_stream) refl

  -- A sender whose request reaches the peer and who reads what the peer's handling of the stream
  -- writes is told of success exactly if the peer dispatched the message without an error and could
  -- write the reply. The message's type fits in a byte and the decoder gives back what was encoded.
  pub send_message_to_node_reliable-handle_message_stream :
      (c d : Carrier N C K M F) (node_id me : N) (conn : K) (msg : Message) (request : Bytes)
      (now : ℕ)
      → Decodes codec
      → Carries codec net c node_id conn request
      → msg.typ < 256
      → write_message_stream msg ≡ ok request
      → net.answers conn request
        ≡ some (handle_message_stream p is_zero self_id heartbeats answers codec d me request now).1
      → (send_message_to_node_reliable codec net c node_id msg ≡ ok tt) ↔ Succeeds d me msg now
  send_message_to_node_reliable-handle_message_stream c d node_id me conn msg request now laws way
        small asks answered =
      let handled = (dispatch_answer p is_zero self_id heartbeats answers d me msg now).1 in
      let reads = write_message_stream-read_message_stream msg request small asks in
      let wrote = answered ∙ ap some (written_answer d me request msg now reads) in
      elim (Result-cases (write_message_reply codec handled)) [
        | inl (bytes, fits) ↦
            let (reply, back, verdict, text) =
              write_message_reply-read_message_reply codec handled.0 handled.1 bytes laws fits in
            let got : net.answers conn request ≡ some bytes = wrote ∙ rw fits refl in
            let (only, enough) =
              send-reply codec net c node_id conn msg request reply way asks (rw got back) in
            let (none_said, said) = not_some handled.1 in
            (
              (λ h. (none_said (sym verdict ∙ only h), bytes, fits)),
              (λ (fine, sent, written). enough (verdict ∙ said fine)),
            )
        | inr (bad, unmade) ↦
            let got : net.answers conn request ≡ some [] = wrote ∙ rw unmade refl in
            let (only, enough) =
              send-reply codec net c node_id conn msg request zero_reply way asks
                (rw got (nothing_written codec laws)) in
            ((λ h. cc (only h)), (λ (fine, bytes, fits). cc (unmade, fits)))
      ]
