-- ===== src/Transport/Wire.antt =====
-- internal/transport/message_io.go: a message as its type byte and its payload. A stream is what
-- is written to it before it is closed; errors of writing and reading are outside the model. A
-- message type is a natural number.
use ouroboros_db.Base.{
  ℕ, zero, suc, ◌+◌, ◌≤◌, ◌<◌, ◌%◌, ◌≡◌, refl, List, [], ◌∷◌, Result, ok, err, ◌>>◌, fail_if, ltb,
  length, take, >>=-eq-ok, fail_if-eq-ok, arith, ap, subst, ◌↔◌,
}
use ouroboros_db.Auth.Types.{Bytes}
use ouroboros_db.Control.{Message}

abbrev pub max_message_size : ℕ
max_message_size = 1048576

pub data WireError : Type 0 where
  too_short too_large read_type : WireError

unfoldable pub marshal_message : Message → Bytes
marshal_message msg = (msg.typ % 256) ∷ msg.payload

unfoldable pub unmarshal_message : Bytes → Result WireError Message
unmarshal_message [] = err too_short
unmarshal_message (b ∷ rest) = ok (record { typ = b; payload = rest })

unfoldable pub write_message_stream : Message → Result WireError Bytes
write_message_stream msg = do
  fail_if (ltb max_message_size (1 + length msg.payload)) too_large
  ok ((msg.typ % 256) ∷ msg.payload)

-- `io.LimitReader` ends the payload after `max_message_size` bytes.
unfoldable pub read_message_stream : Bytes → Result WireError Message
read_message_stream [] = err read_type
read_message_stream (b ∷ rest) = ok (record { typ = b; payload = take max_message_size rest })

pub take_all : {A : Type 0} (n : ℕ) (xs : List A) → length xs ≤ n → take n xs ≡ xs
take_all zero [] h = refl
take_all (suc n) [] h = refl
take_all zero (x ∷ xs) h = absurd (omega arith)
take_all (suc n) (x ∷ xs) h = ap (◌∷◌ x) (take_all n xs (omega arith))

-- A message whose type fits in a byte is read back whole from its datagram.
pub marshal_message-unmarshal_message :
    (msg : Message) → msg.typ < 256 → unmarshal_message (marshal_message msg) ≡ ok msg
unfolding marshal_message unmarshal_message
marshal_message-unmarshal_message msg small = ground arith

read_back :
    (msg : Message)
    → msg.typ < 256
    → length msg.payload ≤ max_message_size
    → read_message_stream ((msg.typ % 256) ∷ msg.payload) ≡ ok msg
unfolding read_message_stream
read_back msg small fits = ground (arith, take_all max_message_size msg.payload fits)

-- A message whose type fits in a byte and that is written to a stream without an error is read
-- back whole by the peer.
pub write_message_stream-read_message_stream :
    (msg : Message) (bytes : Bytes)
    → msg.typ < 256
    → write_message_stream msg ≡ ok bytes
    → read_message_stream bytes ≡ ok msg
unfolding write_message_stream
write_message_stream-read_message_stream msg bytes small h =
    let (_, fits, h₁) =
      >>=-eq-ok (fail_if (ltb max_message_size (1 + length msg.payload)) too_large) _ h in
    let written : (msg.typ % 256) ∷ msg.payload ≡ bytes = cc h₁ in
    subst (λ bs. read_message_stream bs ≡ ok msg) written
      (read_back msg small (ground (arith, fail_if-eq-ok _ _ fits)))

-- Writing a message to a stream is refused exactly when the message is longer than 1 MiB with its
-- type byte.
pub write_message_stream_iff :
    (msg : Message)
    → (write_message_stream msg ≡ err too_large) ↔ (max_message_size < 1 + length msg.payload)
unfolding write_message_stream
write_message_stream_iff msg = ((λ h. ground arith), (λ h. ground arith))
