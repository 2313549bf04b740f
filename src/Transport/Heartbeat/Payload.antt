-- ===== src/Transport/Heartbeat/Payload.antt =====
-- A heartbeat's payload is read back as it was sent.
use ouroboros_db.Base.{suc, ◌%◌, ◌<◌, ◌+◌, ◌^◌, ◌≡◌, refl, ap, List, [], ◌∷◌, some, All, arith, map}
use ouroboros_db.Auth.Types.{Bytes}
use ouroboros_db.Transport.Registry.{NodeRole, role_server, role_client, role_other}
use ouroboros_db.Transport.Heartbeat.{
  HeartbeatCodec, HeartbeatNodeEntry, HeartbeatPayload, role_to_wire, role_of_wire, entry_to_wire,
  entry_of_wire, to_wire_heartbeat, of_wire_heartbeat, unmarshal_heartbeat_payload,
}

-- The role's number fits in 32 bits.
abbrev pub FitsWire : NodeRole → Type 0
FitsWire role_server = Unit {0}
FitsWire role_client = Unit {0}
FitsWire (role_other n) = n + 2 < 2 ^ 32

role_to_wire-role_of_wire : (r : NodeRole) → FitsWire r → role_of_wire (role_to_wire r) ≡ r
unfolding role_to_wire role_of_wire
role_to_wire-role_of_wire role_server h = refl
role_to_wire-role_of_wire role_client h = refl
role_to_wire-role_of_wire (role_other n) h =
    let same : (n + 2) % 2 ^ 32 ≡ suc (suc n) = omega arith in ap role_of_wire same

module _ {N : Type 0} (codec : HeartbeatCodec N)
    (id_back : (id : N) → codec.id_copy (codec.id_bytes id) ≡ id) where
  entries_back :
      (entries : List (HeartbeatNodeEntry N))
      → All (λ (n : HeartbeatNodeEntry N). FitsWire n.role) entries
      → map (entry_of_wire codec) (map (entry_to_wire codec) entries) ≡ entries
  unfolding entry_of_wire entry_to_wire
  entries_back [] fits = refl
  entries_back (n ∷ entries) fits =
      rw (id_back n.node_id, role_to_wire-role_of_wire n.role fits.0, entries_back entries fits.1)
        refl

  -- A payload whose roles fit in 32 bits is read back from its bytes, if the encoder gives its
  -- message back and a NodeID is the copy of its bytes.
  pub to_wire_heartbeat-unmarshal_heartbeat_payload :
      (payload : HeartbeatPayload N) (bytes : Bytes)
      → codec.unmarshal bytes ≡ some (to_wire_heartbeat codec payload)
      → FitsWire payload.sender_role
      → All (λ (n : HeartbeatNodeEntry N). FitsWire n.role) payload.known_nodes
      → unmarshal_heartbeat_payload codec bytes ≡ some payload
  unfolding unmarshal_heartbeat_payload of_wire_heartbeat to_wire_heartbeat
  to_wire_heartbeat-unmarshal_heartbeat_payload payload bytes decoded fits fit_entries =
      rw
        (
          decoded,
          unmarshal_heartbeat_payload,
          role_to_wire-role_of_wire payload.sender_role fits,
          entries_back payload.known_nodes fit_entries,
        )
        refl
