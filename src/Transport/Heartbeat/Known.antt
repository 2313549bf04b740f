-- ===== src/Transport/Heartbeat/Known.antt =====
-- What a heartbeat leaves of a known node.
use ouroboros_db.Base.{
  String, string_eq, nat_eq, ◌≡◌, refl, ◌∙◌, true, false, List, ◌++◌, ◌==◌, arith, if◌then◌else◌,
  eqb, length,
}
use ouroboros_db.Transport.Registry.{
  Node, compact_addresses, merge_node, merge_status, merge_addresses_of,
}
use ouroboros_db.Transport.Registry.Addresses.{contains, contains-append, compact_addresses_lem}
use ouroboros_db.Transport.Heartbeat.{HeartbeatNodeEntry, told}

-- What a heartbeat cannot take from a known node: its addresses that are not empty, its
-- certificates, its last sighting and its status.
pub record Knows {N C : Type 0} (old new : Node N C) : Type 0 where
  pub addresses_kept :
      (a : String)
      → contains a old.addresses ≡ true
      → (a == "") ≡ false
      → contains a new.addresses ≡ true
  pub same_certs : new.node_certs ≡ old.node_certs
  pub same_sighting : new.last_seen ≡ old.last_seen
  pub same_status : new.connection_status ≡ old.connection_status

pub Knows-refl : {N C : Type 0} (n : Node N C) → Knows n n
Knows-refl n = record {
  addresses_kept = λ a there full. there;
  same_certs = refl;
  same_sighting = refl;
  same_status = refl;
}

pub Knows-trans : {N C : Type 0} (a b c : Node N C) → Knows a b → Knows b c → Knows a c
Knows-trans a b c f g = record {
  addresses_kept = λ x there full. g.addresses_kept x (f.addresses_kept x there full) full;
  same_certs = g.same_certs ∙ f.same_certs;
  same_sighting = g.same_sighting ∙ f.same_sighting;
  same_status = g.same_status ∙ f.same_status;
}

addresses_told :
    (old more : List String) (a : String)
    → contains a old ≡ true
    → (a == "") ≡ false
    → contains a (merge_addresses_of old (compact_addresses (old ++ more))) ≡ true
unfolding merge_addresses_of
addresses_told old more a there full = ground (
  arith,
  contains-append a old (compact_addresses (old ++ more)),
  (compact_addresses_lem (old ++ compact_addresses (old ++ more))).1 a,
)

-- The entry that is stored for a known node.
abbrev pub stored : {N C : Type 0} → Node N C → HeartbeatNodeEntry N → Node N C
stored old entry = merge_node old (record (told old entry) {
  node_certs =
      if eqb (length old.node_certs) 0 then (told old entry).node_certs else old.node_certs;
})

pub told-node_id :
    {N C : Type 0} (old : Node N C) (entry : HeartbeatNodeEntry N)
    → (stored old entry).node_id ≡ old.node_id
unfolding merge_node told
told-node_id old entry = refl

pub told-Knows :
    {N C : Type 0} (old : Node N C) (entry : HeartbeatNodeEntry N) → Knows old (stored old entry)
unfolding merge_node told merge_status
told-Knows old entry = record {
  addresses_kept = addresses_told old.addresses entry.addresses;
  same_certs = ground arith;
  same_sighting = ground arith;
  same_status = ground arith;
}
