-- ===== src/Tests/World.antt =====
-- A small stand-in for the cryptographic library: a key is a number, its signature of a message is
-- the number before the message, and it is its own NodeID.
use ouroboros_db.Base.{
  ℕ, zero, suc, String, List, [], ◌∷◌, ◌++◌, some, eqb, bytes_eq, if◌then◌else◌,
}
use ouroboros_db.Auth.Types.{Bytes, Keys}

abbrev pub fill : ℕ → ℕ → Bytes
fill zero b = []
fill (suc n) b = b ∷ fill n b

abbrev pub first_byte : Bytes → ℕ
first_byte [] = 0
first_byte (b ∷ bs) = b

abbrev pub join : List Bytes → Bytes
join [] = []
join (b ∷ bs) = b ++ join bs

abbrev pub label : ℕ → String
label n = if eqb n 7 then "admin" else if eqb n 8 then "user" else "other"

abbrev pub world : Keys ℕ ℕ
world = record {
  new_public_key_from_binary = λ kem sign. some (first_byte sign);
  marshal_binary_kem = λ p. some (fill 1568 0);
  marshal_binary_sign = λ p. some (p ∷ []);
  verify = λ p msg sig. bytes_eq sig (p ∷ msg);
  node_id = λ p. some p;
  sha256 = λ b. fill 32 (first_byte b);
  hex = λ b. label (first_byte b);
  marshal_cert = λ c. some (c.cert_version ∷ c.serial);
  marshal_bundle = λ bs. some (join bs);
  marshal_delegation = λ d. some (d.tls_transcript_hash ++ d.tls_exporter_binding);
  marshal_no_exporter = λ d. some d.tls_transcript_hash;
}
