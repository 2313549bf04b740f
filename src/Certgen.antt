-- ===== src/Certgen.antt =====
-- cmd/certgen/main.go: the tool that makes the keys of authorities and the certificates of nodes.
-- The file system, key generation, random bytes, the clock and the parsing of a duration are
-- arguments. What a command prints is its report.
pub mod SignNode
pub mod Show
use ouroboros_db.Base.{
  ℕ, zero, suc, ◌-◌, ◌+◌, ◌/◌, ◌*◌, String, string_eq, Bool, true, false, not, ◌||◌, List, [], ◌∷◌,
  Option, none, some, Result, ok, err, ◌>>=◌, ◌>>◌, or_fail, fail_if, ◌==◌, ltb, leb, length, drop,
  ℤ, pos, negsuc, ◌+ℤ◌, if◌then◌else◌,
}
use ouroboros_db.Auth.Types.{Bytes, Keys, CertSnapshot, Error}
use ouroboros_db.Auth.Canonical.{domain_separate, canonical_node_cert, marshal_pub_key_bytes}
use ouroboros_db.Auth.Ca.{
  kem_public_key_size, ctx_node_admission_v1, ctx_user_ca_anchor_v1, new_admin_ca, verify_node_cert,
}
use ouroboros_db.Auth.Delegation.{NodeKey, new_node_cert}
use ouroboros_db.AuthFile.{
  CaKeyFile, NodeCertFile, FileCodec, FileError, marshal_ca_key, marshal_node_cert,
  unmarshal_ca_key, unmarshal_node_cert, read_ca_key, build_embedded_trust_chain,
}

-- `time.Time`: seconds since 1970, and nanoseconds below a second.
pub record Time : Type 0 where
  pub seconds : ℤ
  pub nanos : ℕ

abbrev pub second : ℕ
second = 1000000000

abbrev minus : ℕ → ℤ
minus zero = pos 0
minus (suc n) = negsuc n

-- `t.Add(d).Unix()`, for a duration in nanoseconds.
unfoldable pub unix_after : Time → ℤ → ℤ
unix_after t (pos d) = t.seconds +ℤ pos ((t.nanos + d) / second)
unix_after t (negsuc d) =
    if leb (suc d) t.nanos
    then t.seconds
    else t.seconds +ℤ minus ((suc d - t.nanos + (second - 1)) / second)

abbrev pub default_validity : ℤ
default_validity = pos (365 * 24 * 3600 * second)

-- The file system as it is read and written, `keys.NewAsyncCrypt`, `MarshalKeyJSON`,
-- `time.ParseDuration`, the two random byte strings and the clock.
pub record Tools (P : Type 0) : Type 0 where
  pub read : String → Option Bytes
  pub writes : String → Bytes → Bool
  pub new_key : Option (NodeKey P)
  pub key_json : NodeKey P → Option Bytes
  pub parse_duration : String → Option ℤ
  pub serial : Option Bytes
  pub cert_nonce : Option Bytes
  pub now : Time

pub data CommandError : Type 0 where
  missing_flag : String → CommandError
  no_new_key no_key_json not_encoded not_written need_admin_ca invalid_validity : CommandError
  no_public_key out_of_range no_serial no_nonce not_signed : CommandError
  unreadable_file no_stored_key no_node_id unrecognized_format : CommandError
  bad_file : FileError → CommandError
  bad_ca : Error → CommandError

pub data Report (N : Type 0) : Type 0 where
  admin_ca_created user_ca_created : String → Report N
  node_cert_created : N → String → Report N
  ca_shown : String → String → Option String → Report N
  node_shown : N → String → ℕ → ℤ → ℤ → Report N

-- The file that a command leaves, and its report or its error.
pub record Outcome (N : Type 0) : Type 0 where
  pub written : Option (String × Bytes)
  pub result : Result CommandError (Report N)

-- An error under the name of the step.
abbrev pub failing {ℓ} :
    {E : Type 0} {A : Type ℓ} → (E → CommandError) → Result E A → Result CommandError A
failing as_error (ok a) = ok a
failing as_error (err e) = err (as_error e)

-- The value after the first occurrence of the flag that has one.
unfoldable pub parse_flag : List String → String → Option String
parse_flag [] name = none
parse_flag (a ∷ []) name = none
parse_flag (a ∷ value ∷ rest) name =
    let later = parse_flag (value ∷ rest) name in if a == name then some value else later

-- What is written and the report after it, once they are prepared.
unfoldable pub write_out :
    {P N : Type 0}
    → Tools P
    → Result CommandError (String × Bytes × Result CommandError (Report N))
    → Outcome N
write_out tools (err e) = record { written = none; result = err e }
write_out tools (ok (path, bytes, after)) =
    if tools.writes path bytes
    then record { written = some (path, bytes); result = after }
    else record { written = none; result = err not_written }

module _ {P N : Type 0} (k : Keys P N) where
  -- The hash of the authority is computed after its key is written.
  unfoldable pub created_admin : NodeKey P → Result CommandError (Report N)
  created_admin ac = do
    pub_bytes ← failing bad_ca (marshal_pub_key_bytes k ac.pub_key)
    admin_ca ← failing bad_ca (new_admin_ca k pub_bytes)
    ok (admin_ca_created admin_ca.hash)

module _ {P N : Type 0} (k : Keys P N) (tools : Tools P) where
  -- The file of a user authority that the admin authority anchors, and the admin's hash.
  unfoldable pub anchored_user : NodeKey P → Result CommandError (CaKeyFile × String)
  anchored_user admin_ac = do
    admin_pub_bytes ← failing bad_ca (marshal_pub_key_bytes k admin_ac.pub_key)
    admin_ca ← failing bad_ca (new_admin_ca k admin_pub_bytes)
    user_ac ← or_fail tools.new_key no_new_key
    user_pub_bytes ← failing bad_ca (marshal_pub_key_bytes k user_ac.pub_key)
    anchor_sig ←
        or_fail (admin_ac.sign (domain_separate ctx_user_ca_anchor_v1 user_pub_bytes)) not_signed
    key_json ← or_fail (tools.key_json user_ac) no_key_json
    admin_pub_kem ← or_fail (k.marshal_binary_kem admin_ac.pub_key) no_public_key
    admin_pub_sign ← or_fail (k.marshal_binary_sign admin_ac.pub_key) no_public_key
    ok (
      record {
        file_type = "user-ca";
        key_json = key_json;
        anchor_sig = anchor_sig;
        anchor_admin = admin_ca.hash;
        anchor_admin_pub_kem = admin_pub_kem;
        anchor_admin_pub_sign = admin_pub_sign;
      },
      admin_ca.hash,
    )

module _ {P N : Type 0} (k : Keys P N) (codec : FileCodec P) (tools : Tools P) where
  unfoldable pub cmd_admin_ca : List String → Outcome N
  cmd_admin_ca args = write_out tools (do
    out ← or_fail (parse_flag args "-out") (missing_flag "-out")
    ac ← or_fail tools.new_key no_new_key
    key_json ← or_fail (tools.key_json ac) no_key_json
    bytes ←
        or_fail
          (marshal_ca_key codec (record {
            file_type = "admin-ca";
            key_json = key_json;
            anchor_sig = [];
            anchor_admin = "";
            anchor_admin_pub_kem = [];
            anchor_admin_pub_sign = [];
          }))
          not_encoded
    ok (out, bytes, created_admin k ac))

  unfoldable pub cmd_user_ca : List String → Outcome N
  cmd_user_ca args = write_out tools (do
    admin_path ← or_fail (parse_flag args "-admin-key") (missing_flag "-admin-key")
    out ← or_fail (parse_flag args "-out") (missing_flag "-out")
    (admin_ac, admin_file) ← failing bad_file (read_ca_key codec (tools.read admin_path))
    fail_if (not (admin_file.file_type == "admin-ca")) need_admin_ca
    (f, admin_hash) ← anchored_user k tools admin_ac
    bytes ← or_fail (marshal_ca_key codec f) not_encoded
    ok (out, bytes, ok (user_ca_created admin_hash)))
