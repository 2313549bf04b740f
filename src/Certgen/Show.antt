-- ===== src/Certgen/Show.antt =====
-- cmd/certgen/main.go: `cmdShow` and `main`.
use ouroboros_db.Base.{
  String, string_eq, ◌||◌, List, [], ◌∷◌, Option, none, some, Result, ok, err, ◌>>=◌, or_fail, ◌==◌,
  length, if◌then◌else◌,
}
use ouroboros_db.Auth.Types.{Bytes, Keys}
use ouroboros_db.Auth.Canonical.{marshal_pub_key_bytes}
use ouroboros_db.Auth.Ca.{new_admin_ca}
use ouroboros_db.AuthFile.{
  CaKeyFile, NodeCertFile, FileCodec, unmarshal_ca_key, unmarshal_node_cert,
}
use ouroboros_db.Certgen.{
  Tools, CommandError, missing_flag, unreadable_file, no_stored_key, no_node_id,
  unrecognized_format, bad_ca, Report, ca_shown, node_shown, Outcome, failing, parse_flag,
  cmd_admin_ca, cmd_user_ca,
}
use ouroboros_db.Certgen.SignNode.{cmd_sign_node}

module _ {P N : Type 0} (k : Keys P N) (codec : FileCodec P) (tools : Tools P) where
  unfoldable pub show_ca : CaKeyFile → Result CommandError (Report N)
  show_ca f = do
    ac ← or_fail (codec.load_key f.key_json) no_stored_key
    pub_bytes ← failing bad_ca (marshal_pub_key_bytes k ac.pub_key)
    authority ← failing bad_ca (new_admin_ca k pub_bytes)
    ok (
        ca_shown f.file_type authority.hash
          (if f.file_type == "user-ca" then some f.anchor_admin else none))

  unfoldable pub show_node : NodeCertFile → Result CommandError (Report N)
  show_node f = do
    ac ← or_fail (codec.load_key f.key_json) no_stored_key
    node_id ← or_fail (k.node_id ac.pub_key) no_node_id
    ok (node_shown node_id f.issuer_ca_hash (length f.authorities) f.valid_from f.valid_until)

  -- The second format is tried if the first is not that of an authority's key.
  unfoldable pub show_as_node : Bytes → Result CommandError (Report N)
  show_as_node bytes = elim (unmarshal_node_cert codec bytes) [
    | err bad ↦ err unrecognized_format
    | ok f ↦ if f.file_type == "node-cert" then show_node f else err unrecognized_format
  ]

  unfoldable pub show_file : Bytes → Result CommandError (Report N)
  show_file bytes = elim (unmarshal_ca_key codec bytes) [
    | err bad ↦ show_as_node bytes
    | ok f ↦
        if f.file_type == "admin-ca" || f.file_type == "user-ca"
        then show_ca f
        else show_as_node bytes
  ]

  unfoldable pub cmd_show : List String → Result CommandError (Report N)
  cmd_show args = do
    path ← or_fail (parse_flag args "-file") (missing_flag "-file")
    bytes ← or_fail (tools.read path) unreadable_file
    show_file bytes

  -- `main` with the arguments after the program's name; `none` is the usage with exit code 2.
  unfoldable pub certgen_main : List String → Option (Outcome N)
  certgen_main [] = none
  certgen_main (command ∷ args) =
      if command == "admin-ca"
      then some (cmd_admin_ca k codec tools args)
      else if command == "user-ca"
      then some (cmd_user_ca k codec tools args)
      else if command == "sign-node"
      then some (cmd_sign_node k codec tools args)
      else if command == "show"
      then some (record { written = none; result = cmd_show args })
      else none
