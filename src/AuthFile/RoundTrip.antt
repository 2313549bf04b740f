-- ===== src/AuthFile/RoundTrip.antt =====
-- What is read of the files that are written.
use ouroboros_db.Base.{string_eq, ◌≡◌, refl, ap, List, [], ◌∷◌, some, ok, map}
use ouroboros_db.Auth.Types.{Bytes}
use ouroboros_db.Auth.Delegation.{NodeKey}
use ouroboros_db.AuthFile.{
  NodeCertFile, EmbeddedCaFile, FileCodec, authority_to_pb, authority_of_pb, node_file_to_pb,
  node_file_of_pb, unmarshal_node_cert, read_node_cert, marshal_node_cert,
}

authorities_back : (xs : List EmbeddedCaFile) → map authority_of_pb (map authority_to_pb xs) ≡ xs
unfolding authority_of_pb authority_to_pb
authorities_back [] = refl
authorities_back (a ∷ xs) = ap (◌∷◌ a) (authorities_back xs)

node_file_back : (f : NodeCertFile) → node_file_of_pb (node_file_to_pb f) ≡ f
unfolding node_file_of_pb node_file_to_pb
node_file_back f = rw (authorities_back f.authorities) refl

module _ {P : Type 0} (codec : FileCodec P) where
  -- A node certificate's file of the type "node-cert" whose key loads is read back as it was
  -- written with that key, if the decoder gives back the message that was encoded.
  pub marshal_node_cert-read_node_cert :
      (f : NodeCertFile) (bytes : Bytes) (key : NodeKey P)
      → (codec.marshal_node_file (node_file_to_pb f) ≡ some bytes
          → codec.unmarshal_node_file bytes ≡ some (node_file_to_pb f))
      → f.file_type ≡ "node-cert"
      → codec.load_key f.key_json ≡ some key
      → marshal_node_cert codec f ≡ some bytes
      → read_node_cert codec (some bytes) ≡ ok (key, f)
  unfolding read_node_cert unmarshal_node_cert marshal_node_cert
  marshal_node_cert-read_node_cert f bytes key back typ loads marshals =
      rw (back marshals, node_file_back f, typ, loads) refl
