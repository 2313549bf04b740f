-- ===== src/Auth/Chain.antt =====
-- internal/auth/trust_snapshot.go, checks 1 to 3: which certificates of a bundle count, and what
-- the ones whose signatures hold say of the peer.
pub mod Vouched
pub mod Backing
pub mod Sound
pub mod Complete
use ouroboros_db.Base.{
  ℕ, suc, String, string_eq, Bool, true, false, not, ◌||◌, ◌&&◌, List, [], ◌∷◌, ◌++◌, Option, none,
  some, Result, ok, err, ◌>>=◌, ◌>>◌, or_fail, fail_if, Eq, ◌==◌, Map, Set, has, lookup, ℤ, ltb_ℤ,
  if◌then◌else◌, get_elem?,
}
use ouroboros_db.Auth.Types.{
  Bytes, Keys, CertSnapshot, Error, external, unknown_issuer, mismatched_node_id, no_valid_certs,
}
use ouroboros_db.Auth.Ca.{CaBase, AdminCa, UserCa, verify_node_cert}
use ouroboros_db.Auth.Store.{CarrierAuth}

pub record TrustSnapshot (P N : Type 0) : Type 0 where
  pub admin_cas : Map String (AdminCa P)
  pub user_cas : Map String (UserCa P)
  pub revoked_admin_cas : Set String
  pub revoked_user_cas : Set String
  pub revoked_nodes : Set N

unfoldable pub snap_trust_store : {P N H : Type 0} → CarrierAuth P N H → TrustSnapshot P N
snap_trust_store ca = record {
  admin_cas = ca.admin_cas;
  user_cas = ca.user_cas;
  revoked_admin_cas = ca.revoked_admin_cas;
  revoked_user_cas = ca.revoked_user_cas;
  revoked_nodes = ca.revoked_nodes;
}

pub data IssuerType : Type 0 where
  issuer_admin issuer_user : IssuerType

-- `verifier` is the authority's `caBase`, whose method is called.
pub record IssuerInfo (P : Type 0) : Type 0 where
  pub typ : IssuerType
  pub verifier : CaBase P

pub record AuthResult (P N : Type 0) : Type 0 where
  pub node_pub_key : P
  pub node_id : N
  pub admin_valid : Bool
  pub user_hashes : List String

-- The variables of the loop of `verifyAuthority`; `first` is the first NodeID with its key, once
-- `nidSet` holds.
pub record Found (P N : Type 0) : Type 0 where
  pub first : Option (N × P)
  pub admin_valid : Bool
  pub user_hashes : List String

unfoldable pub note_issuer : {P N : Type 0} → Found P N → IssuerType → CertSnapshot P N → Found P N
note_issuer f issuer_admin cert = record f { admin_valid = true }
note_issuer f issuer_user cert = record f {
  user_hashes = f.user_hashes ++ (cert.issuer_ca_hash ∷ []);
}

-- The end of `verifyAuthority`.
unfoldable pub to_auth_result : {P N : Type 0} → Found P N → Result Error (AuthResult P N)
to_auth_result f = do
  (nid, pub_key) ← or_fail f.first no_valid_certs
  ok (record {
    node_pub_key = pub_key;
    node_id = nid;
    admin_valid = f.admin_valid;
    user_hashes = f.user_hashes;
  })

module _ {P N : Type 0} ⦃e : Eq N⦄ where
  -- One certificate whose signature holds.
  unfoldable pub note_cert :
      Found P N → CertSnapshot P N → N × P × IssuerType → Result Error (Found P N)
  note_cert f cert (nid, pub_key, typ) = elim f.first [
    | none ↦ ok (note_issuer (record f { first = some (nid, pub_key) }) typ cert)
    | some (first_nid, first_pub) ↦
        if not (first_nid == nid) then err mismatched_node_id else ok (note_issuer f typ cert)
  ]

module _ {P N : Type 0} (ts : TrustSnapshot P N) where
  unfoldable pub lookup_issuer : String → Option (IssuerInfo P)
  lookup_issuer ca_hash = elim (lookup ca_hash ts.admin_cas) [
    | some admin ↦ some (record { typ = issuer_admin; verifier = admin.base })
    | none ↦ elim (lookup ca_hash ts.user_cas) [
      | some user ↦ some (record { typ = issuer_user; verifier = user.base })
      | none ↦ none
    ]
  ]

  unfoldable pub is_ca_revoked : String → Bool
  is_ca_revoked ca_hash = has ca_hash ts.revoked_admin_cas || has ca_hash ts.revoked_user_cas

  unfoldable pub is_node_revoked : ⦃e : Eq N⦄ → N → Bool
  is_node_revoked nid = has nid ts.revoked_nodes

  unfoldable pub is_user_ca_anchor_valid : String → Bool
  is_user_ca_anchor_valid ca_hash = elim (lookup ca_hash ts.user_cas) [
    | none ↦ true
    | some issuer ↦
        if has issuer.anchor_admin_hash ts.revoked_admin_cas
        then false
        else has issuer.anchor_admin_hash ts.admin_cas
  ]

module _ {P N : Type 0} ⦃e : Eq N⦄ (k : Keys P N) (ts : TrustSnapshot P N) where
  unfoldable pub is_cert_valid : CertSnapshot P N → ℤ → Bool
  unfolding is_ca_revoked is_node_revoked
  is_cert_valid cert now =
      if ltb_ℤ now cert.valid_from || ltb_ℤ cert.valid_until now
      then false
      else elim (lookup_issuer ts cert.issuer_ca_hash) [
        | none ↦ false
        | some issuer ↦
            if is_ca_revoked ts cert.issuer_ca_hash
            then false
            else if not (is_user_ca_anchor_valid ts cert.issuer_ca_hash)
            then false
            else elim (k.node_id cert.node_pub_key) [
              | none ↦ false
              | some nid ↦ not (is_node_revoked ts nid)
            ]
      ]

  -- The loop of `filterValidCerts`, from index `i`.
  unfoldable pub valid_indices : ℕ → List (CertSnapshot P N) → ℤ → List ℕ
  valid_indices i [] now = []
  valid_indices i (cert ∷ certs) now =
      let rest = valid_indices (suc i) certs now in
      if not (is_cert_valid cert now) then rest else i ∷ rest

  unfoldable pub filter_valid_certs : List (CertSnapshot P N) → ℤ → Result Error (List ℕ)
  filter_valid_certs certs now = elim (valid_indices 0 certs now) [
    | [] ↦ err no_valid_certs
    | i ∷ is ↦ ok (i ∷ is)
  ]

  unfoldable pub verify_single_cert : CertSnapshot P N → Bytes → Result Error (N × P × IssuerType)
  verify_single_cert cert sig = do
    issuer ← or_fail (lookup_issuer ts cert.issuer_ca_hash) unknown_issuer
    nid ← verify_node_cert k issuer.verifier cert sig
    pub_key_nid ← or_fail (k.node_id cert.node_pub_key) external
    fail_if (not (nid == pub_key_nid)) mismatched_node_id
    ok (nid, cert.node_pub_key, issuer.typ)

  -- One round: a certificate whose signature does not hold is skipped with a log line. An index
  -- out of range panics in Go; the callers' lengths rule it out.
  unfoldable pub authority_round :
      List (CertSnapshot P N) → List Bytes → ℕ → Found P N → Result Error (Found P N)
  authority_round certs sigs idx f = elim (get_elem? certs idx) [
    | none ↦ ok f
    | some cert ↦ elim (get_elem? sigs idx) [
      | none ↦ ok f
      | some sig ↦ elim (verify_single_cert cert sig) [
        | err e ↦ ok f
        | ok found ↦ note_cert f cert found
      ]
    ]
  ]

  unfoldable pub authority_loop :
      List (CertSnapshot P N) → List Bytes → List ℕ → Found P N → Result Error (Found P N)
  authority_loop certs sigs [] f = ok f
  authority_loop certs sigs (idx ∷ idxs) f = do
    g ← authority_round certs sigs idx f
    authority_loop certs sigs idxs g

  unfoldable pub verify_authority :
      List (CertSnapshot P N) → List Bytes → List ℕ → Result Error (AuthResult P N)
  verify_authority certs sigs valid_idxs = do
    f ←
        authority_loop certs sigs valid_idxs
          (record { first = none; admin_valid = false; user_hashes = [] })
    to_auth_result f

  unfoldable pub verify_chain :
      List (CertSnapshot P N) → List Bytes → ℤ → Result Error (AuthResult P N)
  verify_chain certs sigs now_unix = do
    valid_idxs ← filter_valid_certs certs now_unix
    verify_authority certs sigs valid_idxs
