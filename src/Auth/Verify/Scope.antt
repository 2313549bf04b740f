-- ===== src/Auth/Verify/Scope.antt =====
-- The authority that an accepted peer gets, and whom revocation keeps out.
use ouroboros_db.Base.{
  String, string_eq, ◌≡◌, ◌≢◌, sym, ap, ◌∙◌, true, false, List, [], none, some, ok, Eq, ℤ, All,
  All-map, arith, has, lookup, inl, inr, ◌⊎◌, subst, Option-cases,
}
use ouroboros_db.Auth.Types.{Keys, AuthContext, scope_admin, CertSnapshot}
use ouroboros_db.Auth.Ca.{UserCa}
use ouroboros_db.Auth.Store.{CarrierAuth, Call, revoke_node, run}
use ouroboros_db.Auth.Store.Revocation.{revoke_node_permanent}
use ouroboros_db.Auth.Chain.{
  TrustSnapshot, AuthResult, IssuerInfo, issuer_admin, issuer_user, snap_trust_store, lookup_issuer,
  is_ca_revoked, is_node_revoked, is_user_ca_anchor_valid,
}
use ouroboros_db.Auth.Chain.Backing.{Backing, IssuedBy}
use ouroboros_db.Auth.Embedded.Trust.{Extends}
use ouroboros_db.Auth.Snapshot.{snapshot_certs}
use ouroboros_db.Auth.Verify.{PeerHandshake, verify_peer_cert, derive_scope}
use ouroboros_db.Auth.Verify.Sound.{
  HasInt64Times, IsAuthenticated, verify_peer_cert-IsAuthenticated,
}

module _ {P N : Type 0} (ts : TrustSnapshot P N) where
  lookup_issuer_admin :
      (h : String) {i : IssuerInfo P}
      → lookup_issuer ts h ≡ some i
      → i.typ ≡ issuer_admin
      → has h ts.admin_cas ≡ true
  unfolding lookup_issuer
  lookup_issuer_admin h found typ = ground arith

  lookup_issuer_user :
      (h : String) {i : IssuerInfo P}
      → lookup_issuer ts h ≡ some i
      → i.typ ≡ issuer_user
      → (user : UserCa P) × (lookup h ts.user_cas ≡ some user)
  unfolding lookup_issuer
  lookup_issuer_user h found typ = elim (Option-cases (lookup h ts.user_cas)) [
    | inl missing ↦ absurd (ground arith)
    | inr known ↦ known
  ]

  not_ca_revoked :
      (h : String)
      → is_ca_revoked ts h ≡ false
      → (has h ts.revoked_admin_cas ≡ false) × (has h ts.revoked_user_cas ≡ false)
  unfolding is_ca_revoked
  not_ca_revoked h live = ground arith

  anchor_of :
      (h : String) (user : UserCa P)
      → lookup h ts.user_cas ≡ some user
      → is_user_ca_anchor_valid ts h ≡ true
      → (has user.anchor_admin_hash ts.admin_cas ≡ true)
        × (has user.anchor_admin_hash ts.revoked_admin_cas ≡ false)
  unfolding is_user_ca_anchor_valid
  anchor_of h user known valid = ground arith

pub derive_scope_node : {P N : Type 0} (r : AuthResult P N) → (derive_scope r).node_id ≡ r.node_id
unfolding derive_scope
derive_scope_node r = ground arith

derive_scope_admin :
    {P N : Type 0} (r : AuthResult P N)
    → (derive_scope r).effective_scope ≡ scope_admin
    → r.admin_valid ≡ true
unfolding derive_scope
derive_scope_admin r h = ground arith

derive_scope_owners :
    {P N : Type 0} (r : AuthResult P N)
    → ((derive_scope r).allowed_user_ca_owners ≡ [])
      ⊎ ((derive_scope r).allowed_user_ca_owners ≡ r.user_hashes)
unfolding derive_scope
derive_scope_owners r = ground arith

module _ {P N H : Type 0} ⦃e : Eq N⦄ (k : Keys P N) (ca : CarrierAuth P N H) (now : ℤ)
    (hs : PeerHandshake P N) (ctx : AuthContext N) (times : HasInt64Times hs)
    (accepted : verify_peer_cert k ca now hs ≡ ok ctx) where
  shown : IsAuthenticated k ca now hs ctx
  shown = verify_peer_cert-IsAuthenticated k ca now hs ctx times accepted

  same_node : shown.result.node_id ≡ ctx.node_id
  same_node =
      sym (derive_scope_node shown.result) ∙ ap (λ (c : AuthContext N). c.node_id) shown.scoped

  -- A handshake whose delegation has int64 times is accepted only under a NodeID that the store has
  -- not revoked.
  pub verify_peer_cert-revoked_node : has ctx.node_id ca.revoked_nodes ≡ false
  unfolding is_node_revoked snap_trust_store
  verify_peer_cert-revoked_node =
      let (typ, h, b) = shown.backed.0 in
      subst (λ nodes. has ctx.node_id nodes ≡ false) shown.trust_extends.same_revoked_nodes
        (subst (λ n. has n shown.trust.revoked_nodes ≡ false) same_node
          b.is_vouched.node_not_revoked)

  -- In a handshake with int64 delegation times, an accepted peer with admin scope presented a
  -- vouched certificate for its NodeID whose issuer is one of the store's own admin authorities and
  -- is not revoked.
  pub verify_peer_cert-admin_scope :
      ctx.effective_scope ≡ scope_admin
      → (h : String) × (has h ca.admin_cas ≡ true)
        × (has h ca.revoked_admin_cas ≡ false)
        × (ts : TrustSnapshot P N) × Extends k (snap_trust_store ca) ts
        × (certs : List (CertSnapshot P N)) × (snapshot_certs k hs.certs ≡ ok certs)
        × IssuedBy k ts now certs hs.ca_signatures ctx.node_id issuer_admin h
  unfolding snap_trust_store
  verify_peer_cert-admin_scope scope =
      let a = shown in
      let x = a.trust_extends in
      let admin =
        derive_scope_admin a.result
          (ap (λ (c : AuthContext N). c.effective_scope) a.scoped ∙ scope) in
      let (h, issued) = a.backed.1 admin in
      let (pub_key, b) = issued in
      let v = b.is_vouched in
      let known = lookup_issuer_admin a.trust b.cert.issuer_ca_hash v.issuer_known v.issuer_typ in
      let live = (not_ca_revoked a.trust b.cert.issuer_ca_hash v.ca_not_revoked).0 in
      (
        h,
        subst (λ m. has h m ≡ true) x.same_admins
            (subst (λ s. has s a.trust.admin_cas ≡ true) b.same_issuer known),
        subst (λ m. has h m ≡ false) x.same_revoked_admins
            (subst (λ s. has s a.trust.revoked_admin_cas ≡ false) b.same_issuer live),
        a.trust,
        x,
        a.certs,
        a.frozen,
        (
          pub_key,
          subst (λ n. Backing k a.trust now a.certs hs.ca_signatures n pub_key issuer_admin h)
              same_node b,
        ),
      )

  -- What a listed owner is: a user authority that is not revoked, of whose anchor the same holds,
  -- that issued a vouched certificate of the peer.
  pub record IsOwner (h : String) : Type 0 where
    pub trust : TrustSnapshot P N
    pub trust_extends : Extends k (snap_trust_store ca) trust
    pub not_revoked : has h ca.revoked_user_cas ≡ false
    pub user : UserCa P
    pub user_known : lookup h trust.user_cas ≡ some user
    pub anchor_trusted : has user.anchor_admin_hash ca.admin_cas ≡ true
    pub anchor_not_revoked : has user.anchor_admin_hash ca.revoked_admin_cas ≡ false
    pub certs : List (CertSnapshot P N)
    pub frozen : snapshot_certs k hs.certs ≡ ok certs
    pub issued : IssuedBy k trust now certs hs.ca_signatures ctx.node_id issuer_user h

  owner :
      (h : String)
      → IssuedBy k shown.trust now shown.certs hs.ca_signatures shown.result.node_id issuer_user h
      → IsOwner h
  unfolding snap_trust_store
  owner h (pub_key, b) =
      let a = shown in
      let x = a.trust_extends in
      let v = b.is_vouched in
      let (user, known) =
        lookup_issuer_user a.trust b.cert.issuer_ca_hash v.issuer_known v.issuer_typ in
      let live = (not_ca_revoked a.trust b.cert.issuer_ca_hash v.ca_not_revoked).1 in
      let (trusted, unrevoked) =
        anchor_of a.trust b.cert.issuer_ca_hash user known v.anchor_valid in
      record {
        trust = a.trust;
        trust_extends = x;
        not_revoked =
            subst (λ m. has h m ≡ false) x.same_revoked_users
              (subst (λ s. has s a.trust.revoked_user_cas ≡ false) b.same_issuer live);
        user = user;
        user_known = subst (λ s. lookup s a.trust.user_cas ≡ some user) b.same_issuer known;
        anchor_trusted = subst (λ m. has user.anchor_admin_hash m ≡ true) x.same_admins trusted;
        anchor_not_revoked =
            subst (λ m. has user.anchor_admin_hash m ≡ false) x.same_revoked_admins unrevoked;
        certs = a.certs;
        frozen = a.frozen;
        issued = (
          pub_key,
          subst (λ n. Backing k a.trust now a.certs hs.ca_signatures n pub_key issuer_user h)
              same_node b,
        );
      }

  -- In a handshake with int64 delegation times, each owner that an accepted peer may act for is a
  -- user authority, neither revoked itself nor under a revoked or missing anchor, that issued a
  -- vouched certificate for the peer's NodeID.
  pub verify_peer_cert-owners : All IsOwner ctx.allowed_user_ca_owners
  verify_peer_cert-owners =
      let listed = All-map _ IsOwner shown.result.user_hashes owner shown.backed.2 in
      subst (λ (c : AuthContext N). All IsOwner c.allowed_user_ca_owners) shown.scoped
        (elim (derive_scope_owners shown.result) [
          | inl nobody ↦ rw nobody tt
          | inr all ↦ rw all listed
        ])

-- After a revocation of a node that reports no error, whatever the store's methods are called with
-- later, no handshake with int64 delegation times is accepted under the node's NodeID.
pub revoke_node-verify_peer_cert :
    {P N H : Type 0}
    → ⦃e : Eq N⦄
    → (k : Keys P N) (ca : CarrierAuth P N H) (n : N) (cs : List (Call N H)) (now : ℤ)
      (hs : PeerHandshake P N) (ctx : AuthContext N)
    → (revoke_node ca n).1 ≡ none
    → HasInt64Times hs
    → verify_peer_cert k (run k (revoke_node ca n).0 cs) now hs ≡ ok ctx
    → ctx.node_id ≢ n
revoke_node-verify_peer_cert k ca n cs now hs ctx done times accepted same =
    let later = run k (revoke_node ca n).0 cs in
    let stays = revoke_node_permanent k ca n cs done in
    let out = verify_peer_cert-revoked_node k later now hs ctx times accepted in
    cc (stays, subst (λ x. has x later.revoked_nodes ≡ false) same out)
