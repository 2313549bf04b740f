-- ===== src/Auth/Embedded/Trust.antt =====
-- What a peer's authorities can change, and what they cannot.
use ouroboros_db.Base.{
  String, string_eq, ◌≡◌, refl, ◌∙◌, subst, true, false, List, [], ◌∷◌, some, ok, ◌==◌, has, lookup,
  insert, arith, inl, inr, ◌⊎◌, >>=-eq-ok, lookup-insert_cases, Bool-cases, Option-cases,
}
use ouroboros_db.Auth.Types.{Bytes, Keys, EmbeddedCa}
use ouroboros_db.Auth.Canonical.{domain_separate}
use ouroboros_db.Auth.Ca.{AdminCa, UserCa, new_user_ca, verify, ctx_user_ca_anchor_v1}
use ouroboros_db.Auth.Chain.{TrustSnapshot}
use ouroboros_db.Auth.Embedded.{
  embedded_authority_pub_key_bytes, add_embedded_admin, anchor_embedded_user, add_embedded_user,
  admin_round, user_round, embed_admins, embed_users, with_embedded_authorities,
}

module _ {P N : Type 0} (k : Keys P N) (ts : TrustSnapshot P N) where
  -- The store's admin authorities, of which one that is not revoked signed the user authority's
  -- key bytes; the user authority is not revoked itself.
  pub record IsAnchored (h : String) (user : UserCa P) : Type 0 where
    pub own_hash : user.hash ≡ h
    pub not_revoked : has h ts.revoked_user_cas ≡ false
    pub pub_bytes : Bytes
    pub anchor : String
    pub sig : Bytes
    pub parsed : new_user_ca k pub_bytes sig anchor ≡ ok user
    pub admin : AdminCa P
    pub admin_trusted : lookup anchor ts.admin_cas ≡ some admin
    pub admin_not_revoked : has anchor ts.revoked_admin_cas ≡ false
    pub signed : verify k admin.base (domain_separate ctx_user_ca_anchor_v1 pub_bytes) sig ≡ true

  -- Only user authorities were added, and each that was is anchored.
  pub record Extends (ts' : TrustSnapshot P N) : Type 0 where
    pub same_admins : ts'.admin_cas ≡ ts.admin_cas
    pub same_revoked_admins : ts'.revoked_admin_cas ≡ ts.revoked_admin_cas
    pub same_revoked_users : ts'.revoked_user_cas ≡ ts.revoked_user_cas
    pub same_revoked_nodes : ts'.revoked_nodes ≡ ts.revoked_nodes
    pub new_users_anchored :
        (h : String) (user : UserCa P)
        → lookup h ts'.user_cas ≡ some user
        → (lookup h ts.user_cas ≡ some user) ⊎ IsAnchored h user

  pub Extends-refl : Extends ts
  Extends-refl = record {
    same_admins = refl;
    same_revoked_admins = refl;
    same_revoked_users = refl;
    same_revoked_nodes = refl;
    new_users_anchored = λ h user e. inl e;
  }

  add_embedded_admin_lem :
      (s s' : TrustSnapshot P N) (authority : EmbeddedCa)
      → add_embedded_admin k s authority ≡ ok s'
      → s ≡ s'
  unfolding add_embedded_admin
  add_embedded_admin_lem s s' authority h = ground arith

  embed_admins_lem :
      (s s' : TrustSnapshot P N) (authorities : List EmbeddedCa)
      → embed_admins k s authorities ≡ ok s'
      → s ≡ s'
  unfolding embed_admins admin_round
  embed_admins_lem s s' [] h = ground arith
  embed_admins_lem s s' (authority ∷ rest) h =
      let (next, here, later) = >>=-eq-ok (admin_round k s authority) _ h in
      let kept : s ≡ next = ground (arith, add_embedded_admin_lem s next authority) in
      kept ∙ embed_admins_lem next s' rest later

  insert_user-Extends :
      (s : TrustSnapshot P N) (authority : EmbeddedCa) (pub_bytes : Bytes) (user : UserCa P)
      (admin : AdminCa P)
      → Extends s
      → new_user_ca k pub_bytes authority.anchor_sig authority.anchor_admin ≡ ok user
      → has user.hash s.revoked_user_cas ≡ false
      → lookup authority.anchor_admin s.admin_cas ≡ some admin
      → has authority.anchor_admin s.revoked_admin_cas ≡ false
      → verify k admin.base (domain_separate ctx_user_ca_anchor_v1 pub_bytes) authority.anchor_sig
        ≡ true
      → Extends (record s { user_cas = insert user.hash user s.user_cas })
  insert_user-Extends s authority pub_bytes user admin x parsed free found live signed = record {
    same_admins = x.same_admins;
    same_revoked_admins = x.same_revoked_admins;
    same_revoked_users = x.same_revoked_users;
    same_revoked_nodes = x.same_revoked_nodes;
    new_users_anchored = λ h u e. elim (lookup-insert_cases user.hash h user u s.user_cas e) [
      | inr old ↦ x.new_users_anchored h u old
      | inl (same_hash, same_user) ↦ inr (record {
        own_hash = rw (← same_user) same_hash;
        not_revoked = rw (← same_hash, ← x.same_revoked_users) free;
        pub_bytes = pub_bytes;
        anchor = authority.anchor_admin;
        sig = authority.anchor_sig;
        parsed = rw (← same_user) parsed;
        admin = admin;
        admin_trusted = rw (← x.same_admins) found;
        admin_not_revoked = rw (← x.same_revoked_admins) live;
        signed = signed;
      })
    ];
  }

  anchor_embedded_user-Extends :
      (s s' : TrustSnapshot P N) (authority : EmbeddedCa) (pub_bytes : Bytes) (user : UserCa P)
      → Extends s
      → new_user_ca k pub_bytes authority.anchor_sig authority.anchor_admin ≡ ok user
      → has user.hash s.revoked_user_cas ≡ false
      → anchor_embedded_user k s authority pub_bytes user ≡ ok s'
      → Extends s'
  unfolding anchor_embedded_user
  anchor_embedded_user-Extends s s' authority pub_bytes user x parsed free h =
      elim (Option-cases (lookup authority.anchor_admin s.admin_cas)) [
        | inl missing ↦ absurd (ground arith)
        | inr (admin, found) ↦ subst Extends (added admin found) (
            insert_user-Extends s authority pub_bytes user admin x parsed free found (ground arith)
              (ground arith))
      ]
    where
      added :
          (admin : AdminCa P)
          → lookup authority.anchor_admin s.admin_cas ≡ some admin
          → record s { user_cas = insert user.hash user s.user_cas } ≡ s'
      added admin found = ground arith

  add_embedded_user-Extends :
      (s s' : TrustSnapshot P N) (authority : EmbeddedCa)
      → Extends s
      → add_embedded_user k s authority ≡ ok s'
      → Extends s'
  unfolding add_embedded_user
  add_embedded_user-Extends s s' authority x h =
      let (pub_bytes, _, h₁) = >>=-eq-ok (embedded_authority_pub_key_bytes k authority) _ h in
      let (user, parsed, h₂) = >>=-eq-ok (new_user_ca k pub_bytes _ _) _ h₁ in
      elim (Bool-cases (has user.hash s.revoked_user_cas)) [
        | inl revoked ↦ absurd (ground arith)
        | inr free ↦ elim (Bool-cases (has user.hash s.user_cas)) [
          | inl known ↦ subst Extends (ground arith) x
          | inr new ↦
              anchor_embedded_user-Extends s s' authority pub_bytes user x parsed free
                (ground arith)
        ]
      ]

  embed_users-Extends :
      (s s' : TrustSnapshot P N) (authorities : List EmbeddedCa)
      → Extends s
      → embed_users k s authorities ≡ ok s'
      → Extends s'
  unfolding embed_users user_round
  embed_users-Extends s s' [] x h = subst Extends (ground arith) x
  embed_users-Extends s s' (authority ∷ rest) x h =
      let (next, here, later) = >>=-eq-ok (user_round k s authority) _ h in
      elim (Bool-cases (authority.ca_type == "user-ca")) [
        | inl user_ca ↦
            embed_users-Extends next s' rest
              (add_embedded_user-Extends s next authority x (ground arith)) later
        | inr other ↦ embed_users-Extends next s' rest (subst Extends (ground arith) x) later
      ]

  -- Authorities sent by a peer change neither the trusted admin authorities nor any revocation,
  -- and each user authority that they add is not revoked and is signed by a trusted admin
  -- authority that is not revoked.
  pub with_embedded_authorities-Extends :
      (ts' : TrustSnapshot P N) (authorities : List EmbeddedCa)
      → with_embedded_authorities k ts authorities ≡ ok ts'
      → Extends ts'
  unfolding with_embedded_authorities
  with_embedded_authorities-Extends ts' authorities h =
      let (clone, admins, users) = >>=-eq-ok (embed_admins k ts authorities) _ h in
      embed_users-Extends clone ts' authorities
        (subst Extends (embed_admins_lem ts clone authorities admins) Extends-refl) users
