-- ===== src/Control/Access.antt =====
-- Who may reach a handler: `CheckAccess` and `HandleIncomingMessage`.
use ouroboros_db.Base.{
  nat_eq, ◌≡◌, refl, sym, subst, true, false, List, [], ◌∷◌, Option-cases, some, ok, fail_if,
  or_fail, not, lookup, ◌↔◌, inl, inr, arith, Any, >>=-eq-ok, fail_if-eq-ok, or_fail-eq-ok,
}
use ouroboros_db.Auth.Types.{TrustScope, scope_admin, scope_user, scope_other, scope_eq}
use ouroboros_db.Control.{
  MessageType, Message, Handlers, MessageRegistration, Proto, Dispatch, allows, allows_any,
  get_effective_scopes, check_access, handle_incoming_message, access_denied,
}

-- What a scope stands for: admin for admin and user, user for user, and any other for nothing.
abbrev pub Implies : TrustScope → TrustScope → Type 0
Implies scope_admin scope_admin = Unit
Implies scope_admin scope_user = Unit
Implies scope_user scope_user = Unit
Implies scope_admin (scope_other n) = ⊥
Implies scope_user scope_admin = ⊥
Implies scope_user (scope_other n) = ⊥
Implies (scope_other n) s = ⊥

allows_any_iff :
    (scope : TrustScope) (scopes : List TrustScope)
    → (allows_any (get_effective_scopes scope) scopes ≡ true) ↔ Any (Implies scope) scopes
unfolding allows_any allows get_effective_scopes
allows_any_iff scope_admin [] = ground arith
allows_any_iff scope_user [] = ground arith
allows_any_iff (scope_other n) [] = ground arith
allows_any_iff (scope_other n) (s ∷ rest) = ground (arith, allows_any_iff (scope_other n) rest)
allows_any_iff scope_admin (scope_admin ∷ rest) = ground (arith, allows_any_iff scope_admin rest)
allows_any_iff scope_admin (scope_user ∷ rest) = ground (arith, allows_any_iff scope_admin rest)
allows_any_iff scope_admin (scope_other n ∷ rest) = ground (arith, allows_any_iff scope_admin rest)
allows_any_iff scope_user (scope_admin ∷ rest) = ground (arith, allows_any_iff scope_user rest)
allows_any_iff scope_user (scope_user ∷ rest) = ground (arith, allows_any_iff scope_user rest)
allows_any_iff scope_user (scope_other n ∷ rest) = ground (arith, allows_any_iff scope_user rest)

module _ {M F : Type 0} (controller : Handlers M F) where
  -- A handler that is registered for the type and lists a scope that the peer's scope implies.
  abbrev pub IsGranted : MessageType → TrustScope → MessageRegistration M F → Type 0
  IsGranted t scope reg = (lookup t controller ≡ some reg) × Any (Implies scope) reg.allowed_scopes

  -- Access is allowed exactly when a handler is registered for the message type and one of its
  -- scopes is implied by the peer's: admin implies user, and an unnamed scope implies nothing.
  pub check_access_iff :
      (t : MessageType) (scope : TrustScope)
      → ((check_access controller t scope).allowed ≡ true)
        ↔ ((reg : MessageRegistration M F) × IsGranted t scope reg)
  unfolding check_access
  check_access_iff t scope = elim (Option-cases (lookup t controller)) [
    | inl missing ↦ (λ h. ground arith, λ granted. ground (arith, granted.1.0))
    | inr (reg, found) ↦ (
      λ h. (reg, (found, (allows_any_iff scope reg.allowed_scopes).0 (ground arith))),
      λ granted.
          ground
            (arith, granted.1.0, (allows_any_iff scope granted.0.allowed_scopes).1 granted.1.1),
    )
  ]

  allowed_scope :
      (t : MessageType) (scope : TrustScope) (reg : MessageRegistration M F)
      → lookup t controller ≡ some reg
      → not (check_access controller t scope).allowed ≡ false
      → Any (Implies scope) reg.allowed_scopes
  unfolding check_access
  allowed_scope t scope reg found allowed =
      (allows_any_iff scope reg.allowed_scopes).0 (ground arith)

  module _ {N : Type 0} (p : Proto M) (msg : Message) (peer : N) (scope : TrustScope) where
    -- What a call of a handler rests on.
    pub record IsDelivered (d : Dispatch N M F) : Type 0 where
      pub reg : MessageRegistration M F
      pub granted : IsGranted msg.typ scope reg
      pub empty : M
      pub made : reg.new_payload ≡ some empty
      pub decoded : p.unmarshal msg.payload empty ≡ some d.payload
      pub to_handler : d.handler ≡ reg.handler
      pub from_peer : d.peer ≡ peer
      pub under_scope : d.peer_scope ≡ scope

    the_call : F → M → Dispatch N M F
    the_call handler payload = record {
      handler = handler;
      payload = payload;
      peer = peer;
      peer_scope = scope;
    }

    dispatched :
        (d : Dispatch N M F)
        → handle_incoming_message p controller msg peer scope ≡ ok d
        → IsDelivered d
    unfolding handle_incoming_message the_call
    dispatched d h =
        let (_, allowed, h₁) =
          >>=-eq-ok
            (fail_if (not (check_access controller msg.typ scope).allowed)
              (access_denied (check_access controller msg.typ scope).reason))
            _ h in
        let (reg, found, h₂) = >>=-eq-ok (or_fail (lookup msg.typ controller) _) _ h₁ in
        let (empty, made, h₃) = >>=-eq-ok (or_fail reg.new_payload _) _ h₂ in
        let (payload, decoded, h₄) = >>=-eq-ok (or_fail (p.unmarshal msg.payload empty) _) _ h₃ in
        let here = or_fail-eq-ok (lookup msg.typ controller) _ found in
        let same : the_call reg.handler payload ≡ d = cc h₄ in
        subst IsDelivered same (record {
          reg = reg;
          granted = (here, allowed_scope msg.typ scope reg here (fail_if-eq-ok _ _ allowed));
          empty = empty;
          made = or_fail-eq-ok _ _ made;
          decoded = or_fail-eq-ok _ _ decoded;
          to_handler = refl;
          from_peer = refl;
          under_scope = refl;
        })

    delivered :
        (d : Dispatch N M F)
        → IsDelivered d
        → handle_incoming_message p controller msg peer scope ≡ ok d
    unfolding handle_incoming_message
    delivered d v =
        let allowed = (check_access_iff msg.typ scope).1 (v.reg, v.granted) in
        rw
          (
            allowed,
            v.granted.0,
            v.made,
            v.decoded,
            sym v.to_handler,
            sym v.from_peer,
            sym v.under_scope,
          )
          refl

    -- A message is handed to a handler exactly when the handler is registered for its type, the
    -- peer's scope implies one of the handler's, and the payload decodes into the type's message;
    -- the handler then gets that payload with the peer and the scope that were authenticated.
    pub handle_incoming_message_iff :
        (d : Dispatch N M F)
        → (handle_incoming_message p controller msg peer scope ≡ ok d) ↔ IsDelivered d
    handle_incoming_message_iff d = (dispatched d, delivered d)
