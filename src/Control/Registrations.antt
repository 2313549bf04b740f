-- ===== src/Control/Registrations.antt =====
-- `RegisterHandler` and `UnregisterHandler` over time.
use ouroboros_db.Base.{
  nat_eq, ◌≡◌, refl, sym, ap, Result-cases, false, List, [], ◌∷◌, Option, some, ok, err, ◌≢◌, has,
  lookup, insert, delete, lookup-insert, lookup-delete, length, eqb, ==_refl, arith, >>=-eq-ok,
  fail_if-eq-ok, fail_if, or_fail, inl, inr, lookup-insert_cases, subst,
}
use ouroboros_db.Auth.Types.{TrustScope}
use ouroboros_db.Control.{
  MessageType, Handlers, MessageRegistration, Proto, AnyHandler, ControlCall, registers,
  unregisters, or_same, build_message_registration, message_schema, as_message_handler,
  register_handler, unregister_handler, get_handler, control_call, control_run,
  new_cluster_controller, no_scopes, no_schema, already_registered, message_type_user_message,
}

module _ {M F : Type 0} (p : Proto M) where
  -- A registration as `BuildMessageRegistration` makes it.
  pub record IsBuilt (t : MessageType) (reg : MessageRegistration M F) : Type 0 where
    pub own_type : reg.msg_type ≡ t
    pub is_user : t ≡ message_type_user_message
    pub has_scope : length reg.allowed_scopes ≢ 0
    pub can_decode : reg.new_payload ≡ some p.empty_user_message

  abbrev pub AreBuilt : Handlers M F → Type 0
  AreBuilt handlers =
      (t : MessageType) (reg : MessageRegistration M F)
      → lookup t handlers ≡ some reg
      → IsBuilt t reg

  -- What a registration that succeeds has done.
  pub record IsRegistered (handlers next : Handlers M F) (t : MessageType)
      (scopes : List TrustScope) : Type 0 where
    pub was_free : has t handlers ≡ false
    pub reg : MessageRegistration M F
    pub built : IsBuilt t reg
    pub with_scopes : reg.allowed_scopes ≡ scopes
    pub inserted : insert t reg handlers ≡ next

  build_message_registration-IsBuilt :
      (t : MessageType) (scopes : List TrustScope) (h : AnyHandler F)
      (reg : MessageRegistration M F)
      → eqb (length scopes) 0 ≡ false
      → build_message_registration p t scopes h ≡ ok reg
      → IsBuilt t reg × (reg.allowed_scopes ≡ scopes)
  unfolding build_message_registration message_schema
  build_message_registration-IsBuilt t scopes h reg some_scope built =
      let (new_payload, schema, h₁) = >>=-eq-ok (or_fail (message_schema p t) _) _ built in
      let (mh, is_handler, h₂) = >>=-eq-ok (or_fail (as_message_handler h) _) _ h₁ in
      let made : some p.empty_user_message ≡ new_payload = ground arith in
      let same : ◌≡◌ {A = MessageRegistration M F}
          (record {
            msg_type = t;
            allowed_scopes = scopes;
            new_payload = new_payload;
            handler = mh;
          })
          reg =
        cc h₂ in
      subst (λ r. IsBuilt t r × (r.allowed_scopes ≡ scopes)) same
        (
          record {
            own_type = refl;
            is_user = user_of new_payload schema;
            has_scope = λ z. ground arith;
            can_decode = cc made;
          },
          refl,
        )
    where
      user_of :
          (new_payload : Option M)
          → or_fail (message_schema p t) (no_schema t) ≡ ok new_payload
          → t ≡ message_type_user_message
      user_of new_payload schema = ground arith

  register_handler-IsRegistered :
      (handlers next : Handlers M F) (t : MessageType) (scopes : List TrustScope) (h : AnyHandler F)
      → register_handler p handlers t scopes h ≡ ok next
      → IsRegistered handlers next t scopes
  unfolding register_handler
  register_handler-IsRegistered handlers next t scopes h done =
      let (_, some_scope, h₁) = >>=-eq-ok (fail_if (eqb (length scopes) 0) no_scopes) _ done in
      let (_, free, h₂) = >>=-eq-ok (fail_if (has t handlers) (already_registered t)) _ h₁ in
      let (reg, made, h₃) = >>=-eq-ok (build_message_registration p t scopes h) _ h₂ in
      let (built, with_scopes) =
        build_message_registration-IsBuilt t scopes h reg (fail_if-eq-ok _ _ some_scope) made in
      record {
        was_free = fail_if-eq-ok _ _ free;
        reg = reg;
        built = built;
        with_scopes = with_scopes;
        inserted = cc h₃;
      }

  looked_up :
      {handlers next : Handlers M F} {t : MessageType} {scopes : List TrustScope}
      (r : IsRegistered handlers next t scopes)
      → lookup t next ≡ some r.reg
  looked_up {handlers} {next} {t} r =
      subst (λ m. lookup t m ≡ some r.reg) r.inserted
        (ground (arith, lookup-insert t t r.reg handlers, ==_refl t))

  restored :
      {handlers next : Handlers M F} {t : MessageType} {scopes : List TrustScope}
      (r : IsRegistered handlers next t scopes) (j : MessageType)
      → lookup j (delete t next) ≡ lookup j handlers
  restored {handlers} {next} {t} r j =
      subst (λ m. lookup j (delete t m) ≡ lookup j handlers) r.inserted
        (ground (
          arith,
          lookup-delete t j (insert t r.reg handlers),
          lookup-insert t j r.reg handlers,
          r.was_free,
          nat_eq.beq_iff t j,
        ))

  -- A handler that was registered can be looked up under its type with the scopes it was given, a
  -- second registration of the type is refused, and unregistering it succeeds and leaves every
  -- type registered as it was before.
  pub register_handler-unregister_handler :
      (handlers next : Handlers M F) (t : MessageType) (scopes : List TrustScope) (h : AnyHandler F)
      → register_handler p handlers t scopes h ≡ ok next
      → ((reg : MessageRegistration M F) × (get_handler next t ≡ some reg)
          × (reg.allowed_scopes ≡ scopes))
        × ((again : AnyHandler F)
            → register_handler p next t scopes again ≡ err (already_registered t))
        × (back : Handlers M F) × (unregister_handler next t ≡ ok back)
        × ((j : MessageType) → lookup j back ≡ lookup j handlers)
  unfolding get_handler register_handler unregister_handler
  register_handler-unregister_handler handlers next t scopes h done =
      let r = register_handler-IsRegistered handlers next t scopes h done in
      let found = looked_up r in
      (
        (r.reg, found, r.with_scopes),
        (λ again. ground (arith, found, r.built.has_scope, r.with_scopes)),
        delete t next,
        ground (arith, found),
        restored r,
      )

  registered-AreBuilt :
      {handlers next : Handlers M F} {t : MessageType} {scopes : List TrustScope}
      → AreBuilt handlers
      → IsRegistered handlers next t scopes
      → AreBuilt next
  registered-AreBuilt {handlers} {t = t} v r = subst AreBuilt r.inserted (λ j reg found.
      elim (lookup-insert_cases t j r.reg reg handlers found) [
        | inr old ↦ v j reg old
        | inl new ↦ subst (λ i. IsBuilt i reg) new.0 (subst (IsBuilt t) new.1 r.built)
      ])

  control_call-AreBuilt :
      (handlers : Handlers M F) (c : ControlCall F)
      → AreBuilt handlers
      → AreBuilt (control_call p handlers c)
  unfolding control_call unregister_handler
  control_call-AreBuilt handlers (registers t scopes h) v =
      elim (Result-cases (register_handler p handlers t scopes h)) [
        | inr (e, refused) ↦ subst AreBuilt (sym (ap (or_same p handlers) refused)) v
        | inl (next, done) ↦
            subst AreBuilt (sym (ap (or_same p handlers) done))
              (registered-AreBuilt v (register_handler-IsRegistered handlers next t scopes h done))
      ]
  control_call-AreBuilt handlers (unregisters t) v =
      λ j reg found. ground (arith, v j reg, lookup-delete t j handlers)

  control_run-AreBuilt :
      (handlers : Handlers M F) (cs : List (ControlCall F))
      → AreBuilt handlers
      → AreBuilt (control_run p handlers cs)
  unfolding control_run
  control_run-AreBuilt handlers [] v = v
  control_run-AreBuilt handlers (c ∷ cs) v =
      control_run-AreBuilt (control_call p handlers c) cs (control_call-AreBuilt handlers c v)

  -- Whatever is registered and unregistered on a new controller, only the type of user messages has
  -- a registration; it stands under its own type, has at least one scope, and its payload factory
  -- gives the empty user message.
  pub control_run-new_cluster_controller-AreBuilt :
      (cs : List (ControlCall F)) → AreBuilt (control_run p new_cluster_controller cs)
  unfolding new_cluster_controller lookup
  control_run-new_cluster_controller-AreBuilt cs = control_run-AreBuilt [] cs (λ t reg found. cc)
