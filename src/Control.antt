-- ===== src/Control.antt =====
-- internal/control/cluster_controller.go and the registration part of pkg/interfaces
-- (message_registry.go, interfaces.go): which handler a message reaches. `N` is `keys.NodeID`, `M`
-- is `proto.Message` and `F` is a handler function, which is code of the caller: the result of a
-- dispatch is the call that the controller makes, and its answer is handed on as it is.
pub mod Access
pub mod Registrations
use ouroboros_db.Base.{
  ℕ, nat_eq, Bool, true, false, not, List, [], ◌∷◌, Option, none, some, Result, ok, err, ◌>>=◌,
  ◌>>◌, or_fail, fail_if, Map, has, lookup, insert, delete, length, eqb, ◌==◌, if◌then◌else◌,
}
use ouroboros_db.Auth.Types.{Bytes, TrustScope, scope_admin, scope_user, scope_other, scope_eq}

abbrev pub MessageType : Type 0
MessageType = ℕ

-- The sixth constant of the enumeration.
abbrev pub message_type_user_message : MessageType
message_type_user_message = 5

pub record Message : Type 0 where
  pub typ : MessageType
  pub payload : Bytes

-- The text of a refusal, by what it says.
pub data Reason : Type 0 where
  no_reason : Reason
  no_handler : MessageType → Reason
  scope_mismatch : TrustScope → MessageType → Reason

pub record AccessDecision : Type 0 where
  pub allowed : Bool
  pub reason : Reason

pub data ControlError : Type 0 where
  no_scopes not_message_handler : ControlError
  already_registered not_registered no_schema nil_payload decode_failed : MessageType → ControlError
  access_denied : Reason → ControlError

-- The handler argument of type `any`: a `MessageHandler`, which may be nil, or any other value.
pub data AnyHandler (F : Type 0) : Type 0 where
  message_handler : Option F → AnyHandler F
  other_value : AnyHandler F

-- `new_payload` is what the payload factory returns; `none` is nil.
pub record MessageRegistration (M F : Type 0) : Type 0 where
  pub msg_type : MessageType
  pub allowed_scopes : List TrustScope
  pub new_payload : Option M
  pub handler : F

-- Generated protobuf code: the empty `UserMessage`, and decoding into a message.
pub record Proto (M : Type 0) : Type 0 where
  pub empty_user_message : M
  pub unmarshal : Bytes → M → Option M

-- The calls of the handler that the controller makes.
pub record Dispatch (N M F : Type 0) : Type 0 where
  pub handler : F
  pub payload : M
  pub peer : N
  pub peer_scope : TrustScope

abbrev pub Handlers : Type 0 → Type 0 → Type 0
Handlers M F = Map MessageType (MessageRegistration M F)

unfoldable pub new_cluster_controller : {M F : Type 0} → Handlers M F
new_cluster_controller = []

unfoldable pub get_effective_scopes : TrustScope → List TrustScope
get_effective_scopes scope_admin = scope_admin ∷ scope_user ∷ []
get_effective_scopes scope_user = scope_user ∷ []
get_effective_scopes (scope_other n) = []

-- The inner loop of `CheckAccess`.
unfoldable pub allows : TrustScope → List TrustScope → Bool
allows es [] = false
allows es (allowed ∷ rest) = if es == allowed then true else allows es rest

-- The outer loop.
unfoldable pub allows_any : List TrustScope → List TrustScope → Bool
allows_any [] scopes = false
allows_any (es ∷ rest) scopes = if allows es scopes then true else allows_any rest scopes

-- `messageSchemas` has one entry.
unfoldable pub message_schema : {M : Type 0} → Proto M → MessageType → Option (Option M)
message_schema p t =
    if eqb t message_type_user_message then some (some p.empty_user_message) else none

unfoldable pub as_message_handler : {F : Type 0} → AnyHandler F → Option F
as_message_handler (message_handler h) = h
as_message_handler other_value = none

module _ {M F : Type 0} where
  unfoldable pub build_message_registration :
      Proto M
      → MessageType
      → List TrustScope
      → AnyHandler F
      → Result ControlError (MessageRegistration M F)
  build_message_registration p t scopes handler = do
    new_payload ← or_fail (message_schema p t) (no_schema t)
    mh ← or_fail (as_message_handler handler) not_message_handler
    ok (record { msg_type = t; allowed_scopes = scopes; new_payload = new_payload; handler = mh })

  unfoldable pub register_handler :
      Proto M
      → Handlers M F
      → MessageType
      → List TrustScope
      → AnyHandler F
      → Result ControlError (Handlers M F)
  register_handler p controller t scopes handler = do
    fail_if (eqb (length scopes) 0) no_scopes
    fail_if (has t controller) (already_registered t)
    registration ← build_message_registration p t scopes handler
    ok (insert t registration controller)

  unfoldable pub unregister_handler :
      Handlers M F → MessageType → Result ControlError (Handlers M F)
  unregister_handler controller t = do
    fail_if (not (has t controller)) (not_registered t)
    ok (delete t controller)

  unfoldable pub get_handler : Handlers M F → MessageType → Option (MessageRegistration M F)
  get_handler controller t = lookup t controller

  unfoldable pub check_access : Handlers M F → MessageType → TrustScope → AccessDecision
  check_access controller t peer_scope = elim (lookup t controller) [
    | none ↦ record { allowed = false; reason = no_handler t }
    | some reg ↦
        if allows_any (get_effective_scopes peer_scope) reg.allowed_scopes
        then record { allowed = true; reason = no_reason }
        else record { allowed = false; reason = scope_mismatch peer_scope t }
  ]

  unfoldable pub handle_incoming_message :
      {N : Type 0}
      → Proto M
      → Handlers M F
      → Message
      → N
      → TrustScope
      → Result ControlError (Dispatch N M F)
  handle_incoming_message p controller msg peer peer_scope = do
    let decision = check_access controller msg.typ peer_scope
    fail_if (not decision.allowed) (access_denied decision.reason)
    reg ← or_fail (lookup msg.typ controller) (not_registered msg.typ)
    empty ← or_fail reg.new_payload (nil_payload msg.typ)
    payload ← or_fail (p.unmarshal msg.payload empty) (decode_failed msg.typ)
    ok (record { handler = reg.handler; payload = payload; peer = peer; peer_scope = peer_scope })

-- A call of a method that changes the registrations; a refused call changes nothing.
pub data ControlCall (F : Type 0) : Type 0 where
  registers : MessageType → List TrustScope → AnyHandler F → ControlCall F
  unregisters : MessageType → ControlCall F

module _ {M F : Type 0} (p : Proto M) where
  abbrev pub or_same : Handlers M F → Result ControlError (Handlers M F) → Handlers M F
  or_same controller (ok next) = next
  or_same controller (err e) = controller

  unfoldable pub control_call : Handlers M F → ControlCall F → Handlers M F
  control_call controller (registers t scopes h) =
      or_same controller (register_handler p controller t scopes h)
  control_call controller (unregisters t) = or_same controller (unregister_handler controller t)

  unfoldable pub control_run : Handlers M F → List (ControlCall F) → Handlers M F
  control_run controller [] = controller
  control_run controller (c ∷ cs) = control_run (control_call controller c) cs
