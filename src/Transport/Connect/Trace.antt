-- ===== src/Transport/Connect/Trace.antt =====
-- internal/transport: everything that happens to the carrier's connections from its start on. Peers
-- come to it in any of the three ways, and between that connections end, peers are seen and the
-- controller is set.
use ouroboros_db.Base.{
  ℕ, Bool, true, ◌≡◌, refl, sym, ap, ◌∙◌, List, [], ◌∷◌, ok, Eq, has, inl, inr, All, Any,
}
use ouroboros_db.Auth.Types.{Keys, TrustScope, AuthContext}
use ouroboros_db.Control.{Message, Proto, Dispatch}
use ouroboros_db.Transport.Carrier.{
  Carrier, Step, registers, leaves, removes, drops, fails, sees, controls, step, steps, or_before,
  new_carrier, to_controller, dispatch_message,
}
use ouroboros_db.Transport.Carrier.Scopes.{Authenticates, steps-dispatch_message}
use ouroboros_db.Transport.Handshake.{AuthCodec}
use ouroboros_db.Transport.Connect.{Cert, Network, AuthConfig, Moment, Arrival, arrive}
use ouroboros_db.Transport.Connect.Admission.{IsVerified, arrive-Admits}

-- An arrival with what the network, the configuration's trust store and the clock are then.
pub data Event (P N H K M F : Type 0) : Type 0 where
  arrives : Network K → AuthConfig P N H → Moment → Arrival P N K → Event P N H K M F
  does : Step N (Cert P N) K M F → Event P N H K M F

module _ {P N H K M F : Type 0} ⦃e : Eq N⦄ ⦃same : Eq K⦄ (k : Keys P N) (is_zero : N → Bool)
    (proto : AuthCodec) where
  unfoldable pub event : Carrier N (Cert P N) K M F → Event P N H K M F → Carrier N (Cert P N) K M F
  event c (arrives net cfg now a) = (arrive k is_zero proto net cfg now c a).0
  event c (does s) = step is_zero c s

  unfoldable pub events :
      Carrier N (Cert P N) K M F → List (Event P N H K M F) → Carrier N (Cert P N) K M F
  events c [] = c
  events c (x ∷ rest) = events (event c x) rest

-- Peers are registered by arrivals only.
abbrev pub IsQuiet : {P N H K M F : Type 0} → Event P N H K M F → Type 0
IsQuiet (arrives net cfg now a) = Unit {0}
IsQuiet (does (registers ctx conn certs addresses at)) = ⊥
IsQuiet (does (leaves n b)) = Unit {0}
IsQuiet (does (removes n)) = Unit {0}
IsQuiet (does (drops n conn)) = Unit {0}
IsQuiet (does (fails n conn)) = Unit {0}
IsQuiet (does (sees n at)) = Unit {0}
IsQuiet (does (controls h)) = Unit {0}

-- No quiet step authenticates.
quiet_step :
    (P H : Type 0) {N K M F : Type 0} ⦃e : Eq N⦄ ⦃same : Eq K⦄ (s : Step N (Cert P N) K M F)
    (id : N) (scope : TrustScope)
    → IsQuiet {P = P} {H = H} (does s)
    → Authenticates id scope s
    → ⊥
quiet_step P H (registers ctx conn certs addresses at) id scope quiet h = quiet
quiet_step P H (leaves n b) id scope quiet h = h
quiet_step P H (removes n) id scope quiet h = h
quiet_step P H (drops n conn) id scope quiet h = h
quiet_step P H (fails n conn) id scope quiet h = h
quiet_step P H (sees n at) id scope quiet h = h
quiet_step P H (controls hs) id scope quiet h = h

module _ {P N H K M F : Type 0} ⦃e : Eq N⦄ ⦃same : Eq K⦄ (k : Keys P N) (proto : AuthCodec) where
  -- The event is an arrival over whose connection the peer sent a handshake that was accepted for
  -- the NodeID with the scope.
  abbrev pub Verifies : N → TrustScope → Event P N H K M F → Type 0
  Verifies id scope (arrives net cfg now a) =
      (conn : K) × (ctx : AuthContext N) × (certs : List (Cert P N)) × IsVerified k proto net cfg
        now conn ctx certs
      × (ctx.node_id ≡ id)
      × (ctx.effective_scope ≡ scope)
  Verifies id scope (does s) = ⊥

module _ {P N H K M F : Type 0} ⦃e : Eq N⦄ ⦃same : Eq K⦄ (k : Keys P N) (is_zero : N → Bool)
    (proto : AuthCodec) where
  -- The steps of the carrier that the events come to; each that authenticates a node stands for an
  -- event that verified it.
  record StandsFor (c : Carrier N (Cert P N) K M F) (xs : List (Event P N H K M F)) : Type 0 where
    taken : List (Step N (Cert P N) K M F)
    end : events k is_zero proto c xs ≡ steps is_zero c taken
    each :
        (id : N) (scope : TrustScope)
        → Any (Authenticates id scope) taken
        → Any (Verifies k proto id scope) xs

  events-StandsFor :
      (c : Carrier N (Cert P N) K M F) (xs : List (Event P N H K M F))
      → All IsQuiet xs
      → StandsFor c xs
  unfolding events event steps step
  events-StandsFor c [] quiet = record { taken = []; end = refl; each = λ id scope h. h }
  events-StandsFor c (does s ∷ xs) quiet =
      let rest = events-StandsFor (step is_zero c s) xs quiet.1 in
      record {
        taken = s ∷ rest.taken;
        end = rest.end;
        each = λ id scope h. elim h [
          | inl here ↦ absurd (quiet_step P H s id scope quiet.0 here)
          | inr later ↦ inr (rest.each id scope later)
        ];
      }
  events-StandsFor c (arrives net cfg now a ∷ xs) quiet =
      let next = (arrive k is_zero proto net cfg now c a).0 in
      let rest = events-StandsFor next xs quiet.1 in
      elim (arrive-Admits k is_zero proto net cfg now c a) [
        | inl unchanged ↦ record {
          taken = rest.taken;
          end = rest.end ∙ ap (λ d. steps is_zero d rest.taken) unchanged;
          each = λ id scope h. inr (rest.each id scope h);
        }
        | inr admits ↦ record {
          taken =
              registers admits.ctx admits.conn admits.certs (admits.address ∷ []) now.ticks
              ∷ rest.taken;
          end =
              rest.end
              ∙ ap (λ d. steps is_zero d rest.taken)
                  (sym (ap (or_before is_zero c) admits.registered));
          each = λ id scope h. elim h [
            | inl (node, granted) ↦
                inl (admits.conn, admits.ctx, admits.certs, admits.verified, node, granted)
            | inr later ↦ inr (rest.each id scope later)
          ];
        }
      ]

  -- After any events of a new carrier, where peers are registered by arrivals only, a handler that
  -- is called for a message of a connected peer is given the peer's own NodeID and a scope that
  -- VerifyPeerCert gave that NodeID for a handshake of one of the arrivals.
  pub events-dispatch_message :
      (xs : List (Event P N H K M F)) (p : Proto M) (id : N) (msg : Message) (now : ℕ)
      (d : Dispatch N M F)
      → All IsQuiet xs
      → has id (events k is_zero proto new_carrier xs).connections ≡ true
      → (dispatch_message p (events k is_zero proto new_carrier xs) id msg now).1
        ≡ to_controller (ok d)
      → (d.peer ≡ id) × Any (Verifies k proto id d.peer_scope) xs
  events-dispatch_message xs p id msg now d quiet there called =
      let path = events-StandsFor new_carrier xs quiet in
      let (peer, authenticated) =
        steps-dispatch_message is_zero path.taken p id msg now d
          (ap (λ (c : Carrier N (Cert P N) K M F). has id c.connections) (sym path.end) ∙ there)
          (ap (λ c. (dispatch_message p c id msg now).1) (sym path.end) ∙ called) in
      (peer, path.each id d.peer_scope authenticated)
