-- ===== src/Transport/Bootstrap/Rounds.antt =====
-- Which dials a bootstrap makes, and how it ends.
use ouroboros_db.Base.{
  ℕ, zero, suc, ◌+◌, ◌<◌, ◌≡◌, refl, ap, subst, String, Bool, true, false, ◌&&◌, List, [], ◌∷◌,
  Option, none, some, Option-cases, Eq, ltb, ℤ, pos, negsuc, arith, Bool-cases, inl, inr,
}
use ouroboros_db.Auth.Types.{Keys}
use ouroboros_db.Transport.Carrier.{Carrier}
use ouroboros_db.Transport.Handshake.{AuthCodec}
use ouroboros_db.Transport.Connect.{
  Cert, Network, AuthConfig, Moment, ConnectError, dial_bootstrap_addr,
}
use ouroboros_db.Transport.Bootstrap.{
  NodeState, offline, bootstrap_max_retries, dial_one, dial_bootstrap_all, bootstrap_attempts,
  attempt_bootstrap,
}

-- No attempt of the first so many is cancelled; the first attempt of all is not asked.
abbrev pub GoesOn : (ℕ → Bool) → ℕ → ℕ → Type 0
GoesOn cancelled first n = (a : ℕ) → a < n → 0 < first + a → cancelled (first + a) ≡ false

later :
    (cancelled : ℕ → Bool) (first n : ℕ)
    → (ltb 0 first && cancelled first) ≡ false
    → GoesOn cancelled (suc first) n
    → GoesOn cancelled first (suc n)
later cancelled first n go rest zero h some_attempt =
    let here : first ≡ first + 0 = omega arith in
    subst (λ i. cancelled i ≡ false) here (ground (arith, go, some_attempt))
later cancelled first n go rest (suc a) h some_attempt =
    let there : suc first + a ≡ first + suc a = omega arith in
    subst (λ i. cancelled i ≡ false) there (rest a (omega arith) (omega arith))

-- One round more than the configured retries, if they are positive, and else than the default.
abbrev pub max_rounds : ℤ → ℕ
max_rounds (pos zero) = 5
max_rounds (pos (suc n)) = suc (suc n)
max_rounds (negsuc n) = 5

bootstrap_max_retries_lem :
    (max_retries : ℤ) → suc (bootstrap_max_retries max_retries) ≡ max_rounds max_retries
unfolding bootstrap_max_retries
bootstrap_max_retries_lem (pos zero) = refl
bootstrap_max_retries_lem (pos (suc n)) = refl
bootstrap_max_retries_lem (negsuc n) = refl

module _ {P N H K M F : Type 0} ⦃e : Eq N⦄ (k : Keys P N) (is_zero : N → Bool) (proto : AuthCodec)
    (cfg : AuthConfig P N H) (world : ℕ → Network K × Moment) where
  -- The dial with a number, on the network and at the moment of that number.
  abbrev pub dial_at :
      ℕ → Carrier N (Cert P N) K M F → String → Carrier N (Cert P N) K M F × Option ConnectError
  dial_at i c addr = dial_bootstrap_addr k is_zero proto (world i).0 cfg (world i).1 c addr

  -- A round: each address is dialled once, in order, from a dial's number on; `reached` says
  -- whether one of the dials succeeded.
  pub data Round
      : ℕ
        → Carrier N (Cert P N) K M F
        → List String
        → ℕ
        → Carrier N (Cert P N) K M F
        → Bool
        → Type 0 where
    over : {i : ℕ} {c : Carrier N (Cert P N) K M F} → Round i c [] i c false
    reaches :
        {i j : ℕ} {c next last : Carrier N (Cert P N) K M F} {addr : String} {addrs : List String}
        {reached : Bool}
        → dial_at i c addr ≡ (next, none)
        → Round (suc i) next addrs j last reached
        → Round i c (addr ∷ addrs) j last true
    misses :
        {i j : ℕ} {c next last : Carrier N (Cert P N) K M F} {addr : String} {addrs : List String}
        {reached : Bool} {bad : ConnectError}
        → dial_at i c addr ≡ (next, some bad)
        → Round (suc i) next addrs j last reached
        → Round i c (addr ∷ addrs) j last reached

  abbrev RoundOf : NodeState P N K M F → List String → NodeState P N K M F → Bool → Type 0
  RoundOf n addrs m reached = Round n.dials n.carrier addrs m.dials m.carrier reached

  -- So many rounds, none of which reached anybody; the status is left alone.
  pub data Failed (addrs : List String)
      : ℕ → NodeState P N K M F → NodeState P N K M F → Type 0 where
    no_round : {n : NodeState P N K M F} → Failed addrs 0 n n
    one_more :
        {made : ℕ} {n m last : NodeState P N K M F}
        → RoundOf n addrs m false
        → m.status ≡ n.status
        → Failed addrs made m last
        → Failed addrs (suc made) n last

  -- How at most so many rounds end, of which the first is the attempt `first`.
  pub data Ends (cancelled : ℕ → Bool) (addrs : List String)
      : ℕ → ℕ → NodeState P N K M F → NodeState P N K M F → Bool → Type 0 where
    connects :
        {first rounds : ℕ} {n m last : NodeState P N K M F} (made : ℕ)
        → made < rounds
        → GoesOn cancelled first (suc made)
        → Failed addrs made n m
        → RoundOf m addrs last true
        → last.status ≡ m.status
        → Ends cancelled addrs first rounds n last true
    exhausted :
        {first rounds : ℕ} {n m : NodeState P N K M F}
        → GoesOn cancelled first rounds
        → Failed addrs rounds n m
        → Ends cancelled addrs first rounds n (record m { status = offline }) false
    stops :
        {first rounds : ℕ} {n m : NodeState P N K M F} (made : ℕ)
        → made < rounds
        → 0 < first + made
        → cancelled (first + made) ≡ true
        → GoesOn cancelled first made
        → Failed addrs made n m
        → Ends cancelled addrs first rounds n m false

  dial_bootstrap_all-Round :
      (n : NodeState P N K M F) (addrs : List String)
      → RoundOf n addrs
          (dial_bootstrap_all k is_zero proto cfg world n addrs).0
          (ltb 0 (dial_bootstrap_all k is_zero proto cfg world n addrs).1)
        × ((dial_bootstrap_all k is_zero proto cfg world n addrs).0.status ≡ n.status)
  unfolding dial_bootstrap_all dial_one
  dial_bootstrap_all-Round n [] = (over, refl)
  dial_bootstrap_all-Round n (addr ∷ addrs) =
      let m = (dial_one k is_zero proto cfg world n addr).0 in
      let rest = dial_bootstrap_all k is_zero proto cfg world m addrs in
      let (round, same) = dial_bootstrap_all-Round m addrs in
      let dial = dial_at n.dials n.carrier addr in
      elim (Option-cases dial.1) [
        | inl done ↦ (
          subst (Round n.dials n.carrier (addr ∷ addrs) rest.0.dials rest.0.carrier)
              (ground (arith, done)) (reaches (ap (λ o. (dial.0, o)) done) round),
          same,
        )
        | inr (bad, failed) ↦ (
          subst (Round n.dials n.carrier (addr ∷ addrs) rest.0.dials rest.0.carrier)
              (ground (arith, failed)) (misses (ap (λ o. (dial.0, o)) failed) round),
          same,
        )
      ]

  again :
      (cancelled : ℕ → Bool) (addrs : List String) (first rounds : ℕ)
      (n m last : NodeState P N K M F) (reached : Bool)
      → (ltb 0 first && cancelled first) ≡ false
      → RoundOf n addrs m false
      → m.status ≡ n.status
      → Ends cancelled addrs (suc first) rounds m last reached
      → Ends cancelled addrs first (suc rounds) n last reached
  again cancelled addrs first rounds n m last reached go round same
        (connects made within goes failed found kept) =
      connects (suc made) (omega arith) (later cancelled first _ go goes)
        (one_more round same failed) found kept
  again cancelled addrs first rounds n m last reached go round same (exhausted goes failed) =
      exhausted (later cancelled first _ go goes) (one_more round same failed)
  again cancelled addrs first rounds n m last reached go round same
        (stops made within asked stop goes failed) =
      let there : suc first + made ≡ first + suc made = omega arith in
      stops (suc made) (omega arith) (omega arith) (subst (λ i. cancelled i ≡ true) there stop)
        (later cancelled first _ go goes) (one_more round same failed)

  bootstrap_attempts-Ends :
      (cancelled : ℕ → Bool) (addrs : List String) (attempt left : ℕ) (n : NodeState P N K M F)
      → Ends cancelled addrs attempt left n
          (bootstrap_attempts k is_zero proto cfg world cancelled addrs attempt left n).0
          (bootstrap_attempts k is_zero proto cfg world cancelled addrs attempt left n).1
  unfolding bootstrap_attempts
  bootstrap_attempts-Ends cancelled addrs attempt zero n =
      exhausted (λ a h some_attempt. absurd (omega arith)) no_round
  bootstrap_attempts-Ends cancelled addrs attempt (suc left) n =
      let (round, same) = dial_bootstrap_all-Round n addrs in
      let all = dial_bootstrap_all k is_zero proto cfg world n addrs in
      elim (Bool-cases (ltb 0 attempt && cancelled attempt)) [
        | inl stop ↦
            let here : attempt ≡ attempt + 0 = omega arith in
            rw stop (
              stops 0 (omega arith) (ground (arith, stop))
                (subst (λ i. cancelled i ≡ true) here (ground (arith, stop)))
                (λ a h some_attempt. absurd (omega arith)) no_round)
        | inr go ↦ elim (Bool-cases (ltb 0 all.1)) [
          | inl some_peer ↦
              rw (go, some_peer)
                (connects 0 (omega arith)
                  (later cancelled attempt 0 go (λ a h some_attempt. absurd (omega arith))) no_round
                  (subst (RoundOf n addrs all.0) some_peer round) same)
          | inr no_peer ↦
              rw (go, no_peer)
                (again cancelled addrs attempt left n all.0 _ _ go
                  (subst (RoundOf n addrs all.0) no_peer round) same
                  (bootstrap_attempts-Ends cancelled addrs (suc attempt) left all.0))
        ]
      ]

  -- A bootstrap ends after at most one round more than the configured retries, or five rounds if no
  -- positive number is configured; a round dials each address once, in order. Either one of the
  -- dials of the last round succeeded and none before it, and the status is what it was; or no dial
  -- of all the rounds succeeded, and the node is offline; or its context was found cancelled after
  -- one or more rounds, when no dial had succeeded. The context was then not found cancelled
  -- before.
  pub attempt_bootstrap-Ends :
      (cancelled : ℕ → Bool) (max_retries : ℤ) (addrs : List String) (n : NodeState P N K M F)
      → Ends cancelled addrs 0
          (max_rounds max_retries)
          n
          (attempt_bootstrap k is_zero proto cfg world cancelled max_retries addrs n).0
          (attempt_bootstrap k is_zero proto cfg world cancelled max_retries addrs n).1
  unfolding attempt_bootstrap
  attempt_bootstrap-Ends cancelled max_retries addrs n =
      subst
        (λ rounds.
          Ends cancelled addrs 0 rounds n
            (attempt_bootstrap k is_zero proto cfg world cancelled max_retries addrs n).0
            (attempt_bootstrap k is_zero proto cfg world cancelled max_retries addrs n).1)
        (bootstrap_max_retries_lem max_retries)
        (bootstrap_attempts-Ends cancelled addrs 0 (suc (bootstrap_max_retries max_retries)) n)
