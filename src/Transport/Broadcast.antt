-- ===== src/Transport/Broadcast.antt =====
-- internal/transport/carrier_broadcast.go: `BroadcastReliable`. `P` is `PeerNode`, and
-- `send attempt node` says whether the sending of the message to the node succeeds in that attempt:
-- what the network answers is an argument. The pause between attempts is left out.
use ouroboros_db.Base.{
  ℕ, zero, suc, ◌+◌, ◌≤◌, ◌<◌, ◌≡◌, refl, Bool, true, false, List, [], ◌∷◌, ◌++◌, Option, none,
  some, length, eqb, arith, if◌then◌else◌, Eq, ◌==◌, All, All-append, All-map, ap, subst,
  Bool-cases, inl, inr,
}

-- One attempt: the nodes that were reached, and those that were not.
unfoldable pub attempt_round : {P : Type 0} → (P → Bool) → List P → List P × List P
attempt_round send [] = ([], [])
attempt_round send (node ∷ pending) =
    let (reached, still_failed) = attempt_round send pending in
    if send node then (node ∷ reached, still_failed) else (reached, node ∷ still_failed)

-- The loop, with the attempts left, the number of the attempt, the nodes pending and the nodes
-- reached before.
unfoldable pub attempt_loop :
    {P : Type 0} → (ℕ → P → Bool) → ℕ → ℕ → List P → List P → List P × List P
attempt_loop send zero i pending success = (success, pending)
attempt_loop send (suc n) i pending success =
    let (reached, still_failed) = attempt_round (send i) pending in
    let rest = attempt_loop send n (suc i) still_failed (success ++ reached) in
    if eqb (length still_failed) 0 then (success ++ reached, still_failed) else rest

-- `none` is the error that no peers are available.
unfoldable pub broadcast_reliable :
    {P : Type 0} → (ℕ → P → Bool) → ℕ → List P → Option (List P × List P)
broadcast_reliable send max_retries nodes =
    if eqb (length nodes) 0 then none else some (attempt_loop send (suc max_retries) 0 nodes [])

-- How often a node stands in a list.
abbrev pub count : {P : Type 0} ⦃e : Eq P⦄ → P → List P → ℕ
count a [] = 0
count a (x ∷ xs) = if x == a then suc (count a xs) else count a xs

module _ {P : Type 0} (send : ℕ → P → Bool) where
  -- The node was reached in an attempt before `b`.
  abbrev pub IsReached : ℕ → P → Type 0
  IsReached b node = (j : ℕ) × (j < b) × (send j node ≡ true)

  -- The node was reached in none of `n` attempts from attempt `i` on.
  abbrev pub IsUnreached : ℕ → ℕ → P → Type 0
  IsUnreached zero i node = Unit {0}
  IsUnreached (suc n) i node = (send i node ≡ false) × IsUnreached n (suc i) node

  attempt_round-IsReached :
      (b i : ℕ) (pending : List P) → i < b → All (IsReached b) (attempt_round (send i) pending).0
  unfolding attempt_round
  attempt_round-IsReached b i [] h = tt
  attempt_round-IsReached b i (node ∷ pending) h = elim (Bool-cases (send i node)) [
    | inr lost ↦ rw lost (attempt_round-IsReached b i pending h)
    | inl sent ↦ rw sent ((i, h, sent), attempt_round-IsReached b i pending h)
  ]

  -- What holds of every pending node holds of those that stay pending.
  attempt_round-All :
      (Q : P → Type 0) (i : ℕ) (pending : List P)
      → All Q pending
      → All (λ a. (send i a ≡ false) × Q a) (attempt_round (send i) pending).1
  unfolding attempt_round
  attempt_round-All Q i [] q = tt
  attempt_round-All Q i (node ∷ pending) q = elim (Bool-cases (send i node)) [
    | inl sent ↦ rw sent (attempt_round-All Q i pending q.1)
    | inr lost ↦ rw lost ((lost, q.0), attempt_round-All Q i pending q.1)
  ]

  attempt_round-count :
      ⦃e : Eq P⦄ (i : ℕ) (a : P) (pending : List P)
      → count a (attempt_round (send i) pending).0 + count a (attempt_round (send i) pending).1
        ≡ count a pending
  unfolding attempt_round
  attempt_round-count i a [] = refl
  attempt_round-count i a (node ∷ pending) = ground (arith, attempt_round-count i a pending)

count-append :
    {P : Type 0} ⦃e : Eq P⦄ (a : P) (xs ys : List P) → count a (xs ++ ys) ≡ count a xs + count a ys
count-append a [] ys = omega arith
count-append a (x ∷ xs) ys = ground (arith, count-append a xs ys)

module _ {P : Type 0} (send : ℕ → P → Bool) where
  attempt_loop-count :
      ⦃e : Eq P⦄ (n i : ℕ) (pending success : List P) (a : P)
      → let out = attempt_loop send n i pending success in
        count a out.0 + count a out.1 ≡ count a success + count a pending
  unfolding attempt_loop
  attempt_loop-count zero i pending success a = refl
  attempt_loop-count (suc n) i pending success a =
      let (reached, failed) = attempt_round (send i) pending in
      ground (
        arith,
        attempt_round-count send i a pending,
        count-append a success (attempt_round (send i) pending).0,
        attempt_loop-count n (suc i) (attempt_round (send i) pending).1
            (success ++ (attempt_round (send i) pending).0) a,
      )

  attempt_loop-IsReached :
      (b n i : ℕ) (pending success : List P)
      → i + n ≤ b
      → All (IsReached send b) success
      → All (IsReached send b) (attempt_loop send n i pending success).0
  unfolding attempt_loop
  attempt_loop-IsReached b zero i pending success h v = v
  attempt_loop-IsReached b (suc n) i pending success h v =
      let reached = (attempt_round (send i) pending).0 in
      let still_failed = (attempt_round (send i) pending).1 in
      let now =
        All-append _ success reached v (attempt_round-IsReached send b i pending (omega arith)) in
      elim (Bool-cases (eqb (length still_failed) 0)) [
        | inl done ↦ rw done now
        | inr more ↦
            rw more (
              attempt_loop-IsReached b n (suc i) still_failed (success ++ reached) (omega arith)
                now)
      ]

  attempt_loop-All :
      (Q : P → Type 0) (n i : ℕ) (pending success : List P)
      → All Q pending
      → All Q (attempt_loop send n i pending success).1
  unfolding attempt_loop
  attempt_loop-All Q zero i pending success q = q
  attempt_loop-All Q (suc n) i pending success q =
      let still_failed = (attempt_round (send i) pending).1 in
      let kept =
        All-map _ Q still_failed (λ a both. both.1) (attempt_round-All send Q i pending q) in
      elim (Bool-cases (eqb (length still_failed) 0)) [
        | inl done ↦ rw done kept
        | inr more ↦ rw more (attempt_loop-All Q n (suc i) still_failed _ kept)
      ]

  anything : (xs : List P) → All (λ a. Unit {0}) xs
  anything [] = tt
  anything (x ∷ xs) = (tt, anything xs)

  All-zip : (Q R : P → Type 0) (xs : List P) → All Q xs → All R xs → All (λ a. Q a × R a) xs
  All-zip Q R [] q r = tt
  All-zip Q R (x ∷ xs) q r = ((q.0, r.0), All-zip Q R xs q.1 r.1)

  none_left : (Q : P → Type 0) (xs : List P) → eqb (length xs) 0 ≡ true → All Q xs
  none_left Q [] h = tt
  none_left Q (x ∷ xs) h = absurd (ground arith)

  attempt_loop-IsUnreached :
      (n i : ℕ) (pending success : List P)
      → All (IsUnreached send n i) (attempt_loop send n i pending success).1
  unfolding attempt_loop
  attempt_loop-IsUnreached zero i pending success = anything pending
  attempt_loop-IsUnreached (suc n) i pending success =
      let still_failed = (attempt_round (send i) pending).1 in
      let next = success ++ (attempt_round (send i) pending).0 in
      let here =
        All-map _ (λ a. send i a ≡ false) still_failed (λ a both. both.0)
          (attempt_round-All send _ i pending (anything pending)) in
      elim (Bool-cases (eqb (length still_failed) 0)) [
        | inl done ↦ rw done (none_left _ still_failed done)
        | inr more ↦ rw more (
            All-zip _ _ _
              (attempt_loop-All (λ a. send i a ≡ false) n (suc i) still_failed next here)
              (attempt_loop-IsUnreached n (suc i) still_failed next))
      ]

  -- A broadcast reports every peer that it started with exactly once, as a success or as failed;
  -- each success was reached in one of the attempts, and each failed peer in none of the
  -- `max_retries + 1` attempts.
  pub broadcast_reliable_lem :
      ⦃e : Eq P⦄ (max_retries : ℕ) (nodes success failed : List P)
      → broadcast_reliable send max_retries nodes ≡ some (success, failed)
      → ((a : P) → count a success + count a failed ≡ count a nodes)
        × All (IsReached send (suc max_retries)) success
        × All (IsUnreached send (suc max_retries) 0) failed
  unfolding broadcast_reliable
  broadcast_reliable_lem max_retries nodes success failed h =
      let out = attempt_loop send (suc max_retries) 0 nodes [] in
      let same : out ≡ (success, failed) = ground arith in
      let left = ap (λ (x : List P × List P). x.0) same in
      let right = ap (λ (x : List P × List P). x.1) same in
      (
        (λ a. ground (arith, left, right, attempt_loop-count (suc max_retries) 0 nodes [] a)),
        subst (All (IsReached send (suc max_retries))) left (
            attempt_loop-IsReached (suc max_retries) (suc max_retries) 0 nodes [] (omega arith) tt),
        subst (All (IsUnreached send (suc max_retries) 0)) right
            (attempt_loop-IsUnreached (suc max_retries) 0 nodes []),
      )
