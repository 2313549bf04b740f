-- ===== src/ClusterLog/Entries.antt =====
-- Which entries the log keeps and shows.
use ouroboros_db.Base.{
  ℕ, ◌+◌, ◌-◌, ◌*◌, ◌≤◌, ◌≡◌, refl, Bool, true, false, ◌||◌, List, [], ◌∷◌, ◌++◌, Eq, eqb, ltb,
  ◌==◌, ◌↔◌, length, length-drop, take, take-append-drop, arith, if◌then◌else◌, Bool-cases, inl,
  inr,
}
use ouroboros_db.ClusterLog.{
  ClusterLog, LogEntry, LogLevel, level_debug, level_info, level_warn, level_error, level_other,
  level_beq, ttl_by_level, is_expired, unexpired, cleanup, tail, matching, query, query_all,
  query_by_level,
}

-- A day in nanoseconds, and the days for which an entry of a level is kept.
abbrev pub day : ℕ
day = 86400000000000

abbrev pub days_kept : LogLevel → ℕ
days_kept level_debug = 1
days_kept level_info = 3
days_kept level_warn = 3
days_kept level_error = 5
days_kept (level_other n) = 3

-- The entry is not older than the days of its level.
abbrev pub IsLive : {N : Type 0} → ℕ → LogEntry N → Type 0
IsLive now entry = now ≤ entry.timestamp + days_kept entry.level * day

-- The second list has exactly those entries of the first that have the property, in order.
pub data Selects {A : Type 0} (P : A → Type 0) : List A → List A → Type 0 where
  nothing : Selects P [] []
  picked : {x : A} {xs ys : List A} → P x → Selects P xs ys → Selects P (x ∷ xs) (x ∷ ys)
  left_out : {x : A} {xs ys : List A} → (P x → ⊥) → Selects P xs ys → Selects P (x ∷ xs) ys

ttl_by_level_lem : (level : LogLevel) → ttl_by_level level ≡ days_kept level * day
unfolding ttl_by_level
ttl_by_level_lem level_debug = refl
ttl_by_level_lem level_info = refl
ttl_by_level_lem level_warn = refl
ttl_by_level_lem level_error = refl
ttl_by_level_lem (level_other n) = refl

level_beq_iff : (a b : LogLevel) → (level_beq a b ≡ true) ↔ (a ≡ b)
level_beq_iff a b = ground arith

module _ {N : Type 0} where
  is_expired_iff :
      (entry : LogEntry N) (now : ℕ) → (is_expired entry now ≡ false) ↔ IsLive now entry
  unfolding is_expired
  is_expired_iff entry now = ground (arith, ttl_by_level_lem entry.level)

  unexpired-Selects :
      (now : ℕ) (entries : List (LogEntry N)) → Selects (IsLive now) entries (unexpired now entries)
  unfolding unexpired
  unexpired-Selects now [] = nothing
  unexpired-Selects now (entry ∷ rest) = elim (Bool-cases (is_expired entry now)) [
    | inl old ↦
        rw (old, unexpired)
          (left_out (λ live. ground (arith, old, is_expired_iff entry now, live))
            (unexpired-Selects now rest))
    | inr young ↦
        rw (young, unexpired)
          (picked ((is_expired_iff entry now).0 young) (unexpired-Selects now rest))
  ]

  -- A query with a test for the property, after a cleanup.
  matching-Selects :
      (test : LogEntry N → Bool) (Q : LogEntry N → Type 0)
      → ((entry : LogEntry N) → (test entry ≡ true) ↔ Q entry)
      → (since now : ℕ) (entries : List (LogEntry N))
      → Selects
          (λ entry. IsLive now entry × Q entry × (since ≤ entry.timestamp))
          entries
          (matching test since (unexpired now entries))
  unfolding matching unexpired
  matching-Selects test Q tests since now [] = nothing
  matching-Selects test Q tests since now (entry ∷ rest) =
      let later = matching-Selects test Q tests since now rest in
      elim (Bool-cases (is_expired entry now)) [
        | inl old ↦
            rw (old, unexpired)
              (left_out (λ h. ground (arith, old, is_expired_iff entry now, h.0)) later)
        | inr young ↦ elim (Bool-cases (test entry)) [
          | inr other ↦
              rw (young, unexpired, other, matching)
                (left_out (λ h. ground (arith, other, (tests entry).1 h.1)) later)
          | inl asked ↦ elim (Bool-cases (ltb entry.timestamp since)) [
            | inl before ↦
                rw (young, unexpired, asked, before, matching)
                  (left_out (λ h. ground (arith, before, h.2)) later)
            | inr after ↦
                rw (young, unexpired, asked, after, matching)
                  (picked
                    (
                      (is_expired_iff entry now).0 young,
                      (tests entry).0 asked,
                      ground (arith, after),
                    )
                    later)
          ]
        ]
      ]

  -- After a cleanup the log holds, in order, exactly the entries that it held and that are not
  -- older than their level allows: a day for debug entries, five days for errors, three for all
  -- others. Each query then answers with exactly those of them that are not before the given time,
  -- and that are of the given node, or of the given level.
  pub cleanup_lem :
      ⦃e : Eq N⦄ (cl : ClusterLog N) (now since : ℕ) (node_id : N) (level : LogLevel)
      → Selects (IsLive now) cl.entries (cleanup cl now).entries
        × Selects
            (λ entry. IsLive now entry × Unit {0} × (since ≤ entry.timestamp))
            cl.entries
            (query_all (cleanup cl now) since)
        × Selects
            (λ entry. IsLive now entry × (entry.node_id ≡ node_id) × (since ≤ entry.timestamp))
            cl.entries
            (query (cleanup cl now) node_id since)
        × Selects
            (λ entry. IsLive now entry × (entry.level ≡ level) × (since ≤ entry.timestamp))
            cl.entries
            (query_by_level (cleanup cl now) level since)
  unfolding cleanup query_all query query_by_level
  cleanup_lem ⦃e⦄ cl now since node_id level = (
    unexpired-Selects now cl.entries,
    matching-Selects (λ entry. true) (λ entry. Unit {0}) (λ entry. ((λ h. tt), (λ u. refl))) since
        now cl.entries,
    matching-Selects (λ entry. entry.node_id == node_id) (λ entry. entry.node_id ≡ node_id)
        (λ entry. e.beq_iff entry.node_id node_id) since now cl.entries,
    matching-Selects (λ entry. level_beq entry.level level) (λ entry. entry.level ≡ level)
        (λ entry. level_beq_iff entry.level level) since now cl.entries,
  )

  -- What `Tail` returns is the end of the log, and as long as the limit, or the whole log if the
  -- limit is 0 or more than the log has.
  pub tail_lem :
      (cl : ClusterLog N) (limit : ℕ)
      → ((before : List (LogEntry N)) × (before ++ tail cl limit ≡ cl.entries))
        × (length (tail cl limit)
            ≡ (if eqb limit 0 || ltb (length cl.entries) limit then length cl.entries else limit))
  unfolding tail
  tail_lem cl limit = elim (Bool-cases (eqb limit 0 || ltb (length cl.entries) limit)) [
    | inl whole ↦ rw whole (([], refl), refl)
    | inr part ↦ rw part (
      (take (length cl.entries - limit) cl.entries, take-append-drop _ cl.entries),
      ground (arith, length-drop (length cl.entries - limit) cl.entries),
    )
  ]
