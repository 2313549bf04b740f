-- ===== src/Auth/Verify/Window.antt =====
-- The time window of a delegation, with the wrap-around of int64.
use ouroboros_db.Base.{
  bytes_eq_iff, ◌≡◌, refl, true, false, ok, ℤ, pos, negsuc, IsInt64, ◌-ℤ◌, ◌≤ℤ◌, arith, ◌↔◌,
}
use ouroboros_db.Auth.Types.{Bytes, Keys, DelegationProof, max_delegation_ttl}
use ouroboros_db.Auth.Canonical.{canonical_delegation_proof_for_exporter}
use ouroboros_db.Auth.Verify.{verify_freshness, secure_equal, is_outside, is_too_long}

is_outside_iff : (b a now : ℤ) → (is_outside b a now ≡ false) ↔ ((b ≤ℤ now) × (now ≤ℤ a))
unfolding is_outside
is_outside_iff b a now = (λ h. ground arith, λ h. ground arith)

is_too_long_exact :
    (b a : ℤ)
    → IsInt64 b
    → IsInt64 a
    → b ≤ℤ a
    → is_too_long b a ≡ false
    → a -ℤ b ≤ℤ pos max_delegation_ttl
unfolding is_too_long
is_too_long_exact (pos b) (pos a) hb ha h t = ground arith
is_too_long_exact (pos b) (negsuc a) hb ha h t = ground arith
is_too_long_exact (negsuc b) (pos a) hb ha h t = ground arith
is_too_long_exact (negsuc b) (negsuc a) hb ha h t = ground arith

is_too_long_complete :
    (b a : ℤ)
    → IsInt64 b
    → IsInt64 a
    → b ≤ℤ a
    → a -ℤ b ≤ℤ pos max_delegation_ttl
    → is_too_long b a ≡ false
unfolding is_too_long
is_too_long_complete (pos b) (pos a) hb ha h t = ground arith
is_too_long_complete (pos b) (negsuc a) hb ha h t = ground arith
is_too_long_complete (negsuc b) (pos a) hb ha h t = ground arith
is_too_long_complete (negsuc b) (negsuc a) hb ha h t = ground arith

≤ℤ_trans : (a b c : ℤ) → a ≤ℤ b → b ≤ℤ c → a ≤ℤ c
≤ℤ_trans a b c h g = omega arith

pub secure_equal_iff : (xs ys : Bytes) → (secure_equal xs ys ≡ true) ↔ (xs ≡ ys)
unfolding secure_equal
secure_equal_iff xs ys = (
  (λ h. (bytes_eq_iff xs ys).0 (ground arith)),
  (λ e. rw e (ground (arith, (bytes_eq_iff ys ys).1 refl))),
)

module _ {P N : Type 0} (k : Keys P N) (proof : DelegationProof) (exporter transcript : Bytes)
    (now : ℤ) where
  -- The window holds now, is at most 300 seconds long as a difference of integers, and the proof
  -- carries the connection's exporter and transcript bindings.
  pub record IsFresh : Type 0 where
    pub begun : proof.not_before ≤ℤ now
    pub not_over : now ≤ℤ proof.not_after
    pub short : proof.not_after -ℤ proof.not_before ≤ℤ pos max_delegation_ttl
    pub same_exporter : proof.tls_exporter_binding ≡ exporter
    pub same_transcript : proof.tls_transcript_hash ≡ transcript

  pub verify_freshness-IsFresh :
      IsInt64 proof.not_before
      → IsInt64 proof.not_after
      → verify_freshness k proof exporter transcript now ≡ ok tt
      → IsFresh
  unfolding verify_freshness
  verify_freshness-IsFresh hb ha h =
      let (begun, not_over) =
        (is_outside_iff proof.not_before proof.not_after now).0 (ground arith) in
      record {
        begun = begun;
        not_over = not_over;
        short =
            is_too_long_exact proof.not_before proof.not_after hb ha
              (≤ℤ_trans proof.not_before now proof.not_after begun not_over) (ground arith);
        same_exporter = (secure_equal_iff _ _).0 (ground arith);
        same_transcript = (secure_equal_iff _ _).0 (ground arith);
      }

  verify_freshness_complete :
      {ctx : Bytes}
      → IsInt64 proof.not_before
      → IsInt64 proof.not_after
      → canonical_delegation_proof_for_exporter k proof ≡ ok ctx
      → IsFresh
      → verify_freshness k proof exporter transcript now ≡ ok tt
  unfolding verify_freshness
  verify_freshness_complete hb ha enc f =
      let begun = (is_outside_iff proof.not_before proof.not_after now).1 (f.begun, f.not_over) in
      let short =
        is_too_long_complete proof.not_before proof.not_after hb ha
          (≤ℤ_trans proof.not_before now proof.not_after f.begun f.not_over) f.short in
      ground (
        arith,
        begun,
        short,
        enc,
        (secure_equal_iff _ _).1 f.same_exporter,
        (secure_equal_iff _ _).1 f.same_transcript,
      )

  -- For int64 times, and where the exporter context can be encoded, the freshness check passes
  -- exactly when the proof is fresh; the wrap-around of the subtraction never lets a longer window
  -- through.
  pub verify_freshness_iff :
      {ctx : Bytes}
      → IsInt64 proof.not_before
      → IsInt64 proof.not_after
      → canonical_delegation_proof_for_exporter k proof ≡ ok ctx
      → (verify_freshness k proof exporter transcript now ≡ ok tt) ↔ IsFresh
  verify_freshness_iff hb ha enc =
      (verify_freshness-IsFresh hb ha, verify_freshness_complete hb ha enc)
