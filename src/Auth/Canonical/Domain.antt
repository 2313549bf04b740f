-- ===== src/Auth/Canonical/Domain.antt =====
-- The length prefix of `DomainSeparate` keeps the signing contexts apart.
use ouroboros_db.Base.{
  ℕ, ◌/◌, ◌%◌, ◌^◌, ◌<◌, ◌≡◌, ap, ◌++◌, [], ◌∷◌, arith, length, drop, get_elem?, some,
}
use ouroboros_db.Auth.Types.{Bytes}
use ouroboros_db.Auth.Canonical.{domain_separate}

-- Four bytes determine a length below 2^32.
bytes_of_length :
    (l m : ℕ)
    → l < 2 ^ 32
    → m < 2 ^ 32
    → l / 2 ^ 24 % 256 ≡ m / 2 ^ 24 % 256
    → l / 2 ^ 16 % 256 ≡ m / 2 ^ 16 % 256
    → l / 2 ^ 8 % 256 ≡ m / 2 ^ 8 % 256
    → l % 256 ≡ m % 256
    → l ≡ m
bytes_of_length l m hl hm a b c d = omega arith

-- Two lists that start with lists of one length agree part by part.
append_split :
    (xs ys us vs : Bytes) → length xs ≡ length us → xs ++ ys ≡ us ++ vs → (xs ≡ us) × (ys ≡ vs)
append_split [] ys [] vs l h = (cc, h)
append_split [] ys (u ∷ us) vs l h = absurd (omega arith)
append_split (x ∷ xs) ys [] vs l h = absurd (omega arith)
append_split (x ∷ xs) ys (u ∷ us) vs l h = ground (arith, append_split xs ys us vs)

-- Two messages with contexts shorter than 2^32 bytes are equal only if both the contexts and the
-- data are equal, so a signature under one context is never one under another.
pub domain_separate_injective :
    (ctx body ctx' body' : Bytes)
    → length ctx < 2 ^ 32
    → length ctx' < 2 ^ 32
    → domain_separate ctx body ≡ domain_separate ctx' body'
    → (ctx ≡ ctx') × (body ≡ body')
unfolding domain_separate
domain_separate_injective ctx body ctx' body' hl hl' h =
    append_split ctx body ctx' body'
      (bytes_of_length (length ctx) (length ctx') hl hl' (byte 0) (byte 1) (byte 2) (byte 3))
      (ap (drop 4) h)
  where
    nth : ℕ → Bytes → ℕ
    nth i xs = elim (get_elem? xs i) [ some b ↦ b | _ ↦ 0 ]

    byte : (i : ℕ) → nth i (domain_separate ctx body) ≡ nth i (domain_separate ctx' body')
    byte i = ap (nth i) h
