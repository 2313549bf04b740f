-- ===== src/Interactive/Csv.antt =====
-- cmd/interactive/main.go: what `splitCSV` gives.
use ouroboros_db.Base.{
  ℕ, ◌<◌, ◌≡◌, refl, ap, ◌∙◌, subst, ◌≢◌, ◌↔◌, false, ◌&&◌, List, [], ◌∷◌, ◌++◌, append_assoc, eqb,
  length, arith, Bool-cases, inl, inr, All,
}
use ouroboros_db.Start.{Text}
use ouroboros_db.Interactive.Words.{
  is_space, trim_left, trim_right, trim_space, split, join, csv_items, comma, split_csv, push_first,
}

trim_right_idem : (s : Text) → trim_right (trim_right s) ≡ trim_right s
unfolding trim_right
trim_right_idem [] = refl
trim_right_idem (c ∷ s) = ground (arith, trim_right_idem s)

trimmed_tail : (c : ℕ) (s : Text) → trim_right (c ∷ s) ≡ c ∷ s → trim_right s ≡ s
unfolding trim_right
trimmed_tail c s h = ground (arith, h)

-- A text that ends with no space keeps it so when spaces go at its front.
trim_right-trim_left : (s : Text) → trim_right s ≡ s → trim_right (trim_left s) ≡ trim_left s
unfolding trim_right trim_left
trim_right-trim_left [] h = refl
trim_right-trim_left (c ∷ s) h = ground (arith, h, trim_right-trim_left s (trimmed_tail c s h))

trim_left_idem : (s : Text) → trim_left (trim_left s) ≡ trim_left s
unfolding trim_left
trim_left_idem [] = refl
trim_left_idem (c ∷ s) = ground (arith, trim_left_idem s)

trim_space_idem : (s : Text) → trim_space (trim_space s) ≡ trim_space s
unfolding trim_space
trim_space_idem s =
    rw (trim_right-trim_left (trim_right s) (trim_right_idem s)) (trim_left_idem (trim_right s))

-- An entry of a list that is written with commas.
pub record IsItem (s : Text) : Type 0 where
  pub some_character : 0 < length s
  pub trimmed : trim_space s ≡ s
  pub no_comma : All (λ c. c ≢ comma) s

module _ (Q : ℕ → Type 0) where
  All-trim_left : (s : Text) → All Q s → All Q (trim_left s)
  unfolding trim_left
  All-trim_left [] q = tt
  All-trim_left (c ∷ s) q = elim (Bool-cases (is_space c)) [
    | inl space ↦ rw (space, trim_left) (All-trim_left s q.1)
    | inr other ↦ rw (other, trim_left) q
  ]

  All-trim_right : (s : Text) → All Q s → All Q (trim_right s)
  unfolding trim_right
  All-trim_right [] q = tt
  All-trim_right (c ∷ s) q = elim (Bool-cases (eqb (length (trim_right s)) 0 && is_space c)) [
    | inl gone ↦ rw (gone, trim_right) tt
    | inr stays ↦ rw (stays, trim_right) (q.0, All-trim_right s q.1)
  ]

  All-trim_space : (s : Text) → All Q s → All Q (trim_space s)
  unfolding trim_space
  All-trim_space s q = All-trim_left (trim_right s) (All-trim_right s q)

abbrev Lacks : ℕ → Text → Type 0
Lacks sep = All (λ c. c ≢ sep)

module _ (sep : ℕ) where
  push_first-Lacks :
      (c : ℕ) (parts : List Text)
      → c ≢ sep
      → All (Lacks sep) parts
      → All (Lacks sep) (push_first c parts)
  push_first-Lacks c [] other q = ((other, tt), tt)
  push_first-Lacks c (part ∷ parts) other q = ((other, q.0), q.1)

  split-Lacks : (s : Text) → All (Lacks sep) (split s sep)
  unfolding split
  split-Lacks [] = (tt, tt)
  split-Lacks (c ∷ s) = elim (Bool-cases (eqb c sep)) [
    | inl here ↦ rw (here, split) (tt, split-Lacks s)
    | inr other ↦
        rw (other, split) (push_first-Lacks c (split s sep) (ground (arith, other)) (split-Lacks s))
  ]

  split-whole : (s : Text) → Lacks sep s → split s sep ≡ s ∷ []
  unfolding split
  split-whole [] q = refl
  split-whole (c ∷ s) q =
      let other : eqb c sep ≡ false = ground (arith, q.0) in rw (other, split-whole s q.1) refl

  split-append : (x s : Text) → Lacks sep x → split (x ++ sep ∷ s) sep ≡ x ∷ split s sep
  unfolding split
  split-append [] s q = ground arith
  split-append (c ∷ x) s q =
      let other : eqb c sep ≡ false = ground (arith, q.0) in rw (other, split-append x s q.1) refl

  split-join :
      (x : Text) (xs : List Text)
      → All (Lacks sep) (x ∷ xs)
      → split (join (x ∷ xs) (sep ∷ [])) sep ≡ x ∷ xs
  unfolding join
  split-join x [] q = split-whole x q.0
  split-join x (y ∷ xs) q =
      ap (λ t. split t sep) (append_assoc x (sep ∷ []) (join (y ∷ xs) (sep ∷ [])))
      ∙ split-append x (join (y ∷ xs) (sep ∷ [])) q.0
      ∙ ap (◌∷◌ x) (split-join y xs q.1)

csv_items-IsItem : (parts : List Text) → All (Lacks comma) parts → All IsItem (csv_items parts)
unfolding csv_items
csv_items-IsItem [] q = tt
csv_items-IsItem (part ∷ parts) q = elim (Bool-cases (eqb (length (trim_space part)) 0)) [
  | inl blank ↦ rw (blank, csv_items) (csv_items-IsItem parts q.1)
  | inr filled ↦
      rw (filled, csv_items)
        (
          record {
            some_character = ground (arith, filled);
            trimmed = trim_space_idem part;
            no_comma = All-trim_space (λ c. c ≢ comma) part q.0;
          },
          csv_items-IsItem parts q.1,
        )
]

split_csv-IsItem : (raw : Text) → All IsItem (split_csv raw)
unfolding split_csv
split_csv-IsItem [] = tt
split_csv-IsItem (c ∷ s) =
    let filled : eqb (length (c ∷ s)) 0 ≡ false = ground arith in
    rw (filled, split_csv) (csv_items-IsItem (split (c ∷ s) comma) (split-Lacks comma (c ∷ s)))

csv_items-items : (items : List Text) → All IsItem items → csv_items items ≡ items
unfolding csv_items
csv_items-items [] q = refl
csv_items-items (x ∷ xs) q =
    let kept : eqb (length x) 0 ≡ false = ground (arith, q.0.some_character) in
    rw (q.0.trimmed, csv_items-items xs q.1, kept) refl

items-Lacks : (items : List Text) → All IsItem items → All (Lacks comma) items
items-Lacks [] q = tt
items-Lacks (x ∷ xs) q = (q.0.no_comma, items-Lacks xs q.1)

join_filled :
    (x : Text) (xs : List Text) → IsItem x → eqb (length (join (x ∷ xs) (comma ∷ []))) 0 ≡ false
unfolding join
join_filled [] xs q = absurd (omega (arith, q.some_character))
join_filled (c ∷ x) [] q = ground arith
join_filled (c ∷ x) (y ∷ xs) q = ground arith

split_csv-join :
    (items : List Text) → All IsItem items → split_csv (join items (comma ∷ [])) ≡ items
unfolding split_csv join
split_csv-join [] q = refl
split_csv-join (x ∷ xs) q =
    rw (join_filled x xs q.0, split-join comma x xs (items-Lacks (x ∷ xs) q))
      (csv_items-items (x ∷ xs) q)

-- The lists that splitCSV gives for some text are exactly the lists of texts with a character,
-- without a comma, and without a space at either end.
pub split_csv_iff :
    (items : List Text) → All IsItem items ↔ ((raw : Text) × (split_csv raw ≡ items))
split_csv_iff items = (
  (λ q. (join items (comma ∷ []), split_csv-join items q)),
  (λ (raw, split_so). subst (All IsItem) split_so (split_csv-IsItem raw)),
)
