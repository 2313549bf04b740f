-- ===== src/Interactive/Repl/Safe.antt =====
-- cmd/interactive/main.go: the loop over the operator's lines never takes a field that is not
-- there.
use ouroboros_db.Base.{
  ℕ, suc, ◌+◌, ◌<◌, ◌≡◌, refl, Bool, false, List, [], ◌∷◌, some, length, eqb, arith, Bool-cases,
  inl, inr,
}
use ouroboros_db.Start.{Text}
use ouroboros_db.Interactive.Words.{
  is_space, trim_left, trim_right, trim_space, fields, non_empty, space_parts, push_first,
}
use ouroboros_db.Interactive.Repl.{
  Action, ReplEnd, prints_help, prints_id, prints_listen_address, prints_peers, reconnects, cancels,
  broadcasts, unknown_command, context_done, quit, input_ended, out_of_range, named, command, after,
  repl_from, repl,
}

-- The first character of a trimmed text is no space.
trim_left_first : (s : Text) (c : ℕ) (rest : Text) → trim_left s ≡ c ∷ rest → is_space c ≡ false
unfolding trim_left
trim_left_first [] c rest h = cc
trim_left_first (d ∷ s) c rest h = ground (arith, h, trim_left_first s c rest)

push_first_filled : (c : ℕ) (parts : List Text) → 0 < length (non_empty (push_first c parts))
unfolding non_empty
push_first_filled c [] = ground arith
push_first_filled c (part ∷ parts) = ground arith

fields_filled : (c : ℕ) (rest : Text) → is_space c ≡ false → 0 < length (fields (c ∷ rest))
unfolding fields space_parts
fields_filled c rest other = rw (other, space_parts) (push_first_filled c (space_parts rest))

-- A trimmed line with a character has a first field.
fields-trim_space :
    (text : Text) → eqb (length (trim_space text)) 0 ≡ false → 0 < length (fields (trim_space text))
unfolding trim_space
fields-trim_space text some_character = go (trim_left (trim_right text)) refl some_character
  where
    go :
        (line : Text)
        → trim_left (trim_right text) ≡ line
        → eqb (length line) 0 ≡ false
        → 0 < length (fields line)
    go [] same filled = absurd (ground (arith, filled))
    go (c ∷ rest) same filled = fields_filled c rest (trim_left_first (trim_right text) c rest same)

has_command : (parts : List Text) → 0 < length parts → (a : Action) × (command parts ≡ some a)
unfolding command
has_command [] h = absurd (omega (arith, h))
has_command (cmd ∷ args) h = (named cmd args, refl)

abbrev is_cancel : Action → ℕ
is_cancel cancels = 1
is_cancel prints_help = 0
is_cancel prints_id = 0
is_cancel prints_listen_address = 0
is_cancel prints_peers = 0
is_cancel reconnects = 0
is_cancel (broadcasts text) = 0
is_cancel (unknown_command cmd) = 0

-- How often the process is cancelled.
abbrev pub cancel_count : List Action → ℕ
cancel_count [] = 0
cancel_count (a ∷ actions) = is_cancel a + cancel_count actions

-- The loop ended in an orderly way: with a cancelled process exactly if it was told to quit.
abbrev pub IsOrderly : List Action × ReplEnd → Type 0
IsOrderly (actions, quit) = cancel_count actions ≡ 1
IsOrderly (actions, context_done) = cancel_count actions ≡ 0
IsOrderly (actions, input_ended failed) = cancel_count actions ≡ 0
IsOrderly (actions, out_of_range) = ⊥

uncounted :
    (a : Action) (actions : List Action) (end : ReplEnd)
    → is_cancel a ≡ 0
    → IsOrderly (actions, end)
    → IsOrderly (a ∷ actions, end)
uncounted a actions quit zero_more h = omega (arith, zero_more, h)
uncounted a actions context_done zero_more h = omega (arith, zero_more, h)
uncounted a actions (input_ended failed) zero_more h = omega (arith, zero_more, h)
uncounted a actions out_of_range zero_more h = h

after-IsOrderly :
    (a : Action) (rest : List Action × ReplEnd) → IsOrderly rest → IsOrderly (after (some a) rest)
after-IsOrderly cancels rest h = refl
after-IsOrderly prints_help (actions, end) h = uncounted prints_help actions end refl h
after-IsOrderly prints_id (actions, end) h = uncounted prints_id actions end refl h
after-IsOrderly prints_listen_address (actions, end) h =
    uncounted prints_listen_address actions end refl h
after-IsOrderly prints_peers (actions, end) h = uncounted prints_peers actions end refl h
after-IsOrderly reconnects (actions, end) h = uncounted reconnects actions end refl h
after-IsOrderly (broadcasts text) (actions, end) h = uncounted (broadcasts text) actions end refl h
after-IsOrderly (unknown_command cmd) (actions, end) h =
    uncounted (unknown_command cmd) actions end refl h

repl_from-IsOrderly :
    (done : ℕ → Bool) (scan_failed : Bool) (i : ℕ) (lines : List Text)
    → IsOrderly (repl_from done scan_failed i lines)
unfolding repl_from
repl_from-IsOrderly done scan_failed i [] = elim (Bool-cases (done i)) [
  | inl over ↦ rw (over, repl_from) refl
  | inr going ↦ rw (going, repl_from) refl
]
repl_from-IsOrderly done scan_failed i (text ∷ lines) =
    let rest = repl_from-IsOrderly done scan_failed (suc i) lines in
    elim (Bool-cases (done i)) [
      | inl over ↦ rw (over, repl_from) refl
      | inr going ↦ elim (Bool-cases (eqb (length (trim_space text)) 0)) [
        | inl blank ↦ rw (going, blank, repl_from) rest
        | inr filled ↦
            let (a, told) =
              has_command (fields (trim_space text)) (fields-trim_space text filled) in
            rw (going, filled, told, repl_from) (after-IsOrderly a _ rest)
      ]
    ]

-- Whatever lines the operator enters and whenever the context is cancelled, the loop never takes a
-- field that is not there, and it cancels the process exactly once if it was told to quit or exit
-- and never otherwise.
pub repl-IsOrderly :
    (done : ℕ → Bool) (scan_failed : Bool) (lines : List Text)
    → IsOrderly (repl done scan_failed lines)
unfolding repl
repl-IsOrderly done scan_failed lines =
    let (actions, end) = repl_from done scan_failed 0 lines in
    uncounted prints_help actions end refl (repl_from-IsOrderly done scan_failed 0 lines)
