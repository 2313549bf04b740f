-- ===== src/Interactive/Repl.antt =====
-- cmd/interactive/main.go: `repl`, the loop over the operator's lines. What a command prints or
-- asks of the carrier is an action. Whether the context is found cancelled before the i-th line is
-- read, and how the input ends, are arguments.
pub mod Safe
use ouroboros_db.Base.{
  ℕ, suc, Bool, true, false, ◌||◌, List, [], ◌∷◌, Option, none, some, length, bytes_eq, eqb, ltb,
  if◌then◌else◌,
}
use ouroboros_db.Auth.Types.{codes}
use ouroboros_db.Start.{Text}
use ouroboros_db.Interactive.Words.{trim_space, fields, join}

pub data Action : Type 0 where
  prints_help prints_id prints_listen_address prints_peers reconnects cancels : Action
  broadcasts unknown_command : Text → Action

-- Why the loop ends: the context, the end of the input with the scanner's error if there is one, a
-- command, or an index out of range, which the code would panic on.
pub data ReplEnd : Type 0 where
  context_done quit out_of_range : ReplEnd
  input_ended : Bool → ReplEnd

abbrev pub space : Text
space = 32 ∷ []

unfoldable pub hello_text : List Text → Text
hello_text args = if ltb 0 (length args) then join args space else codes "hello world"

-- The command's switch.
unfoldable pub named : Text → List Text → Action
named cmd args =
    if bytes_eq cmd (codes "help")
    then prints_help
    else if bytes_eq cmd (codes "id")
    then prints_id
    else if bytes_eq cmd (codes "listen")
    then prints_listen_address
    else if bytes_eq cmd (codes "peers")
    then prints_peers
    else if bytes_eq cmd (codes "hello") || bytes_eq cmd (codes "broadcast")
    then broadcasts (hello_text args)
    else if bytes_eq cmd (codes "reconnect")
    then reconnects
    else if bytes_eq cmd (codes "exit") || bytes_eq cmd (codes "quit")
    then cancels
    else unknown_command cmd

-- The command of a line's fields; `none` is the index out of range.
unfoldable pub command : List Text → Option Action
command [] = none
command (cmd ∷ args) = some (named cmd args)

-- What follows a line's action.
abbrev pub after : Option Action → List Action × ReplEnd → List Action × ReplEnd
after none rest = ([], out_of_range)
after (some cancels) rest = (cancels ∷ [], quit)
after (some action) (actions, end) = (action ∷ actions, end)

-- The loop from its i-th pass on.
unfoldable pub repl_from : (ℕ → Bool) → Bool → ℕ → List Text → List Action × ReplEnd
repl_from done scan_failed i [] =
    if done i then ([], context_done) else ([], input_ended scan_failed)
repl_from done scan_failed i (text ∷ lines) =
    let rest = repl_from done scan_failed (suc i) lines in
    let line = trim_space text in
    if done i
    then ([], context_done)
    else if eqb (length line) 0
    then rest
    else after (command (fields line)) rest

-- The help is printed before the first line.
unfoldable pub repl : (ℕ → Bool) → Bool → List Text → List Action × ReplEnd
repl done scan_failed lines =
    let (actions, end) = repl_from done scan_failed 0 lines in (prints_help ∷ actions, end)
