-- ===== src/Interactive/Words.antt =====
-- cmd/interactive/main.go: texts, with the functions of package strings that it calls.
use ouroboros_db.Base.{
  ℕ, ◌+◌, Bool, ◌&&◌, ◌||◌, List, [], ◌∷◌, ◌++◌, leb, eqb, length, bytes_eq, map, if◌then◌else◌,
}
use ouroboros_db.Auth.Types.{codes}
use ouroboros_db.Start.{Text}

-- `unicode.IsSpace`.
unfoldable pub is_space : ℕ → Bool
is_space c =
    (leb 9 c && leb c 13)
    || eqb c 32
    || eqb c 133
    || eqb c 160
    || eqb c 5760
    || (leb 8192 c && leb c 8202)
    || eqb c 8232
    || eqb c 8233
    || eqb c 8239
    || eqb c 8287
    || eqb c 12288

unfoldable pub trim_left : Text → Text
trim_left [] = []
trim_left (c ∷ s) = let rest = trim_left s in if is_space c then rest else c ∷ s

-- The character goes if nothing but spaces follows it.
unfoldable pub trim_right : Text → Text
trim_right [] = []
trim_right (c ∷ s) =
    let rest = trim_right s in if eqb (length rest) 0 && is_space c then [] else c ∷ rest

unfoldable pub trim_space : Text → Text
trim_space s = trim_left (trim_right s)

abbrev pub push_first : ℕ → List Text → List Text
push_first c [] = (c ∷ []) ∷ []
push_first c (part ∷ parts) = (c ∷ part) ∷ parts

-- `strings.Split` at a separator of one character.
unfoldable pub split : Text → ℕ → List Text
split [] sep = [] ∷ []
split (c ∷ s) sep = let parts = split s sep in if eqb c sep then [] ∷ parts else push_first c parts

-- `strings.Fields`: the runs of other characters than spaces.
unfoldable pub non_empty : List Text → List Text
non_empty [] = []
non_empty (part ∷ parts) =
    let rest = non_empty parts in if eqb (length part) 0 then rest else part ∷ rest

unfoldable pub space_parts : Text → List Text
space_parts [] = [] ∷ []
space_parts (c ∷ s) =
    let parts = space_parts s in if is_space c then [] ∷ parts else push_first c parts

unfoldable pub fields : Text → List Text
fields s = non_empty (space_parts s)

-- `strings.Join`.
unfoldable pub join : List Text → Text → Text
join [] sep = []
join (part ∷ []) sep = part
join (part ∷ next ∷ parts) sep = part ++ sep ++ join (next ∷ parts) sep

-- `unicode.ToLower` as far as its results are ASCII: two other characters have such a lower case. A
-- character whose lower case is outside ASCII is left as it is.
unfoldable pub to_lower : ℕ → ℕ
to_lower c =
    if leb 65 c && leb c 90
    then c + 32
    else if eqb c 304
    then 105
    else if eqb c 8490
    then 107
    else c

-- `slog.Level`.
pub data Level : Type 0 where
  debug info warn error : Level

unfoldable pub parse_slog_level : Text → Level
parse_slog_level name =
    let lower = map to_lower name in
    if bytes_eq lower (codes "debug")
    then debug
    else if bytes_eq lower (codes "warn") || bytes_eq lower (codes "warning")
    then warn
    else if bytes_eq lower (codes "error")
    then error
    else info

-- The loop of `splitCSV`.
unfoldable pub csv_items : List Text → List Text
csv_items [] = []
csv_items (part ∷ parts) =
    let out = csv_items parts in
    let trimmed = trim_space part in if eqb (length trimmed) 0 then out else trimmed ∷ out

abbrev pub comma : ℕ
comma = 44

unfoldable pub split_csv : Text → List Text
split_csv raw = if eqb (length raw) 0 then [] else csv_items (split raw comma)
