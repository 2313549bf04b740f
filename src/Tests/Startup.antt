-- ===== src/Tests/Startup.antt =====
-- Runs of the start of a database and of the interactive program.
use ouroboros_db.Base.{
  ℕ, ◌≡◌, refl, subst, some-injective, false, List, [], ◌∷◌, ◌++◌, none, some, ok, All, ◌↔◌,
}
use ouroboros_db.Auth.Types.{Bytes, codes}
use ouroboros_db.Start.{
  Text, Config, Disk, missing, content, CryptLibrary, OuroborosDb, with_effective_storage,
  effective_minimum_free_gb, primary_path, first_path, set_file, load_or_create_crypt, as_node,
  new_node, new_ouroboros_db,
}
use ouroboros_db.Start.Opening.{Opens}
use ouroboros_db.Start.Restart.{new_ouroboros_db-restart}
use ouroboros_db.Interactive.Words.{
  fields, non_empty, space_parts, join, split_csv, csv_items, split, trim_space, trim_left,
  trim_right, is_space, parse_slog_level, to_lower, warn, info,
}
use ouroboros_db.Interactive.Csv.{IsItem, split_csv_iff}
use ouroboros_db.Interactive.Repl.{
  repl, repl_from, command, named, prints_help, broadcasts, cancels, quit, hello_text,
}
use ouroboros_db.Interactive.Repl.Safe.{IsOrderly, repl-IsOrderly}

abbrev lib : CryptLibrary ℕ ℕ
lib = record {
  load = λ b. elim b [ [] ↦ none | c ∷ rest ↦ some c ];
  save = λ c. some (c ∷ []);
  node_id = λ c. c;
  join = λ dir. dir ++ (codes "/key");
}

load_back : (c : ℕ) (bytes : Bytes) → lib.save c ≡ some bytes → lib.load bytes ≡ some c
load_back c bytes saved = subst (λ b. lib.load b ≡ some c) (some-injective saved) refl

abbrev empty : Disk
empty = λ p. missing

abbrev conf : Config
conf = record {
  paths = (1 ∷ []) ∷ (2 ∷ []) ∷ [];
  minimum_free_gb = 5;
  ui_port = 0;
  storage = record { paths = []; minimum_free_gb = 0 };
  network = record { listen_address = []; bootstrap_addresses = [] };
  identity = record { node_cert_path = []; admin_ca_paths = []; user_ca_paths = [] };
}

abbrev db : OuroborosDb ℕ ℕ
db = record { config = with_effective_storage conf; node = record { crypt = 7; node_id = 7 } }

abbrev later : Disk
later = set_file empty (1 ∷ codes "/key") (content (7 ∷ []))

starts : new_ouroboros_db lib (some 7) empty conf ≡ (with_effective_storage conf, later, ok db)
unfolding new_ouroboros_db primary_path first_path new_node load_or_create_crypt as_node
starts = refl

stored : (with_effective_storage conf).storage.minimum_free_gb ≡ 5
unfolding with_effective_storage effective_minimum_free_gb
stored = refl

new_ouroboros_db-restart_example :
    Opens lib (some 7) empty later conf (with_effective_storage conf) db
    × (kept : Disk) × (new_ouroboros_db lib (some 9) later (with_effective_storage conf)
        ≡ (with_effective_storage conf, kept, ok db))
    × ((p : Text) → kept p ≡ later p)
new_ouroboros_db-restart_example =
    new_ouroboros_db-restart lib load_back (some 7) (some 9) empty later conf
      (with_effective_storage conf) db starts

abbrev items : List Text
items = codes "a" ∷ codes "b c" ∷ []

read : split_csv (codes " a,, b c ") ≡ items
unfolding split_csv csv_items split trim_space trim_left trim_right is_space
read = refl

split_csv_iff_example : All IsItem items ↔ ((raw : Text) × (split_csv raw ≡ items))
split_csv_iff_example = split_csv_iff items

level : parse_slog_level (codes "WARNing") ≡ warn
unfolding parse_slog_level to_lower
level = refl

other_level : parse_slog_level (codes "loud") ≡ info
unfolding parse_slog_level to_lower
other_level = refl

abbrev lines : List Text
lines = codes "  " ∷ codes " hello you " ∷ codes "quit now" ∷ codes "id" ∷ []

runs : repl (λ i. false) false lines ≡ (prints_help ∷ broadcasts (codes "you") ∷ cancels ∷ [], quit)
unfolding repl repl_from command named trim_space trim_left trim_right is_space hello_text fields
    non_empty space_parts join
runs = refl

repl-IsOrderly_example : IsOrderly (repl (λ i. false) false lines)
repl-IsOrderly_example = repl-IsOrderly (λ i. false) false lines
