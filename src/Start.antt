-- ===== src/Start.antt =====
-- config.go, ouroboros.go and internal/entities/node/node.go: the configuration of a database and
-- its start. A path is the text of its code points. The crypto library's key file is a content that
-- it loads and saves; a file is missing, cannot be examined, or has a content.

pub mod Opening
pub mod Restart
use ouroboros_db.Base.{
  ℕ, List, [], ◌∷◌, Option, none, some, Result, ok, err, ◌>>=◌, or_fail, ltb, eqb, length, bytes_eq,
  if◌then◌else◌,
}
use ouroboros_db.Auth.Types.{Bytes}

abbrev pub Text : Type 0
Text = List ℕ

pub record StorageConfig : Type 0 where
  pub paths : List Text
  pub minimum_free_gb : ℕ

pub record NetworkConfig : Type 0 where
  pub listen_address : Text
  pub bootstrap_addresses : List Text

pub record IdentityConfig : Type 0 where
  pub node_cert_path : Text
  pub admin_ca_paths : List Text
  pub user_ca_paths : List Text

-- `Config` without its logger.
pub record Config : Type 0 where
  pub paths : List Text
  pub minimum_free_gb : ℕ
  pub ui_port : ℕ
  pub storage : StorageConfig
  pub network : NetworkConfig
  pub identity : IdentityConfig

pub data StartError : Type 0 where
  no_path load_key_file generate_keys save_key_file stat_key_file : StartError

unfoldable pub first_path : List Text → Result StartError Text
first_path [] = err no_path
first_path (path ∷ rest) = ok path

unfoldable pub primary_path : Config → Result StartError Text
primary_path c =
    if ltb 0 (length c.storage.paths) then first_path c.storage.paths else first_path c.paths

unfoldable pub effective_paths : Config → List Text
effective_paths c = if ltb 0 (length c.storage.paths) then c.storage.paths else c.paths

unfoldable pub effective_minimum_free_gb : Config → ℕ
effective_minimum_free_gb c =
    if eqb c.storage.minimum_free_gb 0 then c.minimum_free_gb else c.storage.minimum_free_gb

unfoldable pub effective_listen_address : Config → Text
effective_listen_address c = c.network.listen_address

unfoldable pub effective_bootstrap_addresses : Config → List Text
effective_bootstrap_addresses c = c.network.bootstrap_addresses

-- What `os.Stat` finds.
pub data KeyFile : Type 0 where
  missing inaccessible : KeyFile
  content : Bytes → KeyFile

abbrev pub Disk : Type 0
Disk = Text → KeyFile

unfoldable pub set_file : Disk → Text → KeyFile → Disk
set_file disk path file = λ p. if bytes_eq p path then file else disk p

-- `crypt.NewFromFile`, `SaveToFile` and `crypt.Crypt`'s NodeID; `join` is `filepath.Join` of the
-- directory and the name of the key file.
pub record CryptLibrary (C N : Type 0) : Type 0 where
  pub load : Bytes → Option C
  pub save : C → Option Bytes
  pub node_id : C → N
  pub join : Text → Text

pub record Node (C N : Type 0) : Type 0 where
  pub crypt : C
  pub node_id : N

module _ {C N : Type 0} (lib : CryptLibrary C N) where
  -- `crypt.New` gives `none` if it panics. A save that fails leaves no file.
  unfoldable pub load_or_create_crypt : Option C → KeyFile → KeyFile × Result StartError C
  load_or_create_crypt fresh (content bytes) =
      (content bytes, or_fail (lib.load bytes) load_key_file)
  load_or_create_crypt fresh inaccessible = (inaccessible, err stat_key_file)
  load_or_create_crypt fresh missing = elim fresh [
    | none ↦ (missing, err generate_keys)
    | some c ↦ elim (lib.save c) [
      | none ↦ (missing, err save_key_file)
      | some bytes ↦ (content bytes, ok c)
    ]
  ]

  unfoldable pub as_node : Result StartError C → Result StartError (Node C N)
  as_node r = do c ← r; ok (record { crypt = c; node_id = lib.node_id c })

  unfoldable pub new_node : Option C → Disk → Text → Disk × Result StartError (Node C N)
  new_node fresh disk data_dir =
      let (file, loaded) = load_or_create_crypt fresh (disk (lib.join data_dir)) in
      (set_file disk (lib.join data_dir) file, as_node loaded)

-- `OuroborosDB` without its logger.
pub record OuroborosDb (C N : Type 0) : Type 0 where
  pub config : Config
  pub node : Node C N

-- The caller's configuration is written to.
unfoldable pub with_effective_storage : Config → Config
with_effective_storage c = record c {
  storage = record { paths = effective_paths c; minimum_free_gb = effective_minimum_free_gb c };
}

module _ {C N : Type 0} (lib : CryptLibrary C N) where
  -- The caller's configuration and the disk afterwards, and the database.
  unfoldable pub new_ouroboros_db :
      Option C → Disk → Config → Config × Disk × Result StartError (OuroborosDb C N)
  new_ouroboros_db fresh disk conf = elim (primary_path conf) [
    | err bad ↦ (conf, disk, err bad)
    | ok path ↦
        let effective = with_effective_storage conf in
        let (after, node) = new_node lib fresh disk path in
        (effective, after, do n ← node; ok (record { config = effective; node = n }))
  ]
