-- ===== src/Start/Opening.antt =====
-- ouroboros.go and internal/entities/node/node.go: what a start takes, and what it leaves.
use ouroboros_db.Base.{
  ◌≡◌, ◌≢◌, ◌⊎◌, refl, sym, ap, ◌∙◌, subst, true, List, [], ◌∷◌, Option, none, some, Result, ok,
  err, ok-injective, or_fail-eq-ok, Result-cases, ◌>>=◌, >>=-eq-ok, length, ltb, bytes_eq,
  bytes_eq_iff, arith, inl, inr, Bool-cases, Option-cases, if◌then◌else◌,
}
use ouroboros_db.Auth.Types.{Bytes}
use ouroboros_db.Start.{
  Text, Config, StartError, Disk, KeyFile, missing, inaccessible, content, save_key_file,
  CryptLibrary, Node, OuroborosDb, first_path, primary_path, effective_paths,
  effective_minimum_free_gb, with_effective_storage, set_file, load_or_create_crypt, as_node,
  new_node, new_ouroboros_db,
}

-- The directories in use: the storage's own, or else the older setting.
abbrev pub AreInUse : Config → List Text → Type 0
AreInUse conf paths =
    ((conf.storage.paths ≢ []) × (paths ≡ conf.storage.paths))
    ⊎ ((conf.storage.paths ≡ []) × (paths ≡ conf.paths))

-- The key is loaded from its file, which stays, or it is the new one and saved.
abbrev pub IsKeyOf : {C N : Type 0} → CryptLibrary C N → Option C → KeyFile → KeyFile → C → Type 0
IsKeyOf lib fresh before after c =
    ((bytes : Bytes) × (before ≡ content bytes)
      × (after ≡ content bytes)
      × (lib.load bytes ≡ some c))
    ⊎ ((bytes : Bytes) × (before ≡ missing)
        × (after ≡ content bytes)
        × (fresh ≡ some c)
        × (lib.save c ≡ some bytes))

-- A start that gave a database.
pub record Opens {C N : Type 0} (lib : CryptLibrary C N) (fresh : Option C) (disk later : Disk)
    (conf left : Config) (db : OuroborosDb C N) : Type 0 where
  pub dir : Text
  pub others : List Text
  pub in_use : AreInUse conf (dir ∷ others)
  pub stored : left.storage.paths ≡ dir ∷ others
  pub free_kept :
      conf.storage.minimum_free_gb ≢ 0 → left.storage.minimum_free_gb ≡ conf.storage.minimum_free_gb
  pub free_taken :
      conf.storage.minimum_free_gb ≡ 0 → left.storage.minimum_free_gb ≡ conf.minimum_free_gb
  pub rest_kept : left ≡ record conf { storage = left.storage }
  pub own_config : db.config ≡ left
  pub own_id : db.node.node_id ≡ lib.node_id db.node.crypt
  pub key : IsKeyOf lib fresh (disk (lib.join dir)) (later (lib.join dir)) db.node.crypt
  pub other_files : (p : Text) → p ≢ lib.join dir → later p ≡ disk p

first_path_lem :
    (paths : List Text) (dir : Text)
    → first_path paths ≡ ok dir
    → (others : List Text) × (paths ≡ dir ∷ others)
unfolding first_path
first_path_lem [] dir h = cc
first_path_lem (path ∷ rest) dir h = (rest, ap (λ d. d ∷ rest) (ok-injective h))

primary_path_lem :
    (c : Config) (dir : Text)
    → primary_path c ≡ ok dir
    → (others : List Text) × AreInUse c (dir ∷ others) × (effective_paths c ≡ dir ∷ others)
unfolding primary_path effective_paths
primary_path_lem c dir h = go c.storage.paths refl h
  where
    go :
        (own : List Text)
        → c.storage.paths ≡ own
        → (if ltb 0 (length own) then first_path own else first_path c.paths) ≡ ok dir
        → (others : List Text) × AreInUse c (dir ∷ others)
          × ((if ltb 0 (length c.storage.paths) then c.storage.paths else c.paths) ≡ dir ∷ others)
    go [] same g =
        let (others, listed) = first_path_lem c.paths dir g in
        (others, inr (same, sym listed), rw same listed)
    go (x ∷ own) same g =
        let some_own : ltb 0 (length (x ∷ own)) ≡ true = ground arith in
        let (others, listed) = first_path_lem (x ∷ own) dir (rw some_own at g) in
        (others, inl ((λ nothing. cc), sym (same ∙ listed)), rw (same, some_own) listed)

module _ {C N : Type 0} (lib : CryptLibrary C N) where
  load_or_create_crypt_lem :
      (fresh : Option C) (file : KeyFile) (c : C)
      → (load_or_create_crypt lib fresh file).1 ≡ ok c
      → IsKeyOf lib fresh file (load_or_create_crypt lib fresh file).0 c
  unfolding load_or_create_crypt
  load_or_create_crypt_lem fresh (content bytes) c h = inl (bytes, refl, refl, or_fail-eq-ok _ _ h)
  load_or_create_crypt_lem fresh inaccessible c h = cc
  load_or_create_crypt_lem none missing c h = cc
  load_or_create_crypt_lem (some made) missing c h = elim (Option-cases (lib.save made)) [
    | inl unsaved ↦
        let failed : ◌≡◌ {A = Result StartError C} (err save_key_file) (ok c) =
          rw (unsaved, load_or_create_crypt) at h in
        cc
    | inr (bytes, saved) ↦
        let same : ◌≡◌ {A = Result StartError C} (ok made) (ok c) =
          rw (saved, load_or_create_crypt) at h in
        let own : made ≡ c = ok-injective same in
        rw (saved, load_or_create_crypt)
          (inr (bytes, refl, refl, ap some own, subst (λ d. lib.save d ≡ some bytes) own saved))
  ]

  set_file-same : (disk : Disk) (path : Text) (file : KeyFile) → set_file disk path file path ≡ file
  unfolding set_file
  set_file-same disk path file = rw ((bytes_eq_iff path path).1 refl) refl

  set_file-other :
      (disk : Disk) (path : Text) (file : KeyFile) (p : Text)
      → p ≢ path
      → set_file disk path file p ≡ disk p
  unfolding set_file
  set_file-other disk path file p other = elim (Bool-cases (bytes_eq p path)) [
    | inl same ↦ absurd (other ((bytes_eq_iff p path).0 same))
    | inr apart ↦ rw (apart, set_file) refl
  ]

  new_node_lem :
      (fresh : Option C) (disk : Disk) (dir : Text) (n : Node C N)
      → (new_node lib fresh disk dir).1 ≡ ok n
      → (n.node_id ≡ lib.node_id n.crypt)
        × IsKeyOf lib fresh
            (disk (lib.join dir))
            ((new_node lib fresh disk dir).0 (lib.join dir))
            n.crypt
        × ((p : Text) → p ≢ lib.join dir → (new_node lib fresh disk dir).0 p ≡ disk p)
  unfolding new_node as_node
  new_node_lem fresh disk dir n h =
      let path = lib.join dir in
      let out = load_or_create_crypt lib fresh (disk path) in
      let (c, loaded, made) = >>=-eq-ok out.1 _ h in
      let same = ok-injective made in
      let key = load_or_create_crypt_lem fresh (disk path) c loaded in
      (
        subst (λ (m : Node C N). m.node_id ≡ lib.node_id m.crypt) same refl,
        subst
            (λ (m : Node C N).
              IsKeyOf lib fresh (disk path) (set_file disk path out.0 path) m.crypt)
            same
            (subst (λ f. IsKeyOf lib fresh (disk path) f c) (sym (set_file-same disk path out.0))
              key),
        set_file-other disk path out.0,
      )

  -- The start's parts, given the directory that was found.
  opened :
      (fresh : Option C) (disk : Disk) (conf : Config) (dir : Text) (n : Node C N)
      → primary_path conf ≡ ok dir
      → (new_node lib fresh disk dir).1 ≡ ok n
      → Opens lib fresh disk
          (new_node lib fresh disk dir).0
          conf
          (with_effective_storage conf)
          (record { config = with_effective_storage conf; node = n })
  unfolding with_effective_storage effective_minimum_free_gb
  opened fresh disk conf dir n chosen made =
      let (others, in_use, stored) = primary_path_lem conf dir chosen in
      let (own_id, key, other_files) = new_node_lem fresh disk dir n made in
      record {
        dir = dir;
        others = others;
        in_use = in_use;
        stored = stored;
        free_kept = λ own. ground arith;
        free_taken = λ none_own. ground arith;
        rest_kept = refl;
        own_config = refl;
        own_id = own_id;
        key = key;
        other_files = other_files;
      }

  -- A start that gives a database has taken the first directory in use, keeps the effective storage
  -- settings in the configuration and nothing else, and has loaded the key that stood in the
  -- directory's file, or else saved there the key that was generated.
  pub new_ouroboros_db-Opens :
      (fresh : Option C) (disk later : Disk) (conf left : Config) (db : OuroborosDb C N)
      → new_ouroboros_db lib fresh disk conf ≡ (left, later, ok db)
      → Opens lib fresh disk later conf left db
  unfolding new_ouroboros_db
  new_ouroboros_db-Opens fresh disk later conf left db h = elim (Result-cases (primary_path conf)) [
    | inr (bad, missing_path) ↦
        let failed : ◌≡◌ {A = Config × Disk × Result StartError (OuroborosDb C N)}
            (conf, disk, err bad) (left, later, ok db) =
          rw (missing_path, new_ouroboros_db) at h in
        cc (ap (λ (x : Config × Disk × Result StartError (OuroborosDb C N)). x.2) failed)
    | inl (dir, chosen) ↦
        let made = new_node lib fresh disk dir in
        let all : ◌≡◌ {A = Config × Disk × Result StartError (OuroborosDb C N)}
            (
              with_effective_storage conf,
              made.0,
              (do n ← made.1; ok (record { config = with_effective_storage conf; node = n })),
            )
            (left, later, ok db) =
          rw (chosen, new_ouroboros_db) at h in
        let (n, started, same) =
          >>=-eq-ok made.1 _
            (ap (λ (x : Config × Disk × Result StartError (OuroborosDb C N)). x.2) all) in
        let conf_so = ap (λ (x : Config × Disk × Result StartError (OuroborosDb C N)). x.0) all in
        let disk_so = ap (λ (x : Config × Disk × Result StartError (OuroborosDb C N)). x.1) all in
        subst (λ d. Opens lib fresh disk later conf left d) (ok-injective same)
          (subst
            (λ l.
              Opens lib fresh disk later conf l
                (record { config = with_effective_storage conf; node = n }))
            conf_so
            (subst
              (λ (d : Disk).
                Opens lib fresh disk d conf (with_effective_storage conf)
                  (record { config = with_effective_storage conf; node = n }))
              disk_so (opened fresh disk conf dir n chosen started)))
  ]
