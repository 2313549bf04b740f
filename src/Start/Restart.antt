-- ===== src/Start/Restart.antt =====
-- ouroboros.go and internal/entities/node/node.go: a database that is started again.
use ouroboros_db.Base.{
  ◌≡◌, refl, sym, ap, ◌∙◌, subst, true, List, [], ◌∷◌, Option, none, some, Result, ok, err, ◌>>=◌,
  ok-injective, length, ltb, bytes_eq_iff, arith, if◌then◌else◌, >>=-eq-ok,
}
use ouroboros_db.Auth.Types.{Bytes}
use ouroboros_db.Start.{
  Text, Config, StartError, Disk, KeyFile, missing, inaccessible, save_key_file, content,
  CryptLibrary, Node, OuroborosDb, first_path, primary_path, effective_paths,
  effective_minimum_free_gb, with_effective_storage, set_file, load_or_create_crypt, as_node,
  new_node, new_ouroboros_db,
}
use ouroboros_db.Start.Opening.{Opens, new_ouroboros_db-Opens}

effective_twice :
    (c : Config) → with_effective_storage (with_effective_storage c) ≡ with_effective_storage c
unfolding with_effective_storage effective_paths effective_minimum_free_gb
effective_twice c = ground arith

first_of :
    (sp p : List Text) (path : Text)
    → (if ltb 0 (length sp) then first_path sp else first_path p) ≡ ok path
    → first_path (if ltb 0 (length sp) then sp else p) ≡ ok path
first_of [] p path h = ground (arith, h)
first_of (x ∷ sp) p path h = ground (arith, h)

filled_first : (ps : List Text) (path : Text) → first_path ps ≡ ok path → ltb 0 (length ps) ≡ true
unfolding first_path
filled_first [] path h = cc h
filled_first (x ∷ ps) path h = ground arith

primary_path-effective :
    (c : Config) (path : Text)
    → primary_path c ≡ ok path
    → primary_path (with_effective_storage c) ≡ ok path
unfolding primary_path with_effective_storage effective_paths
primary_path-effective c path h =
    let first = first_of c.storage.paths c.paths path h in
    let filled = filled_first _ path first in rw (filled, primary_path) first

set_file_same : (disk : Disk) (path : Text) (file : KeyFile) → set_file disk path file path ≡ file
unfolding set_file
set_file_same disk path file = rw ((bytes_eq_iff path path).1 refl) refl

set_file_twice :
    (disk : Disk) (path : Text) (file : KeyFile) (p : Text)
    → set_file (set_file disk path file) path file p ≡ set_file disk path file p
unfolding set_file
set_file_twice disk path file p = ground arith

module _ {C N : Type 0} (lib : CryptLibrary C N)
    (load_back : (c : C) (bytes : Bytes) → lib.save c ≡ some bytes → lib.load bytes ≡ some c) where
  -- A key that was loaded or created is loaded again from what is then in its file.
  load_or_create_twice :
      (fresh again : Option C) (before after : KeyFile) (c : C)
      → load_or_create_crypt lib fresh before ≡ (after, ok c)
      → load_or_create_crypt lib again after ≡ (after, ok c)
  unfolding load_or_create_crypt
  load_or_create_twice fresh again (content bytes) after c h =
      let same : content bytes ≡ after = ap (λ (x : KeyFile × Result StartError C). x.0) h in
      subst (λ f. load_or_create_crypt lib again f ≡ (f, ok c)) same
        (ap (λ r. (content bytes, r)) (ap (λ (x : KeyFile × Result StartError C). x.1) h))
  load_or_create_twice fresh again inaccessible after c h =
      cc (ap (λ (x : KeyFile × Result StartError C). x.1) h)
  load_or_create_twice none again missing after c h =
      cc (ap (λ (x : KeyFile × Result StartError C). x.1) h)
  load_or_create_twice (some made) again missing after c h = go (lib.save made) refl h
    where
      go :
          (saved : Option Bytes)
          → lib.save made ≡ saved
          → ◌≡◌ {A = KeyFile × Result StartError C}
              (elim saved [
                | none ↦ (missing, err save_key_file)
                | some bytes ↦ (content bytes, ok made)
              ])
              (after, ok c)
          → load_or_create_crypt lib again after ≡ (after, ok c)
      go none same g = cc (ap (λ (x : KeyFile × Result StartError C). x.1) g)
      go (some bytes) same g =
          let file : content bytes ≡ after = ap (λ (x : KeyFile × Result StartError C). x.0) g in
          let key : made ≡ c = ok-injective (ap (λ (x : KeyFile × Result StartError C). x.1) g) in
          subst (λ f. load_or_create_crypt lib again f ≡ (f, ok c)) file
            (rw (load_back made bytes same, key) refl)

  -- The file of the key, and what a start leaves.
  new_node_twice :
      (fresh again : Option C) (disk : Disk) (dir : Text) (n : Node C N)
      → (new_node lib fresh disk dir).1 ≡ ok n
      → ((new_node lib again (new_node lib fresh disk dir).0 dir).1 ≡ ok n)
        × ((p : Text)
            → (new_node lib again (new_node lib fresh disk dir).0 dir).0 p
              ≡ (new_node lib fresh disk dir).0 p)
  unfolding new_node as_node
  new_node_twice fresh again disk dir n h =
      let path = lib.join dir in
      let out = load_or_create_crypt lib fresh (disk path) in
      let (c, loaded, same_node) = >>=-eq-ok out.1 _ h in
      let first : out ≡ (out.0, ok c) = ap (λ r. (out.0, r)) loaded in
      let here = set_file_same disk path out.0 in
      let second : load_or_create_crypt lib again (set_file disk path out.0 path) ≡ (out.0, ok c) =
        ap (load_or_create_crypt lib again) here
        ∙ load_or_create_twice fresh again (disk path) out.0 c first in
      (
        ap (λ (x : KeyFile × Result StartError C). as_node lib x.1) second ∙ same_node,
        λ p.
            ap
              (λ (x : KeyFile × Result StartError C).
                set_file (set_file disk path out.0) path x.0 p)
              second
            ∙ set_file_twice disk path out.0 p,
      )

  new_node_again :
      (fresh again : Option C) (disk : Disk) (conf : Config) (path : Text) (n : Node C N)
      → primary_path conf ≡ ok path
      → (new_node lib fresh disk path).1 ≡ ok n
      → new_ouroboros_db lib again (new_node lib fresh disk path).0 (with_effective_storage conf)
        ≡ (
          with_effective_storage conf,
          (new_node lib again (new_node lib fresh disk path).0 path).0,
          ok (record { config = with_effective_storage conf; node = n }),
        )
  unfolding new_ouroboros_db
  new_node_again fresh again disk conf path n chosen made =
      let twice = new_node_twice fresh again disk path n made in
      rw (primary_path-effective conf path chosen, effective_twice conf, twice.0, new_ouroboros_db)
        refl

  restarts :
      (fresh again : Option C) (disk later : Disk) (conf left : Config) (db : OuroborosDb C N)
      → new_ouroboros_db lib fresh disk conf ≡ (left, later, ok db)
      → (kept : Disk) × (new_ouroboros_db lib again later left ≡ (left, kept, ok db))
        × ((p : Text) → kept p ≡ later p)
  unfolding new_ouroboros_db
  restarts fresh again disk later conf left db h = go (primary_path conf) refl h
    where
      go :
          (found : Result StartError Text)
          → primary_path conf ≡ found
          → ◌≡◌ {A = Config × Disk × Result StartError (OuroborosDb C N)}
              (elim found [
                | err bad ↦ (conf, disk, err bad)
                | ok path ↦
                    let effective = with_effective_storage conf in
                    let (after, node) = new_node lib fresh disk path in
                    (effective, after, do n ← node; ok (record { config = effective; node = n }))
              ])
              (left, later, ok db)
          → (kept : Disk) × (new_ouroboros_db lib again later left ≡ (left, kept, ok db))
            × ((p : Text) → kept p ≡ later p)
      go (err bad) chosen g =
          cc (ap (λ (x : Config × Disk × Result StartError (OuroborosDb C N)). x.2) g)
      go (ok path) chosen g =
          let made = new_node lib fresh disk path in
          let (n, started, same) =
            >>=-eq-ok made.1 _
              (ap (λ (x : Config × Disk × Result StartError (OuroborosDb C N)). x.2) g) in
          let conf_so : with_effective_storage conf ≡ left =
            ap (λ (x : Config × Disk × Result StartError (OuroborosDb C N)). x.0) g in
          let disk_so : made.0 ≡ later =
            ap (λ (x : Config × Disk × Result StartError (OuroborosDb C N)). x.1) g in
          let db_so = ok-injective same in
          let twice = new_node_twice fresh again disk path n started in
          let kept = (new_node lib again made.0 path).0 in
          (
            kept,
            ap (λ (x : Config × Disk). new_ouroboros_db lib again x.1 x.0)
                  (ap (λ l. (left, l)) (sym disk_so) ∙ ap (λ l. (l, made.0)) (sym conf_so))
                ∙ new_node_again fresh again disk conf path n chosen started
                ∙ ap
                    (λ l. (l, kept, ok (record { config = with_effective_storage conf; node = n })))
                    conf_so
                ∙ ap (λ d. (left, kept, ok d)) db_so,
            λ p. twice.1 p ∙ ap (λ (d : Disk). d p) disk_so,
          )

  -- If a database starts, it has taken the first directory in use, keeps the effective storage
  -- settings in the configuration and changes nothing else there, and has loaded the key from the
  -- directory's file, which stays, or else saved the generated key there; no other file is changed.
  -- A later start on the disk and with the configuration that this start left gives the same
  -- database, with the same key and NodeID, whatever key would be generated, and leaves that
  -- configuration and every file as they were. What the crypto library saves it must load.
  pub new_ouroboros_db-restart :
      (fresh again : Option C) (disk later : Disk) (conf left : Config) (db : OuroborosDb C N)
      → new_ouroboros_db lib fresh disk conf ≡ (left, later, ok db)
      → Opens lib fresh disk later conf left db
        × (kept : Disk) × (new_ouroboros_db lib again later left ≡ (left, kept, ok db))
        × ((p : Text) → kept p ≡ later p)
  new_ouroboros_db-restart fresh again disk later conf left db h =
      let (kept, same, unchanged) = restarts fresh again disk later conf left db h in
      (new_ouroboros_db-Opens lib fresh disk later conf left db h, kept, same, unchanged)
