-- ===== src/Host/Backup/Tests.antt =====
-- A run of a backup, and its theorem at a concrete value.
use shellfleet_agent.Common.{
  if◌then◌else◌, ◌≡◌, ◌⊎◌, refl, true, [], ◌∷◌, ◌++◌, none, some, equal, not, lit, trim, ok, err,
  pos,
}
use shellfleet_agent.Host.Backup.{
  FilePath, root_dir, normal, within_roots, normalize_lexical, normalize_from, normalize_step,
  path_starts_with, same_component, canonical_ok, canonical_root,
}
use shellfleet_agent.Host.Backup.Run.{
  Site, tarball, parse_dest, parse_trimmed, existing_of, outside_of, bad_paths, backup_paths,
  backup_to, backup_local, tar_args, run_backup,
}
use shellfleet_agent.Host.Backup.Confined.{TarOnce, run_backup-TarOnce}

abbrev data_root : FilePath
data_root = root_dir ∷ normal (lit "data") ∷ []

abbrev site : Site
site = record {
  exists = λ p. not (equal p (lit "/data/gone"));
  roots = some (data_root ∷ []);
  components = λ p.
      if equal p (lit "/etc")
      then root_dir ∷ normal (lit "etc") ∷ []
      else data_root ++ normal (lit "a") ∷ [];
  canonicalize = λ p. some p;
  timestamp = lit "7";
  create_dir_all = λ p. none;
  join_path = λ a b. a ++ (b'/' ∷ b);
  tar = λ args. ok (record { success = true; code = some (pos 0); stdout = []; stderr = [] });
  file_len = λ p. 5;
  temporary = ok (lit "/tmp/t");
  multipart = λ bucket key path. err (lit "unused");
  put_object = λ bucket key path. err (lit "unused");
}

backed_up :
    (run_backup site
      (lit "db")
      (lit "/data/a" ∷ lit "/data/gone" ∷ [])
      (lit " file:///out ")
      tarball).1
    ≡ (lit "--ignore-failed-read"
        ∷ lit "-czf"
        ∷ lit "/out/db-7.tar.gz"
        ∷ lit "--"
        ∷ lit "/data/a"
        ∷ [])
      ∷ []
unfolding run_backup parse_dest parse_trimmed backup_paths existing_of bad_paths outside_of
    within_roots normalize_lexical normalize_from normalize_step path_starts_with same_component
    canonical_ok canonical_root backup_to backup_local tar_args trim
backed_up = refl

run_backup-TarOnce_example :
    ((run_backup site (lit "db") (lit "/data/a" ∷ []) (lit "file:///out") tarball).1 ≡ [])
    ⊎ TarOnce site
        (data_root ∷ [])
        (run_backup site (lit "db") (lit "/data/a" ∷ []) (lit "file:///out") tarball).1
run_backup-TarOnce_example =
    run_backup-TarOnce site (lit "db") (lit "/data/a" ∷ []) (lit "file:///out") tarball
      (data_root ∷ []) refl
