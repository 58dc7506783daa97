-- ===== src/Host/Backup/Confined.antt =====
-- What `run_backup` gives to `tar`.
use shellfleet_agent.Common.{
  ◌≡◌, ◌∙◌, ◌⊎◌, inl, inr, refl, sym, ap, subst, true, false, List, [], ◌∷◌, ◌++◌, some, is_empty,
  All, Text, lit, Bool-cases, Option-cases, Result-cases, arith,
}
use shellfleet_agent.Host.Backup.{FilePath, within_roots}
use shellfleet_agent.Host.Backup.Run.{
  Site, Dest, local, s3, BackupMode, tarball, restic_mode, Outcome, refused_backup, parse_dest,
  tar_args, existing_of, outside_of, backup_local, backup_s3, backup_to, bad_paths, backup_paths,
  run_backup, first_log,
}

-- One call of `tar`, whose sources stand behind `--`, exist, and are within the roots.
abbrev pub TarOnce : Site → List FilePath → List (List Text) → Type 0
TarOnce site roots calls =
    (archive : Text) × (sources : List Text) × (calls
      ≡ (lit "--ignore-failed-read" ∷ lit "-czf" ∷ archive ∷ lit "--" ∷ sources) ∷ [])
    × (is_empty sources ≡ false)
    × All (λ p. site.exists p ≡ true) sources
    × All (λ p. within_roots site.canonicalize (site.components p) roots ≡ true) sources

module _ (site : Site) where
  all_exist : (paths : List Text) → All (λ p. site.exists p ≡ true) (existing_of site paths)
  unfolding existing_of
  all_exist [] = tt
  all_exist (p ∷ paths) = elim (Bool-cases (site.exists p)) [
    | inl e ↦
        let q : existing_of site (p ∷ paths) ≡ p ∷ existing_of site paths = ground (arith, e) in
        subst (All (λ p. site.exists p ≡ true)) (sym q) (e, all_exist paths)
    | inr e ↦
        let q : existing_of site (p ∷ paths) ≡ existing_of site paths = ground (arith, e) in
        subst (All (λ p. site.exists p ≡ true)) (sym q) (all_exist paths)
  ]

  all_within :
      (roots : List FilePath) (paths : List Text)
      → is_empty (outside_of site roots paths) ≡ true
      → All (λ p. within_roots site.canonicalize (site.components p) roots ≡ true) paths
  unfolding outside_of
  all_within roots [] h = tt
  all_within roots (p ∷ paths) h =
      elim (Bool-cases (within_roots site.canonicalize (site.components p) roots)) [
        | inl e ↦ (e, all_within roots paths (ground (arith, e, h)))
        | inr e ↦ ground (arith, e, h)
      ]

  -- Refused, or the one call.
  backup_to-calls :
      (name : Text) (dest : Dest) (existing : List Text) (log : Text)
      → ((backup_to site name dest existing log).1 ≡ [])
        ⊎ ((archive : Text) × ((backup_to site name dest existing log).1
              ≡ tar_args archive existing ∷ []))
  unfolding backup_to backup_local backup_s3 refused_backup
  backup_to-calls name (local directory) existing log =
      elim (Option-cases (site.create_dir_all directory)) [
        | inr (e, k) ↦ inl (ground (arith, k))
        | inl k ↦ inr (
          site.join_path directory (name ++ (lit "-" ++ (site.timestamp ++ lit ".tar.gz"))),
          ground (arith, k),
        )
      ]
  backup_to-calls name (s3 bucket key_prefix) existing log = elim (Result-cases site.temporary) [
    | inr (e, k) ↦ inl (ground (arith, k))
    | inl (path, k) ↦ inr (path, ground (arith, k))
  ]

  backup_paths-calls :
      (name : Text) (paths : List Text) (dest : Dest) (roots : List FilePath)
      → site.roots ≡ some roots
      → ((backup_paths site name paths dest).1 ≡ [])
        ⊎ TarOnce site roots (backup_paths site name paths dest).1
  unfolding backup_paths bad_paths refused_backup tar_args
  backup_paths-calls name paths dest roots r = elim (Bool-cases (is_empty paths)) [
    | inl a ↦ inl (ground (arith, a))
    | inr a ↦ elim (Bool-cases (is_empty (existing_of site paths))) [
      | inl b ↦ inl (ground (arith, a, b))
      | inr b ↦ elim (Bool-cases (is_empty (outside_of site roots (existing_of site paths)))) [
        | inr c ↦ inl (ground (arith, a, b, r, c))
        | inl c ↦
            let q : backup_paths site name paths dest
                ≡ backup_to site name dest (existing_of site paths) (first_log site paths) =
              ground (arith, a, b, r, c) in
            elim (backup_to-calls name dest (existing_of site paths) (first_log site paths)) [
              | inl k ↦ inl (ap (λ (o : Outcome). o.1) q ∙ k)
              | inr (archive, k) ↦ inr (
                archive,
                existing_of site paths,
                ap (λ (o : Outcome). o.1) q ∙ k,
                b,
                all_exist paths,
                all_within roots (existing_of site paths) c,
              )
            ]
      ]
    ]
  ]

  -- Under configured roots, a backup calls `tar` not at all or once: then its sources stand behind
  -- `--`, there is at least one, each of them exists, and each is within the roots.
  pub run_backup-TarOnce :
      (name : Text) (paths : List Text) (dest : Text) (mode : BackupMode) (roots : List FilePath)
      → site.roots ≡ some roots
      → ((run_backup site name paths dest mode).1 ≡ [])
        ⊎ TarOnce site roots (run_backup site name paths dest mode).1
  unfolding run_backup refused_backup
  run_backup-TarOnce name paths dest restic_mode roots r = inl refl
  run_backup-TarOnce name paths dest tarball roots r = elim (Result-cases (parse_dest dest)) [
    | inr (e, k) ↦ inl (ground (arith, k))
    | inl (parsed, k) ↦
        let q : run_backup site name paths dest tarball ≡ backup_paths site name paths parsed =
          ground (arith, k) in
        elim (backup_paths-calls name paths parsed roots r) [
          | inl e ↦ inl (ap (λ (o : Outcome). o.1) q ∙ e)
          | inr once ↦ inr (subst (λ (o : Outcome). TarOnce site roots o.1) (sym q) once)
        ]
  ]
