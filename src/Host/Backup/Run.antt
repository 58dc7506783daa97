-- ===== src/Host/Backup/Run.antt =====
-- `parse_dest` and `run_backup` of src/backup.rs. The file system, `tar` and the uploads are the record
-- `Site`; `none` in place of a report is the panic of `String::drain` in `truncate`.
use mathlib.Core.List.{reverse}
use shellfleet_agent.Common.{
  ℕ, ℤ, Bool, true, false, not, List, [], ◌∷◌, ◌++◌, Option, none, some, if◌then◌else◌, ◌==◌, leb,
  is_empty, length, filterb, Text, lit, trim, contains, strip_prefix, join, to_decimal, Result, ok,
  err, Output,
}
use shellfleet_agent.Docker.Actions.{keep_end}
use shellfleet_agent.Apt.Listing.{split_source}
use shellfleet_agent.Host.Backup.{FilePath, within_roots}

pub data BackupError : Type 0 where
  empty_dest no_bucket no_paths no_existing restic : BackupError
  bad_scheme outside mkdir spawn_tar tempfile upload : Text → BackupError
  tar_exit : Option ℤ → BackupError

pub data BackupMode : Type 0 where
  tarball restic_mode : BackupMode

pub data Dest : Type 0 where
  local : (directory : Text) → Dest
  s3 : (bucket key_prefix : Text) → Dest

pub record Report : Type 0 where
  pub success : Bool
  pub archive : Text
  pub bytes : ℕ
  pub log : Text
  pub error : Option BackupError

pub record Site : Type 0 where
  pub exists : Text → Bool
  pub roots : Option (List FilePath)
  pub components : Text → FilePath
  pub canonicalize : FilePath → Option FilePath
  pub timestamp : Text
  pub create_dir_all : Text → Option Text
  -- `PathBuf::join`, shown as a text
  pub join_path : Text → Text → Text
  pub tar : List Text → Result Text Output
  pub file_len : Text → ℕ
  pub temporary : Result Text Text
  -- `s3_multipart_upload` and `s3_put_object`: bucket, key and file
  pub multipart : Text → Text → Text → Result Text ℕ
  pub put_object : Text → Text → Text → Result Text ℕ

abbrev drop_slashes : Text → Text
drop_slashes [] = []
drop_slashes (c ∷ s) = if c == b'/' then drop_slashes s else c ∷ s

-- `trim_end_matches('/')`
unfoldable pub trim_end_slashes : Text → Text
trim_end_slashes s = reverse (drop_slashes (reverse s))

unfoldable pub s3_dest : Text → Result BackupError Dest
s3_dest rest =
    if is_empty (split_source rest).0
    then err no_bucket
    else ok (s3 (split_source rest).0 (trim_end_slashes (split_source rest).1))

unfoldable pub parse_trimmed : Text → Result BackupError Dest
parse_trimmed trimmed = elim (strip_prefix trimmed (lit "s3://")) [
  | some rest ↦ s3_dest rest
  | none ↦ elim (strip_prefix trimmed (lit "file://")) [
    | some rest ↦ ok (local rest)
    | none ↦ if contains trimmed (lit "://") then err (bad_scheme trimmed) else ok (local trimmed)
  ]
]

unfoldable pub parse_dest : Text → Result BackupError Dest
parse_dest dest = if is_empty (trim dest) then err empty_dest else parse_trimmed (trim dest)

-- A report, and the calls of `tar` that were made.
abbrev pub Outcome : Type 0
Outcome = Option Report × List (List Text)

unfoldable pub failure : Text → BackupError → Report
failure log e = record { success = false; archive = []; bytes = 0; log = log; error = some e }

unfoldable pub refused_backup : Text → BackupError → Outcome
refused_backup log e = (some (failure log e), [])

unfoldable pub tar_args : Text → List Text → List Text
tar_args archive existing = lit "--ignore-failed-read" ∷ lit "-czf" ∷ archive ∷ lit "--" ∷ existing

unfoldable pub missing_names : List Text → Text
missing_names [] = []
missing_names (p ∷ rest) = p ++ (b' ' ∷ missing_names rest)

-- `if !stream.is_empty() { log.push_str(mark); log.push_str(stream) }`
unfoldable pub add_stream : Text → Text → Text → Text
add_stream mark stream log = if is_empty stream then log else log ++ (mark ++ stream)

-- `truncate(&mut log, LOG_CAP)`, and the report with the log that is left.
unfoldable pub with_log : Text → (Text → Report) → Option Report
with_log log next = elim (keep_end log) [ none ↦ none | some kept ↦ some (next kept) ]

module _ (site : Site) where
  unfoldable pub existing_of : List Text → List Text
  existing_of paths = filterb site.exists paths

  unfoldable pub outside_of : List FilePath → List Text → List Text
  outside_of roots existing =
      filterb (λ p. not (within_roots site.canonicalize (site.components p) roots)) existing

  unfoldable pub first_log : List Text → Text
  first_log paths =
      if length (existing_of paths) == length paths
      then []
      else lit "WARN: skipping missing path(s): "
        ++ (missing_names (filterb (λ p. not (site.exists p)) paths) ++ lit "\n")

  unfoldable pub archive_written : Text → Text → Option Report
  archive_written archive log =
      let bytes = site.file_len archive in
      let line = lit "wrote " ++ (archive ++ (lit " (" ++ (to_decimal bytes ++ lit " bytes)\n"))) in
      with_log (log ++ line) (λ kept. record {
        success = true;
        archive = archive;
        bytes = bytes;
        log = kept;
        error = none;
      })

  -- From the end of `tar` on.
  unfoldable pub local_report : Text → Text → Result Text Output → Option Report
  local_report archive log (err e) = some (failure log (spawn_tar e))
  local_report archive log (ok output) =
      elim (keep_end
        (add_stream (lit "--- stderr ---\n") output.stderr (add_stream [] output.stdout log))) [
          | none ↦ none
          | some kept ↦
              if output.success
              then archive_written archive kept
              else some (failure kept (tar_exit output.code))
        ]

  unfoldable pub backup_local : Text → Text → List Text → Text → Outcome
  backup_local directory archive_name existing log = elim (site.create_dir_all directory) [
    | some e ↦ refused_backup log (mkdir e)
    | none ↦
        let archive = site.join_path directory archive_name in
        (
          local_report archive log (site.tar (tar_args archive existing)),
          tar_args archive existing ∷ [],
        )
  ]

  unfoldable pub uploaded : Text → Text → Result Text ℕ → Option Report
  uploaded uri log (err e) = with_log log (λ kept. failure kept (upload e))
  uploaded uri log (ok bytes) =
      with_log
        (log ++ (lit "wrote " ++ (uri ++ (lit " (" ++ (to_decimal bytes ++ lit " bytes)\n")))))
        (λ kept. record { success = true; archive = uri; bytes = bytes; log = kept; error = none })

  -- `MULTIPART_THRESHOLD` is 64 MiB, `MULTIPART_CHUNK` 16 MiB.
  unfoldable pub upload_file : Text → Text → Text → Text → Option Report
  upload_file bucket key path log =
      let bytes = site.file_len path in
      let uri = lit "s3://" ++ (bucket ++ (lit "/" ++ key)) in
      let by_parts =
        uploaded uri
          (log
            ++ (lit "uploading "
                ++ (to_decimal bytes ++ lit " bytes via multipart (16777216-byte chunks)\n")))
          (site.multipart bucket key path) in
      let at_once =
        uploaded uri
          (log ++ (lit "uploading " ++ (to_decimal bytes ++ lit " bytes via PutObject\n")))
          (site.put_object bucket key path) in
      if leb 67108864 bytes then by_parts else at_once

  unfoldable pub s3_report : Text → Text → Text → Text → Result Text Output → Option Report
  s3_report bucket key path log (err e) = some (failure log (spawn_tar e))
  s3_report bucket key path log (ok output) =
      elim (keep_end (add_stream (lit "--- tar stderr ---\n") output.stderr log)) [
        | none ↦ none
        | some kept ↦
            if output.success
            then upload_file bucket key path kept
            else some (failure kept (tar_exit output.code))
      ]

  unfoldable pub s3_key : Text → Text → Text
  s3_key key_prefix archive_name =
      if is_empty key_prefix then archive_name else key_prefix ++ (lit "/" ++ archive_name)

  unfoldable pub backup_s3 : Text → Text → Text → List Text → Text → Outcome
  backup_s3 bucket key_prefix archive_name existing log = elim site.temporary [
    | err e ↦ refused_backup log (tempfile e)
    | ok path ↦ (
      s3_report bucket (s3_key key_prefix archive_name) path log
          (site.tar (tar_args path existing)),
      tar_args path existing ∷ [],
    )
  ]

  unfoldable pub backup_to : Text → Dest → List Text → Text → Outcome
  backup_to name (local directory) existing log =
      backup_local directory (name ++ (lit "-" ++ (site.timestamp ++ lit ".tar.gz"))) existing log
  backup_to name (s3 bucket key_prefix) existing log =
      backup_s3 bucket key_prefix (name ++ (lit "-" ++ (site.timestamp ++ lit ".tar.gz"))) existing
        log

  -- The paths that exist and are outside of the roots, when there are roots.
  unfoldable pub bad_paths : List Text → List Text
  bad_paths existing = elim site.roots [ none ↦ [] | some roots ↦ outside_of roots existing ]

  -- From the parsed destination on.
  unfoldable pub backup_paths : Text → List Text → Dest → Outcome
  backup_paths name paths dest =
      if is_empty paths
      then refused_backup [] no_paths
      else if is_empty (existing_of paths)
      then refused_backup [] no_existing
      else if is_empty (bad_paths (existing_of paths))
      then backup_to name dest (existing_of paths) (first_log paths)
      else refused_backup [] (outside (join (lit ", ") (bad_paths (existing_of paths))))

  unfoldable pub run_backup : Text → List Text → Text → BackupMode → Outcome
  run_backup name paths dest restic_mode = refused_backup [] restic
  run_backup name paths dest tarball = elim (parse_dest dest) [
    | err e ↦ refused_backup [] e
    | ok parsed ↦ backup_paths name paths parsed
  ]
