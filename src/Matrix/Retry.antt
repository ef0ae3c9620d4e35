-- ===== src/Matrix/Retry.antt =====
-- What a resume does to the files of a matrix before its workers start: `archive_unavailable_retry`,
-- `prepare_pending_job` and the two loops of `resume_matrix` in
-- integrations/host/run_host_matrix.py. A path holds a file or a directory tree, or nothing. Only
-- the making of a directory that is there fails; moves and removals do not.
pub mod Moves
pub mod Kept
pub mod Resumed
use replaybook.Prelude.{String, Bool, Option, none, some, List, [], ◌∷◌, ◌++◌, if◌then◌else◌}
use replaybook.Prelude.Eq.{◌==◌, string_eq, list_eq, elem}
use replaybook.Prelude.Text.{FilePath, ◌<>◌}
use replaybook.Matrix.Jobs.{Job}

-- The files, and the names of the directories in retries/.
pub record Files (A : Type 0) : Type 0 where
  pub entries : FilePath → Option A
  pub archives : List String

module _ {A : Type 0} where
  abbrev pub put : FilePath → Option A → (FilePath → Option A) → FilePath → Option A
  put path entry entries p = if p == path then entry else entries p

  -- `if source.exists(): shutil.move(source, destination)`, by what stands at the source.
  abbrev pub move_found :
      Option A → FilePath → FilePath → (FilePath → Option A) → FilePath → Option A
  move_found none source destination entries = entries
  move_found (some a) source destination entries =
      put destination (some a) (put source none entries)

  abbrev pub move_entry : FilePath → FilePath → (FilePath → Option A) → FilePath → Option A
  move_entry source destination entries = move_found (entries source) source destination entries

  -- What follows a step that may fail.
  abbrev pub and_then : Option (Files A) → (Files A → Option (Files A)) → Option (Files A)
  and_then none rest = none
  and_then (some files) rest = rest files

abbrev pub archive_name : String → Job → String
archive_name timestamp job = timestamp <> ("-" <> job.run_id)

abbrev pub archived_path : FilePath → String → String → FilePath
archived_path matrix_dir name entry = matrix_dir ++ "retries" ∷ name ∷ entry ∷ []

module _ {A : Type 0} where
  -- The two moves into a new directory of retries/.
  abbrev pub archive_files : String → Job → FilePath → Files A → Files A
  archive_files name job matrix_dir files = record {
    entries =
        move_entry job.log_file (archived_path matrix_dir name "run.log")
          (move_entry job.output_dir (archived_path matrix_dir name "run") files.entries);
    archives = name ∷ files.archives;
  }

  -- None where `mkdir` finds the directory and raises FileExistsError.
  unfoldable pub archive_unavailable_retry : String → Job → FilePath → Files A → Option (Files A)
  archive_unavailable_retry timestamp job matrix_dir files =
      let name = archive_name timestamp job in
      if elem name files.archives then none else some (archive_files name job matrix_dir files)

  abbrev pub prepare_pending_job : Job → Files A → Files A
  prepare_pending_job job files = record files { entries = put job.output_dir none files.entries }

  -- The clock gives the time at which a job is archived.
  unfoldable pub archive_loop : (Job → String) → FilePath → List Job → Files A → Option (Files A)
  archive_loop clock matrix_dir [] files = some files
  archive_loop clock matrix_dir (job ∷ jobs) files =
      and_then (archive_unavailable_retry (clock job) job matrix_dir files)
        (λ moved. archive_loop clock matrix_dir jobs moved)

  unfoldable pub prepare_loop : List Job → Files A → Files A
  prepare_loop [] files = files
  prepare_loop (job ∷ jobs) files = prepare_loop jobs (prepare_pending_job job files)

  -- None where a retry cannot be archived: the resume ends there.
  unfoldable pub prepare_resume :
      (Job → String) → FilePath → List Job → List Job → Files A → Option (Files A)
  prepare_resume clock matrix_dir unavailable_retries pending files =
      and_then (archive_loop clock matrix_dir unavailable_retries files)
        (λ archived. some (prepare_loop pending archived))
