-- ===== src/Matrix/Retry/Moves.antt =====
-- The paths that the archiving of a trial touches, and those that it leaves alone.
use replaybook.Prelude.{
  ◌≡◌, refl, sym, ap, inl, inr, String, Bool, false, Option, none, some, List, [], ◌∷◌, ◌++◌, arith,
  All, ◌∙◌, subst, All-imp, Bool-cases, Option-cases, some-injective, ◌||◌,
}
use replaybook.Prelude.Eq.{◌==◌, string_eq, list_eq, list_beq, elem, eq_self}
use replaybook.Prelude.Text.{FilePath}
use replaybook.Matrix.Jobs.{Job}
use replaybook.Matrix.Jobs.Paths.{StandsIn}
use replaybook.Matrix.Retry.{
  Files, and_then, move_entry, archive_name, archived_path, archive_unavailable_retry,
  archive_files, archive_loop,
}

pub or-false : (a b : Bool) → (a || b) ≡ false → (a ≡ false) × (b ≡ false)
or-false a b h = (ground arith, ground arith)

-- Paths in one directory are equal where their ends are.
pub beq-prefix : (m a b : FilePath) → list_beq (m ++ a) (m ++ b) ≡ list_beq a b
beq-prefix [] a b = refl
beq-prefix (s ∷ m) a b = rw (eq_self s) (beq-prefix m a b)

module _ {A : Type 0} where
  pub move_entry-other :
      (source destination p : FilePath) (entries : FilePath → Option A)
      → (p == source) ≡ false
      → (p == destination) ≡ false
      → move_entry source destination entries p ≡ entries p
  move_entry-other source destination p entries s d = elim (Option-cases (entries source)) [
    | inl e ↦ rw e refl
    | inr (a, e) ↦ rw (e, d, s) refl
  ]

  pub move_entry-destination :
      (source destination : FilePath) (entries : FilePath → Option A) (a : A)
      → entries source ≡ some a
      → move_entry source destination entries destination ≡ some a
  move_entry-destination source destination entries a e = rw (e, eq_self destination) refl

module _ (clock : Job → String) (m : FilePath) where
  abbrev pub name_of : Job → String
  name_of job = archive_name (clock job) job

  -- A path that the archiving of a job leaves alone.
  abbrev pub Apart : FilePath → Job → Type 0
  Apart p job =
      ((p == job.output_dir) ≡ false)
      × ((p == job.log_file) ≡ false)
      × ((p == archived_path m (name_of job) "run") ≡ false)
      × ((p == archived_path m (name_of job) "run.log") ≡ false)

module _ {A : Type 0} (clock : Job → String) (m : FilePath) where
  -- What a step that succeeds does.
  pub archive_step :
      (job : Job) (files moved : Files A)
      → archive_unavailable_retry (clock job) job m files ≡ some moved
      → (elem (name_of clock m job) files.archives ≡ false)
        × (archive_files (name_of clock m job) job m files ≡ moved)
  unfolding archive_unavailable_retry
  archive_step job files moved h = elim (Bool-cases (elem (name_of clock m job) files.archives)) [
    | inl old ↦ absurd (cc (rw old at h))
    | inr new ↦ (new, some-injective (rw new at h))
  ]

  pub and_then-eq-some :
      (first : Option (Files A)) (rest : Files A → Option (Files A)) (files : Files A)
      → and_then first rest ≡ some files
      → (middle : Files A) × (first ≡ some middle) × (rest middle ≡ some files)
  and_then-eq-some none rest files h = absurd cc
  and_then-eq-some (some middle) rest files h = (middle, refl, h)

  pub archive_loop-cons :
      (job : Job) (jobs : List Job) (files files' : Files A)
      → archive_loop clock m (job ∷ jobs) files ≡ some files'
      → (moved : Files A) × (archive_unavailable_retry (clock job) job m files ≡ some moved)
        × (archive_loop clock m jobs moved ≡ some files')
  unfolding archive_loop
  archive_loop-cons job jobs files files' h =
      and_then-eq-some (archive_unavailable_retry (clock job) job m files) _ files' h

  pub archive_files-other :
      (p : FilePath) (job : Job) (files : Files A)
      → Apart clock m p job
      → (archive_files (name_of clock m job) job m files).entries p ≡ files.entries p
  archive_files-other p job files (output, log, run, run_log) =
      move_entry-other job.log_file (archived_path m (name_of clock m job) "run.log") p
        (move_entry job.output_dir (archived_path m (name_of clock m job) "run") files.entries) log
        run_log
      ∙ move_entry-other job.output_dir (archived_path m (name_of clock m job) "run") p
          files.entries output run

  -- A path that no archiving touches keeps what it holds.
  pub archive_loop-other :
      (p : FilePath) (jobs : List Job) (files files' : Files A)
      → All (Apart clock m p) jobs
      → archive_loop clock m jobs files ≡ some files'
      → files'.entries p ≡ files.entries p
  unfolding archive_loop
  archive_loop-other p [] files files' apart h = ap (λ f. f.entries p) (sym (some-injective h))
  archive_loop-other p (job ∷ jobs) files files' apart h =
      let (moved, e, rest) = archive_loop-cons job jobs files files' h in
      let (_, same) = archive_step job files moved e in
      archive_loop-other p jobs moved files' apart.1 rest
      ∙ subst (λ f. f.entries p ≡ files.entries p) same (archive_files-other p job files apart.0)

  -- No directory that the loop makes is there before.
  pub archive_loop-fresh :
      (jobs : List Job) (files files' : Files A)
      → archive_loop clock m jobs files ≡ some files'
      → All (λ job. elem (name_of clock m job) files.archives ≡ false) jobs
  archive_loop-fresh [] files files' h = tt
  archive_loop-fresh (job ∷ jobs) files files' h =
      let (moved, e, rest) = archive_loop-cons job jobs files files' h in
      let (fresh, same) = archive_step job files moved e in
      (
        fresh,
        All-imp (λ k. elem (name_of clock m k) moved.archives ≡ false)
            (λ k. elem (name_of clock m k) files.archives ≡ false)
            (λ k new.
              (or-false _ _
                (subst (λ f. elem (name_of clock m k) f.archives ≡ false) (sym same) new)).1)
            jobs (archive_loop-fresh jobs moved files' rest),
      )

-- The paths of two jobs are apart.
module _ (clock : Job → String) (m : FilePath) (job : Job) (here : StandsIn m job) where
  pub output_dir-Apart :
      (other : Job)
      → StandsIn m other
      → (other.run_id == job.run_id) ≡ false
      → Apart clock m other.output_dir job
  output_dir-Apart other there different =
      rw (here.0, here.1, there.0)
        (
          beq-prefix m _ _ ∙ (rw different refl),
          beq-prefix m _ _,
          beq-prefix m _ _,
          beq-prefix m _ _,
        )

  -- The paths of a new archive are apart from those of a later one.
  pub archived_path-Apart :
      (name : String)
      → (name == name_of clock m job) ≡ false
      → Apart clock m (archived_path m name "run") job
  archived_path-Apart name different = (
    rw here.0 (beq-prefix m _ _),
    rw here.1 (beq-prefix m _ _),
    beq-prefix m _ _ ∙ (rw different refl),
    beq-prefix m _ _ ∙ (rw different refl),
  )
