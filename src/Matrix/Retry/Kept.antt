-- ===== src/Matrix/Retry/Kept.antt =====
-- What the preparation of a resume in run_host_matrix.py keeps and what it clears.
use replaybook.Prelude.{
  some-injective, ◌≡◌, refl, sym, inl, inr, String, false, none, some, List, [], ◌∷◌, map, All,
  All-imp2, ◌∙◌, subst, All-imp, Bool-cases,
}
use replaybook.Prelude.Eq.{◌==◌, string_eq, list_eq, elem, Distinct, eq_self}
use replaybook.Prelude.Text.{FilePath}
use replaybook.Prelude.Interleave.{elem-All}
use replaybook.Matrix.Jobs.{Job}
use replaybook.Matrix.Jobs.Paths.{StandsIn}
use replaybook.Matrix.Retry.{
  Files, move_entry, archive_name, archived_path, archive_unavailable_retry, prepare_pending_job,
  archive_loop, prepare_loop, prepare_resume,
}
use replaybook.Matrix.Retry.Moves.{
  or-false, beq-prefix, move_entry-other, move_entry-destination, name_of, Apart, archive_step,
  archive_files-other, and_then-eq-some, archive_loop-cons, archive_loop-other, archive_loop-fresh,
  output_dir-Apart, archived_path-Apart,
}

module _ (clock : Job → String) (m : FilePath) where
  -- Where the archive of a job keeps its run.
  abbrev pub kept_path : Job → FilePath
  kept_path job = archived_path m (archive_name (clock job) job) "run"

module _ {A : Type 0} (clock : Job → String) (m : FilePath) where
  -- The head of the list: what its step moves stays.
  archive_loop-head :
      (job : Job) (jobs : List Job) (files moved files' : Files A) (tree : A)
      → archive_unavailable_retry (clock job) job m files ≡ some moved
      → archive_loop clock m jobs moved ≡ some files'
      → All (StandsIn m) (job ∷ jobs)
      → files.entries job.output_dir ≡ some tree
      → files'.entries (kept_path clock m job) ≡ some tree
  archive_loop-head job jobs files moved files' tree e rest stands h =
      let (_, same) = archive_step clock m job files moved e in
      let fresh = archive_loop-fresh clock m jobs moved files' rest in
      let apart =
        All-imp2 (StandsIn m) (λ k. elem (name_of clock m k) moved.archives ≡ false)
          (Apart clock m (kept_path clock m job))
          (λ k there new.
            archived_path-Apart clock m k there (name_of clock m job)
              (or-false _ _
                (subst (λ f. elem (name_of clock m k) f.archives ≡ false) (sym same) new)).0)
          jobs stands.1 fresh in
      archive_loop-other clock m (kept_path clock m job) jobs moved files' apart rest
      ∙ subst (λ f. f.entries (kept_path clock m job) ≡ some tree) same
          (move_entry-other job.log_file (archived_path m (name_of clock m job) "run.log")
              (kept_path clock m job)
              (move_entry job.output_dir (kept_path clock m job) files.entries)
              (rw stands.0.1 (beq-prefix m _ _))
              (beq-prefix m _ _ ∙ (rw (eq_self (name_of clock m job)) refl))
            ∙ move_entry-destination job.output_dir (kept_path clock m job) files.entries tree h)

  archive_loop-kept :
      (jobs : List Job) (files files' : Files A)
      → archive_loop clock m jobs files ≡ some files'
      → All (StandsIn m) jobs
      → Distinct (map (λ j. j.run_id) jobs)
      → All
          (λ job.
            (tree : A)
            → files.entries job.output_dir ≡ some tree
            → files'.entries (kept_path clock m job) ≡ some tree)
          jobs
  archive_loop-kept [] files files' h stands distinct = tt
  archive_loop-kept (job ∷ jobs) files files' h stands distinct =
      let (moved, e, rest) = archive_loop-cons clock m job jobs files files' h in
      let (_, same) = archive_step clock m job files moved e in
      let still =
        All-imp2 (StandsIn m) (λ k. (k.run_id == job.run_id) ≡ false)
          (λ k. moved.entries k.output_dir ≡ files.entries k.output_dir)
          (λ k there other.
            subst (λ f. f.entries k.output_dir ≡ files.entries k.output_dir) same
              (archive_files-other clock m k.output_dir job files
                (output_dir-Apart clock m job stands.0 k there other)))
          jobs stands.1 (elem-All (λ j. j.run_id) job.run_id jobs distinct.0) in
      (
        (λ tree k. archive_loop-head job jobs files moved files' tree e rest stands k),
        All-imp2 (λ k. moved.entries k.output_dir ≡ files.entries k.output_dir)
            (λ k.
              (tree : A)
              → moved.entries k.output_dir ≡ some tree
              → files'.entries (kept_path clock m k) ≡ some tree)
            (λ k.
              (tree : A)
              → files.entries k.output_dir ≡ some tree
              → files'.entries (kept_path clock m k) ≡ some tree)
            (λ k same kept tree h. kept tree (same ∙ h)) jobs still
            (archive_loop-kept jobs moved files' rest stands.1 distinct.1),
      )

module _ {A : Type 0} where
  prepare_loop-other :
      (p : FilePath) (jobs : List Job) (files : Files A)
      → All (λ job. (p == job.output_dir) ≡ false) jobs
      → (prepare_loop jobs files).entries p ≡ files.entries p
  unfolding prepare_loop
  prepare_loop-other p [] files apart = refl
  prepare_loop-other p (job ∷ jobs) files apart =
      prepare_loop-other p jobs (prepare_pending_job job files) apart.1 ∙ (rw apart.0 refl)

  prepare_loop-none :
      (p : FilePath) (jobs : List Job) (files : Files A)
      → files.entries p ≡ none
      → (prepare_loop jobs files).entries p ≡ none
  unfolding prepare_loop
  prepare_loop-none p [] files h = h
  prepare_loop-none p (job ∷ jobs) files h =
      prepare_loop-none p jobs (prepare_pending_job job files)
        (elim (Bool-cases (p == job.output_dir)) [
          | inl this ↦ rw this refl
          | inr other ↦ rw other h
        ])

  prepare_loop-cleared :
      (jobs : List Job) (files : Files A)
      → All (λ job. (prepare_loop jobs files).entries job.output_dir ≡ none) jobs
  unfolding prepare_loop
  prepare_loop-cleared [] files = tt
  prepare_loop-cleared (job ∷ jobs) files = (
    prepare_loop-none job.output_dir jobs (prepare_pending_job job files)
        (rw (eq_self job.output_dir) refl),
    prepare_loop-cleared jobs (prepare_pending_job job files),
  )

-- The runs of the archived trials are in retries/, and no pending trial has a run.
pub record IsPrepared {A : Type 0} (clock : Job → String) (m : FilePath)
    (retries pending : List Job) (files files' : Files A) : Type 0 where
  pub kept :
      All
        (λ job.
          (tree : A)
          → files.entries job.output_dir ≡ some tree
          → files'.entries (kept_path clock m job) ≡ some tree)
        retries
  pub cleared : All (λ job. files'.entries job.output_dir ≡ none) pending

module _ {A : Type 0} where
  pub moved-IsPrepared :
      (clock : Job → String) (matrix_dir : FilePath) (retries pending : List Job)
      (files files' : Files A)
      → All (StandsIn matrix_dir) retries
      → All (StandsIn matrix_dir) pending
      → Distinct (map (λ job. job.run_id) retries)
      → prepare_resume clock matrix_dir retries pending files ≡ some files'
      → IsPrepared clock matrix_dir retries pending files files'
  unfolding prepare_resume
  moved-IsPrepared clock m retries pending files files' here there distinct h =
      let (archived, e, rest) =
        and_then-eq-some clock m (archive_loop clock m retries files) _ files' h in
      let apart : (job : Job) → All (λ k. (kept_path clock m job == k.output_dir) ≡ false) pending =
        λ job.
          All-imp (StandsIn m) (λ k. (kept_path clock m job == k.output_dir) ≡ false)
            (λ k stands. rw stands.0 (beq-prefix m _ _)) pending there in
      subst (IsPrepared clock m retries pending files) (some-injective rest) (record {
        kept =
            All-imp
              (λ job.
                (tree : A)
                → files.entries job.output_dir ≡ some tree
                → archived.entries (kept_path clock m job) ≡ some tree)
              (λ job.
                (tree : A)
                → files.entries job.output_dir ≡ some tree
                → (prepare_loop pending archived).entries (kept_path clock m job) ≡ some tree)
              (λ job moved tree k.
                prepare_loop-other (kept_path clock m job) pending archived (apart job)
                ∙ moved tree k)
              retries (archive_loop-kept clock m retries files archived e here distinct);
        cleared = prepare_loop-cleared pending archived;
      })

  pub prepare_resume-other :
      (clock : Job → String) (matrix_dir p : FilePath) (retries pending : List Job)
      (files files' : Files A)
      → All (Apart clock matrix_dir p) retries
      → All (λ job. (p == job.output_dir) ≡ false) pending
      → prepare_resume clock matrix_dir retries pending files ≡ some files'
      → files'.entries p ≡ files.entries p
  unfolding prepare_resume
  prepare_resume-other clock m p retries pending files files' apart others h =
      let (archived, e, rest) =
        and_then-eq-some clock m (archive_loop clock m retries files) _ files' h in
      subst (λ f. f.entries p ≡ files.entries p) (some-injective rest)
        (prepare_loop-other p pending archived others
          ∙ archive_loop-other clock m p retries files archived apart e)
