-- ===== src/Matrix/Retry/Resumed.antt =====
-- `build_resume_plan` and the preparation that follows it in `resume_matrix` of run_host_matrix.py.
use replaybook.Prelude.{List}
use replaybook.Prelude.Interleave.{Interleave}
use replaybook.Prelude.Eq.{string_eq, list_eq}
use replaybook.Json.Floats.{Floats}
use replaybook.Matrix.Jobs.{Job}

-- The retried jobs are some of the pending ones, in their order.
abbrev Retries : List Job → List Job → Type 0
Retries retries pending = (fresh : List Job) × Interleave fresh retries pending
