-- ===== src/Phase.antt =====
-- The phases of a host scenario, integrations/host/scenario_phase.py. What the phases need from
-- outside is the record World: the server behind the base URL, the clock and the stamps of fresh ids.
pub mod Values
pub mod Steps
pub mod Describe
pub mod Files
pub mod Split
pub mod Concurrent
pub mod Replay
pub mod Ends
pub mod Program
use replaybook.Prelude.{ℕ, String, List}
use replaybook.Prelude.Int.{ℤ}
use replaybook.Prelude.Result.{Error}
use replaybook.Json.{Fields}

pub record Response : Type 0 where
  pub status : ℤ
  pub body : String

-- An HTTP request: its method, its URL and its timeout.
pub record Request (F : Type 0) : Type 0 where
  pub method : String
  pub url : String
  pub timeout : F

-- How `urlopen` ends: a response, an HTTPError, or no answer at all.
pub data Exchange : Type 0 where
  answered http_error : ℤ → String → Exchange
  unreachable : Exchange

pub record World (F W : Type 0) : Type 0 where
  -- The reply to the request at a place of a batch that is sent at once, and the world behind the
  -- batch. A world knows in which order it serves.
  pub reply : ℕ → Request F → W → Exchange
  pub served : List (Request F) → W → W
  -- `time.monotonic()`, and the world behind the call.
  pub monotonic : W → F
  pub ticked : W → W
  -- `time.sleep(seconds)`
  pub slept : F → W → W
  -- The time, process and random part of `generated_id`, at an index.
  pub stamp : ℕ → W → String

-- How a step or a phase ends: it returns, raises PhaseFailure with a category and a message, or
-- raises another exception. `running` stands for a loop whose fuel is spent.
pub data Outcome : Type 0 where
  done : Outcome
  failed : String → String → Outcome
  raised : Error → Outcome
  running : Outcome

-- What a step leaves: its outcome, the state and the world.
pub record Ran (F W : Type 0) : Type 0 where
  pub outcome : Outcome
  pub state : Fields F
  pub world : W
