-- ===== src/Phase/Program.antt =====
-- `main` of integrations/host/scenario_phase.py: its exit status. The parsing of the command line and
-- what the program prints are left out.
use replaybook.Prelude.{ℕ, String, Bool, true, not, ◌&&◌, Option, none, some, if◌then◌else◌}
use replaybook.Prelude.Int.{ℤ, pos}
use replaybook.Prelude.Eq.{◌==◌, string_eq}
use replaybook.Prelude.Result.{Result, ok, err, value_error, ◌>>=◌}
use replaybook.Json.{Fields}
use replaybook.Json.Floats.{Floats}
use replaybook.Phase.{World, Outcome, done, failed, raised, running}
use replaybook.Phase.Steps.{StateDir, PhaseEnd, run_phase}
use replaybook.Phase.Describe.{describe_manifest}

pub record PhaseArgs : Type 0 where
  pub describe : Bool
  pub phase : Option String
  pub base_url : Option String
  pub has_state_dir : Bool

-- `not value`, where the argument may be absent.
abbrev pub is_absent : Option String → Bool
is_absent none = true
is_absent (some s) = s == ""

abbrev pub text_of : Option String → String
text_of none = ""
text_of (some s) = s

-- The exit status; none where the exception is not caught, or the phase does not end.
abbrev pub phase_exit_status : Outcome → Option ℤ
phase_exit_status done = some (pos 0)
phase_exit_status (failed category message) = some (pos 1)
phase_exit_status (raised (value_error message)) = some (pos 2)
phase_exit_status (raised _) = none
phase_exit_status running = none

abbrev pub outcome_of {ℓ} : {A : Type ℓ} → Result A → Outcome
outcome_of (ok a) = done
outcome_of (err e) = raised e

module _ {F W : Type 0} ⦃fl : Floats F⦄ (world : World F W) where
  -- `manifest` is what the TOML parser returns or raises.
  unfoldable pub phase_main : ℕ → PhaseArgs → Result (Fields F) → StateDir F → W → PhaseEnd F W
  unfolding describe_manifest run_phase
  phase_main fuel args manifest dir w =
      if args.describe
      then record { outcome = outcome_of (manifest >>= describe_manifest); dir = dir; world = w }
      else if not (is_absent args.phase) && not (is_absent args.base_url) && args.has_state_dir
      then run_phase world (text_of args.base_url) (text_of args.phase) fuel manifest dir w
      else record {
        outcome = raised (value_error "phase, base URL, and state directory are required");
        dir = dir;
        world = w;
      }
