-- ===== src/Agent/Process.antt =====
-- agent/process.go: what the agent makes of a request to run a command. The guest's processes, users
-- and directories are parameters.
use text.Mathlib.Text.{starts_with}
use gitvm.Base.{
  ℕ, suc, String, Bool, true, false, not, ◌&&◌, Option, none, some, List, [], ◌∷◌, ◌++◌, map,
  Result, ok, err, ℤ, pos, concat, if◌then◌else◌, ◌==◌, string_comparable,
}
use gitvm.Base.Table.{Table}
use gitvm.Agent.Defaults.{Defaults, merge_env}

pub record ExecRequest : Type 0 where
  pub command : String
  pub cwd : String
  pub env : Table String String
  pub timeout : ℤ

pub record ExecResult : Type 0 where
  pub exit_code : ℤ
  pub stdout : String
  pub stderr : String

-- `exec.CommandContext(ctx, "/bin/sh", "-c", …)` as it is run: the limit of its context in seconds, if
-- it has one, and the user and group, if they are set.
pub record Command : Type 0 where
  pub script : String
  pub dir : String
  pub env : List String
  pub limit : Option ℕ
  pub credential : Option (ℕ × ℕ)

-- The error of `Run` or `Wait`: an `*exec.ExitError` with its code, or any other.
pub data Failure : Type 0 where
  exit_error : ℤ → Failure
  other_error : Failure

-- What is seen of a command that has been run: its error, and whether its context has passed its
-- deadline.
pub record Ran : Type 0 where
  pub failure : Option Failure
  pub past_deadline : Bool
  pub stdout : String
  pub stderr : String

-- A command that was started with its pipes: what it writes to each, in pieces, and the error of
-- `Wait`.
pub record Piped : Type 0 where
  pub outs : List String
  pub errs : List String
  pub failure : Option Failure

pub record Guest (W : Type 0) : Type 0 where
  pub dir_exists : String → W → Bool
  pub getwd : W → String
  pub lookup_user : String → W → Option (ℕ × ℕ)
  pub run : Command → W → Ran × W
  -- `none` where a pipe or `Start` fails
  pub start : Command → W → Option Piped × W

pub data ExecError : Type 0 where
  set_user_failed : String → ExecError
  exec_failed start_failed wait_failed : ExecError

-- `context.WithTimeout` for a positive timeout
abbrev pub limit_of : ℤ → Option ℕ
limit_of (pos (suc n)) = some (suc n)
limit_of _ = none

-- `setUser`: a name with a `#` that is not found is passed over.
unfoldable pub set_user : {W : Type 0} → Guest W → String → W → Result ExecError (Option (ℕ × ℕ))
set_user g name w = elim (g.lookup_user name w) [
  | some ids ↦ ok (some ids)
  | none ↦ if starts_with name "#" then ok none else err (set_user_failed name)
]

unfoldable pub credential_of :
    {W : Type 0} → Guest W → String → W → Result ExecError (Option (ℕ × ℕ))
unfolding set_user
credential_of g name w =
    if not (name == "") && not (name == "root") then set_user g name w else ok none

unfoldable pub working_dir : {W : Type 0} → Guest W → ExecRequest → Defaults → W → String
working_dir g req d w =
    let cwd = if req.cwd == "" then d.work_dir else req.cwd in
    if g.dir_exists cwd w then cwd else g.getwd w

-- The common beginning of `RunCommand` and `StreamCommand`.
unfoldable pub prepare :
    {W : Type 0} → Guest W → ExecRequest → Defaults → W → Result ExecError Command
unfolding credential_of working_dir merge_env
prepare g req d w = elim (credential_of g d.user w) [
  | err e ↦ err e
  | ok credential ↦ ok (record {
    script = req.command;
    dir = working_dir g req d w;
    env = merge_env d.env_vars req.env;
    limit = limit_of req.timeout;
    credential = credential;
  })
]

abbrev pub timed_out : String
timed_out = "\ngitvm-agent: command timed out"

unfoldable pub result_of : Ran → Result ExecError ExecResult
result_of r = elim r.failure [
  | none ↦ ok (record { exit_code = pos 0; stdout = r.stdout; stderr = r.stderr })
  | some (exit_error code) ↦ ok (record { exit_code = code; stdout = r.stdout; stderr = r.stderr })
  | some other_error ↦
      if r.past_deadline
      then ok
          (record { exit_code = pos 124; stdout = r.stdout; stderr = concat r.stderr timed_out })
      else err exec_failed
]

unfoldable pub run_command :
    {W : Type 0} → Guest W → ExecRequest → Defaults → W → Result ExecError ExecResult × W
unfolding prepare result_of
run_command g req d w = elim (prepare g req d w) [
  | err e ↦ (err e, w)
  | ok cmd ↦ let (r, w') = g.run cmd w in (result_of r, w')
]

-- A call of `onData`, and the last event of a stream.
pub data Event : Type 0 where
  stdout stderr : String → Event
  failed : ExecError → Event
  exited : ℤ → Event

-- The calls of `onData` of the two readers, in the order in which they are run: the next piece of
-- stdout for `true`, of stderr for `false`, and at the end what is left. Each call runs as a whole
-- here, where the two readers take no lock; a piece is a text, where a reader cuts the output at
-- 4096 bytes, which may lie inside a character.
unfoldable pub interleave : List Bool → List String → List String → List Event
interleave [] outs errs = map stdout outs ++ map stderr errs
interleave (true ∷ turns) [] errs = interleave turns [] errs
interleave (true ∷ turns) (out ∷ outs) errs = stdout out ∷ interleave turns outs errs
interleave (false ∷ turns) outs [] = interleave turns outs []
interleave (false ∷ turns) outs (e ∷ errs) = stderr e ∷ interleave turns outs errs

unfoldable pub exit_code_of : Option Failure → Result ExecError ℤ
exit_code_of none = ok (pos 0)
exit_code_of (some (exit_error code)) = ok code
exit_code_of (some other_error) = err wait_failed

unfoldable pub stream_command :
    {W : Type 0}
    → Guest W
    → List Bool
    → ExecRequest
    → Defaults
    → W
    → Result ExecError ℤ × List Event × W
unfolding prepare interleave exit_code_of
stream_command g turns req d w = elim (prepare g req d w) [
  | err e ↦ (err e, [], w)
  | ok cmd ↦
      let (started, w') = g.start cmd w in
      elim started [
        | none ↦ (err start_failed, [], w')
        | some p ↦ (exit_code_of p.failure, interleave turns p.outs p.errs, w')
      ]
]
