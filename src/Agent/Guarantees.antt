-- ===== src/Agent/Guarantees.antt =====
-- agent/: what the agent of a sandbox promises.
use gitvm.Base.{
  ◌≡◌, ◌≢◌, ◌⊎◌, inl, inr, refl, ap, ◌∙◌, String, Bool, true, false, none, some, List, [], ◌∷◌,
  ◌++◌, map, Result, ok, err, ℤ, pos, arith, Bool-cases, Option-cases, string_comparable,
}
use gitvm.Http.{respond}
use gitvm.Agent.Defaults.{Defaults}
use gitvm.Agent.Process.{
  ExecRequest, ExecResult, Guest, Command, exit_error, other_error, ExecError, Event, stdout,
  stderr, failed, exited, interleave, prepare, result_of, run_command, stream_command, exit_code_of,
  Piped,
}
use gitvm.Agent.Files.{FileSystem, wrap, read_file, write_file, list_dir}
use gitvm.Agent.Server.{
  Request, post_init, post_exec, post_exec_stream, get_files, get_files_list, delete_files,
  post_mkdir, put_files, get_health, last_event, events, content, read_failed, handle_exec,
  handle_exec_stream, handle_read_file, handle_write_file, handle_list_files, serve,
}

-- The pieces of one of the two streams among the events.
abbrev pub out_of : List Event → List String
out_of [] = []
out_of (stdout s ∷ es) = s ∷ out_of es
out_of (_ ∷ es) = out_of es

abbrev pub err_of : List Event → List String
err_of [] = []
err_of (stderr s ∷ es) = s ∷ err_of es
err_of (_ ∷ es) = err_of es

out_of-all : (outs errs : List String) → out_of (map stdout outs ++ map stderr errs) ≡ outs
out_of-all [] [] = refl
out_of-all [] (e ∷ errs) = out_of-all [] errs
out_of-all (s ∷ outs) errs = ap (λ (l : List String). s ∷ l) (out_of-all outs errs)

err_of-all : (outs errs : List String) → err_of (map stdout outs ++ map stderr errs) ≡ errs
err_of-all [] [] = refl
err_of-all [] (e ∷ errs) = ap (λ (l : List String). e ∷ l) (err_of-all [] errs)
err_of-all (s ∷ outs) errs = err_of-all outs errs

-- Each stream comes whole and in its order, whoever takes a turn when.
pub interleave_lem :
    (turns : List Bool) (outs errs : List String)
    → (out_of (interleave turns outs errs) ≡ outs) × (err_of (interleave turns outs errs) ≡ errs)
unfolding interleave
interleave_lem [] outs errs = (out_of-all outs errs, err_of-all outs errs)
interleave_lem (true ∷ turns) [] errs = interleave_lem turns [] errs
interleave_lem (true ∷ turns) (s ∷ outs) errs = ground (arith, interleave_lem turns outs errs)
interleave_lem (false ∷ turns) outs [] = interleave_lem turns outs []
interleave_lem (false ∷ turns) outs (e ∷ errs) = ground (arith, interleave_lem turns outs errs)

out_of-last :
    (es : List Event) (r : Result ExecError ℤ) → out_of (es ++ (last_event r ∷ [])) ≡ out_of es
unfolding last_event
out_of-last [] (ok code) = refl
out_of-last [] (err e) = refl
out_of-last (stdout s ∷ es) r = ap (λ (l : List String). s ∷ l) (out_of-last es r)
out_of-last (stderr s ∷ es) r = out_of-last es r
out_of-last (failed e ∷ es) r = out_of-last es r
out_of-last (exited code ∷ es) r = out_of-last es r

err_of-last :
    (es : List Event) (r : Result ExecError ℤ) → err_of (es ++ (last_event r ∷ [])) ≡ err_of es
unfolding last_event
err_of-last [] (ok code) = refl
err_of-last [] (err e) = refl
err_of-last (stderr s ∷ es) r = ap (λ (l : List String). s ∷ l) (err_of-last es r)
err_of-last (stdout s ∷ es) r = err_of-last es r
err_of-last (failed e ∷ es) r = err_of-last es r
err_of-last (exited code ∷ es) r = err_of-last es r

module _ {W : Type 0} (g : Guest W) (fs : FileSystem W) where
  -- Whatever the order in which the two readers of a streamed command take turns, the events of
  -- the answer hold all pieces of stdout in their order and all pieces of stderr in theirs.
  pub handle_exec_stream-events :
      (req : ExecRequest) (turns : List Bool) (d : Defaults) (w : W) (cmd : Command) (p : Piped)
      → req.command ≢ ""
      → prepare g req d w ≡ ok cmd
      → (g.start cmd w).0 ≡ some p
      → (es : List Event) × ((handle_exec_stream g fs (some req) turns d w).0
          ≡ respond 200 (events es))
        × (out_of es ≡ p.outs)
        × (err_of es ≡ p.errs)
  unfolding handle_exec_stream stream_command
  handle_exec_stream-events req turns d w cmd p named ready started =
      let sent = interleave turns p.outs p.errs in
      let last = exit_code_of p.failure in
      (
        sent ++ (last_event last ∷ []),
        ground (arith, string_comparable.same_iff req.command ""),
        out_of-last sent last ∙ (interleave_lem turns p.outs p.errs).0,
        err_of-last sent last ∙ (interleave_lem turns p.outs p.errs).1,
      )

  -- Where a command that is past its deadline does not fail by any other error than an exit error,
  -- as os/exec has it for a process that was killed, a result of RunCommand has the output of the
  -- process unchanged, and the exit code is 0 or that of its exit error: the code 124 and the note
  -- of a timeout are never added.
  pub run_command_reported :
      (req : ExecRequest) (d : Defaults) (w : W) (cmd : Command) (r : ExecResult)
      → ((c : Command) (v : W)
          → (g.run c v).0.past_deadline ≡ true
          → (g.run c v).0.failure ≢ some other_error)
      → prepare g req d w ≡ ok cmd
      → (run_command g req d w).0 ≡ ok r
      → (r.stdout ≡ (g.run cmd w).0.stdout)
        × (r.stderr ≡ (g.run cmd w).0.stderr)
        × ((((g.run cmd w).0.failure ≡ none) × (r.exit_code ≡ pos 0))
            ⊎ ((g.run cmd w).0.failure ≡ some (exit_error r.exit_code)))
  unfolding run_command result_of
  run_command_reported req d w cmd r killed ready h =
      let late = (g.run cmd w).0.past_deadline in
      elim (Option-cases (g.run cmd w).0.failure) [
        | inl fine ↦ (ground arith, ground arith, inl (fine, ground arith))
        | inr (exit_error code, f) ↦ (ground arith, ground arith, inr (ground arith))
        | inr (other_error, f) ↦ elim (Bool-cases late) [
          | inl past ↦ absurd (killed cmd w past f)
          | inr on_time ↦ absurd (ground arith)
        ]
      ]

  -- Whatever the file system answers, the agent never answers a request to read a file or to list
  -- a directory with 404.
  pub handle_read_file-ne-404 :
      (path : String) (w : W)
      → ((handle_read_file g fs path w).status ≢ 404)
        × ((handle_list_files g fs path w).status ≢ 404)
  unfolding handle_read_file handle_list_files read_file list_dir read_failed
  handle_read_file-ne-404 path w = (λ h. ground arith, λ h. ground arith)

  -- Over a file system in which a file that was written is read back, a PUT that is answered with
  -- 200 and then a GET for the same path give back what was put.
  pub read-write :
      (path text : String) (w : W)
      → ((p c : String) (v : W)
          → (fs.write_file p c v).0 ≡ ok tt
          → fs.read_file p (fs.write_file p c v).1 ≡ ok c)
      → (handle_write_file g fs path (some text) w).0.status ≡ 200
      → handle_read_file g fs path (handle_write_file g fs path (some text) w).1
        ≡ respond 200 (content text)
  unfolding handle_write_file handle_read_file write_file read_file wrap
  read-write path text w kept h = ground (arith, kept path text (fs.mkdir_all (fs.dir path) w).1)

  -- The answer of the agent to a request is the same whatever access token has been set.
  pub serve-token :
      (req : Request) (token : String) (d : Defaults) (w : W)
      → (serve g fs req (record d { token = token }) w).0 ≡ (serve g fs req d w).0
  unfolding serve handle_exec handle_exec_stream run_command stream_command prepare
  serve-token (post_init none) token d w = refl
  serve-token (post_init (some req)) token d w = refl
  serve-token (post_exec none) token d w = refl
  serve-token (post_exec (some req)) token d w = refl
  serve-token (post_exec_stream none turns) token d w = refl
  serve-token (post_exec_stream (some req) turns) token d w = refl
  serve-token (get_files path) token d w = refl
  serve-token (put_files path body) token d w = refl
  serve-token (get_files_list path) token d w = refl
  serve-token (delete_files path) token d w = refl
  serve-token (post_mkdir path) token d w = refl
  serve-token get_health token d w = refl
