-- ===== src/Agent/Server.antt =====
-- agent/main.go: the handlers and the routes of the agent.
use gitvm.Base.{
  ℤ, String, Bool, Option, none, some, List, [], ◌∷◌, ◌++◌, Result, ok, err, if◌then◌else◌, ◌==◌,
  string_comparable,
}
use gitvm.Http.{Response, respond}
use gitvm.Agent.Defaults.{Defaults, InitRequest, set_from}
use gitvm.Agent.Process.{
  ExecRequest, ExecResult, Guest, ExecError, Event, failed, exited, run_command, stream_command,
}
use gitvm.Agent.Files.{
  FileError, FileInfo, FileSystem, is_not_exist, read_file, write_file, list_dir, make_dir,
  remove_path,
}

-- The bodies that the handlers write. An error body keeps what its text is built from.
pub data Body : Type 0 where
  invalid_json command_required path_required unreadable_body : Body
  exec_error : ExecError → Body
  file_error : FileError → Body
  is_ok healthy : Body
  exec_result : ExecResult → Body
  events : List Event → Body
  content : String → Body
  entries : List FileInfo → Body

-- A request by its route: a body that may not decode, the value of `path`, and the turns of the two
-- readers of a stream.
pub data Request : Type 0 where
  post_init : Option InitRequest → Request
  post_exec : Option ExecRequest → Request
  post_exec_stream : Option ExecRequest → List Bool → Request
  get_files get_files_list delete_files post_mkdir : String → Request
  put_files : String → Option String → Request
  get_health : Request

unfoldable pub handle_init : Option InitRequest → Defaults → Response Body × Defaults
unfolding set_from
handle_init none d = (respond 400 invalid_json, d)
handle_init (some req) d = (respond 200 is_ok, set_from req d)

-- 404 for an error that says so, and 500 for any other.
unfoldable pub read_failed : FileError → Response Body
unfolding is_not_exist
read_failed e = if is_not_exist e then respond 404 (file_error e) else respond 500 (file_error e)

unfoldable pub last_event : Result ExecError ℤ → Event
last_event (err e) = failed e
last_event (ok code) = exited code

unfoldable pub done_or_failed : Result FileError (Unit {0}) → Response Body
done_or_failed (err e) = respond 500 (file_error e)
done_or_failed (ok _) = respond 200 is_ok

module _ {W : Type 0} (g : Guest W) (fs : FileSystem W) where
  unfoldable pub handle_exec : Option ExecRequest → Defaults → W → Response Body × W
  handle_exec none d w = (respond 400 invalid_json, w)
  handle_exec (some req) d w =
      let (r, w') = run_command g req d w in
      if req.command == "" then (respond 400 command_required, w) else (
        elim r [
          | err e ↦ respond 500 (exec_error e)
          | ok result ↦ respond 200 (exec_result result)
        ],
        w',
      )

  unfoldable pub handle_exec_stream :
      Option ExecRequest → List Bool → Defaults → W → Response Body × W
  unfolding last_event
  handle_exec_stream none turns d w = (respond 400 invalid_json, w)
  handle_exec_stream (some req) turns d w =
      let (r, sent, w') = stream_command g turns req d w in
      if req.command == ""
      then (respond 400 command_required, w)
      else (respond 200 (events (sent ++ (last_event r ∷ []))), w')

  unfoldable pub handle_read_file : String → W → Response Body
  unfolding read_failed
  handle_read_file path w =
      if path == "" then respond 400 path_required else elim (read_file fs path w) [
        | err e ↦ read_failed e
        | ok text ↦ respond 200 (content text)
      ]

  unfoldable pub handle_write_file : String → Option String → W → Response Body × W
  unfolding done_or_failed
  handle_write_file path body w = if path == "" then (respond 400 path_required, w) else elim body [
    | none ↦ (respond 400 unreadable_body, w)
    | some text ↦ let (r, w') = write_file fs path text w in (done_or_failed r, w')
  ]

  unfoldable pub handle_list_files : String → W → Response Body
  unfolding read_failed
  handle_list_files path w =
      if path == "" then respond 400 path_required else elim (list_dir fs path w) [
        | err e ↦ read_failed e
        | ok infos ↦ respond 200 (entries infos)
      ]

  unfoldable pub handle_delete_file : String → W → Response Body × W
  unfolding done_or_failed
  handle_delete_file path w =
      let (r, w') = remove_path fs path w in
      if path == "" then (respond 400 path_required, w) else (done_or_failed r, w')

  unfoldable pub handle_mkdir : String → W → Response Body × W
  unfolding done_or_failed
  handle_mkdir path w =
      let (r, w') = make_dir fs path w in
      if path == "" then (respond 400 path_required, w) else (done_or_failed r, w')

  abbrev keep : Defaults → Response Body × W → Response Body × Defaults × W
  keep d (r, w) = (r, d, w)

  unfoldable pub serve : Request → Defaults → W → Response Body × Defaults × W
  unfolding handle_init
  serve (post_init req) d w = let (r, d') = handle_init req d in (r, d', w)
  serve (post_exec req) d w = keep d (handle_exec req d w)
  serve (post_exec_stream req turns) d w = keep d (handle_exec_stream req turns d w)
  serve (get_files path) d w = (handle_read_file path w, d, w)
  serve (put_files path body) d w = keep d (handle_write_file path body w)
  serve (get_files_list path) d w = (handle_list_files path w, d, w)
  serve (delete_files path) d w = keep d (handle_delete_file path w)
  serve (post_mkdir path) d w = keep d (handle_mkdir path w)
  serve get_health d w = (respond 200 healthy, d, w)
