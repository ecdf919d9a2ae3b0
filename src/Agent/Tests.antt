-- ===== src/Agent/Tests.antt =====
-- Runs of the agent over a small guest, and the theorems about it at concrete inputs.
use gitvm.Base.{
  ℕ, ◌≡◌, refl, String, true, false, Option, none, some, [], ◌∷◌, ok, err, pos, negsuc,
  if◌then◌else◌, ◌==◌, string_comparable,
}
use gitvm.Base.Table.{Table, lookup, insert}
use gitvm.Http.{respond}
use gitvm.Agent.Defaults.{new_defaults, default_path, merge_env, or_else}
use gitvm.Agent.Environment.{value_in, value_in-merge_env}
use gitvm.Agent.Process.{ExecRequest, Guest, Command, exit_error, Ran, run_command, set_user}
use gitvm.Agent.Files.{not_exist, wrapped, cause, FileSystem, read_file}
use gitvm.Agent.Server.{file_error, handle_read_file}

-- The files of the guest, by path.
abbrev GuestFiles : Type 0
GuestFiles = Table String String

abbrev disk : FileSystem GuestFiles
disk = record {
  dir = λ path. "/";
  read_file = λ path w. elim (lookup path w) [ none ↦ err not_exist | some text ↦ ok text ];
  read_dir = λ path w. err not_exist;
  stat = λ path w. err not_exist;
  mkdir_all = λ path w. (ok tt, w);
  write_file = λ path text w. (ok tt, insert path text w);
  remove_all = λ path w. (ok tt, w);
}

-- A command is killed at its deadline where it has a limit, and ends well elsewhere.
abbrev killed_at_limit : Option ℕ → Ran
killed_at_limit none = record { failure = none; past_deadline = false; stdout = "out"; stderr = "" }
killed_at_limit (some n) = record {
  failure = some (exit_error (negsuc 0));
  past_deadline = true;
  stdout = "out";
  stderr = "";
}

abbrev guest : Guest GuestFiles
guest = record {
  dir_exists = λ path w. path == "/home/user";
  getwd = λ w. "/";
  lookup_user = λ name w. if name == "bob" then some (1000, 1000) else none;
  run = λ cmd w. (killed_at_limit cmd.limit, w);
  start = λ cmd w. (
    some (record { outs = "a" ∷ "b" ∷ []; errs = "x" ∷ []; failure = some (exit_error (pos 3)) }),
    w,
  );
}

abbrev sleep : ExecRequest
sleep = record { command = "sleep 9"; cwd = ""; env = []; timeout = pos 1 }

abbrev sleeping : Command
sleeping = record {
  script = "sleep 9";
  dir = "/home/user";
  env = merge_env [] [];
  limit = some 1;
  credential = none;
}

environment :
    merge_env (("A", "1") ∷ []) (("A", "2") ∷ [])
    ≡ "A=2" ∷ "PATH=/usr/local/sbin:/usr/local/bin:/usr/sbin:/usr/bin:/sbin:/bin" ∷ []
unfolding merge_env lookup insert
environment = refl

-- A name with a `#` that is not found gives no user, so that the command runs as the agent's own.
numeric_user : set_user guest "#1000" [] ≡ ok none
unfolding set_user
numeric_user = refl

-- A command that is killed at its deadline is reported with -1, not with 124.
deadline :
    (run_command guest sleep new_defaults []).0
    ≡ ok (record { exit_code = negsuc 0; stdout = "out"; stderr = "" })
unfolding run_command
deadline = refl

abbrev path_name : String
path_name = "PATH"

abbrev old_vars : Table String String
old_vars = ("A", "1") ∷ []

abbrev new_vars : Table String String
new_vars = ("A", "2") ∷ []

value_in-merge_env_example :
    value_in path_name (merge_env old_vars new_vars)
    ≡ or_else
        (or_else (lookup path_name new_vars) (lookup path_name old_vars))
        (if path_name == "PATH" then some default_path else none)
unfolding lookup
value_in-merge_env_example =
    value_in-merge_env old_vars new_vars path_name (refl, tt) (refl, tt) ((refl, tt), tt)
      ((refl, tt), tt)

missing :
    handle_read_file guest disk "/none" []
    ≡ respond 500 (file_error (wrapped "read" "/none" (cause not_exist)))
unfolding handle_read_file read_file lookup
missing = refl
