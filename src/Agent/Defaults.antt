-- ===== src/Agent/Defaults.antt =====
-- agent/main.go, `Defaults`, and agent/process.go, `mergeEnv`: the settings of the agent, and the
-- environment of a command.
use gitvm.Base.{
  ◌≡◌, refl, ◌∙◌, String, Option, none, some, List, [], ◌∷◌, arith, concat, if◌then◌else◌, ◌==◌,
  string_comparable,
}
use gitvm.Base.Table.{Table, lookup, insert, lookup-insert, IsMap}

pub record Defaults : Type 0 where
  pub env_vars : Table String String
  pub user : String
  pub work_dir : String
  pub token : String

pub record InitRequest : Type 0 where
  pub env_vars : Table String String
  pub user : String
  pub work_dir : String
  pub access_token : String

-- The defaults of `NewServer`.
abbrev pub new_defaults : Defaults
new_defaults = record { env_vars = []; user = "root"; work_dir = "/home/user"; token = "" }

-- `for k, v := range kvs { m[k] = v }`
unfoldable pub insert_all : Table String String → Table String String → Table String String
insert_all [] m = m
insert_all ((k, v) ∷ kvs) m = insert_all kvs (insert k v m)

abbrev pub or_old : String → String → String
or_old new old = if new == "" then old else new

unfoldable pub set_from : InitRequest → Defaults → Defaults
unfolding insert_all
set_from req d = record {
  env_vars = insert_all req.env_vars d.env_vars;
  user = or_old req.user d.user;
  work_dir = or_old req.work_dir d.work_dir;
  token = or_old req.access_token d.token;
}

abbrev pub default_path : String
default_path = "/usr/local/sbin:/usr/local/bin:/usr/sbin:/usr/bin:/sbin:/bin"

unfoldable pub with_path : Table String String → Table String String
with_path m = elim (lookup "PATH" m) [ none ↦ insert "PATH" default_path m | some _ ↦ m ]

-- The map that `mergeEnv` builds.
unfoldable pub merged : Table String String → Table String String → Table String String
unfolding with_path insert_all
merged base overrides = with_path (insert_all overrides (insert_all base []))

unfoldable pub assignments : Table String String → List String
assignments [] = []
assignments ((k, v) ∷ m) = concat k (concat "=" v) ∷ assignments m

unfoldable pub merge_env : Table String String → Table String String → List String
unfolding merged assignments
merge_env base overrides = assignments (merged base overrides)

-- The first of two that is there.
abbrev pub or_else : Option String → Option String → Option String
or_else none o = o
or_else (some v) o = some v

lookup-insert_all :
    (kvs m : Table String String) (j : String)
    → IsMap kvs
    → lookup j (insert_all kvs m) ≡ or_else (lookup j kvs) (lookup j m)
unfolding insert_all lookup
lookup-insert_all [] m j h = refl
lookup-insert_all ((k, v) ∷ kvs) m j h = ground (
  arith,
  lookup-insert_all kvs (insert k v m) j h.1,
  lookup-insert k j v m,
  string_comparable.same_iff k j,
)

lookup-with_path :
    (m : Table String String) (j : String)
    → lookup j (with_path m)
      ≡ or_else (lookup j m) (if j == "PATH" then some default_path else none)
unfolding with_path
lookup-with_path m j = ground (
  arith,
  lookup-insert "PATH" j default_path m,
  string_comparable.same_iff j "PATH",
  string_comparable.same_iff "PATH" j,
)

lookup-overrides :
    (base overrides : Table String String) (j : String)
    → IsMap base
    → IsMap overrides
    → lookup j (insert_all overrides (insert_all base []))
      ≡ or_else (lookup j overrides) (lookup j base)
unfolding lookup
lookup-overrides base overrides j hb ho =
    ground
      (arith, lookup-insert_all overrides (insert_all base []) j ho, lookup-insert_all base [] j hb)

-- In the environment of a command a variable has the value of the request, else that of the
-- defaults, and PATH, where neither sets it, a default path; no other variable is set.
pub lookup-merged :
    (base overrides : Table String String) (j : String)
    → IsMap base
    → IsMap overrides
    → lookup j (merged base overrides)
      ≡ or_else
          (or_else (lookup j overrides) (lookup j base))
          (if j == "PATH" then some default_path else none)
unfolding merged
lookup-merged base overrides j hb ho =
    lookup-with_path (insert_all overrides (insert_all base [])) j
    ∙ rw (lookup-overrides base overrides j hb ho)
