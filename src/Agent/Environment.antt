-- ===== src/Agent/Environment.antt =====
-- agent/process.go: the environment that mergeEnv hands to a process, as the process reads it.
use Prim.Native.String.{String}
use gitvm.Base.{
  ◌≡◌, refl, ◌∙◌, Option, none, some, List, [], ◌∷◌, arith, if◌then◌else◌, ◌==◌, string_comparable,
}
use gitvm.Base.Table.{Table, lookup, insert, IsMap}
use gitvm.Base.Scan.{before_first, after_first, Lacks}
use gitvm.Base.Scan.Cuts.{before_first-equals, after_first-equals}
use gitvm.Agent.Defaults.{
  insert_all, with_path, default_path, merged, assignments, merge_env, or_else, lookup-merged,
}

-- The value of a variable in a list of `name=value` texts: that of the first text with the name.
unfoldable pub value_in : String → List String → Option String
value_in name [] = none
value_in name (entry ∷ entries) =
    let rest = value_in name entries in
    if before_first b'=' entry == name then after_first b'=' entry else rest

-- No name has a `=` in it.
abbrev pub AreNames : Table String String → Type 0
AreNames [] = Unit {0}
AreNames ((k, v) ∷ m) = Lacks b'=' k × AreNames m

value_in-assignments :
    (m : Table String String) (j : String) → AreNames m → value_in j (assignments m) ≡ lookup j m
unfolding value_in assignments lookup
value_in-assignments [] j names = refl
value_in-assignments ((k, v) ∷ m) j (l, names) = ground (
  arith,
  before_first-equals k v l,
  after_first-equals k v l,
  value_in-assignments m j names,
  string_comparable.same_iff k j,
  string_comparable.same_iff j k,
)

insert-AreNames :
    (k v : String) (m : Table String String) → Lacks b'=' k → AreNames m → AreNames (insert k v m)
unfolding insert
insert-AreNames k v [] l names = (l, tt)
insert-AreNames k v ((j, w) ∷ m) l names = ground (arith, insert-AreNames k v m l names.1)

insert_all-AreNames :
    (kvs m : Table String String) → AreNames kvs → AreNames m → AreNames (insert_all kvs m)
unfolding insert_all
insert_all-AreNames [] m new names = names
insert_all-AreNames ((k, v) ∷ kvs) m (l, new) names =
    insert_all-AreNames kvs (insert k v m) new (insert-AreNames k v m l names)

with_path-AreNames : (m : Table String String) → AreNames m → AreNames (with_path m)
unfolding with_path
with_path-AreNames m names =
    ground (arith, insert-AreNames "PATH" default_path m (refl, (refl, (refl, (refl, tt)))) names)

-- In the list of texts name=value that mergeEnv hands to a process, where no name of the request
-- or the defaults has a = in it, a variable has the value of the request, else that of the
-- defaults, and PATH, where neither sets it, a default path; no other variable is set.
pub value_in-merge_env :
    (base overrides : Table String String) (j : String)
    → IsMap base
    → IsMap overrides
    → AreNames base
    → AreNames overrides
    → value_in j (merge_env base overrides)
      ≡ or_else
          (or_else (lookup j overrides) (lookup j base))
          (if j == "PATH" then some default_path else none)
unfolding merge_env merged
value_in-merge_env base overrides j hb ho old new =
    value_in-assignments (merged base overrides) j (
      with_path-AreNames _
        (insert_all-AreNames overrides _ new (insert_all-AreNames base [] old tt)))
    ∙ lookup-merged base overrides j hb ho
