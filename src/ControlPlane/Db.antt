-- ===== src/ControlPlane/Db.antt =====
-- controlplane/db.go: the tables of the database, each with its primary key, and the statements that
-- the program runs on them. SQLite is not part of the repository: the statements are read as SQL
-- defines them, with no failure but a violated constraint. A read gives the rows in the order of the
-- table where the statement has no ORDER BY.
use gitvm.Base.{
  ℕ, ◌+◌, ◌*◌, ◌/◌, String, Bool, Option, none, some, List, [], ◌∷◌, Result, ok, err, if◌then◌else◌,
  ◌==◌, string_comparable, leb,
}
use gitvm.Base.Clock.{Time}
use gitvm.Base.Table.{Table, lookup, insert, remove, values}
use gitvm.Runtime.{State}
use gitvm.ControlPlane.Types.{
  NodeStatus, online, is_online, Node, Sandbox, Project, User, CloudPool,
}

pub record Db : Type 0 where
  pub users : Table String User
  pub projects : Table String Project
  pub nodes : Table String Node
  pub sandboxes : Table String Sandbox
  pub cloud_pools : Table String CloudPool

-- Violated UNIQUE and PRIMARY KEY constraints.
pub data DbError : Type 0 where
  not_unique : DbError

module _ {A : Type 0} (key : A → String) (k : String) where
  -- `WHERE column = ?`, the first row
  unfoldable pub find_by : List A → Option A
  find_by [] = none
  find_by (x ∷ xs) = if key x == k then some x else find_by xs

  -- `WHERE column = ?`, all rows
  unfoldable pub all_by : List A → List A
  all_by [] = []
  all_by (x ∷ xs) = let rest = all_by xs in if key x == k then x ∷ rest else rest

-- `ORDER BY`, as a stable insertion: `before x y` where x may stand before y. SQL leaves the order of
-- ties open.
module _ {A : Type 0} (before : A → A → Bool) where
  unfoldable pub insert_by : A → List A → List A
  insert_by x [] = x ∷ []
  insert_by x (y ∷ ys) = let rest = insert_by x ys in if before x y then x ∷ y ∷ ys else y ∷ rest

  unfoldable pub sort_by : List A → List A
  sort_by [] = []
  sort_by (x ∷ xs) = insert_by x (sort_by xs)

-- A time is stored as RFC 3339 text, in whole seconds.
unfoldable pub stored_time : Time → Time
stored_time t = t / 1000000000 * 1000000000

-- Users
unfoldable pub create_user : User → Db → Result DbError Db
create_user u d = elim (lookup u.id d.users) [
  | some _ ↦ err not_unique
  | none ↦ elim (find_by (λ v. v.email) u.email (values d.users)) [
    | some _ ↦ err not_unique
    | none ↦ ok (record d { users = insert u.id u d.users })
  ]
]

unfoldable pub get_user_by_email : String → Db → Option User
get_user_by_email email d = find_by (λ u. u.email) email (values d.users)

unfoldable pub get_user : String → Db → Option User
get_user id d = lookup id d.users

-- Projects
unfoldable pub create_project : Project → Db → Result DbError Db
create_project p d = elim (lookup p.id d.projects) [
  | some _ ↦ err not_unique
  | none ↦ elim (find_by (λ q. q.api_key) p.api_key (values d.projects)) [
    | some _ ↦ err not_unique
    | none ↦ ok (record d { projects = insert p.id p d.projects })
  ]
]

unfoldable pub get_project_by_api_key : String → Db → Option Project
get_project_by_api_key key d = find_by (λ p. p.api_key) key (values d.projects)

unfoldable pub list_projects : String → Db → List Project
list_projects owner d = all_by (λ p. p.owner_id) owner (values d.projects)

-- Nodes. On a conflict only these four columns are written.
unfoldable pub merge_node : Node → Node → Node
merge_node old new = record old {
  address = new.address;
  status = new.status;
  running = new.running;
  last_seen = new.last_seen;
}

unfoldable pub stored_node : Node → Node
stored_node n = record n {
  last_seen = stored_time n.last_seen;
  created_at = stored_time n.created_at;
}

unfoldable pub upsert_node : Node → Db → Db
unfolding merge_node stored_node stored_time
upsert_node n d = elim (lookup n.id d.nodes) [
  | none ↦ record d { nodes = insert n.id (stored_node n) d.nodes }
  | some old ↦ record d { nodes = insert n.id (merge_node old (stored_node n)) d.nodes }
]

unfoldable pub get_node : String → Db → Option Node
get_node id d = lookup id d.nodes

unfoldable pub online_among : List Node → List Node
online_among [] = []
online_among (n ∷ ns) = let rest = online_among ns in if is_online n.status then n ∷ rest else rest

unfoldable pub list_nodes : Db → List Node
unfolding sort_by insert_by
list_nodes d = sort_by (λ m n. leb n.created_at m.created_at) (values d.nodes)

unfoldable pub list_online_nodes : Db → List Node
unfolding sort_by insert_by online_among
list_online_nodes d = sort_by (λ m n. leb m.running n.running) (online_among (values d.nodes))

-- `UPDATE nodes SET … WHERE id = ?`: no row, no change.
unfoldable pub update_node : String → (Node → Node) → Db → Db
update_node id f d = elim (lookup id d.nodes) [
  | none ↦ d
  | some n ↦ record d { nodes = insert id (f n) d.nodes }
]

unfoldable pub update_node_status : String → NodeStatus → Db → Db
unfolding update_node
update_node_status id status = update_node id (λ n. record n { status = status })

unfoldable pub update_node_heartbeat : String → ℕ → Time → Db → Db
unfolding update_node stored_time
update_node_heartbeat id running now =
    update_node id
      (λ n. record n { running = running; last_seen = stored_time now; status = online })

unfoldable pub delete_node : String → Db → Db
delete_node id d = record d { nodes = remove id d.nodes }

-- Sandboxes
unfoldable pub stored_sandbox : Sandbox → Sandbox
stored_sandbox s = record s {
  created_at = stored_time s.created_at;
  expires_at = stored_time s.expires_at;
}

unfoldable pub create_sandbox : Sandbox → Db → Result DbError Db
unfolding stored_sandbox stored_time
create_sandbox s d = elim (lookup s.id d.sandboxes) [
  | some _ ↦ err not_unique
  | none ↦ ok (record d { sandboxes = insert s.id (stored_sandbox s) d.sandboxes })
]

unfoldable pub get_sandbox : String → Db → Option Sandbox
get_sandbox id d = lookup id d.sandboxes

unfoldable pub list_sandboxes : String → Db → List Sandbox
unfolding sort_by insert_by
list_sandboxes project d =
    sort_by (λ s t. leb t.created_at s.created_at)
      (all_by (λ s. s.project_id) project (values d.sandboxes))

unfoldable pub update_sandbox_status : String → State → Db → Db
update_sandbox_status id status d = elim (lookup id d.sandboxes) [
  | none ↦ d
  | some s ↦ record d { sandboxes = insert id (record s { status = status }) d.sandboxes }
]

unfoldable pub delete_sandbox : String → Db → Db
delete_sandbox id d = record d { sandboxes = remove id d.sandboxes }

-- Cloud pools. On a conflict only the three numbers are written; the runtime has no column.
unfoldable pub merge_cloud_pool : CloudPool → CloudPool → CloudPool
merge_cloud_pool old new = record old {
  min_nodes = new.min_nodes;
  max_nodes = new.max_nodes;
  current_nodes = new.current_nodes;
}

unfoldable pub upsert_cloud_pool : CloudPool → Db → Db
unfolding merge_cloud_pool
upsert_cloud_pool p d = elim (lookup p.id d.cloud_pools) [
  | none ↦ record d { cloud_pools = insert p.id (record p { runtime = "" }) d.cloud_pools }
  | some old ↦ record d { cloud_pools = insert p.id (merge_cloud_pool old p) d.cloud_pools }
]

unfoldable pub list_cloud_pools : Db → List CloudPool
list_cloud_pools d = values d.cloud_pools

-- `COALESCE(SUM(…), 0)` over the online nodes.
unfoldable pub sum_max : List Node → ℕ
sum_max [] = 0
sum_max (n ∷ ns) = n.max_sandboxes + sum_max ns

unfoldable pub sum_running : List Node → ℕ
sum_running [] = 0
sum_running (n ∷ ns) = n.running + sum_running ns

unfoldable pub total_capacity : Db → ℕ × ℕ
unfolding sum_max sum_running online_among
total_capacity d =
    (sum_max (online_among (values d.nodes)), sum_running (online_among (values d.nodes)))
