-- ===== src/ControlPlane/Scaler/Offline.antt =====
-- Which nodes `detectOfflineNodes` of controlplane/scaler.go marks.
use gitvm.Base.{
  ◌-◌, ◌≡◌, refl, ◌∙◌, ap, String, Bool, true, false, Option, none, some, List, [], ◌∷◌, arith,
  Option-cases, inl, inr, string_comparable, ltb, leb, if◌then◌else◌, ◌&&◌, ◌||◌, ◌==◌,
}
use gitvm.Base.Clock.{Time}
use gitvm.Base.Table.{Table, lookup, values, IsMap, Every, Every-tail, Every-head, lookup-insert}
use gitvm.ControlPlane.Types.{Node, offline, is_online}
use gitvm.ControlPlane.Db.{
  Db, get_node, list_nodes, sort_by, insert_by, update_node, update_node_status,
}
use gitvm.ControlPlane.Nodes.{AreKeyed}
use gitvm.ControlPlane.Scaler.{mark_offline, detect_offline_nodes}

-- Online, and last seen more than two minutes ago.
abbrev pub is_stale : Time → Node → Bool
is_stale now n = is_online n.status && ltb n.last_seen (now - 120000000000)

abbrev pub mark_if : Bool → Option Node → Option Node
mark_if true (some n) = some (record n { status = offline })
mark_if _ o = o

-- Whether some node of the list has the id and is stale.
stale_among : Time → String → List Node → Bool
stale_among now id [] = false
stale_among now id (n ∷ ns) =
    let rest = stale_among now id ns in (n.id == id && is_stale now n) || rest

update_node_status-get :
    (i id : String) (d : Db)
    → get_node id (update_node_status i offline d) ≡ mark_if (i == id) (get_node id d)
unfolding get_node update_node_status update_node
update_node_status-get i id d = elim (Option-cases (lookup i d.nodes)) [
  | inl missing ↦ rw (missing, update_node) (ground (arith, string_comparable.same_iff i id))
  | inr (n, there) ↦
      rw (there, update_node)
        (ground (
          arith,
          string_comparable.same_iff i id,
          lookup-insert i id (record n { status = offline }) d.nodes,
        ))
]

mark_if-mark_if : (a b : Bool) (o : Option Node) → mark_if a (mark_if b o) ≡ mark_if (b || a) o
mark_if-mark_if true true (some n) = refl
mark_if-mark_if true false (some n) = refl
mark_if-mark_if false true (some n) = refl
mark_if-mark_if false false (some n) = refl
mark_if-mark_if true true none = refl
mark_if-mark_if true false none = refl
mark_if-mark_if false true none = refl
mark_if-mark_if false false none = refl

mark_one :
    (b : Bool) (i id : String) (d : Db)
    → get_node id (if b then update_node_status i offline d else d)
      ≡ mark_if (i == id && b) (get_node id d)
mark_one b i id d = ground (arith, update_node_status-get i id d)

mark_offline-get :
    (now : Time) (id : String) (ns : List Node) (d : Db)
    → get_node id (mark_offline now ns d) ≡ mark_if (stale_among now id ns) (get_node id d)
unfolding mark_offline stale_among
mark_offline-get now id [] d = ground arith
mark_offline-get now id (n ∷ ns) d =
    let d' = if is_stale now n then update_node_status n.id offline d else d in
    mark_offline-get now id ns d'
    ∙ ap (mark_if (stale_among now id ns)) (mark_one (is_stale now n) n.id id d)
    ∙ mark_if-mark_if (stale_among now id ns) (n.id == id && is_stale now n) (get_node id d)

-- The order of the nodes does not matter.
stale_among-insert_by :
    (before : Node → Node → Bool) (now : Time) (id : String) (n : Node) (ns : List Node)
    → stale_among now id (insert_by before n ns)
      ≡ ((n.id == id && is_stale now n) || stale_among now id ns)
unfolding stale_among insert_by
stale_among-insert_by before now id n [] = refl
stale_among-insert_by before now id n (m ∷ ms) =
    ground (arith, stale_among-insert_by before now id n ms)

stale_among-sort_by :
    (before : Node → Node → Bool) (now : Time) (id : String) (ns : List Node)
    → stale_among now id (sort_by before ns) ≡ stale_among now id ns
unfolding stale_among sort_by
stale_among-sort_by before now id [] = refl
stale_among-sort_by before now id (n ∷ ns) = ground (
  arith,
  stale_among-sort_by before now id ns,
  stale_among-insert_by before now id n (sort_by before ns),
)

-- In a keyed table the node of the id decides.
stale_among-values :
    (now : Time) (id : String) (m : Table String Node)
    → IsMap m
    → Every (λ k (n : Node). n.id ≡ k) m
    → stale_among now id (values m)
      ≡ (elim (lookup id m) [ none ↦ false | some n ↦ is_stale now n ])
unfolding stale_among values lookup
stale_among-values now id [] map each = refl
stale_among-values now id ((k, n) ∷ m) map each = ground (
  arith,
  stale_among-values now id m map.1 (Every-tail (λ k (n : Node). n.id ≡ k) k n m map.0 each),
  Every-head (λ k (n : Node). n.id ≡ k) k n m each,
  string_comparable.same_iff n.id id,
  string_comparable.same_iff k id,
)

-- Where the nodes are stored under their ids, detectOfflineNodes marks a node as offline, and
-- changes nothing else of it, when it is online and was last seen more than two minutes ago; every
-- other id is left as it is.
pub detect_offline_nodes-get :
    (now : Time) (d : Db) (id : String)
    → AreKeyed d
    → get_node id (detect_offline_nodes now d) ≡ (elim (get_node id d) [
      | none ↦ none
      | some n ↦ some (if is_stale now n then record n { status = offline } else n)
    ])
unfolding detect_offline_nodes list_nodes get_node
detect_offline_nodes-get now d id keyed = ground (
  arith,
  mark_offline-get now id (list_nodes d) d,
  stale_among-sort_by (λ m n. leb n.created_at m.created_at) now id (values d.nodes),
  stale_among-values now id d.nodes keyed.map keyed.each,
)
