-- ===== src/ControlPlane/Handlers/Placement.antt =====
-- Which node handleCreateSandbox of controlplane/handlers.go chooses.
use gitvm.Base.{
  ℕ, ◌≤◌, ◌<◌, ◌≡◌, Bool, true, Option, none, some, List, [], ◌∷◌, arith, inl, inr, Bool-cases,
  string_comparable, leb, ltb,
}
use gitvm.Base.Table.{values, Every}
use gitvm.ControlPlane.Types.{Node, is_online}
use gitvm.ControlPlane.Db.{Db, list_online_nodes, online_among, sort_by, insert_by}
use gitvm.ControlPlane.Nodes.{All, IsOnline, All-list_online_nodes}
use gitvm.ControlPlane.Handlers.{pick_node}

-- Every later node has at least `k` sandboxes.
FromLoad : ℕ → List Node → Type 0
FromLoad k = All (λ (n : Node). k ≤ n.running)

IsSorted : List Node → Type 0
unfolding FromLoad
IsSorted [] = Unit
IsSorted (n ∷ ns) = FromLoad n.running ns × IsSorted ns

abbrev by_running : Node → Node → Bool
by_running m n = leb m.running n.running

FromLoad-le : (j k : ℕ) (ns : List Node) → j ≤ k → FromLoad k ns → FromLoad j ns
unfolding FromLoad
FromLoad-le j k [] h p = tt
FromLoad-le j k (n ∷ ns) h p = (ground arith, FromLoad-le j k ns h p.1)

FromLoad-insert :
    (k : ℕ) (n : Node) (ns : List Node)
    → k ≤ n.running
    → FromLoad k ns
    → FromLoad k (insert_by by_running n ns)
unfolding FromLoad insert_by
FromLoad-insert k n [] h p = (h, tt)
FromLoad-insert k n (m ∷ ms) h p = ground (arith, FromLoad-insert k n ms h p.1)

insert_by-IsSorted :
    (n : Node) (ns : List Node) → IsSorted ns → IsSorted (insert_by by_running n ns)
unfolding IsSorted insert_by FromLoad
insert_by-IsSorted n [] s = (tt, tt)
insert_by-IsSorted n (m ∷ ms) s = ground (
  arith,
  insert_by-IsSorted n ms s.1,
  FromLoad-insert m.running n ms,
  FromLoad-le n.running m.running ms,
)

sort_by-IsSorted : (ns : List Node) → IsSorted (sort_by by_running ns)
unfolding sort_by IsSorted
sort_by-IsSorted [] = tt
sort_by-IsSorted (n ∷ ns) = insert_by-IsSorted n (sort_by by_running ns) (sort_by-IsSorted ns)

-- What a choice says of the nodes that it was made from: it has room, and no node with room has fewer
-- sandboxes; or none has room.
abbrev IsListPick : List Node → Option Node → Type 0
IsListPick ns none = All (λ (m : Node). m.max_sandboxes ≤ m.running) ns
IsListPick ns (some n) =
    (n.running < n.max_sandboxes)
    × All (λ (m : Node). m.running < m.max_sandboxes → n.running ≤ m.running) ns

FromLoad-least :
    (k : ℕ) (ns : List Node)
    → FromLoad k ns
    → All (λ (m : Node). m.running < m.max_sandboxes → k ≤ m.running) ns
unfolding FromLoad
FromLoad-least k [] p = tt
FromLoad-least k (n ∷ ns) p = (λ h. p.0, FromLoad-least k ns p.1)

IsPick-full :
    (n : Node) (ns : List Node) (o : Option Node)
    → n.max_sandboxes ≤ n.running
    → IsListPick ns o
    → IsListPick (n ∷ ns) o
IsPick-full n ns none full p = (full, p)
IsPick-full n ns (some m) full (room, p) = (room, (λ h. absurd (omega arith), p))

pick_node-IsPick : (ns : List Node) → IsSorted ns → IsListPick ns (pick_node ns)
unfolding pick_node IsSorted
pick_node-IsPick [] s = tt
pick_node-IsPick (n ∷ ns) s = elim (Bool-cases (ltb n.running n.max_sandboxes)) [
  | inl room ↦
      rw (room, pick_node) (ground arith, ((λ h. ground arith), FromLoad-least n.running ns s.0))
  | inr full ↦
      rw (full, pick_node)
        (IsPick-full n ns (pick_node ns) (ground arith) (pick_node-IsPick ns s.1))
]

pub pick_node-IsOnline :
    (d : Db) (ns : List Node) (n : Node)
    → All (IsOnline d) ns
    → pick_node ns ≡ some n
    → IsOnline d n
unfolding pick_node
pick_node-IsOnline d [] n ps h = absurd cc
pick_node-IsOnline d (m ∷ ms) n ps h = ground (arith, pick_node-IsOnline d ms n ps.1)

-- What a choice says of the table: it has room, and no online node of the table with room has fewer
-- sandboxes; or no online node of the table has room.
abbrev pub IsPick : Db → Option Node → Type 0
IsPick d none =
    Every (λ id (m : Node). is_online m.status ≡ true → m.max_sandboxes ≤ m.running) d.nodes
IsPick d (some n) =
    (n.running < n.max_sandboxes)
    × Every
        (λ id (m : Node).
          is_online m.status ≡ true → m.running < m.max_sandboxes → n.running ≤ m.running)
        d.nodes

IsListPick-table : (d : Db) (o : Option Node) → IsListPick (list_online_nodes d) o → IsPick d o
IsListPick-table d none full = All-list_online_nodes (λ m. m.max_sandboxes ≤ m.running) d full
IsListPick-table d (some n) (room, least) =
    (room, All-list_online_nodes (λ m. m.running < m.max_sandboxes → n.running ≤ m.running) d least)

list_online_nodes-IsListPick :
    (d : Db) → IsListPick (list_online_nodes d) (pick_node (list_online_nodes d))
unfolding list_online_nodes
list_online_nodes-IsListPick d =
    pick_node-IsPick _ (sort_by-IsSorted (online_among (values d.nodes)))

pub list_online_nodes-IsPick : (d : Db) → IsPick d (pick_node (list_online_nodes d))
list_online_nodes-IsPick d =
    IsListPick-table d (pick_node (list_online_nodes d)) (list_online_nodes-IsListPick d)
