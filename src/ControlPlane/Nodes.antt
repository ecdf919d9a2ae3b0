-- ===== src/ControlPlane/Nodes.antt =====
-- What the lists of nodes that controlplane/db.go reads hold: the rows of the table, each under its id.
use gitvm.Base.{
  ◌≡◌, ap, ◌∙◌, String, Bool, true, Bool-cases, inl, inr, some, List, [], ◌∷◌, arith,
  string_comparable, leb,
}
use gitvm.Base.Table.{Table, lookup, values, IsMap, Every, Every-tail, Every-head}
use gitvm.ControlPlane.Types.{Node, is_online}
use gitvm.ControlPlane.Db.{Db, get_node, list_online_nodes, online_among, sort_by, insert_by}

-- A node is stored once, under its id.
pub record AreKeyed (d : Db) : Type 0 where
  pub map : IsMap d.nodes
  pub each : Every (λ id (n : Node). n.id ≡ id) d.nodes

abbrev pub All {ℓ} : {A : Type 0} → (A → Type ℓ) → List A → Type ℓ
All P [] = Unit
All P (x ∷ xs) = P x × All P xs

insert_by-All :
    {A : Type 0} (P : A → Type 0) (before : A → A → Bool) (x : A) (xs : List A)
    → P x
    → All P xs
    → All P (insert_by before x xs)
unfolding insert_by
insert_by-All P before x [] p ps = (p, tt)
insert_by-All P before x (y ∷ ys) p ps = ground (arith, insert_by-All P before x ys p ps.1)

pub sort_by-All :
    {A : Type 0} (P : A → Type 0) (before : A → A → Bool) (xs : List A)
    → All P xs
    → All P (sort_by before xs)
unfolding sort_by
sort_by-All P before [] ps = tt
sort_by-All P before (x ∷ xs) ps =
    insert_by-All P before x (sort_by before xs) ps.0 (sort_by-All P before xs ps.1)

values-All :
    (P : Node → Type 0) (m : Table String Node) → IsMap m → Every (λ k n. P n) m → All P (values m)
unfolding values
values-All P [] map each = tt
values-All P ((k, n) ∷ m) map each = (
  Every-head (λ k n. P n) k n m each,
  values-All P m map.1 (Every-tail (λ k n. P n) k n m map.0 each),
)

online_among-All :
    (P : Node → Type 0) (ns : List Node)
    → All P ns
    → All (λ n. P n × (is_online n.status ≡ true)) (online_among ns)
unfolding online_among
online_among-All P [] ps = tt
online_among-All P (n ∷ ns) ps = ground (arith, online_among-All P ns ps.1)

-- A row of the table that is online.
abbrev pub IsOnline : Db → Node → Type 0
IsOnline d n = (get_node n.id d ≡ some n) × (is_online n.status ≡ true)

pub list_online_nodes-All : (d : Db) → AreKeyed d → All (IsOnline d) (list_online_nodes d)
unfolding list_online_nodes get_node
list_online_nodes-All d keyed =
    sort_by-All (IsOnline d) (λ m n. leb m.running n.running) _
      (online_among-All (λ n. get_node n.id d ≡ some n) (values d.nodes)
        (values-All (λ n. get_node n.id d ≡ some n) d.nodes keyed.map
          (λ k n found. ap (λ i. lookup i d.nodes) (keyed.each k n found) ∙ found)))

-- The other way round: what holds of the list holds of the rows that it is read from.
All-insert_by :
    {A : Type 0} (P : A → Type 0) (before : A → A → Bool) (x : A) (xs : List A)
    → All P (insert_by before x xs)
    → P x × All P xs
unfolding insert_by
All-insert_by P before x [] ps = ps
All-insert_by P before x (y ∷ ys) ps = elim (Bool-cases (before x y)) [
  | inl first ↦ ground arith
  | inr later ↦ ground (arith, All-insert_by P before x ys)
]

All-sort_by :
    {A : Type 0} (P : A → Type 0) (before : A → A → Bool) (xs : List A)
    → All P (sort_by before xs)
    → All P xs
unfolding sort_by
All-sort_by P before [] ps = tt
All-sort_by P before (x ∷ xs) ps =
    let (p, rest) = All-insert_by P before x (sort_by before xs) ps in
    (p, All-sort_by P before xs rest)

All-online_among :
    (P : Node → Type 0) (ns : List Node)
    → All P (online_among ns)
    → All (λ n. is_online n.status ≡ true → P n) ns
unfolding online_among
All-online_among P [] ps = tt
All-online_among P (n ∷ ns) ps = elim (Bool-cases (is_online n.status)) [
  | inl on ↦ ground (arith, All-online_among P ns)
  | inr off ↦ ground (arith, All-online_among P ns)
]

All-values : (P : Node → Type 0) (m : Table String Node) → All P (values m) → Every (λ k n. P n) m
unfolding values lookup
All-values P [] ps = λ k n found. absurd cc
All-values P ((j, m) ∷ ms) ps = λ k n found. ground (arith, All-values P ms ps.1 k n)

-- What holds of every online node that is listed holds of every row of the table that is online.
pub All-list_online_nodes :
    (P : Node → Type 0) (d : Db)
    → All P (list_online_nodes d)
    → Every (λ id n. is_online n.status ≡ true → P n) d.nodes
unfolding list_online_nodes
All-list_online_nodes P d ps =
    All-values (λ n. is_online n.status ≡ true → P n) d.nodes
      (All-online_among P (values d.nodes)
        (All-sort_by P (λ m n. leb m.running n.running) (online_among (values d.nodes)) ps))
