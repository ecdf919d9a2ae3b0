-- ===== src/ControlPlane/Scaler/Draining.antt =====
-- A node that controlplane/scaler.go drains, and its next heartbeat in controlplane/handlers.go.
use gitvm.Base.{ℕ, ◌≡◌, ◌≢◌, String, some, arith}
use gitvm.Base.Clock.{Time}
use gitvm.Base.Table.{Table}
use gitvm.ControlPlane.Types.{Node, CloudPool, online, draining}
use gitvm.ControlPlane.Db.{Db, get_node, stored_time}
use gitvm.ControlPlane.Scaler.{CloudProvider, drain}
use gitvm.ControlPlane.Scaler.Busy.{update_node_status-get_self}
use gitvm.ControlPlane.Handlers.NodeApi.{handle_node_heartbeat}
use gitvm.ControlPlane.Handlers.Guarantees.{handle_node_heartbeat-get}

module _ {W : Type 0} (providers : Table String (CloudProvider W)) where
  drain_busy :
      (pool : CloudPool) (n : Node) (d : Db) (w : W)
      → get_node n.id d ≡ some n
      → n.running ≢ 0
      → get_node n.id (drain providers pool d w (some n)).0 ≡ some (record n { status = draining })
  unfolding drain
  drain_busy pool n d w there busy =
      ground (arith, update_node_status-get_self n.id draining d n there)

  -- A node of the table that runs sandboxes is marked as draining when scaleDown picks it, with no
  -- other change, and its next heartbeat makes it online again, with the count and the time of the
  -- heartbeat.
  pub handle_node_heartbeat-drain :
      (pool : CloudPool) (n : Node) (count : ℕ) (now : Time) (d : Db) (w : W)
      → get_node n.id d ≡ some n
      → n.running ≢ 0
      → (get_node n.id (drain providers pool d w (some n)).0
          ≡ some (record n { status = draining }))
        × (get_node n.id
              (handle_node_heartbeat n.id (some count) now (drain providers pool d w (some n)).0).1
            ≡ some (record n { running = count; last_seen = stored_time now; status = online }))
  handle_node_heartbeat-drain pool n count now d w there busy =
      let drained = drain_busy pool n d w there busy in
      (
        drained,
        (handle_node_heartbeat-get n.id count now (drain providers pool d w (some n)).0
            (record n { status = draining }) drained).1,
      )
