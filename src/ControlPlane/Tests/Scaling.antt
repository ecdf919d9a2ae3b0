-- ===== src/ControlPlane/Tests/Scaling.antt =====
-- Rounds of the scaler and a history: the theorems at concrete inputs.
use gitvm.Base.{◌≡◌, refl, some, [], ◌∷◌, arith, string_comparable}
use gitvm.ControlPlane.Types.{online, draining, offline}
use gitvm.ControlPlane.Db.{get_node, stored_time}
use gitvm.ControlPlane.Nodes.{AreKeyed}
use gitvm.ControlPlane.Scaler.{drain, evaluate_pool, detect_offline_nodes}
use gitvm.ControlPlane.Scaler.Capacity.{AreBounded}
use gitvm.ControlPlane.Scaler.Busy.{IsKept, evaluate_pool-IsKept}
use gitvm.ControlPlane.Scaler.Draining.{handle_node_heartbeat-drain}
use gitvm.ControlPlane.Scaler.Offline.{detect_offline_nodes-get}
use gitvm.ControlPlane.Handlers.NodeApi.{handle_node_heartbeat}
use gitvm.ControlPlane.Histories.{beats, scales, deletes, run_all}
use gitvm.ControlPlane.Histories.Sound.{run_all-AreKeyed}
use gitvm.ControlPlane.Tests.{
  a_node, a_pool, a_db, hash, control_plane, a_db-AreKeyed, a_db-AreBounded, clouds, accept,
}

evaluate_pool-IsKept_example :
    IsKept "busy"
      (a_node "busy" online 3)
      (evaluate_pool clouds "gitvm-node-1" "new" 7 a_pool a_db []).0
unfolding control_plane
evaluate_pool-IsKept_example =
    evaluate_pool-IsKept clouds "gitvm-node-1" "new" 7 a_pool "busy" (a_node "busy" online 3) a_db
      [] a_db-AreKeyed refl (λ e. absurd (ground arith))
      (λ e. ground (arith, string_comparable.same_iff "new" "busy"))

detect_offline_nodes-get_example :
    get_node "busy" (detect_offline_nodes 200000000000 a_db) ≡ some (a_node "busy" offline 3)
unfolding control_plane
detect_offline_nodes-get_example = detect_offline_nodes-get 200000000000 a_db "busy" a_db-AreKeyed

handle_node_heartbeat-drain_example :
    (get_node "busy" (drain clouds a_pool a_db [] (some (a_node "busy" online 3))).0
      ≡ some (a_node "busy" draining 3))
    × (get_node "busy"
          (handle_node_heartbeat "busy"
            (some 3)
            5000000000
            (drain clouds a_pool a_db [] (some (a_node "busy" online 3))).0).1
        ≡ some (record (a_node "busy" online 3) { last_seen = stored_time 5000000000 }))
unfolding control_plane
handle_node_heartbeat-drain_example =
    handle_node_heartbeat-drain clouds a_pool (a_node "busy" online 3) 3 5000000000 a_db [] refl
      (λ e. absurd (ground arith))

run_all-AreKeyed_example :
    AreKeyed
      (run_all hash accept clouds
        (beats "idle" (some 0) 5000000000
          ∷ scales (λ i. ("gitvm-node-1", "new")) 7
          ∷ deletes "sb-1"
          ∷ [])
        a_db
        []).0
    × AreBounded
        (run_all hash accept clouds
          (beats "idle" (some 0) 5000000000
            ∷ scales (λ i. ("gitvm-node-1", "new")) 7
            ∷ deletes "sb-1"
            ∷ [])
          a_db
          []).0
run_all-AreKeyed_example =
    run_all-AreKeyed hash accept clouds
      (beats "idle" (some 0) 5000000000
        ∷ scales (λ i. ("gitvm-node-1", "new")) 7
        ∷ deletes "sb-1"
        ∷ [])
      a_db [] a_db-AreKeyed a_db-AreBounded
