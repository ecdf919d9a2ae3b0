-- ===== src/ControlPlane/Tests/Serving.antt =====
-- Requests of a project for sandboxes: the theorems at concrete inputs.
use gitvm.Base.{◌≡◌, String, Option, none, some, List, [], ◌∷◌, pos, string_comparable}
use gitvm.ControlPlane.Types.{Project, CreateSandboxRequest}
use gitvm.ControlPlane.Db.{get_sandbox}
use gitvm.ControlPlane.Handlers.{NodeRequest, NodeAnswer, handle_delete_sandbox}
use gitvm.ControlPlane.Handlers.Guarantees.{handle_delete_sandbox-get}
use gitvm.ControlPlane.Tests.{a_db, control_plane, accept}

abbrev a_project : Project
a_project = record { id = "p"; name = "Default"; api_key = "gvm_1"; owner_id = "u" }

abbrev a_create : CreateSandboxRequest
a_create = record {
  template = "";
  vcpus = pos 2;
  memory_mb = pos 1024;
  timeout = pos 60;
  env_vars = [];
}

abbrev refuse : NodeRequest → List String → Option NodeAnswer × List String
refuse req w = (some (record { status = 404; body = "" }), req.url ∷ w)

handle_delete_sandbox-get_example :
    (get_sandbox "sb-1" (handle_delete_sandbox refuse "sb-1" a_db []).1 ≡ none)
    × ((handle_delete_sandbox refuse "sb-1" a_db []).0
        ≡ (handle_delete_sandbox accept "sb-1" a_db []).0)
    × ((handle_delete_sandbox refuse "sb-1" a_db []).1
        ≡ (handle_delete_sandbox accept "sb-1" a_db []).1)
unfolding control_plane
handle_delete_sandbox-get_example = handle_delete_sandbox-get refuse accept "sb-1" "sb-1" a_db [] []
