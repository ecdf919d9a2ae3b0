-- ===== src/ControlPlane/Gcp.antt =====
-- controlplane/cloud_gcp.go: GCE instances by the gcloud command line tool. `gcloud` runs it: whether
-- it exits with status 0, and what it prints on standard output; it is a parameter that may change the
-- world. `instances` is what JSON makes of an output, and `user_data` the startup script of a node.
use gitvm.Base.{
  String, Bool, true, false, Option, none, some, List, [], ◌∷◌, ◌++◌, map, Result, ok, err, concat,
  if◌then◌else◌, ◌==◌, string_comparable,
}
use gitvm.ControlPlane.Cloud.{option_args, without_error}
use gitvm.ControlPlane.Scaler.{ProvisionOpts, ProvisionResult, CloudProvider}

pub record GcpReply : Type 0 where
  pub done : Bool
  pub output : String

pub record NetworkInterface : Type 0 where
  pub network_ip : String
  pub nat_ips : List String

pub record GceInstance : Type 0 where
  pub name : String
  pub machine_type : String
  pub zone : String
  pub network_interfaces : List NetworkInterface

pub data GcpError : Type 0 where
  command_failed bad_json no_instances : GcpError

pub record GcpProvider : Type 0 where
  pub project_id : String
  pub zone : String
  pub network : String
  pub subnet : String
  pub machine_image : String

unfoldable pub machine_type_of : ProvisionOpts → String
machine_type_of opts =
    if opts.instance_type == ""
    then if opts.runtime == "docker" then "e2-standard-4" else "n2-standard-16"
    else opts.instance_type

abbrev pub zone_of : GcpProvider → ProvisionOpts → String
zone_of p opts = if opts.region == "" then p.zone else opts.region

unfoldable pub create_args : GcpProvider → ProvisionOpts → String → List String
unfolding machine_type_of
create_args p opts user_data =
    ("compute"
      ∷ "instances"
      ∷ "create"
      ∷ opts.name
      ∷ "--project"
      ∷ p.project_id
      ∷ "--zone"
      ∷ zone_of p opts
      ∷ "--machine-type"
      ∷ machine_type_of opts
      ∷ "--image"
      ∷ p.machine_image
      ∷ "--metadata"
      ∷ concat "startup-script=" user_data
      ∷ "--labels"
      ∷ "gitvm=node"
      ∷ "--format"
      ∷ "json"
      ∷ [])
    ++ (if opts.runtime == "docker"
        then []
        else "--min-cpu-platform" ∷ "Intel Cascade Lake" ∷ "--enable-nested-virtualization" ∷ [])
    ++ option_args "--network" p.network
    ++ option_args "--subnet" p.subnet

-- The addresses of the first interface: the public and the private one.
unfoldable pub addresses_of : GceInstance → String × String
addresses_of i = elim i.network_interfaces [
  | [] ↦ ("", "")
  | n ∷ _ ↦ (elim n.nat_ips [ [] ↦ "" | ip ∷ _ ↦ ip ], n.network_ip)
]

unfoldable pub created : GcpProvider → ProvisionOpts → GceInstance → ProvisionResult
unfolding addresses_of machine_type_of
created p opts i = record {
  provider_id = i.name;
  public_ip = (addresses_of i).0;
  private_ip = (addresses_of i).1;
  region = zone_of p opts;
  instance_type = machine_type_of opts;
}

unfoldable pub listed : GceInstance → ProvisionResult
unfolding addresses_of
listed i = record {
  provider_id = i.name;
  public_ip = (addresses_of i).0;
  private_ip = (addresses_of i).1;
  region = i.zone;
  instance_type = i.machine_type;
}

module _ {W : Type 0} (gcloud : List String → W → GcpReply × W)
    (instances : String → Option (List GceInstance)) (user_data : ProvisionOpts → String) where
  unfoldable pub read : GcpReply → Result GcpError (List GceInstance)
  read r = elim r.done [
    | false ↦ err command_failed
    | true ↦ elim (instances r.output) [ none ↦ err bad_json | some is ↦ ok is ]
  ]

  abbrev first_created :
      GcpProvider
      → ProvisionOpts
      → Result GcpError (List GceInstance)
      → Result GcpError ProvisionResult
  first_created p opts (err e) = err e
  first_created p opts (ok []) = err no_instances
  first_created p opts (ok (i ∷ _)) = ok (created p opts i)

  unfoldable pub provision_node :
      GcpProvider → ProvisionOpts → W → Result GcpError ProvisionResult × W
  unfolding create_args read created
  provision_node p opts w =
      let (r, w') = gcloud (create_args p opts (user_data opts)) w in
      (first_created p opts (read r), w')

  unfoldable pub terminate_node : GcpProvider → String → W → Bool × W
  terminate_node p id w =
      let (r, w') =
        gcloud
          ("compute" ∷ "instances" ∷ "delete" ∷ id ∷ "--project" ∷ p.project_id ∷ "--zone" ∷ p.zone
            ∷ "--quiet" ∷ [])
          w in
      (r.done, w')

  unfoldable pub list_nodes : GcpProvider → W → Result GcpError (List ProvisionResult) × W
  unfolding read listed
  list_nodes p w =
      let (r, w') =
        gcloud
          ("compute" ∷ "instances" ∷ "list" ∷ "--project" ∷ p.project_id ∷ "--filter"
            ∷ "labels.gitvm=node AND status=RUNNING" ∷ "--format" ∷ "json" ∷ [])
          w in
      (elim (read r) [ err e ↦ err e | ok is ↦ ok (map listed is) ], w')

  -- The provider as the control plane has it: an error is `none`.
  unfoldable pub gcp_provider : GcpProvider → CloudProvider W
  unfolding provision_node terminate_node
  gcp_provider p = record {
    provision_node = λ opts w. let (r, w') = provision_node p opts w in (without_error r, w');
    terminate_node = terminate_node p;
  }
