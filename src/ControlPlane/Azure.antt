-- ===== src/ControlPlane/Azure.antt =====
-- controlplane/cloud_azure.go: Azure VMs by the az command line tool. `az` runs it: whether it exits
-- with status 0, and what it prints on standard output; it is a parameter that may change the world.
-- `created` and `machines` are what JSON makes of an output, and `user_data` the startup script.
use gitvm.Base.{
  String, Bool, true, false, Option, none, some, List, [], ◌∷◌, ◌++◌, map, Result, ok, err,
  if◌then◌else◌, ◌==◌, string_comparable,
}
use gitvm.ControlPlane.Cloud.{option_args, without_error}
use gitvm.ControlPlane.Scaler.{ProvisionOpts, ProvisionResult, CloudProvider}

pub record AzReply : Type 0 where
  pub done : Bool
  pub output : String

-- The addresses that `az vm create` prints: the public and the private one.
pub record CreatedVm : Type 0 where
  pub public_ip_address : String
  pub private_ip_address : String

pub record AzureVm : Type 0 where
  pub name : String
  pub public_ips : String
  pub private_ips : String
  pub vm_size : String
  pub location : String

pub data AzureError : Type 0 where
  command_failed bad_json : AzureError

pub record AzureProvider : Type 0 where
  pub resource_group : String
  pub location : String
  pub image : String
  pub vnet : String
  pub subnet : String

unfoldable pub vm_size_of : ProvisionOpts → String
vm_size_of opts =
    if opts.instance_type == ""
    then if opts.runtime == "docker" then "Standard_B4ms" else "Standard_D16s_v5"
    else opts.instance_type

abbrev pub location_of : AzureProvider → ProvisionOpts → String
location_of p opts = if opts.region == "" then p.location else opts.region

unfoldable pub create_args : AzureProvider → ProvisionOpts → String → List String
unfolding vm_size_of
create_args p opts user_data =
    ("vm"
      ∷ "create"
      ∷ "--resource-group"
      ∷ p.resource_group
      ∷ "--name"
      ∷ opts.name
      ∷ "--location"
      ∷ location_of p opts
      ∷ "--size"
      ∷ vm_size_of opts
      ∷ "--image"
      ∷ p.image
      ∷ "--custom-data"
      ∷ user_data
      ∷ "--tags"
      ∷ "gitvm=node"
      ∷ "--output"
      ∷ "json"
      ∷ [])
    ++ option_args "--vnet-name" p.vnet
    ++ option_args "--subnet" p.subnet

unfoldable pub result_of : AzureProvider → ProvisionOpts → CreatedVm → ProvisionResult
unfolding vm_size_of
result_of p opts vm = record {
  provider_id = opts.name;
  public_ip = vm.public_ip_address;
  private_ip = vm.private_ip_address;
  region = location_of p opts;
  instance_type = vm_size_of opts;
}

unfoldable pub listed : AzureVm → ProvisionResult
listed vm = record {
  provider_id = vm.name;
  public_ip = vm.public_ips;
  private_ip = vm.private_ips;
  region = vm.location;
  instance_type = vm.vm_size;
}

module _ {W : Type 0} (az : List String → W → AzReply × W) (created : String → Option CreatedVm)
    (machines : String → Option (List AzureVm)) (user_data : ProvisionOpts → String) where
  unfoldable pub read : {A : Type 0} → (String → Option A) → AzReply → Result AzureError A
  read decode r = elim r.done [
    | false ↦ err command_failed
    | true ↦ elim (decode r.output) [ none ↦ err bad_json | some a ↦ ok a ]
  ]

  unfoldable pub provision_node :
      AzureProvider → ProvisionOpts → W → Result AzureError ProvisionResult × W
  unfolding create_args read result_of
  provision_node p opts w =
      let (r, w') = az (create_args p opts (user_data opts)) w in
      (elim (read created r) [ err e ↦ err e | ok vm ↦ ok (result_of p opts vm) ], w')

  unfoldable pub terminate_node : AzureProvider → String → W → Bool × W
  terminate_node p id w =
      let (r, w') =
        az ("vm" ∷ "delete" ∷ "--resource-group" ∷ p.resource_group ∷ "--name" ∷ id ∷ "--yes" ∷ [])
          w in
      (r.done, w')

  unfoldable pub list_nodes : AzureProvider → W → Result AzureError (List ProvisionResult) × W
  unfolding read listed
  list_nodes p w =
      let (r, w') =
        az
          ("vm" ∷ "list" ∷ "--resource-group" ∷ p.resource_group ∷ "--query"
            ∷ "[?tags.gitvm=='node']" ∷ "--show-details" ∷ "--output" ∷ "json" ∷ [])
          w in
      (elim (read machines r) [ err e ↦ err e | ok vms ↦ ok (map listed vms) ], w')

  -- The provider as the control plane has it: an error is `none`.
  unfoldable pub azure_provider : AzureProvider → CloudProvider W
  unfolding provision_node terminate_node
  azure_provider p = record {
    provision_node = λ opts w. let (r, w') = provision_node p opts w in (without_error r, w');
    terminate_node = terminate_node p;
  }
