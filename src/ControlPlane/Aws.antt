-- ===== src/ControlPlane/Aws.antt =====
-- controlplane/cloud_aws.go: EC2 instances by the AWS command line tool. `aws` runs it: whether it
-- exits with status 0, and what it prints; it is a parameter that may change the world. The `json`
-- parameter is what JSON makes of the outputs, and `user_data` the startup script of a node.
pub mod Bootstrap
mod Tests
use Prim.Native.Char.{code}
use Prim.Native.String.{String}
use gitvm.Base.{
  ℕ, Bool, true, false, ◌&&◌, ◌||◌, Option, none, some, List, [], ◌∷◌, ◌++◌, map, Result, ok, err,
  concat, if◌then◌else◌, ◌==◌, string_comparable, leb,
}
use gitvm.Base.Scan.{trim_space}
use gitvm.ControlPlane.Cloud.{option_args, without_error}
use gitvm.ControlPlane.Scaler.{ProvisionOpts, ProvisionResult, CloudProvider}

pub record AwsCommand : Type 0 where
  pub args : List String
  pub env : List String

-- Standard output, and that with standard error in it.
pub record AwsReply : Type 0 where
  pub done : Bool
  pub stdout : String
  pub combined : String

pub record Ec2Instance : Type 0 where
  pub instance_id : String
  pub public_ip_address : String
  pub private_ip_address : String
  pub instance_type : String
  pub availability_zone : String

pub record AwsJson : Type 0 where
  pub security_groups : String → Option (List String)
  pub group_id : String → Option String
  pub instances : String → Option (List Ec2Instance)
  pub reservations : String → Option (List (List Ec2Instance))

-- The errors, with what their texts are built from.
pub data AwsError : Type 0 where
  create_group_failed bad_json no_instances no_public_ip command_failed : AwsError
  no_image : String → AwsError
  run_instances_failed : String → AwsError
  security_group_failed image_failed bootstrap_failed : AwsError → AwsError

-- `bootstrapped` is what the one run of the bootstrap has returned.
pub record AwsProvider : Type 0 where
  pub access_key_id : String
  pub secret_access_key : String
  pub default_region : String
  pub security_group_id : String
  pub subnet_id : String
  pub key_name : String
  pub ami : String
  pub bootstrapped : Option (Result AwsError (Unit {0}))

unfoldable pub env : AwsProvider → List String
env p =
    concat "AWS_ACCESS_KEY_ID=" p.access_key_id
    ∷ concat "AWS_SECRET_ACCESS_KEY=" p.secret_access_key
    ∷ concat "AWS_DEFAULT_REGION=" p.default_region
    ∷ []

unfoldable pub command : AwsProvider → List String → AwsCommand
unfolding env
command p args = record { args = args; env = env p }

unfoldable pub instance_type_of : ProvisionOpts → String
instance_type_of opts =
    if opts.instance_type == ""
    then if opts.runtime == "docker" then "t3.medium" else "c8i.xlarge"
    else opts.instance_type

unfoldable pub run_args : AwsProvider → ProvisionOpts → String → String → List String
unfolding instance_type_of
run_args p opts region user_data =
    ("ec2"
      ∷ "run-instances"
      ∷ "--region"
      ∷ region
      ∷ "--instance-type"
      ∷ instance_type_of opts
      ∷ "--image-id"
      ∷ p.ami
      ∷ "--count"
      ∷ "1"
      ∷ "--tag-specifications"
      ∷ concat "ResourceType=instance,Tags=[{Key=Name,Value="
          (concat opts.name "},{Key=gitvm,Value=node}]")
      ∷ "--user-data"
      ∷ user_data
      ∷ "--output"
      ∷ "json"
      ∷ "--associate-public-ip-address"
      ∷ [])
    ++ option_args "--security-group-ids" p.security_group_id
    ++ option_args "--subnet-id" p.subnet_id
    ++ option_args "--key-name" p.key_name

-- A text that the tool prints, unless it is blank or "None".
unfoldable pub printed : String → Option String
unfolding trim_space
printed out = let s = trim_space out in if s == "" || s == "None" then none else some s

is_zone_letter : ℕ → Bool
is_zone_letter c = leb b'a' c && leb c b'f'

-- `strings.TrimRight(zone, "abcdef")`
unfoldable pub region_of_zone : String → String
unfolding is_zone_letter
region_of_zone String.[] = ""
region_of_zone (String.◌∷◌ c s) =
    let rest = region_of_zone s in
    if rest == "" && is_zone_letter (code c) then "" else String.◌∷◌ c rest

unfoldable pub listed : Ec2Instance → ProvisionResult
unfolding region_of_zone
listed i = record {
  provider_id = i.instance_id;
  public_ip = i.public_ip_address;
  private_ip = i.private_ip_address;
  region = region_of_zone i.availability_zone;
  instance_type = i.instance_type;
}

unfoldable pub all_listed : List (List Ec2Instance) → List ProvisionResult
unfolding listed
all_listed [] = []
all_listed (r ∷ rs) = map listed r ++ all_listed rs

module _ {W : Type 0} (aws : AwsCommand → W → AwsReply × W) (js : AwsJson)
    (user_data : ProvisionOpts → String) where
  abbrev ingress_args : String → String → String → List String
  ingress_args group port region =
      "ec2" ∷ "authorize-security-group-ingress" ∷ "--group-id" ∷ group ∷ "--protocol" ∷ "tcp"
      ∷ "--port" ∷ port ∷ "--cidr" ∷ "0.0.0.0/0" ∷ "--region" ∷ region ∷ []

  -- Whether a rule is already there is not asked.
  unfoldable pub open_ports : AwsProvider → String → String → W → W
  unfolding command
  open_ports p group region w =
      let w₁ = (aws (command p (ingress_args group "22" region)) w).1 in
      (aws (command p (ingress_args group "9090" region)) w₁).1

  unfoldable pub group_created : AwsProvider → String → AwsReply × W → Result AwsError String × W
  unfolding open_ports
  group_created p region (r, w) = elim r.done [
    | false ↦ (err create_group_failed, w)
    | true ↦ elim (js.group_id r.stdout) [
      | none ↦ (err bad_json, w)
      | some group ↦ (ok group, open_ports p group region w)
    ]
  ]

  abbrev found_group : AwsReply → Option String
  found_group r = elim r.done [
    | false ↦ none
    | true ↦ elim (js.security_groups r.stdout) [ some (group ∷ _) ↦ some group | _ ↦ none ]
  ]

  unfoldable pub ensure_security_group : AwsProvider → String → W → Result AwsError String × W
  unfolding command group_created
  ensure_security_group p region w =
      let (r, w₁) =
        aws
          (command p (
            "ec2" ∷ "describe-security-groups" ∷ "--filters" ∷ "Name=group-name,Values=gitvm-node"
            ∷ "--region" ∷ region ∷ "--output" ∷ "json" ∷ []))
          w in
      elim (found_group r) [
        | some group ↦ (ok group, w₁)
        | none ↦ group_created p region (
            aws
              (command p (
                "ec2" ∷ "create-security-group" ∷ "--group-name" ∷ "gitvm-node" ∷ "--description"
                ∷ "gitvm node - SSH, node API, and agent ports" ∷ "--region" ∷ region ∷ "--output"
                ∷ "json" ∷ []))
              w₁)
      ]

  unfoldable pub image_of : String → AwsReply → Result AwsError String
  unfolding printed
  image_of region r = elim r.done [
    | false ↦ err command_failed
    | true ↦ elim (printed r.stdout) [ none ↦ err (no_image region) | some ami ↦ ok ami ]
  ]

  unfoldable pub resolve_ubuntu_ami : AwsProvider → String → W → Result AwsError String × W
  unfolding command image_of
  resolve_ubuntu_ami p region w =
      let (r, w') =
        aws
          (command p (
            "ec2" ∷ "describe-images" ∷ "--region" ∷ region ∷ "--owners" ∷ "099720109477"
            ∷ "--filters"
            ∷ "Name=name,Values=ubuntu/images/hvm-ssd-gp3/ubuntu-noble-24.04-amd64-server-*"
            ∷ "Name=state,Values=available" ∷ "--query"
            ∷ "sort_by(Images, &CreationDate)[-1].ImageId" ∷ "--output" ∷ "text" ∷ []))
          w in
      (image_of region r, w')

  abbrev with_image :
      AwsProvider → Result AwsError String × W → Result AwsError (Unit {0}) × AwsProvider × W
  with_image p (err e, w) = (err (image_failed e), p, w)
  with_image p (ok ami, w) = (ok tt, record p { ami = ami }, w)

  -- The second part of `doBootstrap`.
  unfoldable pub find_image :
      AwsProvider → String → W → Result AwsError (Unit {0}) × AwsProvider × W
  unfolding resolve_ubuntu_ami
  find_image p region w =
      let found = with_image p (resolve_ubuntu_ami p region w) in
      if p.ami == "" then found else (ok tt, p, w)

  abbrev with_group :
      AwsProvider
      → String
      → Result AwsError String × W
      → Result AwsError (Unit {0}) × AwsProvider × W
  with_group p region (err e, w) = (err (security_group_failed e), p, w)
  with_group p region (ok group, w) = find_image (record p { security_group_id = group }) region w

  unfoldable pub do_bootstrap :
      AwsProvider → String → W → Result AwsError (Unit {0}) × AwsProvider × W
  unfolding ensure_security_group find_image
  do_bootstrap p region w =
      let made = with_group p region (ensure_security_group p region w) in
      let kept = find_image p region w in if p.security_group_id == "" then made else kept

  abbrev settled :
      Result AwsError (Unit {0}) × AwsProvider × W → Result AwsError (Unit {0}) × AwsProvider × W
  settled (r, p, w) = (r, record p { bootstrapped = some r }, w)

  unfoldable pub bootstrap : AwsProvider → String → W → Result AwsError (Unit {0}) × AwsProvider × W
  unfolding do_bootstrap
  bootstrap p region w = elim p.bootstrapped [
    | some r ↦ (r, p, w)
    | none ↦ settled (do_bootstrap p region w)
  ]

  unfoldable pub wait_for_public_ip : AwsProvider → String → String → W → Result AwsError String × W
  unfolding command printed
  wait_for_public_ip p id region w =
      let w₁ =
        (aws
          (command p (
            "ec2" ∷ "wait" ∷ "instance-running" ∷ "--instance-ids" ∷ id ∷ "--region" ∷ region ∷ []))
          w).1 in
      let (r, w₂) =
        aws
          (command p (
            "ec2" ∷ "describe-instances" ∷ "--instance-ids" ∷ id ∷ "--region" ∷ region ∷ "--query"
            ∷ "Reservations[0].Instances[0].PublicIpAddress" ∷ "--output" ∷ "text" ∷ []))
          w₁ in
      (
        elim r.done [
          | false ↦ err command_failed
          | true ↦ elim (printed r.stdout) [ none ↦ err no_public_ip | some ip ↦ ok ip ]
        ],
        w₂,
      )

  abbrev ip_or_none : Result AwsError String × W → String × W
  ip_or_none (err e, w) = ("", w)
  ip_or_none (ok ip, w) = (ip, w)

  unfoldable pub public_ip_of : AwsProvider → Ec2Instance → String → W → String × W
  unfolding wait_for_public_ip
  public_ip_of p inst region w =
      let waited = ip_or_none (wait_for_public_ip p inst.instance_id region w) in
      if inst.public_ip_address == "" then waited else (inst.public_ip_address, w)

  -- The part of `ProvisionNode` behind `run-instances`.
  unfoldable pub launched :
      AwsProvider → ProvisionOpts → String → AwsReply × W → Result AwsError ProvisionResult × W
  unfolding public_ip_of instance_type_of
  launched p opts region (r, w) = elim r.done [
    | false ↦ (err (run_instances_failed r.combined), w)
    | true ↦ elim (js.instances r.combined) [
      | none ↦ (err bad_json, w)
      | some [] ↦ (err no_instances, w)
      | some (inst ∷ _) ↦
          let (ip, w') = public_ip_of p inst region w in
          (
            ok (record {
              provider_id = inst.instance_id;
              public_ip = ip;
              private_ip = inst.private_ip_address;
              region = region;
              instance_type = instance_type_of opts;
            }),
            w',
          )
    ]
  ]

  abbrev pub region_of : AwsProvider → ProvisionOpts → String
  region_of p opts = if opts.region == "" then p.default_region else opts.region

  abbrev launch :
      ProvisionOpts
      → String
      → Result AwsError (Unit {0}) × AwsProvider × W
      → Result AwsError ProvisionResult × AwsProvider × W
  launch opts region (err e, p, w) = (err (bootstrap_failed e), p, w)
  launch opts region (ok _, p, w) =
      let (r, w') =
        launched p opts region (aws (command p (run_args p opts region (user_data opts))) w) in
      (r, p, w')

  unfoldable pub provision_node :
      ProvisionOpts → AwsProvider → W → Result AwsError ProvisionResult × AwsProvider × W
  unfolding bootstrap launched run_args command
  provision_node opts p w =
      let region = region_of p opts in launch opts region (bootstrap p region w)

  unfoldable pub terminate_node : String → AwsProvider → W → Bool × W
  unfolding command
  terminate_node id p w =
      let (r, w') =
        aws
          (command p (
            "ec2" ∷ "terminate-instances" ∷ "--instance-ids" ∷ id ∷ "--region" ∷ p.default_region
            ∷ []))
          w in
      (r.done, w')

  unfoldable pub list_nodes : AwsProvider → W → Result AwsError (List ProvisionResult) × W
  unfolding command all_listed
  list_nodes p w =
      let (r, w') =
        aws
          (command p (
            "ec2" ∷ "describe-instances" ∷ "--filters" ∷ "Name=tag:gitvm,Values=node"
            ∷ "Name=instance-state-name,Values=running" ∷ "--region" ∷ p.default_region ∷ "--output"
            ∷ "json" ∷ []))
          w in
      (
        elim r.done [
          | false ↦ err command_failed
          | true ↦ elim (js.reservations r.stdout) [
            | none ↦ err bad_json
            | some rs ↦ ok (all_listed rs)
          ]
        ],
        w',
      )

  -- The provider as the control plane has it: an error is `none`.
  unfoldable pub aws_provider : CloudProvider (AwsProvider × W)
  unfolding provision_node terminate_node
  aws_provider = record {
    provision_node =
        λ opts s. let (r, p', w') = provision_node opts s.0 s.1 in (without_error r, (p', w'));
    terminate_node = λ id s. let (r, w') = terminate_node id s.0 s.1 in (r, (s.0, w'));
  }
