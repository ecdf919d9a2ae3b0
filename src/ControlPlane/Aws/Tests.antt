-- ===== src/ControlPlane/Aws/Tests.antt =====
-- A provider whose tool fails at first, and the theorems about it at concrete inputs.
use gitvm.Base.{◌≡◌, refl, String, none, some, [], ◌∷◌, err, ℕ, ◌+◌, ltb, string_comparable}
use gitvm.ControlPlane.Scaler.{ProvisionOpts}
use gitvm.ControlPlane.Aws.{
  AwsCommand, AwsReply, AwsJson, security_group_failed, create_group_failed, bootstrap_failed,
  AwsProvider, Ec2Instance, provision_node, bootstrap, do_bootstrap, ensure_security_group,
  group_created, region_of_zone,
}
use gitvm.ControlPlane.Aws.Bootstrap.{provision_node-failed}

abbrev provider : AwsProvider
provider = record {
  access_key_id = "AKIA";
  secret_access_key = "secret";
  default_region = "us-east-1";
  security_group_id = "";
  subnet_id = "";
  key_name = "";
  ami = "ami-1";
  bootstrapped = none;
}

-- The first two commands fail.
abbrev slow_start : AwsCommand → ℕ → AwsReply × ℕ
slow_start c n = (record { done = ltb 1 n; stdout = "sg-1"; combined = "i-1" }, n + 1)

abbrev vm : Ec2Instance
vm = record {
  instance_id = "i-1";
  public_ip_address = "3.0.0.1";
  private_ip_address = "10.0.0.1";
  instance_type = "t3.medium";
  availability_zone = "us-east-1a";
}

abbrev as_told : AwsJson
as_told = record {
  security_groups = λ out. some (out ∷ []);
  group_id = λ out. some out;
  instances = λ out. some (vm ∷ []);
  reservations = λ out. some ((vm ∷ []) ∷ []);
}

abbrev script : ProvisionOpts → String
script opts = "#!/bin/bash"

abbrev wanted : ProvisionOpts
wanted = record { name = "n"; region = ""; instance_type = ""; runtime = "docker" }

zone_of_listed : region_of_zone "us-east-1a" ≡ "us-east-1"
unfolding region_of_zone
zone_of_listed = refl

provision_node-failed_example :
    provision_node slow_start as_told script wanted
      (provision_node slow_start as_told script wanted provider 0).1
      7
    ≡ (
      err (bootstrap_failed (security_group_failed create_group_failed)),
      (provision_node slow_start as_told script wanted provider 0).1,
      7,
    )
unfolding provision_node bootstrap do_bootstrap ensure_security_group group_created
provision_node-failed_example =
    provision_node-failed slow_start as_told script wanted provider 0
      (security_group_failed create_group_failed) refl wanted 7
