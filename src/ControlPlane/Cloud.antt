-- ===== src/ControlPlane/Cloud.antt =====
-- controlplane/cloud_aws.go, cloud_gcp.go and cloud_azure.go: what the three providers share.
use gitvm.Base.{
  String, Option, none, some, List, [], ◌∷◌, Result, ok, err, if◌then◌else◌, ◌==◌,
  string_comparable,
}

-- A flag of the command line that is left out for an empty value.
abbrev pub option_args : String → String → List String
option_args flag value = if value == "" then [] else flag ∷ value ∷ []

-- The result as the scaler has it.
abbrev pub without_error : {E A : Type 0} → Result E A → Option A
without_error (err e) = none
without_error (ok a) = some a
