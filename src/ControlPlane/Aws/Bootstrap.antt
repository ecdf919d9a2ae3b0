-- ===== src/ControlPlane/Aws/Bootstrap.antt =====
-- controlplane/cloud_aws.go: the bootstrap of a provider runs once.
use gitvm.Base.{
  ◌≡◌, ◌≢◌, String, [], ◌∷◌, Bool-cases, refl, ap, ◌∙◌, some, Result, ok, err, Option-cases, inl,
  inr,
}
use gitvm.ControlPlane.Scaler.{ProvisionOpts, ProvisionResult}
use gitvm.ControlPlane.Aws.{
  AwsCommand, AwsReply, AwsJson, AwsError, bootstrap_failed, AwsProvider, bootstrap, launched,
  launch, region_of, provision_node,
}

module _ {W : Type 0} (aws : AwsCommand → W → AwsReply × W) (js : AwsJson)
    (user_data : ProvisionOpts → String) where
  abbrev go : ProvisionOpts → AwsProvider → W → Result AwsError ProvisionResult × AwsProvider × W
  go = provision_node aws js user_data

  bootstrap_keeps :
      (p : AwsProvider) (region : String) (w : W)
      → let (r, p', w') = bootstrap aws js user_data p region w in p'.bootstrapped ≡ some r
  unfolding bootstrap
  bootstrap_keeps p region w = elim (Option-cases p.bootstrapped) [
    | inl fresh ↦ rw (fresh, bootstrap) refl
    | inr (r, done) ↦ rw (done, bootstrap) done
  ]

  launch-provider :
      (opts : ProvisionOpts) (region : String) (b : Result AwsError (Unit {0}) × AwsProvider × W)
      → (launch aws js user_data opts region b).1 ≡ b.1
  launch-provider opts region (err e, p, w) = refl
  launch-provider opts region (ok r, p, w) = refl

  later_lem :
      (later : ProvisionOpts) (p : AwsProvider) (r : Result AwsError (Unit {0})) (v : W)
      → p.bootstrapped ≡ some r
      → go later p v ≡ launch aws js user_data later (region_of aws js user_data p later) (r, p, v)
  unfolding provision_node bootstrap
  later_lem later p r v done = rw (done, provision_node) refl

  launched-ne :
      (p : AwsProvider) (opts : ProvisionOpts) (region : String) (r : AwsReply) (w : W)
      (e : AwsError)
      → (launched aws js user_data p opts region (r, w)).0 ≢ err (bootstrap_failed e)
  unfolding launched
  launched-ne p opts region r w e = elim (Bool-cases r.done) [
    | inr failed ↦ rw (failed, launched) (λ h. cc)
    | inl done ↦ elim (Option-cases (js.instances r.combined)) [
      | inl bad ↦ rw (done, bad, launched) (λ h. cc)
      | inr ([], read) ↦ rw (done, read, launched) (λ h. cc)
      | inr (inst ∷ rest, read) ↦ rw (done, read, launched) (λ h. cc)
    ]
  ]

  launch-failed :
      (opts : ProvisionOpts) (region : String) (b : Result AwsError (Unit {0}) × AwsProvider × W)
      (e : AwsError)
      → (launch aws js user_data opts region b).0 ≡ err (bootstrap_failed e)
      → b.0 ≡ err e
  launch-failed opts region (err e', p, w) e same = cc same
  launch-failed opts region (ok r, p, w) e same = absurd (launched-ne p opts region _ _ e same)

  -- Whatever ProvisionNode returns, the result of the bootstrap is kept from then on.
  provision_node-bootstrapped :
      (opts : ProvisionOpts) (p : AwsProvider) (w : W)
      → (go opts p w).1.bootstrapped
        ≡ some (bootstrap aws js user_data p (region_of aws js user_data p opts) w).0
  unfolding provision_node
  provision_node-bootstrapped opts p w =
      let region = region_of aws js user_data p opts in
      ap (λ (q : AwsProvider). q.bootstrapped)
        (launch-provider opts region (bootstrap aws js user_data p region w))
      ∙ bootstrap_keeps p region w

  -- A provider that has provisioned once no longer changes: its group and image are those of the
  -- first region.
  pub provision_node-settled :
      (opts later : ProvisionOpts) (p : AwsProvider) (w v : W)
      → (go later (go opts p w).1 v).1 ≡ (go opts p w).1
  provision_node-settled opts later p w v =
      let p₁ = (go opts p w).1 in
      let r = (bootstrap aws js user_data p (region_of aws js user_data p opts) w).0 in
      rw (later_lem later p₁ r v (provision_node-bootstrapped opts p w))
        (launch-provider later (region_of aws js user_data p₁ later) (r, p₁, v))

  -- Once the bootstrap of an AWS provider has failed in a ProvisionNode, each later ProvisionNode,
  -- in whatever region, fails with the same error and runs no command.
  pub provision_node-failed :
      (opts : ProvisionOpts) (p : AwsProvider) (w : W) (e : AwsError)
      → let (r, p', w') = provision_node aws js user_data opts p w in
        r ≡ err (bootstrap_failed e)
        → (later : ProvisionOpts) (v : W)
        → provision_node aws js user_data later p' v ≡ (err (bootstrap_failed e), p', v)
  unfolding provision_node
  provision_node-failed opts p w e failed later v =
      let region = region_of aws js user_data p opts in
      later_lem later (go opts p w).1 (err e) v (
        provision_node-bootstrapped opts p w
        ∙ ap (λ (r : Result AwsError (Unit {0})). some r)
            (launch-failed opts region (bootstrap aws js user_data p region w) e failed))
