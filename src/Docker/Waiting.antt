-- ===== src/Docker/Waiting.antt =====
-- runtime/docker/docker.go, `waitForAgent`: when the wait for an agent succeeds.
use gitvm.Base.{
  ℕ, zero, suc, ◌<◌, ◌≡◌, ◌↔◌, inl, inr, String, Bool, true, List, arith, concat, Bool-cases,
}
use gitvm.Docker.Commands.{DockerConfig}
use gitvm.Docker.Agent.{Reply, wait_for_agent}

module _ {W : Type 0} (docker : List String → W → Reply × W) (healthy : String → W → Bool × W)
    (d : DockerConfig) where
  -- The world after so many questions whether the agent at the URL is up.
  abbrev pub asked : ℕ → String → W → W
  asked zero url w = w
  asked (suc k) url w = asked k url (healthy (concat url "/health") w).1

  wait_for_agent-up :
      (n k : ℕ) (url : String) (w : W)
      → k < n
      → (healthy (concat url "/health") (asked k url w)).0 ≡ true
      → (wait_for_agent docker healthy d n url w).0 ≡ true
  unfolding wait_for_agent
  wait_for_agent-up zero k url w lt up = absurd (ground arith)
  wait_for_agent-up (suc n) zero url w lt up = ground arith
  wait_for_agent-up (suc n) (suc k) url w lt up =
      ground (arith, wait_for_agent-up n k url (healthy (concat url "/health") w).1)

  wait_for_agent_round :
      (n : ℕ) (url : String) (w : W)
      → (wait_for_agent docker healthy d n url w).0 ≡ true
      → (k : ℕ) × (k < n) × ((healthy (concat url "/health") (asked k url w)).0 ≡ true)
  unfolding wait_for_agent
  wait_for_agent_round zero url w h = absurd (cc h)
  wait_for_agent_round (suc n) url w h = elim (Bool-cases (healthy (concat url "/health") w).0) [
    | inl up ↦ (0, omega arith, up)
    | inr down ↦
        let (k, lt, up) =
          wait_for_agent_round n url (healthy (concat url "/health") w).1 (ground arith) in
        (suc k, omega arith, up)
  ]

  -- The wait for an agent succeeds exactly when the agent is up at one of the rounds that it has.
  pub wait_for_agent_iff :
      (n : ℕ) (url : String) (w : W)
      → ((wait_for_agent docker healthy d n url w).0 ≡ true)
        ↔ ((k : ℕ) × (k < n) × ((healthy (concat url "/health") (asked k url w)).0 ≡ true))
  wait_for_agent_iff n url w =
      (wait_for_agent_round n url w, λ (k, lt, up). wait_for_agent-up n k url w lt up)
