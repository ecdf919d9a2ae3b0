-- ===== src/Network/Pool/Rules.antt =====
-- The FORWARD rules of iptables that `Allocate` of network/pool.go leaves on the host.
use gitvm.Base.{
  ℕ, suc, ◌+◌, ◌≡◌, Bool, true, some, [], ◌∷◌, Result, ok, err, arith, String, nat_comparable,
  ==_refl, ◌==◌, if◌then◌else◌, ◌∙◌, ap,
}
use gitvm.Network.Slot.{Slot, gitvm_tap, new_slot}
use gitvm.Network.Host.{
  Command, append_out, append_in, Trace, HostError, forward_in_failed, masquerade_failed,
  create_tap, destroy_tap, setup_nat, run,
}
use gitvm.Network.Pool.Cases.{attach-cases}
use gitvm.Network.Pool.{Pool, AllocateError, setup_nat_failed, first_free, attach, allocate}

-- How many FORWARD rules that name the device `gitvm%d` have been appended.
abbrev pub forward_rules : ℕ → Trace → ℕ
forward_rules n [] = 0
forward_rules n ((append_out (gitvm_tap m) i, true) ∷ t) =
    let rest = forward_rules n t in if m == n then suc rest else rest
forward_rules n ((append_in (gitvm_tap m) i, true) ∷ t) =
    let rest = forward_rules n t in if m == n then suc rest else rest
forward_rules n (_ ∷ t) = forward_rules n t

-- The rules that a call of `SetupNAT` with this result has appended.
abbrev pub rules_of : Result HostError (Unit {0}) → ℕ
rules_of (ok _) = 2
rules_of (err masquerade_failed) = 2
rules_of (err forward_in_failed) = 1
rules_of (err _) = 0

module _ (succeeds : Trace → Command → Bool) where
  setup_nat-rules :
      (id : ℕ) (i : String) (t : Trace)
      → forward_rules id (setup_nat succeeds (new_slot id) i t).1
        ≡ forward_rules id t + rules_of (setup_nat succeeds (new_slot id) i t).0
  unfolding setup_nat run new_slot
  setup_nat-rules id i t = ground (arith, ==_refl id)

  create_tap-rules :
      (id n : ℕ) (t : Trace)
      → forward_rules n (create_tap succeeds (new_slot id) t).1 ≡ forward_rules n t
  unfolding create_tap destroy_tap run new_slot
  create_tap-rules id n t = ground arith

  destroy_tap-rules :
      (id n : ℕ) (t : Trace)
      → forward_rules n (destroy_tap succeeds (new_slot id) t).1 ≡ forward_rules n t
  unfolding destroy_tap run new_slot
  destroy_tap-rules id n t = ground arith

-- How a call of `Allocate` that chose slot `id` changes the rules for its device.
abbrev pub IsRuleOutcome : ℕ → Trace → Result AllocateError Slot × Pool × Trace → Type 0
IsRuleOutcome id t (err (setup_nat_failed e), _, t') =
    forward_rules id t' ≡ forward_rules id t + rules_of (err e)
IsRuleOutcome id t (err _, _, t') = forward_rules id t' ≡ forward_rules id t
IsRuleOutcome id t (ok _, _, t') = forward_rules id t' ≡ forward_rules id t + 2

module _ (succeeds : Trace → Command → Bool) where
  attach-rules : (p : Pool) (id : ℕ) (t : Trace) → IsRuleOutcome id t (attach succeeds p id t)
  attach-rules p id t =
      let made = create_tap succeeds (new_slot id) t in
      let natted = setup_nat succeeds (new_slot id) p.host_interface made.1 in
      let same = create_tap-rules succeeds id id t in
      let added = setup_nat-rules succeeds id p.host_interface made.1 in
      attach-cases succeeds p t (IsRuleOutcome id t) id (λ e _. same)
        (λ e _ failed.
          destroy_tap-rules succeeds id id natted.1
          ∙ (rw failed at added)
          ∙ ap (λ (n : ℕ). n + rules_of (err e)) same)
        (λ _ ready. (rw ready at added) ∙ ap (λ (n : ℕ). n + 2) same)

  -- A call of Allocate that finds a free slot and then fails in SetupNAT does not take back the
  -- FORWARD rules that it has appended: one stays if the second rule failed, two if the masquerade
  -- rule failed; a failure before that leaves none, and a success adds two.
  pub allocate-rules :
      (p : Pool) (id : ℕ) (t : Trace)
      → first_free p.allocated p.max_slots 0 ≡ some id
      → IsRuleOutcome id t (allocate succeeds p t)
  unfolding allocate
  allocate-rules p id t h = rw (h, allocate) (attach-rules p id t)
