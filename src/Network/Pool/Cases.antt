-- ===== src/Network/Pool/Cases.antt =====
-- The ways through `Allocate` of network/pool.go, for the proofs about it.
use gitvm.Base.{
  ℕ, ◌≡◌, Bool, true, none, some, Result, ok, err, inl, inr, Option-cases, Result-cases,
  nat_comparable,
}
use gitvm.Base.Table.{insert}
use gitvm.Network.Slot.{Slot, new_slot}
use gitvm.Network.Host.{Command, Trace, HostError, create_tap, destroy_tap, setup_nat}
use gitvm.Network.Pool.{
  Pool, AllocateError, no_free_slots, create_tap_failed, setup_nat_failed, first_free, attach,
  allocate,
}

module _ {ℓ} (succeeds : Trace → Command → Bool) (p : Pool) (t : Trace)
    (P : Result AllocateError Slot × Pool × Trace → Type ℓ) where
  pub attach-cases :
      (id : ℕ)
      → let slot = new_slot id in
        let made = create_tap succeeds slot t in
        let natted = setup_nat succeeds slot p.host_interface made.1 in
        ((e : HostError) → made.0 ≡ err e → P (err (create_tap_failed e), p, made.1))
        → ((e : HostError)
            → made.0 ≡ ok tt
            → natted.0 ≡ err e
            → P (err (setup_nat_failed e), p, (destroy_tap succeeds slot natted.1).1))
        → (made.0 ≡ ok tt
            → natted.0 ≡ ok tt
            → P (ok slot, record p { allocated = insert id true p.allocated }, natted.1))
        → P (attach succeeds p id t)
  unfolding attach
  attach-cases id no_tap no_nat done =
      let made = create_tap succeeds (new_slot id) t in
      let natted = setup_nat succeeds (new_slot id) p.host_interface made.1 in
      elim (Result-cases made.0) [
        | inr (e, failed) ↦ rw (failed, attach) (no_tap e failed)
        | inl (tt, up) ↦ elim (Result-cases natted.0) [
          | inr (e, failed) ↦ rw (up, failed, attach) (no_nat e up failed)
          | inl (tt, ready) ↦ rw (up, ready, attach) (done up ready)
        ]
      ]

  pub allocate-cases :
      (first_free p.allocated p.max_slots 0 ≡ none → P (err (no_free_slots p.max_slots), p, t))
      → ((id : ℕ) → first_free p.allocated p.max_slots 0 ≡ some id → P (attach succeeds p id t))
      → P (allocate succeeds p t)
  unfolding allocate
  allocate-cases full found = elim (Option-cases (first_free p.allocated p.max_slots 0)) [
    | inl e ↦ rw (e, allocate) (full e)
    | inr (id, e) ↦ rw (e, allocate) (found id e)
  ]
