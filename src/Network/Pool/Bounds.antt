-- ===== src/Network/Pool/Bounds.antt =====
-- The number of slots that the pool of network/pool.go holds over a run of calls.
use gitvm.Base.{
  ℕ, zero, suc, ◌≤◌, ◌<◌, ◌≡◌, ◌≢◌, refl, Bool, true, none, [], ◌∷◌, Result, String, ok, err, arith,
  nat_comparable, nat_beq_iff, ℤ, subst, sym, ==_refl, List, positive_or,
}
use gitvm.Base.Table.{
  Table, lookup, insert, remove, size, IsMap, insert-IsMap, remove-IsMap, size-remove,
  lookup-remove, lookup-insert,
}
use gitvm.Network.Slot.{Slot}
use gitvm.Network.Host.{Command, Trace}
use gitvm.Network.Pool.{Pool, AllocateError, new_pool, allocate, release, count}
use gitvm.Network.Pool.Allocation.{IsAllocation, allocate-IsAllocation}

abbrev pub Below : ℕ → Table ℕ Bool → Type 0
Below n m = (k : ℕ) → lookup k m ≢ none → k < n

-- No key is below 0.
head-Below : (k : ℕ) (v : Bool) (m : Table ℕ Bool) → Below 0 ((k, v) ∷ m) → ⊥
unfolding lookup
head-Below k v m b = grind (arith, b k, ==_refl k)

remove-last : (n : ℕ) (m : Table ℕ Bool) → Below (suc n) m → Below n (remove n m)
remove-last n m b k here = ground (arith, lookup-remove n k m, nat_beq_iff n k, b k)

-- A map with distinct keys below `n` has at most `n` entries.
size-Below : (n : ℕ) (m : Table ℕ Bool) → IsMap m → Below n m → size m ≤ n
unfolding lookup
size-Below zero [] h b = omega arith
size-Below zero ((k, v) ∷ m) h b = absurd (head-Below k v m b)
size-Below (suc n) m h b =
    let smaller = size-Below n (remove n m) (remove-IsMap n m h) (remove-last n m b) in
    ground (arith, size-remove n m h)

-- The limit is the one that the pool was made with, and the keys are distinct and below it.
pub record IsValid (limit : ℕ) (p : Pool) : Type 0 where
  pub kept : p.max_slots ≡ limit
  pub distinct : IsMap p.allocated
  pub below : Below limit p.allocated

pub new_pool-IsValid :
    (n : ℤ) (host_interface : String) → IsValid (positive_or 255 n) (new_pool n host_interface)
unfolding new_pool lookup
new_pool-IsValid n host_interface = record {
  kept = refl;
  distinct = tt;
  below = λ k h. absurd (h refl);
}

pub count-le-limit : (limit : ℕ) (p : Pool) → IsValid limit p → count p ≤ limit
unfolding count
count-le-limit limit p v = size-Below limit p.allocated v.distinct v.below

insert-Below : (n i : ℕ) (m : Table ℕ Bool) → i < n → Below n m → Below n (insert i true m)
insert-Below n i m h b k here = ground (arith, lookup-insert i k true m, nat_beq_iff i k, b k)

remove-Below : (n i : ℕ) (m : Table ℕ Bool) → Below n m → Below n (remove i m)
remove-Below n i m b k here = ground (arith, lookup-remove i k m, b k)

outcome-IsValid :
    (limit : ℕ) (p q : Pool) (r : Result AllocateError Slot) (t : Trace)
    → IsValid limit p
    → IsAllocation p (r, q, t)
    → IsValid limit q
outcome-IsValid limit p q (err e) t v same = subst (IsValid limit) (sym same) v
outcome-IsValid limit p q (ok slot) t v out = subst (IsValid limit) (sym out.4) (record {
  kept = v.kept;
  distinct = insert-IsMap slot.id true p.allocated v.distinct;
  below =
      insert-Below limit slot.id p.allocated (subst (λ (m : ℕ). slot.id < m) v.kept out.1) v.below;
})

-- The calls that the Firecracker runtime makes on the pool.
pub data Call : Type 0 where
  allocates : Call
  releases : Slot → Call

module _ (succeeds : Trace → Command → Bool) where
  allocate-IsValid :
      (limit : ℕ) (p : Pool) (t : Trace) → IsValid limit p → IsValid limit (allocate succeeds p t).1
  allocate-IsValid limit p t v =
      outcome-IsValid limit p _ (allocate succeeds p t).0 (allocate succeeds p t).2 v
        (allocate-IsAllocation succeeds p t)

  release-IsValid :
      (limit : ℕ) (p : Pool) (slot : Slot) (t : Trace)
      → IsValid limit p
      → IsValid limit (release succeeds p slot t).0
  unfolding release
  release-IsValid limit p slot t v = record {
    kept = v.kept;
    distinct = remove-IsMap slot.id p.allocated v.distinct;
    below = remove-Below limit slot.id p.allocated v.below;
  }

  pub step : Pool → Trace → Call → Pool × Trace
  step p t allocates = let (_, q, t') = allocate succeeds p t in (q, t')
  step p t (releases slot) = release succeeds p slot t

  step-IsValid :
      (limit : ℕ) (p : Pool) (t : Trace) (c : Call) → IsValid limit p → IsValid limit (step p t c).0
  unfolding step
  step-IsValid limit p t allocates v = allocate-IsValid limit p t v
  step-IsValid limit p t (releases slot) v = release-IsValid limit p slot t v

  pub run_calls : Pool → Trace → List Call → Pool × Trace
  run_calls p t [] = (p, t)
  run_calls p t (c ∷ cs) = run_calls (step p t c).0 (step p t c).1 cs

  run_calls-IsValid :
      (limit : ℕ) (p : Pool) (t : Trace) (cs : List Call)
      → IsValid limit p
      → IsValid limit (run_calls p t cs).0
  unfolding run_calls
  run_calls-IsValid limit p t [] v = v
  run_calls-IsValid limit p t (c ∷ cs) v =
      run_calls-IsValid limit (step p t c).0 (step p t c).1 cs (step-IsValid limit p t c v)

  -- After any calls of Allocate and Release, in any order and with any outcome of the host
  -- commands, the slots in use are at most the limit that the pool was made with: the argument of
  -- NewPool, or 255 where that is not positive.
  pub run_calls-bound :
      (n : ℤ) (host_interface : String) (t : Trace) (cs : List Call)
      → count (run_calls (new_pool n host_interface) t cs).0 ≤ positive_or 255 n
  run_calls-bound n host_interface t cs =
      count-le-limit _ _ (run_calls-IsValid _ _ t cs (new_pool-IsValid n host_interface))
