-- ===== src/Coreaudio/Lifecycle/References.antt =====
-- The reference count of the plug-in over any sequence of calls.
use syfala_test.Common.{
  ℕ, ◌+◌, ◌-◌, ◌%◌, ◌<◌, ◌≤◌, ◌≡◌, refl, false, not, ◌||◌, Outcome, done, panicked, ◌>>=◌, unwrap,
  ◌==◌, if◌then◌else◌, u32_mod, Option, none, some, List, [], ◌∷◌, map, length, arith, Bool-cases,
  inl, inr, lt→ltb,
}
use syfala_test.Coreaudio.Lifecycle.{
  query_interface, add_ref, release, i_unknown_uuid, asp_driver_interface_uuid,
}

-- The calls that are about the count, with the arguments of each.
pub data Call : Type 0 where
  query : ℕ → ℕ → ℕ → Call
  add : ℕ → Call
  drop : ℕ → Call

-- What a call does to the number of references that the host holds.
pub data Effect : Type 0 where
  acquires : Effect
  releases : Effect
  neither : Effect

module _ (raw_driver_ptr : ℕ) where
  -- The entry points one after the other, up to the first panic: the count at the end.
  unfoldable pub call : Call → ℕ → Outcome ℕ
  call (query driver uuid interface) count =
      done (query_interface raw_driver_ptr driver uuid interface count).2
  call (add driver) count = do (_, count') ← add_ref raw_driver_ptr driver count; done count'
  call (drop driver) count = do (_, count') ← release raw_driver_ptr driver count; done count'

  unfoldable pub calls : List Call → ℕ → Outcome ℕ
  calls [] count = done count
  calls (c ∷ cs) count = call c count >>= calls cs

  -- A reference is handed out with an interface that is known and a place to put it.
  unfoldable pub effect : Call → Effect
  effect (query driver uuid interface) =
      if not (driver == raw_driver_ptr)
        || (interface == 0)
        || not ((uuid == i_unknown_uuid) || (uuid == asp_driver_interface_uuid))
      then neither
      else acquires
  effect (add driver) = if driver == raw_driver_ptr then acquires else neither
  effect (drop driver) = if driver == raw_driver_ptr then releases else neither

-- The references held, without a bound: there is no answer if one is released that is not held.
unfoldable pub ledger : List Effect → ℕ → Option ℕ
ledger [] held = some held
ledger (acquires ∷ es) held = ledger es (held + 1)
ledger (releases ∷ es) held = let rest = ledger es (held - 1) in if held == 0 then none else rest
ledger (neither ∷ es) held = ledger es held

empty_ledger : (count : ℕ) → done count ≡ unwrap (ledger [] count)
unfolding ledger
empty_ledger count = refl

-- The effect of one call on the count.
unfoldable apply : Effect → ℕ → Outcome ℕ
apply acquires held = done (held + 1)
apply releases held = if held == 0 then panicked else done (held - 1)
apply neither held = done held

small_mod : (n : ℕ) → n + 1 < u32_mod → (n + 1) % u32_mod ≡ n + 1
small_mod n h = omega arith

decrement_mod : (n : ℕ) → n < u32_mod → (n == 0) ≡ false → (n + (u32_mod - 1)) % u32_mod ≡ n - 1
decrement_mod n h e = ground arith

call_lem :
    (raw : ℕ) (c : Call) (count : ℕ)
    → count + 1 < u32_mod
    → call raw c count ≡ apply (effect raw c) count
unfolding call apply effect query_interface add_ref release
call_lem raw (query driver uuid interface) count h = ground (arith, small_mod count h)
call_lem raw (add driver) count h = ground (arith, small_mod count h, lt→ltb (count + 1) u32_mod h)
call_lem raw (drop driver) count h = ground (arith, decrement_mod count)

apply-ledger :
    (e : Effect) (es : List Effect) (count : ℕ) (f : ℕ → Outcome ℕ)
    → ((k : ℕ) → k ≤ count + 1 → f k ≡ unwrap (ledger es k))
    → (apply e count >>= f) ≡ unwrap (ledger (e ∷ es) count)
unfolding apply ledger
apply-ledger acquires es count f ih = ih (count + 1) (omega arith)
apply-ledger releases es count f ih = elim (Bool-cases (count == 0)) [
  | inl e ↦ rw e
  | inr e ↦ rw (e, ih (count - 1) (omega arith))
]
apply-ledger neither es count f ih = ih count (omega arith)

-- For any sequence of calls to `query_interface`, `add_ref` and `release` that is too short for the
-- count to reach the limit of a `u32`: the driver's count is the number of references that the host
-- holds, and the driver panics exactly if a reference is released that is not held.
pub calls-ledger :
    (raw_driver_ptr : ℕ) (cs : List Call) (count : ℕ)
    → count + length cs < u32_mod
    → calls raw_driver_ptr cs count ≡ unwrap (ledger (map (effect raw_driver_ptr) cs) count)
unfolding calls
calls-ledger raw [] count h = empty_ledger count
calls-ledger raw (c ∷ cs) count h = rw (
  call_lem raw c count (omega arith),
  apply-ledger (effect raw c) (map (effect raw) cs) count (calls raw cs)
      λ k b. calls-ledger raw cs k (omega arith),
)
