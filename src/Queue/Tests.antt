-- ===== src/Queue/Tests.antt =====
-- Runs of `Queue<u64, N>` that wrap and spill, and the theorems about queues at concrete inputs.
use cynosure.Prelude.{
  ℕ, zero, suc, ◌+◌, ◌-◌, ◌^◌, ◌<◌, ◌≡◌, ◌≢◌, ◌↔◌, refl, inl, inr, true, false, none, some, List,
  [], ◌∷◌, arith, ◌==◌, ==_iff, done, panic, fault, Returns,
}
use cynosure.Queue.{
  Queue, inline, heap, new, push_back, push_front, write_slot, read_slot, peek_slot, drain_slots,
}
use cynosure.Queue.Holds.{Live, Repr}
use cynosure.Queue.Bulk
use cynosure.Queue.Bulk.{make_contiguous, clone, queue_eq}
use cynosure.Queue.Bulk.Build.{clone_lem}
use cynosure.Queue.Bulk.Sweep.{make_contiguous_lem}
use cynosure.Queue.Bulk.Compare.{queue_eq_iff}
use cynosure.Queue.Spill.{is_inline, spills_when_full}
use cynosure.Queue.Walk.{iter_mut, drop_elements, iter_mut_lem, drop_elements_lem}
use cynosure.Queue.Spec
use cynosure.Queue.Spec.{Call, value, items}
use cynosure.Queue.Refine.{run, run-new, run-ne-fault}

abbrev script : List (Call ℕ)
script =
    Call.push_back 1
    ∷ Call.push_front 2
    ∷ Call.push_back 3
    ∷ Call.reserve 97
    ∷ Call.pop_front
    ∷ Call.swap 0 1
    ∷ Call.take_where (λ x. x == 3)
    ∷ Call.pop_back
    ∷ []

run-new_example :
    run 2 100 false (new 2) script
    ≡ done (
        value none
        ∷ value none
        ∷ value none
        ∷ value none
        ∷ value (some 2)
        ∷ value none
        ∷ items (3 ∷ [])
        ∷ value (some 1)
        ∷ [])
unfolding Spec.run Spec.step Spec.exchange Spec.sums_fit
run-new_example = run-new 2 100 false script (omega arith) (omega arith) (inr refl)

-- More than an allocation can hold
reserve_all :
    run {A = ℕ} 2 100 true (new 2) (Call.push_back 1 ∷ Call.reserve (2 ^ 64 - 1) ∷ []) ≡ panic
unfolding Spec.run Spec.step
reserve_all =
    run-new 2 100 true (Call.push_back 1 ∷ Call.reserve (2 ^ 64 - 1) ∷ []) (omega arith)
      (omega arith) (inl refl)

run-ne-fault_example : run 2 100 false (new 2) script ≢ fault
run-ne-fault_example = run-ne-fault 2 100 false script

-- `Queue<u64, 3>` that holds 8, 9, 7 with its head in the last slot
abbrev wrapped : Queue ℕ
wrapped = inline (some 9 ∷ some 7 ∷ some 8 ∷ []) 2 2 3

wrapped-Repr : Repr 3 wrapped (8 ∷ 9 ∷ 7 ∷ [])
wrapped-Repr = record {
  size = refl;
  count = refl;
  fits = omega arith;
  head_in = omega arith;
  tail_at = refl;
  live = there;
}
  where
    there : Live {A = ℕ} 3 (some 9 ∷ some 7 ∷ some 8 ∷ []) 2 (8 ∷ 9 ∷ 7 ∷ [])
    there zero h = refl
    there (suc zero) h = refl
    there (suc (suc zero)) h = refl
    there (suc (suc (suc i))) h = absurd (omega arith)

make_contiguous_runs :
    make_contiguous 3 wrapped ≡ done (8 ∷ 9 ∷ 7 ∷ [], inline (some 8 ∷ some 9 ∷ some 7 ∷ []) 0 0 3)
unfolding make_contiguous drain_slots read_slot write_slot Bulk.write_back Bulk.raw_slice peek_slot
make_contiguous_runs = refl

make_contiguous_lem_example :
    Returns (make_contiguous 3 wrapped) (λ r. (r.0 ≡ 8 ∷ 9 ∷ 7 ∷ []) × Repr 3 r.1 (8 ∷ 9 ∷ 7 ∷ []))
make_contiguous_lem_example = make_contiguous_lem 3 wrapped (8 ∷ 9 ∷ 7 ∷ []) wrapped-Repr

clone_lem_example : Returns (clone 3 (λ x. x) wrapped) (λ q. Repr 3 q (8 ∷ 9 ∷ 7 ∷ []))
clone_lem_example = clone_lem 3 (λ x. x) wrapped (8 ∷ 9 ∷ 7 ∷ []) wrapped-Repr

queue_eq_iff_example :
    Returns
      (queue_eq 3 (λ a b. a == b) wrapped (heap (8 ∷ 9 ∷ 7 ∷ [])))
      (λ b. (b ≡ true) ↔ (◌≡◌ {A = List ℕ} (8 ∷ 9 ∷ 7 ∷ []) (8 ∷ 9 ∷ 7 ∷ [])))
queue_eq_iff_example =
    queue_eq_iff (λ a b. a == b) ==_iff 3 wrapped (heap (8 ∷ 9 ∷ 7 ∷ [])) (8 ∷ 9 ∷ 7 ∷ [])
      (8 ∷ 9 ∷ 7 ∷ []) wrapped-Repr refl

spills_when_full_example :
    Returns (push_back 3 wrapped 5) (λ q. (is_inline q ≡ true) ↔ (3 < 3))
    × Returns (push_front 3 wrapped 5) (λ q. (is_inline q ≡ true) ↔ (3 < 3))
spills_when_full_example =
    spills_when_full 3 (some 9 ∷ some 7 ∷ some 8 ∷ []) 2 2 3 (8 ∷ 9 ∷ 7 ∷ []) 5 wrapped-Repr

iter_mut_lem_example : Returns (iter_mut 3 (λ x. x + 1) wrapped) (λ q. Repr 3 q (9 ∷ 10 ∷ 8 ∷ []))
iter_mut_lem_example = iter_mut_lem 3 (λ x. x + 1) wrapped (8 ∷ 9 ∷ 7 ∷ []) wrapped-Repr

drop_elements_lem_example : drop_elements 3 wrapped ≡ done (8 ∷ 9 ∷ 7 ∷ [])
drop_elements_lem_example = drop_elements_lem 3 wrapped (8 ∷ 9 ∷ 7 ∷ []) wrapped-Repr
