-- ===== src/Sched/Pids.antt =====
-- `alloc_pid` and `get_process_count` of kernel/proc/sched.c.
use sky_os.Base.{
  ℕ, zero, suc, ◌+◌, ◌≤◌, ◌<◌, ◌≡◌, ◌≢◌, refl, ap, subst, inl, inr, arith, ◌==◌, Bool-cases, ==_iff,
  write,
}
use sky_os.Base.Runs.{Run, done, panic, result}
use sky_os.Sched.{Kernel, nr_task, alloc_pid_from, alloc_pid, process_count, get_process_count}

-- The kernel with the identifier `i` in use.
abbrev pub with_pid : ℕ → Kernel → Kernel
with_pid i k = record k { pidmap = write k.pidmap i 1 }

-- The first free identifier from `low` up to `high` is taken, or there is none.
pub data PidOutcome (k : Kernel) (low high : ℕ) : Run (ℕ × Kernel) → Type 0 where
  allocated :
      (i : ℕ)
      → low ≤ i
      → i < high
      → k.pidmap i ≡ 0
      → ((j : ℕ) → low ≤ j → j < i → k.pidmap j ≢ 0)
      → PidOutcome k low high (done (i, with_pid i k))
  none_free : ((j : ℕ) → low ≤ j → j < high → k.pidmap j ≢ 0) → PidOutcome k low high panic

PidOutcome-used :
    (k : Kernel) (low high : ℕ) (r : Run (ℕ × Kernel))
    → low < high
    → k.pidmap low ≢ 0
    → PidOutcome k (suc low) high r
    → PidOutcome k low high r
PidOutcome-used k low high _ lt used (PidOutcome.allocated i le below free first) =
    PidOutcome.allocated i (omega arith) below free (λ j from to. ground (arith, used, first j))
PidOutcome-used k low high _ lt used (PidOutcome.none_free all) =
    PidOutcome.none_free (λ j from to. ground (arith, used, all j))

alloc_pid_from-PidOutcome :
    (rest i : ℕ) (k : Kernel) → PidOutcome k i (i + rest) (alloc_pid_from rest i k)
unfolding alloc_pid_from
alloc_pid_from-PidOutcome zero i k = PidOutcome.none_free (λ j from to. absurd (omega arith))
alloc_pid_from-PidOutcome (suc rest) i k = elim (Bool-cases (k.pidmap i == 0)) [
  | inl free ↦ rw free (
      PidOutcome.allocated i (omega arith) (omega arith) ((==_iff (k.pidmap i) 0).0 free)
        (λ j from to. absurd (omega arith)))
  | inr used ↦
      let same : suc i + rest ≡ i + suc rest = omega arith in
      rw used (
        PidOutcome-used k i (i + suc rest) _ (omega arith) (ground (arith, used)) (
          subst (λ n. PidOutcome k (suc i) n (alloc_pid_from rest (suc i) k)) same
            (alloc_pid_from-PidOutcome rest (suc i) k)))
]

-- alloc_pid takes the least free identifier and changes nothing else, and panics exactly where
-- none of the 64 is free.
pub alloc_pid-PidOutcome : (k : Kernel) → PidOutcome k 0 nr_task (alloc_pid k)
unfolding alloc_pid
alloc_pid-PidOutcome k = alloc_pid_from-PidOutcome nr_task 0 k

process_count-le : (n : ℕ) (k : Kernel) → n ≤ nr_task → process_count n k ≤ n
unfolding process_count
process_count-le zero k le = omega arith
process_count-le (suc n) k le = ground (arith, process_count-le n k)

process_count-below :
    (n i : ℕ) (k : Kernel) → n ≤ i → process_count n (with_pid i k) ≡ process_count n k
unfolding process_count
process_count-below zero i k le = refl
process_count-below (suc n) i k le = ground (arith, process_count-below n i k)

process_count-with_pid :
    (n i : ℕ) (k : Kernel)
    → n ≤ nr_task
    → i < n
    → k.pidmap i ≡ 0
    → process_count n (with_pid i k) ≡ process_count n k + 1
unfolding process_count
process_count-with_pid zero i k le lt free = absurd (omega arith)
process_count-with_pid (suc n) i k le lt free =
    let most = process_count-le n k (omega arith) in
    elim (Bool-cases (i == n)) [
      | inl e ↦
          let same : i ≡ n = (==_iff i n).0 e in ground (arith, most, process_count-below n i k)
      | inr ne ↦ ground (arith, most, process_count-with_pid n i k)
    ]

-- When alloc_pid returns, get_process_count is one more than before and at most 64.
pub get_process_count-alloc_pid :
    (k : Kernel) {i : ℕ} {k' : Kernel}
    → alloc_pid k ≡ done (i, k')
    → (get_process_count k' ≡ get_process_count k + 1) × (get_process_count k' ≤ nr_task)
unfolding get_process_count
get_process_count-alloc_pid k {i} {k'} run = go (alloc_pid k) (alloc_pid-PidOutcome k) run
  where
    go :
        (r : Run (ℕ × Kernel))
        → PidOutcome k 0 nr_task r
        → r ≡ done (i, k')
        → (process_count nr_task k' ≡ process_count nr_task k + 1)
          × (process_count nr_task k' ≤ nr_task)
    go _ (PidOutcome.allocated j le lt free first) e =
        subst
          (λ (x : ℕ × Kernel).
            (process_count nr_task x.1 ≡ process_count nr_task k + 1)
            × (process_count nr_task x.1 ≤ nr_task))
          (ap (result (i, k')) e)
          (
            process_count-with_pid nr_task j k (omega arith) lt free,
            process_count-le nr_task (with_pid j k) (omega arith),
          )
    go _ (PidOutcome.none_free all) e = cc
