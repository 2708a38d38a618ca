-- ===== src/Sched/Choice.antt =====
-- `schedule` of kernel/proc/sched.c: which process runs next.
use sky_os.Base.{
  ℕ, zero, suc, ◌+◌, ◌≤◌, ◌<◌, ◌≡◌, ◌≢◌, ==_iff, refl, inl, inr, Bool, true, false, arith, ◌==◌,
  Bool-cases, if◌then◌else◌,
}
use sky_os.Sched.{Kernel, nr_task, task_running, can_run, next_from, schedule}

-- A process with a page table, running, other than the current one and with a larger counter.
abbrev pub CanFollow : Kernel → ℕ → Type 0
CanFollow k i =
    ((k.task i).pgtable ≢ 0)
    × ((k.task i).state ≡ task_running)
    × (i ≢ k.current_task)
    × ((k.task k.current_task).counter < (k.task i).counter)

can_run-CanFollow : (k : Kernel) (i : ℕ) → can_run k i ≡ true → CanFollow k i
unfolding can_run
can_run-CanFollow k i runs = (ground arith, ground arith, ground arith, ground arith)

not-CanFollow : (k : Kernel) (i : ℕ) → can_run k i ≡ false → ¬ CanFollow k i
unfolding can_run
not-CanFollow k i passed (table, state, other, larger) = ground arith

-- The first process that can follow from `low` up to `high`, or else the current one.
pub data NextOutcome (k : Kernel) (low high : ℕ) : ℕ → Type 0 where
  next :
      (i : ℕ)
      → low ≤ i
      → i < high
      → CanFollow k i
      → ((j : ℕ) → low ≤ j → j < i → ¬ CanFollow k j)
      → NextOutcome k low high i
  current : ((j : ℕ) → low ≤ j → j < high → ¬ CanFollow k j) → NextOutcome k low high k.current_task

NextOutcome-passed :
    (k : Kernel) (low high i : ℕ)
    → low < high
    → ¬ CanFollow k low
    → NextOutcome k (suc low) high i
    → NextOutcome k low high i
NextOutcome-passed k low high _ lt passed (NextOutcome.next i le below runs first) =
    NextOutcome.next i (omega arith) below runs (λ j from to. elim (Bool-cases (j == low)) [
      | inl e ↦ rw ((==_iff j low).0 e) passed
      | inr ne ↦ first j (ground (arith, ne)) to
    ])
NextOutcome-passed k low high _ lt passed (NextOutcome.current all) =
    NextOutcome.current (λ j from to. elim (Bool-cases (j == low)) [
      | inl e ↦ rw ((==_iff j low).0 e) passed
      | inr ne ↦ all j (ground (arith, ne)) to
    ])

next_from-NextOutcome :
    (rest i high : ℕ) (k : Kernel) → i + rest ≡ high → NextOutcome k i high (next_from rest i k)
unfolding next_from
next_from-NextOutcome zero i high k e = NextOutcome.current (λ j from to. absurd (omega arith))
next_from-NextOutcome (suc rest) i high k e = elim (Bool-cases (can_run k i)) [
  | inl runs ↦ rw runs (
      NextOutcome.next i (omega arith) (omega arith) (can_run-CanFollow k i runs)
        (λ j from to. absurd (omega arith)))
  | inr passed ↦ rw passed (
      NextOutcome-passed k i high _ (omega arith) (not-CanFollow k i passed)
        (next_from-NextOutcome rest (suc i) high k (omega arith)))
]

-- What `schedule` returns and the kernel after it.
pub data ScheduleOutcome (k : Kernel) : Bool × Kernel → Type 0 where
  switched :
      (i : ℕ)
      → i < nr_task
      → CanFollow k i
      → ((j : ℕ) → j < i → ¬ CanFollow k j)
      → ScheduleOutcome k (true, record k { current_task = i })
  stayed : ((j : ℕ) → j < nr_task → ¬ CanFollow k j) → ScheduleOutcome k (false, k)

NextOutcome-ScheduleOutcome :
    (k : Kernel) (i : ℕ)
    → NextOutcome k 0 nr_task i
    → ScheduleOutcome k
        (if i == k.current_task then (false, k) else (true, record k { current_task = i }))
NextOutcome-ScheduleOutcome k _ (NextOutcome.next i le lt runs first) =
    let other : (i == k.current_task) ≡ false = ground (arith, runs.2) in
    rw other (ScheduleOutcome.switched i lt runs (λ j to. first j (omega arith) to))
NextOutcome-ScheduleOutcome k _ (NextOutcome.current all) =
    let same : (k.current_task == k.current_task) ≡ true = ground arith in
    rw same (ScheduleOutcome.stayed (λ j to. all j (omega arith) to))

-- schedule takes the first process that has a page table, is running, is not the current one and
-- has a larger counter than the current one; it stays exactly where there is none.
pub schedule-ScheduleOutcome : (k : Kernel) → ScheduleOutcome k (schedule k)
unfolding schedule
schedule-ScheduleOutcome k =
    NextOutcome-ScheduleOutcome k (next_from nr_task 0 k)
      (next_from-NextOutcome nr_task 0 nr_task k refl)
