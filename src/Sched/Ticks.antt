-- ===== src/Sched/Ticks.antt =====
-- `do_timer` of kernel/proc/sched.c: how the ticks are shared by the processes.
use sky_os.Base.{
  dec_le, ℕ, suc, ◌-◌, ◌^◌, ◌≤◌, ◌<◌, ◌≡◌, ◌≢◌, ◌⊎◌, refl, ◌∙◌, ap, subst, inl, inr, Bool, arith,
  ◌==◌, Bool-cases, dec64, ==_iff,
}
use sky_os.Isa.{Machine, flag, sstatus_spp}
use sky_os.Sched.{Kernel, nr_task, task_running, schedule, tick, do_timer}
use sky_os.Sched.Choice.{CanFollow, ScheduleOutcome, schedule-ScheduleOutcome}

-- A process that `schedule` may take, whatever its counter.
abbrev pub IsReady : Kernel → ℕ → Type 0
IsReady k i = (i < nr_task) × ((k.task i).pgtable ≢ 0) × ((k.task i).state ≡ task_running)

-- The current process has `n + 1` ticks left, and every other ready one `n` or `n + 1`.
pub record Balanced (n : ℕ) (k : Kernel) : Type 0 where
  pub current_ready : IsReady k k.current_task
  pub current_counter : (k.task k.current_task).counter ≡ suc n
  pub others : (i : ℕ) → IsReady k i → (n ≤ (k.task i).counter) × ((k.task i).counter ≤ suc n)

-- A tick from user mode: the clocks, then the choice.
pub do_timer-user :
    (k : Kernel) (m : Machine)
    → flag sstatus_spp m.sstatus ≡ 0
    → (do_timer k m).0 ≡ (schedule (tick k)).1
unfolding do_timer
do_timer-user k m user = elim (Bool-cases (schedule (tick k)).0) [
  | inl e ↦ rw (user, e) refl
  | inr e ↦ rw (user, e) refl
]

record Ticked (n : ℕ) (k : Kernel) : Type 0 where
  ready : IsReady k k.current_task
  counter : (k.task k.current_task).counter ≡ n
  others : (i : ℕ) → IsReady k i → (n ≤ (k.task i).counter) × ((k.task i).counter ≤ suc n)

tick-Ticked : (n : ℕ) (k : Kernel) → n < 2 ^ 64 → Balanced n k → Ticked n (tick k)
unfolding tick
tick-Ticked n k small b =
    let e : dec64 (k.task k.current_task).counter ≡ n = omega (arith, b.current_counter) in
    record {
      ready = ground (arith, b.current_ready);
      counter = ground (arith, e);
      others = λ i r. ground (arith, e, b.others i);
    }

module _ (n : ℕ) (k : Kernel) (t : Ticked (suc n) k) where
  CanFollow-counter :
      (i : ℕ) → CanFollow k i → IsReady k i × ((k.task i).counter ≡ suc (suc n)) ⊎ (nr_task ≤ i)
  CanFollow-counter i runs = ground (arith, t.counter, t.others i)

  all_low : (i : ℕ) → IsReady k i → ¬ CanFollow k i → (k.task i).counter ≡ suc n
  all_low i r stays = elim (Bool-cases (i == k.current_task)) [
    | inl e ↦ rw ((==_iff i k.current_task).0 e) t.counter
    | inr ne ↦ elim (dec_le (k.task i).counter (suc n)) [
      | yes low ↦ omega (arith, t.others i r)
      | no high ↦ absurd (stays (r.1, r.2, ground (arith, ne), omega (arith, t.counter)))
    ]
  ]

  ScheduleOutcome-Balanced :
      (r : Bool × Kernel) → ScheduleOutcome k r → Balanced (suc n) r.1 ⊎ Balanced n r.1
  ScheduleOutcome-Balanced _ (ScheduleOutcome.switched i lt runs first) =
      elim (CanFollow-counter i runs) [
        | inl (ready, counter) ↦
            inl (record { current_ready = ready; current_counter = counter; others = t.others })
        | inr out ↦ absurd (omega arith)
      ]
  ScheduleOutcome-Balanced _ (ScheduleOutcome.stayed all) = inr (record {
    current_ready = t.ready;
    current_counter = t.counter;
    others = λ i r. omega (arith, all_low i r (all i r.0));
  })

-- A timer interrupt from user mode shares the ticks: where the current process has n + 2 ticks
-- left and every ready one n + 1 or n + 2, afterwards they are as close, for n + 1 or for n.
pub do_timer-Balanced :
    (n : ℕ) (k : Kernel) (m : Machine)
    → suc n < 2 ^ 64
    → flag sstatus_spp m.sstatus ≡ 0
    → Balanced (suc n) k
    → Balanced (suc n) (do_timer k m).0 ⊎ Balanced n (do_timer k m).0
do_timer-Balanced n k m small user b = rw (do_timer-user k m user) (
    ScheduleOutcome-Balanced n (tick k) (tick-Ticked (suc n) k small b) (schedule (tick k))
      (schedule-ScheduleOutcome (tick k)))

tick-wraps :
    (k : Kernel)
    → (k.task k.current_task).counter ≡ 0
    → ((tick k).task (tick k).current_task).counter ≡ 2 ^ 64 - 1
unfolding tick
tick-wraps k spent = ground (arith, spent)

tick-current : (k : Kernel) → (tick k).current_task ≡ k.current_task
unfolding tick
tick-current k = refl

tick-bounded :
    (k : Kernel) (i : ℕ) → (k.task i).counter < 2 ^ 64 → ((tick k).task i).counter < 2 ^ 64
unfolding tick
tick-bounded k i lt = ground (arith, lt)

CanFollow-larger :
    (k : Kernel) (i : ℕ) → CanFollow k i → (k.task k.current_task).counter < (k.task i).counter
CanFollow-larger k i runs = ground arith

ScheduleOutcome-stays :
    (k : Kernel) (r : Bool × Kernel)
    → ScheduleOutcome k r
    → (k.task k.current_task).counter ≡ 2 ^ 64 - 1
    → ((i : ℕ) → (k.task i).counter < 2 ^ 64)
    → r.1 ≡ k
ScheduleOutcome-stays k _ (ScheduleOutcome.switched i lt runs first) top words =
    absurd (omega (arith, CanFollow-larger k i runs, top, words i))
ScheduleOutcome-stays k _ (ScheduleOutcome.stayed all) top words = refl

-- On a timer interrupt from user mode, where the counters are 64-bit words and that of the current
-- process is 0, the counter wraps to 2 ^ 64 - 1 and the process stays the current one.
pub do_timer-wraps :
    (k : Kernel) (m : Machine)
    → flag sstatus_spp m.sstatus ≡ 0
    → ((i : ℕ) → (k.task i).counter < 2 ^ 64)
    → (k.task k.current_task).counter ≡ 0
    → ((do_timer k m).0.current_task ≡ k.current_task)
      × (((do_timer k m).0.task k.current_task).counter ≡ 2 ^ 64 - 1)
do_timer-wraps k m user words spent =
    let stays =
      ScheduleOutcome-stays (tick k) (schedule (tick k)) (schedule-ScheduleOutcome (tick k))
        (tick-wraps k spent) (λ i. tick-bounded k i (words i)) in
    let e = do_timer-user k m user ∙ stays in
    (
      ap (λ (x : Kernel). x.current_task) e ∙ tick-current k,
      ap (λ (x : Kernel). (x.task k.current_task).counter) e
          ∙ subst (λ c. ((tick k).task c).counter ≡ 2 ^ 64 - 1) (tick-current k)
              (tick-wraps k spent),
    )
