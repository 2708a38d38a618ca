-- ===== src/Sched/Progress.antt =====
-- `do_timer` of kernel/proc/sched.c, interrupt after interrupt: every ready process gets its turn.
use sky_os.Base.{
  ℕ, zero, suc, ◌+◌, ◌*◌, ◌^◌, ◌≤◌, ◌<◌, ◌≡◌, ◌≢◌, refl, sym, ◌∙◌, ap, subst, inl, inr, Bool, arith,
  ◌==◌, Bool-cases, ==_iff, if◌then◌else◌,
}
use sky_os.Isa.{Machine, flag, sstatus_spp}
use sky_os.Sched.{Task, Kernel, nr_task, task_running, schedule, tick, do_timer}
use sky_os.Sched.Choice.{ScheduleOutcome, schedule-ScheduleOutcome}
use sky_os.Sched.Counts.{count, count_le, count_member, count_less}
use sky_os.Sched.Ticks.{IsReady, Balanced, do_timer-user, do_timer-Balanced}

-- The kernel after a number of timer interrupts, with the registers at each of them.
unfoldable pub ticks : ℕ → (ℕ → Machine) → Kernel → Kernel
ticks zero machines k = k
ticks (suc n) machines k = ticks n (λ t. machines (suc t)) (do_timer k (machines 0)).0

-- Every interrupt is from user mode.
abbrev pub FromUser : (ℕ → Machine) → Type 0
FromUser machines = (t : ℕ) → flag sstatus_spp (machines t).sstatus ≡ 0

-- 1 for a ready process with `c` ticks left.
abbrev top : (c : ℕ) → Task → ℕ
top c t =
    if t.pgtable == 0
    then 0
    else if t.state == task_running
    then (if t.counter == c then 1 else 0)
    else 0

-- A tick changes of the processes the counter of the current one only.
schedule-task : (k : Kernel) → (schedule k).1.task ≡ k.task
schedule-task k = go (schedule k) (schedule-ScheduleOutcome k)
  where
    go : (r : Bool × Kernel) → ScheduleOutcome k r → r.1.task ≡ k.task
    go _ (ScheduleOutcome.switched i lt runs first) = refl
    go _ (ScheduleOutcome.stayed all) = refl

module _ (k : Kernel) (m : Machine) (user : flag sstatus_spp m.sstatus ≡ 0) where
  abbrev next : Kernel
  next = (do_timer k m).0

  next_task : next.task ≡ (tick k).task
  next_task = ap (λ (x : Kernel). x.task) (do_timer-user k m user) ∙ schedule-task (tick k)

  next_other : (i : ℕ) → i ≢ k.current_task → next.task i ≡ k.task i
  unfolding tick
  next_other i ne = ap (λ (f : ℕ → Task). f i) next_task ∙ ground arith

  next-IsReady : (i : ℕ) → IsReady k i → IsReady next i
  unfolding tick
  next-IsReady i r =
      subst (λ (f : ℕ → Task). (i < nr_task) × ((f i).pgtable ≢ 0) × ((f i).state ≡ task_running))
        (sym next_task) (ground (arith, r))

  -- Where the level stays, one process less has all its ticks.
  next_count :
      (n : ℕ)
      → suc n < 2 ^ 64
      → Balanced (suc n) k
      → count nr_task (λ i. top (suc (suc n)) (k.task i))
        ≡ suc (count nr_task (λ i. top (suc (suc n)) (next.task i)))
  unfolding tick
  next_count n small b =
      let c = k.current_task in
      let now = ap (λ (f : ℕ → Task). f c) next_task in
      count_less nr_task (λ i. top (suc (suc n)) (k.task i)) (λ i. top (suc (suc n)) (next.task i))
        c b.current_ready.0 (ground (arith, b.current_ready, b.current_counter))
        (ap (top (suc (suc n))) now ∙ ground (arith, b.current_counter))
        (λ i ne. sym (ap (top (suc (suc n))) (next_other i ne)))

-- The processes with `n + 1` ticks.
abbrev pending : (n : ℕ) → Kernel → ℕ
pending n k = count nr_task (λ i. top (suc n) (k.task i))

top_le : (n : ℕ) (t : Task) → top n t ≤ 1
top_le n t = ground arith

pending_le : (n : ℕ) (k : Kernel) → pending n k ≤ nr_task
pending_le n k = count_le nr_task (λ i. top (suc n) (k.task i)) (λ i. top_le (suc n) (k.task i))

pending-IsReady :
    (n : ℕ) (k : Kernel) (i : ℕ) → IsReady k i → (k.task i).counter ≡ suc n → 1 ≤ pending n k
pending-IsReady n k i r full =
    count_member nr_task (λ j. top (suc n) (k.task j)) i r.0 (ground (arith, r, full))

-- A ready process with as many ticks as the current one is current before these are spent.
full_turn :
    (c n : ℕ) (k : Kernel) (machines : ℕ → Machine) (i : ℕ)
    → FromUser machines
    → suc n < 2 ^ 64
    → Balanced (suc n) k
    → IsReady k i
    → (k.task i).counter ≡ suc (suc n)
    → pending (suc n) k ≡ c
    → (t : ℕ) × (t < c) × ((ticks t machines k).current_task ≡ i)
unfolding ticks
full_turn zero n k machines i user small b ready full e =
    absurd (omega (arith, e, pending-IsReady (suc n) k i ready full))
full_turn (suc c) n k machines i user small b ready full e =
    elim (Bool-cases (i == k.current_task)) [
      | inl same ↦ (0, omega arith, sym ((==_iff i k.current_task).0 same))
      | inr ne ↦
          let m = machines 0 in
          let k1 = (do_timer k m).0 in
          let other : i ≢ k.current_task = ground (arith, ne) in
          let ready1 = next-IsReady k m (user 0) i ready in
          let full1 = ap (λ (t : Task). t.counter) (next_other k m (user 0) i other) ∙ full in
          elim (do_timer-Balanced n k m small (user 0) b) [
            | inl b1 ↦
                let less = next_count k m (user 0) n small b in
                let (t, lt, at) =
                  full_turn c n k1 (λ t. machines (suc t)) i (λ t. user (suc t)) small b1 ready1
                    full1 (omega (arith, less, e)) in
                (suc t, omega arith, at)
            | inr b1 ↦ absurd (omega (arith, (b1.others i ready1).1, full1))
          ]
    ]

-- Any other ready process is current before the ticks of the next level are spent.
later_turn :
    (c n : ℕ) (k : Kernel) (machines : ℕ → Machine) (i : ℕ)
    → FromUser machines
    → suc (suc n) < 2 ^ 64
    → Balanced (suc (suc n)) k
    → IsReady k i
    → (k.task i).counter ≡ suc (suc n)
    → pending (suc (suc n)) k ≡ c
    → (t : ℕ) × (t < c + nr_task) × ((ticks t machines k).current_task ≡ i)
unfolding ticks
later_turn zero n k machines i user small b ready low e = absurd (
    omega
      (arith, e, pending-IsReady (suc (suc n)) k k.current_task b.current_ready b.current_counter))
later_turn (suc c) n k machines i user small b ready low e =
    let m = machines 0 in
    let k1 = (do_timer k m).0 in
    let other : i ≢ k.current_task =
      λ x. omega (arith, low, b.current_counter, ap (λ j. (k.task j).counter) x) in
    let ready1 = next-IsReady k m (user 0) i ready in
    let low1 = ap (λ (t : Task). t.counter) (next_other k m (user 0) i other) ∙ low in
    elim (do_timer-Balanced (suc n) k m small (user 0) b) [
      | inl b1 ↦
          let less = next_count k m (user 0) (suc n) small b in
          let (t, lt, at) =
            later_turn c n k1 (λ t. machines (suc t)) i (λ t. user (suc t)) small b1 ready1 low1
              (omega (arith, less, e)) in
          (suc t, omega arith, at)
      | inr b1 ↦
          let (t, lt, at) =
            full_turn (pending (suc n) k1) n k1 (λ t. machines (suc t)) i (λ t. user (suc t))
              (omega arith) b1 ready1 low1 refl in
          (suc t, omega (arith, lt, pending_le (suc n) k1), at)
    ]

-- Where the current process has n + 3 ticks left and every ready one n + 2 or n + 3, every ready
-- process is the current one after fewer than 128 timer interrupts from user mode.
pub do_timer_reaches :
    (n : ℕ) (k : Kernel) (machines : ℕ → Machine) (i : ℕ)
    → FromUser machines
    → suc (suc n) < 2 ^ 64
    → Balanced (suc (suc n)) k
    → IsReady k i
    → (t : ℕ) × (t < 2 * nr_task) × ((ticks t machines k).current_task ≡ i)
do_timer_reaches n k machines i user small b ready =
    let (low, high) = b.others i ready in
    let few = pending_le (suc (suc n)) k in
    elim (Bool-cases ((k.task i).counter == suc (suc n))) [
      | inl e ↦
          let (t, lt, at) =
            later_turn (pending (suc (suc n)) k) n k machines i user small b ready
              ((==_iff (k.task i).counter (suc (suc n))).0 e) refl in
          (t, omega (arith, lt, few), at)
      | inr ne ↦
          let full : (k.task i).counter ≡ suc (suc (suc n)) = ground (arith, ne, low, high) in
          let (t, lt, at) =
            full_turn (pending (suc (suc n)) k) (suc n) k machines i user small b ready full refl in
          (t, omega (arith, lt, few), at)
    ]
