-- ===== src/Trap/Invariant.antt =====
-- What holds of the state whenever `trap_start` of kernel/proc/trap.c is entered and left.
use sky_os.Base.{
  true, ℕ, ◌%◌, ◌^◌, ◌≡◌, ◌≢◌, ◌⊎◌, sym, ◌∙◌, ap, subst, inl, inr, arith, ◌==◌, Bool-cases, ==_iff,
  Option, length, shr, ltb, leb,
}
use sky_os.Base.Runs.{Run, done, ◌>>=◌, >>=-eq-done, inside-done, done_injective}
use sky_os.Isa.{Context}
use sky_os.Sched.{Task, satp_of}
use sky_os.Process.{World}
use sky_os.Syscall.{syscall_getpid, syscall_fork, syscall_write, syscall, sys_getpid}
use sky_os.Syscall.Fork.{Forked, sys_fork-Forked}
use sky_os.Syscall.Calls.{SameKernel, asked, sys_getpid-SameKernel, sys_write-SameKernel}
use sky_os.Trap.{
  s_timer_int, syscall_from_u_mode, set_context, return_from_trap, handle_interrupt,
  handle_exception, trap_start, exception_infos, inter_infos,
}
use sky_os.Trap.Interrupts.{satp_wanted, Resumed, IsTimer, trap_start-timer}
use sky_os.Trap.Exceptions.{trap_return_2_lem, trap_return_2-satp, IsCall, called, trap_start-call}

-- The hardware uses the page table of the current process, which is live, and every process with a
-- page table is live.
pub record Running {S : Type 0} (w : World S) : Type 0 where
  pub satp : w.machine.satp ≡ satp_wanted w.kernel
  pub live : w.kernel.pidmap w.kernel.current_task ≢ 0
  pub tables : (i : ℕ) → (w.kernel.task i).pgtable ≢ 0 → w.kernel.pidmap i ≢ 0

module _ {S : Type 0} {w w' : World S} where
  SameKernel-Running : {a0 : ℕ} → SameKernel a0 w w' → Running w → Running w'
  SameKernel-Running {a0} same r =
      let table : (i : ℕ) → (w'.kernel.task i).pgtable ≡ (w.kernel.task i).pgtable = λ i.
        elim (Bool-cases (i == w.kernel.current_task)) [
          | inl e ↦ rw ((==_iff i w.kernel.current_task).0 e) same.pgtable
          | inr ne ↦ ap (λ (t : Task). t.pgtable) (same.others i (ground (arith, ne)))
        ] in
      record {
        satp =
            same.satp ∙ r.satp ∙ sym (rw same.current (ap satp_of (table w.kernel.current_task)));
        live = rw (same.pidmap, same.current) r.live;
        tables = λ i has. rw same.pidmap (r.tables i (λ none. has (table i ∙ none)));
      }

  Forked-Running : {p : ℕ} → Forked p w w' → Running w → Running w'
  Forked-Running {p} f r =
      let ne : p ≢ w.kernel.current_task = λ e. r.live (ap w.kernel.pidmap (sym e) ∙ f.was_free) in
      record {
        satp = f.satp ∙ r.satp ∙ sym (rw f.current (ap satp_of f.parent_pgtable));
        live = rw (f.pidmap, f.current) (ground (arith, r.live));
        tables = λ i has. rw f.pidmap (elim (Bool-cases (i == p)) [
          | inl child ↦ ground (arith, child)
          | inr other ↦ elim (Bool-cases (i == w.kernel.current_task)) [
            | inl e ↦ rw other (rw ((==_iff i w.kernel.current_task).0 e) r.live)
            | inr e ↦
                let same = f.others i (ground (arith, other)) (ground (arith, e)) in
                rw other (r.tables i (λ none. has (ap (λ (t : Task). t.pgtable) same ∙ none)))
          ]
        ]);
      }

  Resumed-Running : {ctx : Context} → Resumed ctx w w' → Running w → Running w'
  Resumed-Running s r =
      let table : (i : ℕ) → (w'.kernel.task i).pgtable ≡ (w.kernel.task i).pgtable = λ i.
        elim (Bool-cases (i == w.kernel.current_task)) [
          | inl e ↦ rw ((==_iff i w.kernel.current_task).0 e) s.saved_pgtable
          | inr ne ↦ ap (λ (t : Task). t.pgtable) (s.others i (ground (arith, ne)))
        ] in
      let tables' : (i : ℕ) → (w'.kernel.task i).pgtable ≢ 0 → w'.kernel.pidmap i ≢ 0 =
        λ i has. rw s.pidmap (r.tables i (λ none. has (table i ∙ none))) in
      record {
        satp = s.satp r.satp;
        live = elim s.next [
          | inl same ↦ rw (s.pidmap, same) r.live
          | inr has ↦ tables' w'.kernel.current_task has
        ];
        tables = tables';
      }

module _ {S : Type 0} (mmu : (satp sstatus : ℕ) → (ℕ → ℕ) → ℕ → Option ℕ)
    (kalloc : ℕ → S → Run (ℕ × S)) where
  syscall-Running :
      (w : World S) {r : ℕ} {w' : World S}
      → syscall mmu kalloc w ≡ done (r, w')
      → Running w
      → Running w'
  unfolding syscall
  syscall-Running w {r} {w'} run v = elim (Bool-cases (leb (asked w) syscall_write)) [
    | inr above ↦ cc (rw above at run)
    | inl named ↦ elim (Bool-cases (asked w == syscall_getpid)) [
      | inl getpid ↦
          let e : sys_getpid w ≡ (r, w') = done_injective (rw (named, getpid) at run) in
          subst (λ (x : ℕ × World S). Running x.1) e
            (SameKernel-Running (sys_getpid-SameKernel mmu kalloc w) v)
      | inr n1 ↦ elim (Bool-cases (asked w == syscall_fork)) [
        | inl fork ↦
            Forked-Running (sys_fork-Forked mmu kalloc w v.live (rw (named, n1, fork) at run)).0 v
        | inr n2 ↦ elim (Bool-cases (asked w == syscall_write)) [
          | inr n3 ↦ cc (rw (named, n1, n2, n3) at run)
          | inl out ↦
              SameKernel-Running
                (sys_write-SameKernel mmu kalloc w _ _ _ (rw (named, n1, n2, out) at run)).1 v
        ]
      ]
    ]
  ]

  set_context-Running : (ctx : Context) (w : World S) → Running w → Running (set_context ctx w)
  set_context-Running ctx w r = record {
    satp = ground (arith, r.satp);
    live = r.live;
    tables = λ i has. ground (arith, r.tables i, has);
  }

  return_from_trap-Running : (w : World S) → Running w → Running (return_from_trap w)
  return_from_trap-Running w r = record {
    satp = trap_return_2-satp w.kernel w.machine ∙ r.satp;
    live = r.live;
    tables = r.tables;
  }

  -- A trap returns only from a timer interrupt, with the lock of the log free, or from a system
  -- call, and only where there is a current process.
  trap_start-kinds :
      (ctx : Context) (w : World S) {w' : World S}
      → trap_start mmu kalloc ctx w ≡ done w'
      → (w.kernel.has_current ≡ true) × ((IsTimer w.machine × (w.log_lock ≡ 0)) ⊎ IsCall w.machine)
  unfolding trap_start handle_interrupt handle_exception
  trap_start-kinds ctx w run0 =
      let code = w.machine.scause % 2 ^ 8 in
      let (current, run) = inside-done w.kernel.has_current _ run0 in
      (
        current,
        elim (Bool-cases (shr w.machine.scause 63 % 2 == 1)) [
          | inl interrupt ↦ elim (Bool-cases (code == s_timer_int)) [
            | inl timer ↦ elim (Bool-cases (w.log_lock == 0)) [
              | inl free ↦ inl (
                (ground (arith, interrupt), (==_iff code s_timer_int).0 timer),
                (==_iff w.log_lock 0).0 free,
              )
              | inr held ↦ cc (rw (interrupt, timer, held) at run)
            ]
            | inr other ↦ elim (Bool-cases (ltb code (length inter_infos))) [
              | inl low ↦ cc (rw (interrupt, other, low) at run)
              | inr high ↦ cc (rw (interrupt, other, high) at run)
            ]
          ]
          | inr exception ↦ elim (Bool-cases (code == syscall_from_u_mode)) [
            | inl call ↦ inr (ground (arith, exception), (==_iff code syscall_from_u_mode).0 call)
            | inr other ↦ elim (Bool-cases (ltb code (length exception_infos))) [
              | inl low ↦ cc (rw (exception, other, low) at run)
              | inr high ↦ cc (rw (exception, other, high) at run)
            ]
          ]
        ],
      )

  abbrev Left : World S → Type 0
  Left w' =
      Running w' × (w'.machine.sscratch_stack ≡ (w'.kernel.task w'.kernel.current_task).context)

  call-Running :
      (ctx : Context) (w : World S) {w' : World S}
      → w.kernel.has_current ≡ true
      → IsCall w.machine
      → Running w
      → trap_start mmu kalloc ctx w ≡ done w'
      → Left w'
  call-Running ctx w {w'} current call v run =
      let (w1, run1, last) =
        >>=-eq-done (syscall mmu kalloc (called mmu kalloc ctx w) >>= (λ r. done r.1)) _
          (sym (trap_start-call mmu kalloc ctx w current call) ∙ run) in
      let ((r, w2), run2, last2) =
        >>=-eq-done (syscall mmu kalloc (called mmu kalloc ctx w)) _ run1 in
      let e : return_from_trap w2 ≡ w' =
        ap return_from_trap (done_injective last2) ∙ done_injective last in
      let v2 = syscall-Running (called mmu kalloc ctx w) run2 (set_context-Running _ w v) in
      subst Left e (return_from_trap-Running w2 v2, trap_return_2_lem w2.kernel w2.machine)

  -- When satp holds the page table of the current process, that process is live and every process
  -- with a page table is live, and trap_start returns, then the same holds afterwards, and the
  -- registers that the return loads are those of the current process.
  pub trap_start-Running :
      (ctx : Context) (w : World S) {w' : World S}
      → Running w
      → trap_start mmu kalloc ctx w ≡ done w'
      → Running w' × (w'.machine.sscratch_stack ≡ (w'.kernel.task w'.kernel.current_task).context)
  trap_start-Running ctx w {w'} v run =
      let (current, kind) = trap_start-kinds ctx w run in
      elim kind [
        | inl (timer, free) ↦
            let (w1, run1, s) = trap_start-timer w ctx mmu kalloc current free timer in
            subst Left (done_injective (sym run1 ∙ run)) (Resumed-Running s v, s.registers)
        | inr call ↦ call-Running ctx w current call v run
      ]
