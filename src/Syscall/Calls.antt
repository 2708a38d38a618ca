-- ===== src/Syscall/Calls.antt =====
-- The system calls of kernel/proc/syscall.c but fork: what they return and change.
use sky_os.Base.{
  ℕ, zero, suc, ◌+◌, ◌≤◌, ◌<◌, ◌≡◌, ◌≢◌, refl, ap, subst, inl, inr, arith, ◌==◌, Bool-cases, Option,
  some, List, [], ◌∷◌, ◌++◌, ltb, lt→ltb, sign_extend, u32,
}
use sky_os.Base.Runs.{Run, done, >>=-eq-done, done_injective, inside-done}
use sky_os.Sched.{Task}
use sky_os.Process.{World, text, set_sum, clear_sum, print}
use sky_os.Process.Copies.{load_user_lem}
use sky_os.Syscall.{
  syscall_getpid, syscall_write, buffer_size, up_to_nul, set_a0, sys_getpid, read_user, sys_write,
  syscall,
}
use sky_os.Syscall.Fork.{with_a0}

-- The number of the system call that the current process asks for.
abbrev pub asked : {S : Type 0} → World S → ℕ
asked w = (w.kernel.task w.kernel.current_task).context.a7

-- What a system call that makes no process leaves of the kernel: all but the `a0` of the current
-- process.
pub record SameKernel {S : Type 0} (a0 : ℕ) (w w' : World S) : Type 0 where
  pub current : w'.kernel.current_task ≡ w.kernel.current_task
  pub pidmap : w'.kernel.pidmap ≡ w.kernel.pidmap
  pub others : (i : ℕ) → i ≢ w.kernel.current_task → w'.kernel.task i ≡ w.kernel.task i
  pub context :
      (w'.kernel.task w.kernel.current_task).context
      ≡ with_a0 a0 (w.kernel.task w.kernel.current_task).context
  pub pgtable :
      (w'.kernel.task w.kernel.current_task).pgtable ≡ (w.kernel.task w.kernel.current_task).pgtable
  pub satp : w'.machine.satp ≡ w.machine.satp
  pub words : w'.words ≡ w.words
  pub bytes : w'.bytes ≡ w.bytes

module _ {S : Type 0} (mmu : (satp sstatus : ℕ) → (ℕ → ℕ) → ℕ → Option ℕ)
    (kalloc : ℕ → S → Run (ℕ × S)) (w : World S) where
  abbrev me : Task
  me = w.kernel.task w.kernel.current_task

  pub sys_getpid-SameKernel : SameKernel me.pid w (sys_getpid w).1
  unfolding sys_getpid set_a0
  sys_getpid-SameKernel = record {
    current = refl;
    pidmap = refl;
    others = λ i ne. ground arith;
    context = ground arith;
    pgtable = ground arith;
    satp = refl;
    words = refl;
    bytes = refl;
  }

  getpid_result : sys_getpid w ≡ (me.pid, (sys_getpid w).1)
  unfolding sys_getpid
  getpid_result = refl

  -- `getpid` returns and puts the identifier of the process into its `a0`.
  pub syscall-getpid :
      asked w ≡ syscall_getpid
      → (w' : World S) × (syscall mmu kalloc w ≡ done (me.pid, w')) × SameKernel me.pid w w'
  unfolding syscall
  syscall-getpid num = ((sys_getpid w).1, rw num (ap done getpid_result), sys_getpid-SameKernel)

  -- `write` leaves the kernel and the registers of the process as they are, `a0` included, whatever
  -- it returns.
  pub sys_write-SameKernel :
      (fd buf len : ℕ) {r : ℕ} {w' : World S}
      → sys_write mmu fd buf len w ≡ done (r, w')
      → (r ≡ sign_extend len) × SameKernel me.context.a0 w w'
  unfolding sys_write
  sys_write-SameKernel fd buf len {r} {w'} run = elim (Bool-cases (fd == 0)) [
    | inr other ↦ back (done_injective (rw other at run)) (record {
      current = refl;
      pidmap = refl;
      others = λ i ne. refl;
      context = refl;
      pgtable = refl;
      satp = refl;
      words = refl;
      bytes = refl;
    })
    | inl out ↦
        let (buffer, _, rest) =
          >>=-eq-done (read_user mmu (u32 len) 0 buf (set_sum w)) _ (rw out at run) in
        let (short, last) = inside-done (ltb len buffer_size) _ rest in
        back (done_injective last) (record {
          current = refl;
          pidmap = refl;
          others = λ i ne. refl;
          context = refl;
          pgtable = refl;
          satp = refl;
          words = refl;
          bytes = refl;
        })
  ]
    where
      back :
          {x : World S}
          → ◌≡◌ {A = ℕ × World S} (sign_extend len, x) (r, w')
          → SameKernel me.context.a0 w x
          → (r ≡ sign_extend len) × SameKernel me.context.a0 w w'
      back e same =
          subst (λ (y : ℕ × World S). (y.0 ≡ sign_extend len) × SameKernel me.context.a0 w y.1) e
            (refl, same)

  pub syscall-write :
      asked w ≡ syscall_write
      → {r : ℕ} {w' : World S} → syscall mmu kalloc w ≡ done (r, w')
      → (r ≡ sign_extend me.context.a2) × SameKernel me.context.a0 w w'
  unfolding syscall
  syscall-write num run =
      sys_write-SameKernel me.context.a0 me.context.a1 me.context.a2 (rw num at run)

  -- The `n` bytes at the places `place i`.
  abbrev pub gather : (n : ℕ) → (ℕ → ℕ) → List ℕ
  gather zero place = []
  gather (suc n) place = w.bytes (place 0) ∷ gather n (λ i. place (suc i))

  -- The address of the process is that of the byte `a` of memory.
  abbrev pub MappedTo : (va a : ℕ) → Type 0
  MappedTo va a = mmu w.machine.satp (set_sum w).machine.sstatus w.words va ≡ some a

  read_user_lem :
      (n i src : ℕ) (place : ℕ → ℕ)
      → i + n ≤ buffer_size
      → ((j : ℕ) → j < n → MappedTo (src + j) (place j))
      → read_user mmu n i src (set_sum w) ≡ done (gather n place)
  unfolding read_user
  read_user_lem zero i src place fits mapped = refl
  read_user_lem (suc n) i src place fits mapped =
      let e : src + 0 ≡ src = omega arith in
      let first = load_user_lem mmu src (set_sum w) w.bytes (rw e at (mapped 0 (omega arith))) in
      let rest =
        read_user_lem n (suc i) (src + 1) (λ j. place (suc j)) (omega arith)
          (λ j lt.
            let e' : src + suc j ≡ src + 1 + j = omega arith in
            rw e' at (mapped (suc j) (omega arith))) in
      rw (first, lt→ltb i buffer_size (omega arith), rest) refl

  -- The system call write with descriptor 0 and fewer than 256 bytes, all mapped, returns the
  -- count and prints the bytes up to the first 0.
  pub syscall_write_prints :
      (place : ℕ → ℕ)
      → asked w ≡ syscall_write
      → me.context.a0 ≡ 0
      → me.context.a2 < 256
      → ((i : ℕ)
          → i < me.context.a2
          → mmu w.machine.satp (set_sum w).machine.sstatus w.words (me.context.a1 + i)
            ≡ some (place i))
      → (w' : World S) × (syscall mmu kalloc w ≡ done (sign_extend me.context.a2, w'))
        × (w'.console ≡ w.console ++ text (up_to_nul (gather me.context.a2 place)) ∷ [])
  unfolding syscall sys_write
  syscall_write_prints place num out short mapped =
      let whole : u32 me.context.a2 ≡ me.context.a2 = omega arith in
      let buffer = read_user_lem me.context.a2 0 me.context.a1 place (omega arith) mapped in
      let lines = text (up_to_nul (gather me.context.a2 place)) ∷ [] in
      (
        clear_sum (print lines (set_sum w)),
        rw (num, out, whole, buffer, lt→ltb me.context.a2 256 short) refl,
        refl,
      )
