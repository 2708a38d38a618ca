-- ===== src/Process/Fresh.antt =====
-- `alloc_process` of kernel/proc/sched.c and the memory that others hold.
use sky_os.Base.{
  ℕ, ◌+◌, ◌-◌, ◌≡◌, refl, subst, inl, inr, false, true, arith, Bool-cases, leb, ltb, ◌&&◌,
}
use sky_os.Base.Runs.{Run, done, >>=-eq-done, done_injective, require-done}
use sky_os.Vms.{pgsize, valid}
use sky_os.Vms.Ledger.{Ledger}
use sky_os.Vms.Walk.{IsClean}
use sky_os.Sched.{alloc_pid}
use sky_os.Process.{
  World, align, clear_table, alloc_pgtable, alloc_process, start_task, finish_task,
}
use sky_os.Process.Memory.{Later}

valid-zero : valid 0 ≡ false
unfolding valid
valid-zero = refl

module _ {S : Type 0} {kalloc : ℕ → S → Run (ℕ × S)} (l : Ledger kalloc) where
  open l use {Valid, Held, keeps, grants}

  -- Memory that nobody holds has no valid entry.
  abbrev pub Blank : World S → Type 0
  Blank w = (a : ℕ) → ¬ Held w.heap a → valid (w.words a) ≡ false

  alloc_pgtable-Later :
      (w : World S) {t : ℕ} {w' : World S}
      → Valid w.heap
      → IsClean w.words
      → Blank w
      → alloc_pgtable kalloc w ≡ done (t, w')
      → Later l w w'
  unfolding alloc_pgtable
  alloc_pgtable-Later w ok clean blank run =
      let ((t, heap), got, run1) = >>=-eq-done (kalloc pgsize w.heap) _ run in
      let (even, run2) = require-done (align t) _ run1 in
      let (ok1, kept) = keeps pgsize ok got in
      let (page, high, fresh) = grants pgsize (omega arith) ok got in
      let cleared = clear_table t w.words in
      let outside : (a : ℕ) → valid (w.words a) ≡ true → (leb t a && ltb a (t + pgsize)) ≡ false =
        λ a v. elim (Bool-cases (leb t a && ltb a (t + pgsize))) [
          | inr out ↦ out
          | inl in_it ↦
              let e : t + (a - t) ≡ a = ground (arith, in_it) in
              let f = blank a (λ h. (fresh (a - t) (ground (arith, in_it))).0 (rw e h)) in cc
        ] in
      let cleared_clean : IsClean cleared = λ a v.
        elim (Bool-cases (leb t a && ltb a (t + pgsize))) [
          | inl in_it ↦ cc (valid-zero, rw in_it at v)
          | inr out ↦ rw out (clean a (rw out at v))
        ] in
      subst (λ (x : ℕ × World S). Later l w x.1) (done_injective run2)
        (record {
          valid = ok1;
          clean = λ a v. elim (Bool-cases (leb t a && ltb a (t + pgsize))) [
            | inl in_it ↦ rw in_it (cleared_clean (w.k_pgtable + (a - t)) (rw in_it at v))
            | inr out ↦ rw out (clean a (rw out at v))
          ];
          extends = λ a v. rw (outside a v) refl;
          held = kept;
          bytes = λ b h. refl;
          machine = refl;
        })

  pub alloc_process-Later :
      (w : World S) {p : ℕ} {w' : World S}
      → Valid w.heap
      → IsClean w.words
      → Blank w
      → alloc_process kalloc w ≡ done (p, w')
      → Later l w w'
  unfolding alloc_process finish_task
  alloc_process-Later w ok clean blank run =
      let ((i, k), got, run1) = >>=-eq-done (alloc_pid w.kernel) _ run in
      let ((t, w1), table, run2) =
        >>=-eq-done (alloc_pgtable kalloc (record w { kernel = start_task i k })) _ run1 in
      let s = alloc_pgtable-Later (record w { kernel = start_task i k }) ok clean blank table in
      subst (λ (x : ℕ × World S). Later l w x.1) (done_injective run2)
        (record {
          valid = s.valid;
          clean = s.clean;
          extends = s.extends;
          held = s.held;
          bytes = s.bytes;
          machine = s.machine;
        })
