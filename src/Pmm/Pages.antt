-- ===== src/Pmm/Pages.antt =====
-- What kalloc of kernel/mm/pmm.c returns, and the buddy allocator as the allocator of the page
-- tables.
use sky_os.Base.{
  ℕ, ◌+◌, ◌*◌, ◌%◌, ◌^◌, ◌≤◌, ◌<◌, ◌≡◌, refl, ap, subst, false, List, ◌∷◌, arith, has,
}
use sky_os.Base.Runs.{Run, done, panic, fault, out_of_fuel, ◌>>=◌, result, >>=-eq-done}
use sky_os.Vms.{pgsize}
use sky_os.Vms.Entries.{IsPage}
use sky_os.Vms.Kalloc.{Kalloc}
use sky_os.Buddy.{BuddyState, npage, buddy_allocate}
use sky_os.Buddy.Tiles.{extent, Tiled-mem, pow_pos}
use sky_os.Buddy.Owned.{Owned}
use sky_os.Buddy.Reach.{Reach, Reach-Owned, allocate-fits}
use sky_os.Pmm.{pgaddr, request, kalloc}

-- A state of the allocator with a history that leads to it.
pub record History : Type 0 where
  pub buddy : BuddyState
  pub live : List ℕ
  pub reach : Reach buddy live

module _ (pmm_start : ℕ) (h : History) where
  unfoldable pub next_history :
      (r : Run (ℕ × BuddyState)) → buddy_allocate (request pgsize) h.buddy ≡ r → Run (ℕ × History)
  next_history (done (p, s')) e = done (
    pgaddr pmm_start p,
    record { buddy = s'; live = p ∷ h.live; reach = Reach.allocate h.reach (request pgsize) e },
  )
  next_history panic e = panic
  next_history fault e = fault
  next_history out_of_fuel e = out_of_fuel

  -- `kalloc(PGSIZE)`, with the history that it extends.
  unfoldable pub kalloc_page : Run (ℕ × History)
  kalloc_page = next_history (buddy_allocate (request pgsize) h.buddy) refl

-- What a run with histories does to the pages.
abbrev pub forget : Run (ℕ × History) → Run (ℕ × BuddyState)
forget r = let drop : ℕ × History → Run (ℕ × BuddyState) = λ x. done (x.0, x.1.buddy) in r >>= drop

module _ (pmm_start : ℕ) (aligned : pmm_start % pgsize ≡ 0)
    (low : pmm_start + 2 ^ 26 ≤ 2 ^ 52) where
  pub pgaddr_lem : (p : ℕ) → p < npage → pgaddr pmm_start p ≡ pmm_start + p * pgsize
  unfolding pgaddr
  pgaddr_lem p lt = omega arith

  pub pgaddr-IsPage : (p : ℕ) → p < npage → IsPage (pgaddr pmm_start p)
  pgaddr-IsPage p lt = rw (pgaddr_lem p lt) (omega arith, omega arith)

  -- A page that somebody holds lies in the memory, with its whole chunk.
  pub live-high :
      {s : BuddyState} {p : ℕ} {live : List ℕ}
      → Owned s (p ∷ live)
      → (p < npage) × (p + extent s.pages p ≤ npage)
  live-high {s} {p} {live} o =
      let (i, _) = o.held p (ground arith) in
      let (_, high, _) = Tiled-mem s.pages 0 o.chunks p o.inv.tiled i in
      (omega (arith, high, pow_pos (s.pages p).order), high)

  -- Where the memory behind the kernel starts at a page and lies below 2 ^ 52, and after any
  -- history of calls, the memory that kalloc returns for a request below 2 ^ 31 bytes starts at a
  -- page that nobody held, has at least that many bytes, and lies inside the 64 MB behind the
  -- kernel.
  pub kalloc-inside :
      {s : BuddyState} {live : List ℕ} (h : Reach s live) (size : ℕ) {a : ℕ} {s' : BuddyState}
      → size < 2 ^ 31
      → kalloc pmm_start size s ≡ done (a, s')
      → (p : ℕ) × Reach s' (p ∷ live)
        × (has p live ≡ false)
        × (a ≡ pmm_start + p * pgsize)
        × (size ≤ extent s'.pages p * pgsize)
        × (a + extent s'.pages p * pgsize ≤ pmm_start + 2 ^ 26)
  unfolding kalloc
  kalloc-inside {s} {live} h size {a} {s'} small run =
      let ((p, s1), got, last) = >>=-eq-done (buddy_allocate (request size) s) _ run in
      let same = ap (result {A = ℕ × BuddyState} (a, s')) last in
      let h1 = Reach.allocate h (request size) got in
      let (lt, high) = live-high (Reach-Owned h1) in
      let (fresh, fits, _) = allocate-fits h (request size) (ground arith) got in
      let enough : size ≤ extent s1.pages p * pgsize = ground (arith, fits) in
      let at = pgaddr_lem p lt in
      subst
        (λ (x : ℕ × BuddyState).
          (p : ℕ) × Reach x.1 (p ∷ live)
          × (has p live ≡ false)
          × (x.0 ≡ pmm_start + p * pgsize)
          × (size ≤ extent x.1.pages p * pgsize)
          × (x.0 + extent x.1.pages p * pgsize ≤ pmm_start + 2 ^ 26))
        same (p, h1, fresh, at, enough, omega (arith, at, high))

  next_history-IsPage :
      (h : History) (r : Run (ℕ × BuddyState)) (e : buddy_allocate (request pgsize) h.buddy ≡ r)
      {a : ℕ} {h' : History}
      → next_history pmm_start h r e ≡ done (a, h')
      → IsPage a
  unfolding next_history
  next_history-IsPage h (done (p, s')) e {a} {h'} run =
      let (lt, _) = live-high (Reach-Owned (Reach.allocate h.reach (request pgsize) e)) in
      subst IsPage (ap (λ (r : Run (ℕ × History)). (result {A = ℕ × History} (a, h') r).0) run)
        (pgaddr-IsPage p lt)
  next_history-IsPage h panic e run = cc
  next_history-IsPage h fault e run = cc
  next_history-IsPage h out_of_fuel e run = cc

  pub kalloc_page-IsPage :
      (h : History) (a : ℕ) (h' : History) → kalloc_page pmm_start h ≡ done (a, h') → IsPage a
  unfolding kalloc_page
  kalloc_page-IsPage h a h' run =
      next_history-IsPage h (buddy_allocate (request pgsize) h.buddy) refl run

  -- The buddy allocator is an allocator for the page tables.
  abbrev pub buddy_kalloc : Kalloc
  buddy_kalloc = record {
    State = History;
    kalloc_page = kalloc_page pmm_start;
    Valid = λ h. Unit;
    kalloc_IsPage = λ h t h' ok. kalloc_page-IsPage h t h';
    kalloc_Valid = λ h t h' ok got. tt;
  }

next_history-buddy :
    (pmm_start : ℕ) (h : History) (r : Run (ℕ × BuddyState))
    (e : buddy_allocate (request pgsize) h.buddy ≡ r)
    → forget (next_history pmm_start h r e) ≡ (
        let at : ℕ × BuddyState → Run (ℕ × BuddyState) = λ x. done (pgaddr pmm_start x.0, x.1) in
        r >>= at)
unfolding next_history
next_history-buddy pmm_start h (done (p, s')) e = refl
next_history-buddy pmm_start h panic e = refl
next_history-buddy pmm_start h fault e = refl
next_history-buddy pmm_start h out_of_fuel e = refl

-- The buddy allocator as the interface of the page tables sees it, with the history of calls left
-- out, is kalloc(PGSIZE).
pub kalloc_page-forget :
    (pmm_start : ℕ) (h : History)
    → forget (kalloc_page pmm_start h) ≡ kalloc pmm_start pgsize h.buddy
unfolding kalloc_page kalloc
kalloc_page-forget pmm_start h =
    next_history-buddy pmm_start h (buddy_allocate (request pgsize) h.buddy) refl
