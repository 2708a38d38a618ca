-- ===== src/Pmm/Handed.antt =====
-- kalloc of kernel/mm/pmm.c hands out no address twice.
use sky_os.Base.{
  inl, inr, ◌*◌, ◌≢◌, Bool-cases, ltb, ltb→lt, ℕ, ◌+◌, ◌^◌, ◌≤◌, ◌≡◌, refl, subst, true, List, [],
  ◌∷◌, arith, has, Distinct, ◌%◌, ◌<◌,
}
use sky_os.Base.Runs.{done, >>=-eq-done, done_injective}
use sky_os.Vms.{pgsize}
use sky_os.Vms.Entries.{IsPage}
use sky_os.Vms.Ledger.{Ledger}
use sky_os.Buddy.{BuddyState, buddy_allocate}
use sky_os.Buddy.Tiles.{extent}
use sky_os.Buddy.Owned.{Owned, allocate-Owned, Owned-disjoint, Owned-fits, allocate-held}
use sky_os.Buddy.Reach.{Reach, Reach-Owned}
use sky_os.Pmm.{pmm_init, pgaddr, request, kalloc}
use sky_os.Pmm.Pages.{pgaddr_lem, pgaddr-IsPage, live-high}

-- The byte at `b` is in the memory of a page that somebody holds.
pub record HeldAt (pmm_start : ℕ) (s : BuddyState) (b : ℕ) : Type 0 where
  pub page : ℕ
  pub owned : Owned s (page ∷ [])
  pub from : pgaddr pmm_start page ≤ b
  pub to : b < pgaddr pmm_start page + extent s.pages page * pgsize

Owned-some :
    {s : BuddyState} {live : List ℕ} (some_pages : List ℕ)
    → Distinct some_pages
    → ((p : ℕ) → has p some_pages ≡ true → has p live ≡ true)
    → Owned s live
    → Owned s some_pages
Owned-some some_pages d sub o = record {
  lists = o.lists;
  chunks = o.chunks;
  inv = o.inv;
  held = λ p i. o.held p (sub p i);
  distinct = d;
}

pub pmm_init-Owned : (s : BuddyState) → Owned (pmm_init s) []
unfolding pmm_init
pmm_init-Owned s = Reach-Owned (Reach.boot s)

module _ (pmm_start : ℕ) (aligned : pmm_start % pgsize ≡ 0)
    (low : pmm_start + 2 ^ 26 ≤ 2 ^ 52) where
  module _ {s : BuddyState} (o : Owned s []) (size : ℕ) {p : ℕ} {s' : BuddyState}
      (got : buddy_allocate (request size) s ≡ done (p, s')) where
    abbrev o1 : Owned s' (p ∷ [])
    o1 = allocate-Owned o (request size) got

    HeldAt-kept : (b : ℕ) → HeldAt pmm_start s b → HeldAt pmm_start s' b
    HeldAt-kept b h =
        let o2 = allocate-Owned h.owned (request size) got in
        let same = allocate-held h.owned (request size) got h.page (ground arith) in
        record {
          page = h.page;
          owned = Owned-some (h.page ∷ []) h.owned.distinct (λ q i. ground (arith, i)) o2;
          from = h.from;
          to = rw same h.to;
        }

    -- The chunks of the new page and of one that was held are apart.
    HeldAt-fresh :
        (b : ℕ)
        → pgaddr pmm_start p ≤ b
        → b < pgaddr pmm_start p + extent s'.pages p * pgsize
        → ¬ HeldAt pmm_start s b
    HeldAt-fresh b low_b high_b h =
        let q = h.page in
        let o2 = allocate-Owned h.owned (request size) got in
        let same : extent s'.pages q ≡ extent s.pages q =
          rw (allocate-held h.owned (request size) got q (ground arith)) refl in
        let at_p = pgaddr_lem pmm_start aligned low p (live-high pmm_start aligned low o1).0 in
        let at_q = pgaddr_lem pmm_start aligned low q (live-high pmm_start aligned low h.owned).0 in
        elim (Bool-cases (ltb p q)) [
          | inl lt ↦
              let (apart, _) =
                Owned-disjoint o2 p q (ground arith) (ground arith) (ltb→lt p q lt) in
              omega (arith, apart, at_p, at_q, h.from)
          | inr ge ↦
              let ne : p ≢ q = ground (arith, o2.distinct.0) in
              let (apart, _) =
                Owned-disjoint o2 q p (ground arith) (ground arith) (ground (arith, ge, ne)) in
              omega (arith, apart, at_p, at_q, h.to, same)
        ]

    granted :
        size < 2 ^ 31
        → IsPage (pgaddr pmm_start p)
          × (pgaddr pmm_start p + size ≤ 2 ^ 52)
          × ((x : ℕ)
              → x < size
              → (¬ HeldAt pmm_start s (pgaddr pmm_start p + x))
                × HeldAt pmm_start s' (pgaddr pmm_start p + x))
    granted small =
        let (lt, high) = live-high pmm_start aligned low o1 in
        let at = pgaddr_lem pmm_start aligned low p lt in
        let (_, fits, _) = Owned-fits o (request size) (ground arith) got in
        let enough : size ≤ extent s'.pages p * pgsize = ground (arith, fits) in
        (
          pgaddr-IsPage pmm_start aligned low p lt,
          omega (arith, at, high, enough),
          λ x below. (
            HeldAt-fresh (pgaddr pmm_start p + x) (omega arith) (omega (arith, enough)),
            record { page = p; owned = o1; from = omega arith; to = omega (arith, enough) },
          ),
        )

  pub keeps :
      (size : ℕ) {s : BuddyState} {a : ℕ} {s' : BuddyState}
      → Owned s []
      → kalloc pmm_start size s ≡ done (a, s')
      → Owned s' [] × ((b : ℕ) → HeldAt pmm_start s b → HeldAt pmm_start s' b)
  unfolding kalloc
  keeps size {s} o run =
      let ((p, s1), got, last) = >>=-eq-done (buddy_allocate (request size) s) _ run in
      subst
        (λ (x : ℕ × BuddyState).
          Owned x.1 [] × ((b : ℕ) → HeldAt pmm_start s b → HeldAt pmm_start x.1 b))
        (done_injective last) (Owned-some [] tt (λ q i. cc) (o1 o size got), HeldAt-kept o size got)

  -- The buddy allocator is an allocator as the ledger of the page tables asks for it: where the
  -- memory behind the kernel starts at a page and lies below 2 ^ 52 and the state is a valid one,
  -- a request of fewer than 2 ^ 31 bytes that kalloc grants gets an aligned address below 2 ^ 52,
  -- no byte of it was held by anybody, and all of them are held afterwards.
  pub kalloc-HeldAt :
      (size : ℕ) {s : BuddyState} {a : ℕ} {s' : BuddyState}
      → size < 2 ^ 31
      → Owned s []
      → kalloc pmm_start size s ≡ done (a, s')
      → IsPage a
        × (a + size ≤ 2 ^ 52)
        × ((x : ℕ) → x < size → (¬ HeldAt pmm_start s (a + x)) × HeldAt pmm_start s' (a + x))
  unfolding kalloc
  kalloc-HeldAt size {s} small o run =
      let ((p, s1), got, last) = >>=-eq-done (buddy_allocate (request size) s) _ run in
      subst
        (λ (x : ℕ × BuddyState).
          IsPage x.0
          × (x.0 + size ≤ 2 ^ 52)
          × ((i : ℕ)
              → i < size
              → (¬ HeldAt pmm_start s (x.0 + i)) × HeldAt pmm_start x.1 (x.0 + i)))
        (done_injective last) (granted o size got small)

  abbrev pub buddy_ledger : Ledger (kalloc pmm_start)
  buddy_ledger = record {
    Valid = λ s. Owned s [];
    Held = HeldAt pmm_start;
    keeps = keeps;
    grants = kalloc-HeldAt;
  }
