-- ===== src/Buddy/Reach.antt =====
-- Histories of kernel/mm/buddy.c: a boot, then allocations and frees in any order.
use sky_os.Base.{
  ℕ, ◌+◌, ◌*◌, ◌^◌, ◌≤◌, ◌<◌, ◌≡◌, sym, ◌∙◌, ap, true, false, List, [], ◌∷◌, arith, has, erase,
}
use sky_os.Base.Runs.{done, panic}
use sky_os.Buddy.{
  BuddyState, buddy_page_size, npage, buddy_init, buddy_allocate, buddy_free_page, buddy_statistics,
}
use sky_os.Buddy.Tiles.{extent, Tiled-mem, pow_pos}
use sky_os.Buddy.Chunks.{free_pages}
use sky_os.Buddy.Init.{initial_lists, initial_chunks, buddy_init-Inv}
use sky_os.Buddy.Allocate.{buddy_allocate-Outcome}
use sky_os.Buddy.Free.{buddy_free_page-FreeOutcome}
use sky_os.Buddy.Statistics.{buddy_statistics_lem}
use sky_os.Buddy.Owned.{
  Owned, Outcome-done, FreeOutcome-done, allocate-Owned, free-Owned, Owned-disjoint, Owned-fits,
}

-- The states that calls of the allocator lead to, with the pages that were returned and have not
-- been given back.
pub data Reach : BuddyState → List ℕ → Type 0 where
  boot : (s : BuddyState) → Reach (buddy_init s) []
  allocate :
      {s : BuddyState} {live : List ℕ}
      → Reach s live
      → (size : ℕ) {p : ℕ} {s' : BuddyState} → buddy_allocate size s ≡ done (p, s')
      → Reach s' (p ∷ live)
  free :
      {s : BuddyState} {live : List ℕ}
      → Reach s live
      → (p : ℕ) {s' : BuddyState} → has p live ≡ true
      → buddy_free_page p s ≡ done s'
      → Reach s' (erase p live)

pub Reach-Owned : {s : BuddyState} {live : List ℕ} → Reach s live → Owned s live
Reach-Owned (boot s) = record {
  lists = initial_lists;
  chunks = initial_chunks;
  inv = buddy_init-Inv s;
  held = λ p i. cc;
  distinct = tt;
}
Reach-Owned (allocate r size e) = allocate-Owned (Reach-Owned r) size e
Reach-Owned (free r p i e) = free-Owned (Reach-Owned r) p i e

-- In every state that a boot, granted allocations and frees of held pages lead to, the chunks of
-- two pages that callers hold do not overlap, and they lie inside the memory.
pub live_disjoint :
    {s : BuddyState} {live : List ℕ} (h : Reach s live) (p r : ℕ)
    → has p live ≡ true
    → has r live ≡ true
    → p < r
    → (p + extent s.pages p ≤ r) × (r + extent s.pages r ≤ npage)
live_disjoint h p r i j lt = Owned-disjoint (Reach-Owned h) p r i j lt

-- In every state that a history of calls leads to, a request of fewer than 2 ^ 31 bytes that is
-- granted gets a page that nobody holds, and its chunk has at least that many bytes and is marked
-- as allocated.
pub allocate-fits :
    {s : BuddyState} {live : List ℕ} (h : Reach s live) (size : ℕ) {p : ℕ} {s' : BuddyState}
    → size < 2 ^ 31
    → buddy_allocate size s ≡ done (p, s')
    → (has p live ≡ false) × (size ≤ extent s'.pages p * buddy_page_size) × ((s'.pages p).free ≡ 0)
allocate-fits h size small e = Owned-fits (Reach-Owned h) size small e

-- In every state that a history of calls leads to, freeing a held page and then freeing it once
-- more ends in a panic.
pub double_free :
    {s : BuddyState} {live : List ℕ} (h : Reach s live) (p : ℕ) {s' : BuddyState}
    → has p live ≡ true
    → buddy_free_page p s ≡ done s'
    → buddy_free_page p s' ≡ panic
unfolding buddy_free_page
double_free h p {s'} i e =
    let o = Reach-Owned h in
    let (i', f) = o.held p i in
    let a = FreeOutcome-done _ (buddy_free_page-FreeOutcome o.inv p i' f) e in
    let (_, high, (_, flag, _)) = Tiled-mem s'.pages 0 a.chunks p a.inv.tiled a.is_chunk in
    ground (arith, high, flag, a.free_page, pow_pos (s'.pages p).order)

-- In every state that a history of calls leads to, an allocation and the free of the same page, if
-- both return, leave as many free bytes as there were before.
pub statistics-allocate-free :
    {s : BuddyState} {live : List ℕ} (h : Reach s live) (size : ℕ) {p : ℕ} {s1 s2 : BuddyState}
    → buddy_allocate size s ≡ done (p, s1)
    → buddy_free_page p s1 ≡ done s2
    → buddy_statistics s2 ≡ buddy_statistics s
statistics-allocate-free {s} h size {p} {s1} {s2} e e' =
    let o = Reach-Owned h in
    let a = Outcome-done _ (buddy_allocate-Outcome o.inv size) e in
    let r = FreeOutcome-done _ (buddy_free_page-FreeOutcome a.inv p a.is_chunk a.free_page) e' in
    let same : free_pages s2.pages r.chunks ≡ free_pages s.pages o.chunks =
      omega (arith, r.more, a.fewer, ap (λ k. 2 ^ k) a.order_page) in
    buddy_statistics_lem r.inv
    ∙ ap (λ n. buddy_page_size * n) same
    ∙ sym (buddy_statistics_lem o.inv)
