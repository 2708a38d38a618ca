-- ===== src/Buddy/Failures.antt =====
-- Calls of kernel/mm/buddy.c that leave the arrays or give back less memory than was asked for.
use sky_os.Base.{
  ℕ, ◌+◌, ◌-◌, ◌/◌, ◌^◌, ◌<◌, ◌≡◌, refl, true, false, List, arith, ◌==◌, has, u32, ltb, le→ltb,
  lt→ltb,
}
use sky_os.Base.Order.{lt_wf}
use sky_os.Base.Runs.{fault}
use sky_os.Buddy.{
  BuddyState, buddy_max_order, buddy_page_size, npage, pg_tail, size2order, buddy_free_page,
  merge_step, merge_loop, set_free,
}
use sky_os.Buddy.Tiles.{extent, Tiled-mem, pow_pos}
use sky_os.Buddy.Invariant.{Inv}
use sky_os.Buddy.Halving.{get_buddy_page-done}
use sky_os.Buddy.Size.{size2order_loop-small}
use sky_os.Buddy.Release.{release_state, release_state-Listed}

module _ {s : BuddyState} {q : ℕ → List ℕ} {bs : List ℕ} (inv : Inv s q bs) where
  -- In a state with the invariant, freeing an allocated chunk below the highest order that ends
  -- with the memory reads past the end of pages.
  pub free_last-fault :
      (p : ℕ)
      → has p bs ≡ true
      → (s.pages p).free ≡ 0
      → (s.pages p).order < buddy_max_order - 1
      → p + extent s.pages p ≡ npage
      → buddy_free_page p s ≡ fault
  unfolding buddy_free_page merge_loop merge_step
  free_last-fault p i taken below end =
      let k = (s.pages p).order in
      let (_, high, (lt, flag, _)) = Tiled-mem s.pages 0 bs p inv.tiled i in
      let head : ((s.pages p).flag == pg_tail) ≡ false = ground arith in
      let used : ((s.pages p).free == 1) ≡ false = ground arith in
      let low : ltb p npage ≡ true = lt→ltb p npage (omega (arith, pow_pos k)) in
      let read : ((set_free p 1 s).pages p).order ≡ k = ground arith in
      let l = release_state-Listed inv k p lt i refl taken in
      let s1 = release_state k p s in
      let order : (s1.pages p).order ≡ k = l.order_same p in
      rw (low, head, used, read, lt→ltb k buddy_max_order lt)
        (rw (order, lt→ltb k (buddy_max_order - 1) below)
          (rw (get_buddy_page-done p k s1 order lt, le→ltb (p + 2 ^ k) npage (omega arith)) refl))

-- A size from 2 ^ 44 bytes on and below one page more has the order 1: the number of pages does
-- not fit a uint.
pub size2order-wraps : (r : ℕ) → r < buddy_page_size → size2order (2 ^ 44 + r) ≡ 1
unfolding size2order
size2order-wraps r lt =
    let nr_page = u32 ((2 ^ 44 + r) / buddy_page_size) in
    rw (size2order_loop-small nr_page 0 (lt_wf.apply nr_page) (omega arith))
      (rw (lt→ltb 4096 (2 ^ 44 + r) (omega arith)) refl)
