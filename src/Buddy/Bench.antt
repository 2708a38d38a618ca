-- ===== src/Buddy/Bench.antt =====
-- The two self tests of kernel/mm/buddy.c, and the outputs recorded for them in
-- docs/buddy_test1_bench.txt and docs/buddy_test2_bench.txt.
use sky_os.Base.{ℕ, List, [], ◌∷◌}
use sky_os.Base.Order.{lt_wf}
use sky_os.Base.Runs.{Run, done, ◌>>=◌}
use sky_os.ListHead.{init_list_head, list_add, list_append, list_del}
use native.Mathlib.Decide.{dec_lt}
use sky_os.Buddy.{
  BuddyState, unlink, append_page, list_page, le2page, buddy_lists_init, clear_pages, init_chunk,
  buddy_pages_init, buddy_init, size2order_loop, size2order, get_buddy_page, add_halves,
  split_chunk, split_step, split_loop, buddy_split, find_order, take_chunk, take_first,
  buddy_allocate, merge_chunks, merge, can_merge, merge_step, merge_loop, buddy_free_page,
  statistics_loop, buddy_statistics,
}

-- The allocator with all its parts, so that one name opens them for a run.
unfoldable pub boot : BuddyState → BuddyState
unfolding buddy_init buddy_lists_init buddy_pages_init clear_pages init_chunk list_page append_page
    init_list_head list_append list_add
boot s = buddy_init s

unfoldable pub allocate : ℕ → BuddyState → Run (ℕ × BuddyState)
unfolding buddy_allocate size2order size2order_loop lt_wf dec_lt find_order take_first take_chunk
    buddy_split split_loop split_step split_chunk get_buddy_page add_halves le2page unlink
    append_page list_append list_add list_del
allocate size s = buddy_allocate size s

unfoldable pub free_page : ℕ → BuddyState → Run BuddyState
unfolding buddy_free_page merge_loop merge_step can_merge get_buddy_page merge merge_chunks
    list_page unlink append_page list_append list_add list_del
free_page p s = buddy_free_page p s

unfoldable pub statistics : BuddyState → ℕ
unfolding buddy_statistics statistics_loop
statistics s = buddy_statistics s

-- The last column that a call of `buddy_statistics` prints.
abbrev counters : BuddyState → List ℕ
counters s =
    let nr = s.nr in
    nr 0
    ∷ nr 1
    ∷ nr 2
    ∷ nr 3
    ∷ nr 4
    ∷ nr 5
    ∷ nr 6
    ∷ nr 7
    ∷ nr 8
    ∷ nr 9
    ∷ nr 10
    ∷ nr 11
    ∷ nr 12
    ∷ nr 13
    ∷ []

abbrev pub Output : Type 0
Output = List (List ℕ)

-- Allocations only.
unfoldable pub buddy_test1 : BuddyState → Run Output
unfolding allocate free_page
buddy_test1 s0 = do
  (p1, s1) ← allocate 4097 s0
  (p2, s2) ← allocate 1 s1
  (p3, s3) ← allocate 4097 s2
  (p4, s4) ← allocate 0x1000 s3
  (p5, s5) ← allocate 0x1000000 s4
  (p6, s6) ← allocate 0x400000 s5
  (p7, s7) ← allocate 0x400000 s6
  (p8, s8) ← allocate 0x400000 s7
  (p9, s9) ← allocate 0x400000 s8
  (p10, s10) ← allocate 0x400000 s9
  (p11, s11) ← allocate 0x400000 s10
  done (
      counters s0
      ∷ counters s1
      ∷ counters s2
      ∷ counters s3
      ∷ counters s4
      ∷ counters s5
      ∷ counters s6
      ∷ counters s7
      ∷ counters s8
      ∷ counters s9
      ∷ counters s10
      ∷ counters s11
      ∷ [])

-- Allocations and frees.
unfoldable pub buddy_test2 : BuddyState → Run Output
unfolding allocate free_page
buddy_test2 s0 = do
  (p1, s1) ← allocate 0x1000 s0
  (p2, s2) ← allocate 0x1000 s1
  s3 ← free_page p2 s2
  s4 ← free_page p1 s3
  (p3, s5) ← allocate 0x1000 s4
  (p4, s6) ← allocate 0x1000 s5
  s7 ← free_page p4 s6
  s8 ← free_page p3 s7
  (p5, s9) ← allocate 0x8000 s8
  (p6, s10) ← allocate 0x8000 s9
  s11 ← free_page p6 s10
  s12 ← free_page p5 s11
  (p7, s13) ← allocate 0x8000 s12
  (p8, s14) ← allocate 0x8000 s13
  s15 ← free_page p7 s14
  s16 ← free_page p8 s15
  done (
      counters s0
      ∷ counters s1
      ∷ counters s2
      ∷ counters s3
      ∷ counters s4
      ∷ counters s5
      ∷ counters s6
      ∷ counters s7
      ∷ counters s8
      ∷ counters s9
      ∷ counters s10
      ∷ counters s11
      ∷ counters s12
      ∷ counters s13
      ∷ counters s14
      ∷ counters s15
      ∷ counters s16
      ∷ [])

-- The counters in docs/buddy_test1_bench.txt.
abbrev pub recorded1 : Output
recorded1 =
    (0 ∷ 0 ∷ 0 ∷ 0 ∷ 0 ∷ 0 ∷ 0 ∷ 0 ∷ 0 ∷ 0 ∷ 0 ∷ 0 ∷ 0 ∷ 2 ∷ [])
    ∷ (0 ∷ 1 ∷ 1 ∷ 1 ∷ 1 ∷ 1 ∷ 1 ∷ 1 ∷ 1 ∷ 1 ∷ 1 ∷ 1 ∷ 1 ∷ 1 ∷ [])
    ∷ (1 ∷ 0 ∷ 1 ∷ 1 ∷ 1 ∷ 1 ∷ 1 ∷ 1 ∷ 1 ∷ 1 ∷ 1 ∷ 1 ∷ 1 ∷ 1 ∷ [])
    ∷ (1 ∷ 1 ∷ 0 ∷ 1 ∷ 1 ∷ 1 ∷ 1 ∷ 1 ∷ 1 ∷ 1 ∷ 1 ∷ 1 ∷ 1 ∷ 1 ∷ [])
    ∷ (0 ∷ 1 ∷ 0 ∷ 1 ∷ 1 ∷ 1 ∷ 1 ∷ 1 ∷ 1 ∷ 1 ∷ 1 ∷ 1 ∷ 1 ∷ 1 ∷ [])
    ∷ (0 ∷ 1 ∷ 0 ∷ 1 ∷ 1 ∷ 1 ∷ 1 ∷ 1 ∷ 1 ∷ 1 ∷ 1 ∷ 1 ∷ 0 ∷ 1 ∷ [])
    ∷ (0 ∷ 1 ∷ 0 ∷ 1 ∷ 1 ∷ 1 ∷ 1 ∷ 1 ∷ 1 ∷ 1 ∷ 0 ∷ 1 ∷ 0 ∷ 1 ∷ [])
    ∷ (0 ∷ 1 ∷ 0 ∷ 1 ∷ 1 ∷ 1 ∷ 1 ∷ 1 ∷ 1 ∷ 1 ∷ 1 ∷ 0 ∷ 0 ∷ 1 ∷ [])
    ∷ (0 ∷ 1 ∷ 0 ∷ 1 ∷ 1 ∷ 1 ∷ 1 ∷ 1 ∷ 1 ∷ 1 ∷ 0 ∷ 0 ∷ 0 ∷ 1 ∷ [])
    ∷ (0 ∷ 1 ∷ 0 ∷ 1 ∷ 1 ∷ 1 ∷ 1 ∷ 1 ∷ 1 ∷ 1 ∷ 1 ∷ 1 ∷ 1 ∷ 0 ∷ [])
    ∷ (0 ∷ 1 ∷ 0 ∷ 1 ∷ 1 ∷ 1 ∷ 1 ∷ 1 ∷ 1 ∷ 1 ∷ 0 ∷ 1 ∷ 1 ∷ 0 ∷ [])
    ∷ (0 ∷ 1 ∷ 0 ∷ 1 ∷ 1 ∷ 1 ∷ 1 ∷ 1 ∷ 1 ∷ 1 ∷ 1 ∷ 0 ∷ 1 ∷ 0 ∷ [])
    ∷ []

-- The counters in docs/buddy_test2_bench.txt.
abbrev pub recorded2 : Output
recorded2 =
    (0 ∷ 0 ∷ 0 ∷ 0 ∷ 0 ∷ 0 ∷ 0 ∷ 0 ∷ 0 ∷ 0 ∷ 0 ∷ 0 ∷ 0 ∷ 2 ∷ [])
    ∷ (1 ∷ 1 ∷ 1 ∷ 1 ∷ 1 ∷ 1 ∷ 1 ∷ 1 ∷ 1 ∷ 1 ∷ 1 ∷ 1 ∷ 1 ∷ 1 ∷ [])
    ∷ (0 ∷ 1 ∷ 1 ∷ 1 ∷ 1 ∷ 1 ∷ 1 ∷ 1 ∷ 1 ∷ 1 ∷ 1 ∷ 1 ∷ 1 ∷ 1 ∷ [])
    ∷ (1 ∷ 1 ∷ 1 ∷ 1 ∷ 1 ∷ 1 ∷ 1 ∷ 1 ∷ 1 ∷ 1 ∷ 1 ∷ 1 ∷ 1 ∷ 1 ∷ [])
    ∷ (0 ∷ 0 ∷ 0 ∷ 0 ∷ 0 ∷ 0 ∷ 0 ∷ 0 ∷ 0 ∷ 0 ∷ 0 ∷ 0 ∷ 0 ∷ 2 ∷ [])
    ∷ (1 ∷ 1 ∷ 1 ∷ 1 ∷ 1 ∷ 1 ∷ 1 ∷ 1 ∷ 1 ∷ 1 ∷ 1 ∷ 1 ∷ 1 ∷ 1 ∷ [])
    ∷ (0 ∷ 1 ∷ 1 ∷ 1 ∷ 1 ∷ 1 ∷ 1 ∷ 1 ∷ 1 ∷ 1 ∷ 1 ∷ 1 ∷ 1 ∷ 1 ∷ [])
    ∷ (1 ∷ 1 ∷ 1 ∷ 1 ∷ 1 ∷ 1 ∷ 1 ∷ 1 ∷ 1 ∷ 1 ∷ 1 ∷ 1 ∷ 1 ∷ 1 ∷ [])
    ∷ (0 ∷ 0 ∷ 0 ∷ 0 ∷ 0 ∷ 0 ∷ 0 ∷ 0 ∷ 0 ∷ 0 ∷ 0 ∷ 0 ∷ 0 ∷ 2 ∷ [])
    ∷ (0 ∷ 0 ∷ 0 ∷ 1 ∷ 1 ∷ 1 ∷ 1 ∷ 1 ∷ 1 ∷ 1 ∷ 1 ∷ 1 ∷ 1 ∷ 1 ∷ [])
    ∷ (0 ∷ 0 ∷ 0 ∷ 0 ∷ 1 ∷ 1 ∷ 1 ∷ 1 ∷ 1 ∷ 1 ∷ 1 ∷ 1 ∷ 1 ∷ 1 ∷ [])
    ∷ (0 ∷ 0 ∷ 0 ∷ 1 ∷ 1 ∷ 1 ∷ 1 ∷ 1 ∷ 1 ∷ 1 ∷ 1 ∷ 1 ∷ 1 ∷ 1 ∷ [])
    ∷ (0 ∷ 0 ∷ 0 ∷ 0 ∷ 0 ∷ 0 ∷ 0 ∷ 0 ∷ 0 ∷ 0 ∷ 0 ∷ 0 ∷ 0 ∷ 2 ∷ [])
    ∷ (0 ∷ 0 ∷ 0 ∷ 1 ∷ 1 ∷ 1 ∷ 1 ∷ 1 ∷ 1 ∷ 1 ∷ 1 ∷ 1 ∷ 1 ∷ 1 ∷ [])
    ∷ (0 ∷ 0 ∷ 0 ∷ 0 ∷ 1 ∷ 1 ∷ 1 ∷ 1 ∷ 1 ∷ 1 ∷ 1 ∷ 1 ∷ 1 ∷ 1 ∷ [])
    ∷ (0 ∷ 0 ∷ 0 ∷ 1 ∷ 1 ∷ 1 ∷ 1 ∷ 1 ∷ 1 ∷ 1 ∷ 1 ∷ 1 ∷ 1 ∷ 1 ∷ [])
    ∷ (0 ∷ 0 ∷ 0 ∷ 2 ∷ 1 ∷ 1 ∷ 1 ∷ 1 ∷ 1 ∷ 1 ∷ 1 ∷ 1 ∷ 1 ∷ 1 ∷ [])
    ∷ []
