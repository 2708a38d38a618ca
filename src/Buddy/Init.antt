-- ===== src/Buddy/Init.antt =====
-- `buddy_init` in kernel/mm/buddy.c: the chunks and lists after the boot.
use sky_os.Base.{
  ℕ, zero, suc, ◌-◌, ◌<◌, ◌≡◌, refl, inl, inr, false, List, [], ◌∷◌, ◌++◌, arith, ◌==◌, Bool-cases,
  ==_iff, write,
}
use sky_os.ListHead.{Links, init_list_head}
use sky_os.ListHead.Ring.{IsRing, Agree, IsRing-frame, init_list_head-IsRing}
use sky_os.Buddy.{
  BuddyState, buddy_max_order, buddy_max_order_nr_pages, head_addr, link_addr, append_page,
  list_page, buddy_lists_init, clear_pages, init_chunk, buddy_pages_init, buddy_init,
}
use sky_os.Buddy.Queues.{Rings, append-Rings}
use sky_os.Buddy.Invariant.{Inv}

-- `init_list_head` leaves the other rings alone.
init_list_head-Agree : (l : Links) (h k : ℕ) → (k == h) ≡ false → Agree l (init_list_head h l) k []
unfolding init_list_head
init_list_head-Agree l h k ne a i = ground arith

buddy_lists_init-IsRing :
    (n : ℕ) (s : BuddyState) (o : ℕ)
    → o < n
    → IsRing (buddy_lists_init n s).links (head_addr o) [] × ((buddy_lists_init n s).nr o ≡ 0)
unfolding buddy_lists_init
buddy_lists_init-IsRing zero s o lt = absurd (omega arith)
buddy_lists_init-IsRing (suc n) s o lt = elim (Bool-cases (o == n)) [
  | inl e ↦
      let same : o ≡ n = (==_iff o n).0 e in
      (rw same (init_list_head-IsRing _ (head_addr n)), ground arith)
  | inr ne ↦
      let (r, zero_nr) = buddy_lists_init-IsRing n s o (ground arith) in
      (
        IsRing-frame _ _ (head_addr o) [] r
            (init_list_head-Agree _ (head_addr n) (head_addr o) (ground arith)),
        ground (arith, zero_nr),
      )
]

-- The heads of the free lists are not in `pages`, so clearing pages leaves the lists alone.
clear_pages-Agree :
    (s : BuddyState) (o : ℕ)
    → o < buddy_max_order
    → Agree s.links (clear_pages s).links (head_addr o) []
unfolding clear_pages
clear_pages-Agree s o ho a i = ground arith

abbrev pub initial_lists : ℕ → List ℕ
initial_lists =
    let q1 = write (λ o. []) (buddy_max_order - 1) ([] ++ link_addr 0 ∷ []) in
    write q1 (buddy_max_order - 1)
      (q1 (buddy_max_order - 1) ++ link_addr buddy_max_order_nr_pages ∷ [])

abbrev pub initial_chunks : List ℕ
initial_chunks = 0 ∷ buddy_max_order_nr_pages ∷ []

module _ (s : BuddyState) where
  cleared : BuddyState
  cleared = clear_pages (buddy_lists_init buddy_max_order s)

  cleared-nr : (o : ℕ) → o < buddy_max_order → cleared.nr o ≡ 0
  unfolding cleared clear_pages
  cleared-nr o ho = (buddy_lists_init-IsRing buddy_max_order s o ho).1

  cleared-Rings : Rings cleared.links (λ o. [])
  unfolding cleared
  cleared-Rings = record {
    ring = λ o ho.
        IsRing-frame _ _ (head_addr o) [] (buddy_lists_init-IsRing buddy_max_order s o ho).0
          (clear_pages-Agree _ o ho);
    above = λ o a ho i. cc;
    apart = λ o k a ho hk i j. cc;
  }

  initial-Rings : Rings (buddy_init s).links initial_lists
  unfolding buddy_init buddy_pages_init init_chunk list_page append_page cleared
  initial-Rings =
      let top : buddy_max_order - 1 < buddy_max_order = omega arith in
      let r1 =
        append-Rings _ _ cleared-Rings (buddy_max_order - 1) top (link_addr 0) (omega arith)
          (λ k hk. refl) in
      append-Rings _ _ r1 (buddy_max_order - 1) top (link_addr buddy_max_order_nr_pages)
        (omega arith) (λ k hk. ground arith)

  -- After buddy_init, whatever the memory held before, the two halves of the memory are free
  -- chunks of the highest order and the invariant holds.
  pub buddy_init-Inv : Inv (buddy_init s) initial_lists initial_chunks
  unfolding buddy_init buddy_pages_init init_chunk list_page cleared append_page
  buddy_init-Inv = record {
    rings = initial-Rings;
    count = λ o ho. ground (arith, cleared-nr o ho);
    listed = λ p o ho. ground arith;
    tiled =
        (refl, (omega arith, refl, omega arith), (refl, (omega arith, refl, omega arith), refl));
  }
