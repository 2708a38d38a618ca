-- ===== src/Buddy/Release.antt =====
-- The start of `buddy_free_page` in kernel/mm/buddy.c: the chunk joins the list of its order.
use sky_os.Base.{
  ℕ, ◌+◌, ◌^◌, ◌<◌, ◌≡◌, ◌≢◌, inl, inr, true, List, [], ◌∷◌, ◌++◌, arith, ◌==◌, Bool-cases, ==_iff,
  has, has-snoc, length-append, write,
}
use sky_os.Buddy.{BuddyState, buddy_max_order, link_addr, append_page, list_page, set_free}
use sky_os.Buddy.Queues.{Rings, append-Rings}
use sky_os.Buddy.Tiles.{Tiled-mem, Tiled-frame}
use sky_os.Buddy.Chunks.{free_pages, free_pages-at}
use sky_os.Buddy.Invariant.{Inv, Inv-Distinct, Inv-nr-le}

-- The state after the chunk at page `p` of order `k` joins its free list.
abbrev pub release_state : (k p : ℕ) → BuddyState → BuddyState
release_state k p s = list_page p k (set_free p 1 s)

module _ {s : BuddyState} {q : ℕ → List ℕ} {bs : List ℕ} (inv : Inv s q bs) (k p : ℕ)
    (hk : k < buddy_max_order) (i : has p bs ≡ true) (order : (s.pages p).order ≡ k)
    (taken : (s.pages p).free ≡ 0) where
  abbrev pub release_lists : ℕ → List ℕ
  release_lists = write q k (q k ++ link_addr p ∷ [])

  -- What the release does to the pages, the free lists and the counters.
  pub record Listed (s' : BuddyState) : Type 0 where
    pub order_same : (x : ℕ) → (s'.pages x).order ≡ (s.pages x).order
    pub flag_same : (x : ℕ) → (s'.pages x).flag ≡ (s.pages x).flag
    pub free_now : (s'.pages p).free ≡ 1
    pub same : (x : ℕ) → x ≢ p → s'.pages x ≡ s.pages x
    pub rings : Rings s'.links release_lists
    pub nr_one : s'.nr k ≡ s.nr k + 1
    pub nr_same : (o : ℕ) → o ≢ k → s'.nr o ≡ s.nr o

  pub release_state-Listed : Listed (release_state k p s)
  unfolding list_page append_page
  release_state-Listed = record {
    order_same = λ x. ground arith;
    flag_same = λ x. ground arith;
    free_now = ground arith;
    same = λ x ne. ground arith;
    rings =
        append-Rings s.links q inv.rings k hk (link_addr p) (omega arith)
          (λ o ho. ground (arith, inv.listed p o ho));
    nr_one = ground (arith, Inv-nr-le inv k hk);
    nr_same = λ o ne. ground arith;
  }

  pub release-Inv : (s' : BuddyState) → Listed s' → Inv s' release_lists bs
  release-Inv s' c = record {
    rings = c.rings;
    count = λ o ho.
        ground
          (arith, length-append (q k) (link_addr p ∷ []), inv.count o ho, c.nr_one, c.nr_same o);
    listed = λ x o ho. elim (Bool-cases (x == p)) [
      | inl e ↦ rw ((==_iff x p).0 e) (
          ground (
            arith,
            has-snoc (link_addr p) (link_addr p) (q k),
            inv.listed p o ho,
            c.order_same p,
            c.free_now,
          ))
      | inr ne ↦
          ground (arith, has-snoc (link_addr x) (link_addr p) (q k), inv.listed x o ho, c.same x)
    ];
    tiled = Tiled-frame s.pages s'.pages 0 bs inv.tiled λ x j.
        let (_, _, chunk) = Tiled-mem s.pages 0 bs x inv.tiled j in
        (c.order_same x, ground (arith, c.order_same x, c.flag_same x, c.free_now, c.same x));
  }

  pub release-free_pages :
      (s' : BuddyState) → Listed s' → free_pages s'.pages bs ≡ free_pages s.pages bs + 2 ^ k
  release-free_pages s' c = ground (
    arith,
    free_pages-at s.pages s'.pages bs p (Inv-Distinct inv) i (λ x j ne. c.same x ne),
    taken,
    order,
    c.free_now,
    c.order_same p,
  )
