-- ===== src/Buddy/Claim.antt =====
-- The step of kernel/mm/buddy.c that hands out a free chunk: it leaves its list and is marked.
use sky_os.Base.{
  ℕ, ◌+◌, ◌^◌, ◌≤◌, ◌<◌, ◌≡◌, ◌≢◌, ◌∙◌, inl, inr, true, List, arith, ◌==◌, Bool-cases, ==_iff, has,
  erase, has-erase_self, has-erase_ne, length-erase, write,
}
use sky_os.Buddy.{BuddyState, buddy_max_order, link_addr, unlink, set_free}
use sky_os.Buddy.Queues.{Rings, del-Rings}
use sky_os.Buddy.Tiles.{extent, Tiled-mem, Tiled-frame}
use sky_os.Buddy.Chunks.{free_pages, free_pages-at}
use sky_os.Buddy.Invariant.{Inv, Inv-Distinct, Inv-nr-le, Refined}

-- Page `p` becomes the first of an allocated chunk of order `k`: its pages were free, the chunks
-- that were allocated stay as they are, and as many pages fewer are free.
pub record Allocated (s : BuddyState) (bs : List ℕ) (k p : ℕ) (s' : BuddyState) : Type 0 where
  pub lists : ℕ → List ℕ
  pub chunks : List ℕ
  pub inv : Inv s' lists chunks
  pub is_chunk : has p chunks ≡ true
  pub order_page : (s'.pages p).order ≡ k
  pub free_page : (s'.pages p).free ≡ 0
  pub was_free :
      (c : ℕ) × (has c bs ≡ true)
      × ((s.pages c).free ≡ 1)
      × (c ≤ p)
      × (p + 2 ^ k ≤ c + extent s.pages c)
  pub refined : Refined s bs s' chunks
  pub fewer : free_pages s'.pages chunks + 2 ^ k ≡ free_pages s.pages bs

-- The state after the chunk at page `p` leaves the free list of order `k`.
abbrev pub claim_state : (k p : ℕ) → BuddyState → BuddyState
claim_state k p s = set_free p 0 (unlink (link_addr p) k s)

module _ {s : BuddyState} {q : ℕ → List ℕ} {bs : List ℕ} (inv : Inv s q bs) (k p : ℕ)
    (hk : k < buddy_max_order) (i : has p bs ≡ true) (order : (s.pages p).order ≡ k)
    (free : (s.pages p).free ≡ 1) where
  abbrev pub claim_lists : ℕ → List ℕ
  claim_lists = write q k (erase (link_addr p) (q k))

  claim_listed : has (link_addr p) (q k) ≡ true
  claim_listed = ground (arith, inv.listed p k hk)

  -- What the claim does to the pages and the counters.
  pub record Claimed (s' : BuddyState) : Type 0 where
    pub order_same : (x : ℕ) → (s'.pages x).order ≡ (s.pages x).order
    pub flag_same : (x : ℕ) → (s'.pages x).flag ≡ (s.pages x).flag
    pub free_now : (s'.pages p).free ≡ 0
    pub same : (x : ℕ) → x ≢ p → s'.pages x ≡ s.pages x
    pub rings : Rings s'.links claim_lists
    pub nr_one : s'.nr k + 1 ≡ s.nr k
    pub nr_same : (o : ℕ) → o ≢ k → s'.nr o ≡ s.nr o

  pub claim_state-Claimed : Claimed (claim_state k p s)
  unfolding unlink
  claim_state-Claimed =
      let some_chunk = length-erase (q k) (link_addr p) claim_listed in
      record {
        order_same = λ x. ground arith;
        flag_same = λ x. ground arith;
        free_now = ground arith;
        same = λ x ne. ground arith;
        rings = del-Rings s.links q inv.rings k hk (link_addr p) claim_listed;
        nr_one = ground (arith, some_chunk, inv.count k hk, Inv-nr-le inv k);
        nr_same = λ o ne. ground arith;
      }

  claim-Inv : (s' : BuddyState) → Claimed s' → Inv s' claim_lists bs
  claim-Inv s' c = record {
    rings = c.rings;
    count = λ o ho. ground (
      arith,
      length-erase (q k) (link_addr p) claim_listed,
      inv.count o ho,
      c.nr_one,
      c.nr_same o,
    );
    listed = λ x o ho. elim (Bool-cases (x == p)) [
      | inl e ↦ rw ((==_iff x p).0 e) (
          ground (
            arith,
            has-erase_self (link_addr p) (q k) (inv.rings.ring k hk).distinct.1,
            inv.listed p o ho,
            c.free_now,
          ))
      | inr ne ↦
          ground
            (arith, has-erase_ne (link_addr x) (link_addr p) (q k), inv.listed x o ho, c.same x)
    ];
    tiled = Tiled-frame s.pages s'.pages 0 bs inv.tiled λ x j.
        let (_, _, chunk) = Tiled-mem s.pages 0 bs x inv.tiled j in
        (c.order_same x, ground (arith, c.order_same x, c.flag_same x, c.free_now, c.same x));
  }

  pub claim-Allocated : (s' : BuddyState) → Claimed s' → Allocated s bs k p s'
  claim-Allocated s' c = record {
    lists = claim_lists;
    chunks = bs;
    inv = claim-Inv s' c;
    is_chunk = i;
    order_page = c.order_same p ∙ order;
    free_page = c.free_now;
    was_free = (p, i, free, omega arith, rw order (omega arith));
    refined = record {
      kept = λ b j f. (j, c.same b (ground arith));
      covered = λ b j f.
          let e : s'.pages b ≡ s.pages b = c.same b (ground (arith, c.free_now)) in
          (b, j, rw (← e) f, omega arith, rw e (omega arith));
    };
    fewer = ground (
      arith,
      free_pages-at s.pages s'.pages bs p (Inv-Distinct inv) i (λ x j ne. c.same x ne),
      free,
      order,
      c.free_now,
      c.order_same p,
    );
  }
