-- ===== src/Buddy/Coalesce.antt =====
-- The loop of `buddy_free_page` in kernel/mm/buddy.c: a free chunk merges with those to its right.
use sky_os.Base.{
  ℕ, zero, suc, ◌+◌, ◌-◌, ◌^◌, ◌≤◌, ◌<◌, ◌≡◌, refl, ◌∙◌, ap, inl, inr, true, List, arith, Option,
  none, some, Bool-cases, dec_lt, has, has-erase_ne, lt→ltb, le→ltb,
}
use sky_os.Base.Runs.{Run, done, fault, ◌>>=◌}
use sky_os.Buddy.{BuddyState, buddy_max_order, npage, pg_head, can_merge, merge_step, merge_loop}
use sky_os.Buddy.Tiles.{Tiled-mem}
use sky_os.Buddy.Chunks.{free_pages, Tiled-next}
use sky_os.Buddy.Invariant.{Inv}
use sky_os.Buddy.Halving.{get_buddy_page-done}
use sky_os.Buddy.Merging.{
  Mergeable, merge_state, merge_state-Merged, merge-done, merged_lists, merged_chunks, merged-Inv,
  merged-first, merged-free_pages,
}

-- From a state with page `p` first in a free chunk the code goes on to a state with the invariant:
-- allocated chunks stay as they are, page `p` is first in a free chunk of order `k` or more, and
-- the number of free pages is the same.
pub record Coalesced (s : BuddyState) (bs : List ℕ) (k p : ℕ) (s' : BuddyState) : Type 0 where
  pub lists : ℕ → List ℕ
  pub chunks : List ℕ
  pub inv : Inv s' lists chunks
  pub is_chunk : has p chunks ≡ true
  pub order_page : k ≤ (s'.pages p).order
  pub free_page : (s'.pages p).free ≡ 1
  pub kept :
      (b : ℕ)
      → has b bs ≡ true
      → (s.pages b).free ≡ 0
      → (has b chunks ≡ true) × (s'.pages b ≡ s.pages b)
  pub same_free : free_pages s'.pages chunks ≡ free_pages s.pages bs

-- The end of the loop of merges.
pub data MergeOutcome (s : BuddyState) (bs : List ℕ) (k p : ℕ) : Run BuddyState → Type 0 where
  merged : {s' : BuddyState} → Coalesced s bs k p s' → MergeOutcome s bs k p (done s')
  -- The chunk grew up to the end of memory: the code reads `pages[npage]`.
  past_end :
      (j : ℕ) → k ≤ j → suc j < buddy_max_order → p + 2 ^ j ≡ npage → MergeOutcome s bs k p fault

Coalesced-refl :
    {s : BuddyState} {q : ℕ → List ℕ} {bs : List ℕ} (k p : ℕ)
    → Inv s q bs
    → has p bs ≡ true
    → (s.pages p).order ≡ k
    → (s.pages p).free ≡ 1
    → Coalesced s bs k p s
Coalesced-refl {q} {bs} k p inv i order free = record {
  lists = q;
  chunks = bs;
  inv = inv;
  is_chunk = i;
  order_page = omega arith;
  free_page = free;
  kept = λ b j f. (j, refl);
  same_free = refl;
}

module _ {s : BuddyState} {q : ℕ → List ℕ} {bs : List ℕ} (inv : Inv s q bs) (k p n : ℕ)
    (m : Mergeable s bs k p n) where
  after_merge :
      {s2 : BuddyState}
      → Coalesced (merge_state inv k p n m) (merged_chunks inv k p n m) (suc k) p s2
      → Coalesced s bs k p s2
  after_merge c =
      let h = merge_state-Merged inv k p n m in
      record {
        lists = c.lists;
        chunks = c.chunks;
        inv = c.inv;
        is_chunk = c.is_chunk;
        order_page = omega (arith, c.order_page);
        free_page = c.free_page;
        kept = λ b j f.
            let e = h.same b (ground (arith, m.free_first)) (ground (arith, m.free_second)) in
            let j' : has b (merged_chunks inv k p n m) ≡ true =
              ground (arith, has-erase_ne b n bs, m.free_second) in
            let (j2, e2) = c.kept b j' (rw e f) in (j2, e2 ∙ e);
        same_free = c.same_free ∙ merged-free_pages inv k p n m _ h;
      }

  MergeOutcome-later :
      {r : Run BuddyState}
      → MergeOutcome (merge_state inv k p n m) (merged_chunks inv k p n m) (suc k) p r
      → MergeOutcome s bs k p r
  MergeOutcome-later (merged c) = merged (after_merge c)
  MergeOutcome-later (past_end j le lt e) = past_end j (omega arith) lt e

can_merge→ :
    (p n : ℕ) (s : BuddyState)
    → can_merge p n s ≡ true
    → ((s.pages n).order ≡ (s.pages p).order) × ((s.pages n).free ≡ 1)
unfolding can_merge
can_merge→ p n s e = ground arith

-- One turn of the loop: the end, a merge, or an access past `pages`.
data Turn (s : BuddyState) (bs : List ℕ) (k p : ℕ) : Run (Option BuddyState) → Type 0 where
  stop : Turn s bs k p (done none)
  join :
      {q : ℕ → List ℕ} (inv : Inv s q bs) (n : ℕ) (m : Mergeable s bs k p n)
      → Turn s bs k p (done (some (merge_state inv k p n m)))
  edge : suc k < buddy_max_order → p + 2 ^ k ≡ npage → Turn s bs k p fault

module _ {s : BuddyState} {q : ℕ → List ℕ} {bs : List ℕ} (inv : Inv s q bs) (k p : ℕ)
    (i : has p bs ≡ true) (order : (s.pages p).order ≡ k) (free : (s.pages p).free ≡ 1) where
  merge_step-Turn : Turn s bs k p (merge_step p s)
  unfolding merge_step
  merge_step-Turn = elim (dec_lt k (buddy_max_order - 1)) [
    | no top ↦ rw (order, le→ltb k (buddy_max_order - 1) (omega arith)) stop
    | yes below ↦
        let n = p + 2 ^ k in
        let (_, high, _) = Tiled-mem s.pages 0 bs p inv.tiled i in
        rw (order, lt→ltb k (buddy_max_order - 1) below)
          (rw (get_buddy_page-done p k s order (omega arith)) (elim (dec_lt n npage) [
            | no out ↦
                rw (le→ltb n npage (omega arith))
                  (edge (omega arith) (omega (arith, ap (λ x. 2 ^ x) order)))
            | yes lt ↦
                let at_n : has n bs ≡ true =
                  rw (ap (λ x. p + 2 ^ x) order) at
                    (Tiled-next s.pages 0 bs p inv.tiled i (rw order lt)) in
                rw (lt→ltb n npage lt) (elim (Bool-cases (can_merge p n s)) [
                  | inr fails ↦ rw fails stop
                  | inl passes ↦
                      let m : Mergeable s bs k p n = record {
                        low = omega arith;
                        second = refl;
                        first_chunk = i;
                        second_chunk = at_n;
                        order_first = order;
                        order_second = (can_merge→ p n s passes).0 ∙ order;
                        free_first = free;
                        free_second = (can_merge→ p n s passes).1;
                      } in
                      rw (passes, merge-done inv k p n m) (join inv n m)
                ])
          ]))
  ]

-- The loop after one turn, where the turns that follow behave.
Turn-MergeOutcome :
    (fuel : ℕ) {s : BuddyState} {bs : List ℕ} (k p : ℕ) {r : Run (Option BuddyState)}
    → k < buddy_max_order
    → Coalesced s bs k p s
    → ((s1 : BuddyState) (q1 : ℕ → List ℕ) (bs1 : List ℕ)
        → suc k < buddy_max_order
        → Inv s1 q1 bs1
        → has p bs1 ≡ true
        → s1.pages p ≡ record { order = suc k; free = 1; flag = pg_head }
        → MergeOutcome s1 bs1 (suc k) p (merge_loop fuel p s1))
    → Turn s bs k p r
    → MergeOutcome s bs k p (r >>= λ o. elim o [ none ↦ done s | some s' ↦ merge_loop fuel p s' ])
Turn-MergeOutcome fuel k p hk now again stop = merged now
Turn-MergeOutcome fuel k p hk now again (edge lt e) = past_end k (omega arith) lt e
Turn-MergeOutcome fuel k p hk now again (join inv n m) =
    let h = merge_state-Merged inv k p n m in
    MergeOutcome-later inv k p n m (
      again (merge_state inv k p n m) (merged_lists inv k p n m) (merged_chunks inv k p n m) m.low
        (merged-Inv inv k p n m _ h) (merged-first inv k p n m _ h) h.first)

-- The loop ends within its fuel, with the chunk merged or with an access past `pages`.
pub merge_loop-MergeOutcome :
    (fuel k p : ℕ) (s : BuddyState) (q : ℕ → List ℕ) (bs : List ℕ)
    → Inv s q bs
    → buddy_max_order ≤ k + fuel
    → k < buddy_max_order
    → has p bs ≡ true
    → (s.pages p).order ≡ k
    → (s.pages p).free ≡ 1
    → MergeOutcome s bs k p (merge_loop fuel p s)
unfolding merge_loop
merge_loop-MergeOutcome zero k p s q bs inv enough hk i order free = absurd (omega arith)
merge_loop-MergeOutcome (suc fuel) k p s q bs inv enough hk i order free =
    Turn-MergeOutcome fuel k p hk (Coalesced-refl k p inv i order free)
      (λ s1 q1 bs1 low inv1 i1 e.
        merge_loop-MergeOutcome fuel (suc k) p s1 q1 bs1 inv1 (omega arith) low i1 (rw e) (rw e))
      (merge_step-Turn inv k p i order free)
