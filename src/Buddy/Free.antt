-- ===== src/Buddy/Free.antt =====
-- `buddy_free_page` in kernel/mm/buddy.c: an allocated chunk becomes free and merges to the right.
use sky_os.Base.{
  ℕ, suc, ◌+◌, ◌^◌, ◌≤◌, ◌<◌, ◌≡◌, ◌≢◌, ◌∙◌, refl, true, false, List, arith, ◌==◌, has, ltb, lt→ltb,
}
use sky_os.Base.Runs.{Run, done, fault}
use sky_os.Buddy.{BuddyState, buddy_max_order, npage, pg_tail, set_free, buddy_free_page}
use sky_os.Buddy.Tiles.{Tiled-mem, pow_pos}
use sky_os.Buddy.Chunks.{free_pages}
use sky_os.Buddy.Invariant.{Inv}
use sky_os.Buddy.Coalesce.{MergeOutcome, merged, merge_loop-MergeOutcome}
use sky_os.Buddy.Coalesce
use sky_os.Buddy.Release.{
  release_state, release_lists, release_state-Listed, release-Inv, release-free_pages,
}

-- The chunk of order `k` at page `p` is free: the other chunks that were allocated stay as they
-- are, and its pages are counted as free.
pub record Released (s : BuddyState) (bs : List ℕ) (k p : ℕ) (s' : BuddyState) : Type 0 where
  pub lists : ℕ → List ℕ
  pub chunks : List ℕ
  pub inv : Inv s' lists chunks
  pub is_chunk : has p chunks ≡ true
  pub order_page : k ≤ (s'.pages p).order
  pub free_page : (s'.pages p).free ≡ 1
  pub kept :
      (b : ℕ)
      → has b bs ≡ true
      → (s.pages b).free ≡ 0
      → b ≢ p
      → (has b chunks ≡ true) × (s'.pages b ≡ s.pages b)
  pub more : free_pages s'.pages chunks ≡ free_pages s.pages bs + 2 ^ k

-- What `buddy_free_page` does with an allocated chunk of order `k` at page `p`.
pub data FreeOutcome (s : BuddyState) (bs : List ℕ) (k p : ℕ) : Run BuddyState → Type 0 where
  released : {s' : BuddyState} → Released s bs k p s' → FreeOutcome s bs k p (done s')
  -- The merged chunk ends with the memory: the code reads `pages[npage]`.
  past_end :
      (j : ℕ) → k ≤ j → suc j < buddy_max_order → p + 2 ^ j ≡ npage → FreeOutcome s bs k p fault

module _ {s : BuddyState} {q : ℕ → List ℕ} {bs : List ℕ} (inv : Inv s q bs) (p : ℕ)
    (i : has p bs ≡ true) (taken : (s.pages p).free ≡ 0) where
  abbrev k : ℕ
  k = (s.pages p).order

  hk : k < buddy_max_order
  hk = (Tiled-mem s.pages 0 bs p inv.tiled i).2.0

  Coalesced-Released :
      {s' : BuddyState} → Coalesce.Coalesced (release_state k p s) bs k p s' → Released s bs k p s'
  Coalesced-Released c =
      let l = release_state-Listed inv k p hk i refl taken in
      record {
        lists = c.lists;
        chunks = c.chunks;
        inv = c.inv;
        is_chunk = c.is_chunk;
        order_page = c.order_page;
        free_page = c.free_page;
        kept =
            λ b j f ne. let e = l.same b ne in let (j', e') = c.kept b j (rw e f) in (j', e' ∙ e);
        more = c.same_free ∙ release-free_pages inv k p hk i refl taken _ l;
      }

  MergeOutcome-FreeOutcome :
      {r : Run BuddyState} → MergeOutcome (release_state k p s) bs k p r → FreeOutcome s bs k p r
  MergeOutcome-FreeOutcome (merged c) = released (Coalesced-Released c)
  MergeOutcome-FreeOutcome (Coalesce.past_end j le lt e) = past_end j le lt e

  -- From a state with the invariant, buddy_free_page of the first page of an allocated chunk
  -- either makes its pages free, in a chunk of at least its order, and keeps the invariant, the
  -- other allocated chunks and the count of the other free pages, or reads past pages, which it
  -- does only where a chunk at that page, of at least its order and below the highest, ends with
  -- the memory.
  pub buddy_free_page-FreeOutcome : FreeOutcome s bs k p (buddy_free_page p s)
  unfolding buddy_free_page
  buddy_free_page-FreeOutcome =
      let l = release_state-Listed inv k p hk i refl taken in
      let (_, high, (_, flag, _)) = Tiled-mem s.pages 0 bs p inv.tiled i in
      let head : ((s.pages p).flag == pg_tail) ≡ false = ground arith in
      let used : ((s.pages p).free == 1) ≡ false = ground arith in
      let low : ltb p npage ≡ true = lt→ltb p npage (omega (arith, high, pow_pos k)) in
      let read : ((set_free p 1 s).pages p).order ≡ k = ground arith in
      rw (low, head, used, read, lt→ltb k buddy_max_order hk)
        (MergeOutcome-FreeOutcome (
          merge_loop-MergeOutcome buddy_max_order k p (release_state k p s)
            (release_lists inv k p hk i refl taken) bs (release-Inv inv k p hk i refl taken _ l)
            (omega arith) hk i (l.order_same p) l.free_now))
