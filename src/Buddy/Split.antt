-- ===== src/Buddy/Split.antt =====
-- `buddy_split` in kernel/mm/buddy.c carves a chunk of the wanted order out of a larger one.
use sky_os.Base.{
  ℕ, zero, suc, ◌≤◌, ◌<◌, ◌≡◌, ◌≢◌, ◌∙◌, inl, inr, true, List, arith, Bool-cases, has, ltb, le→ltb,
}
use sky_os.Base.Runs.{done}
use sky_os.Buddy.{BuddyState, buddy_max_order, split_step, split_loop}
use sky_os.Buddy.Chunks.{free_pages}
use sky_os.Buddy.Invariant.{Inv, Inv-Front, Refined, Refined-trans}
use sky_os.Buddy.Halving.{
  split_state, split_step-done, split_state-Halved, halved_lists, halved_chunks, first_listed,
  Halved-Inv, Halved-Refined, Halved-free_pages,
}

-- A run that ends in a state with the invariant, with page `p` the first of a free chunk of order
-- `k`, and no free page more or less.
pub record Carved (s : BuddyState) (bs : List ℕ) (k p : ℕ) (s' : BuddyState) : Type 0 where
  pub lists : ℕ → List ℕ
  pub chunks : List ℕ
  pub inv : Inv s' lists chunks
  pub is_chunk : has p chunks ≡ true
  pub order_page : (s'.pages p).order ≡ k
  pub free_page : (s'.pages p).free ≡ 1
  pub refined : Refined s bs s' chunks
  pub same_free : free_pages s'.pages chunks ≡ free_pages s.pages bs

-- A round splits the first chunk of its order.
split_step-Carved :
    {s : BuddyState} {q : ℕ → List ℕ} {bs : List ℕ} (inv : Inv s q bs) (t : ℕ)
    → suc t < buddy_max_order
    → s.nr (suc t) ≢ 0
    → (p : ℕ) × (s' : BuddyState) × (split_step (suc t) s ≡ done (p, s'))
      × (s'.nr t ≢ 0)
      × Carved s bs t p s'
split_step-Carved {s} inv t ht ne =
    let f = Inv-Front inv (suc t) ht ne in
    let s' = split_state t f.page s in
    let h = split_state-Halved inv t ht f in
    (
      f.page,
      s',
      split_step-done inv t ht f,
      ground (arith, h.nr_half),
      record {
        lists = halved_lists inv t ht f;
        chunks = halved_chunks inv t ht f;
        inv = Halved-Inv inv t ht f s' h;
        is_chunk = first_listed inv t ht f;
        order_page = rw h.first;
        free_page = rw h.first;
        refined = Halved-Refined inv t ht f s' h;
        same_free = Halved-free_pages inv t ht f s' h;
      },
    )

Carved-trans :
    {s : BuddyState} {bs : List ℕ} {k p j r : ℕ} {s' s2 : BuddyState}
    → (c : Carved s bs k p s') → Carved s' c.chunks j r s2
    → Carved s bs j r s2
Carved-trans {s} {bs} {s'} {s2} c d = record {
  lists = d.lists;
  chunks = d.chunks;
  inv = d.inv;
  is_chunk = d.is_chunk;
  order_page = d.order_page;
  free_page = d.free_page;
  refined = Refined-trans s bs s' c.chunks s2 d.chunks c.refined d.refined;
  same_free = d.same_free ∙ c.same_free;
}

-- The loop ends with the first half of the wanted order.
pub split_loop-Carved :
    (t small : ℕ) {s : BuddyState} {q : ℕ → List ℕ} {bs : List ℕ}
    → Inv s q bs
    → suc t < buddy_max_order
    → small ≤ t
    → s.nr (suc t) ≢ 0
    → (p : ℕ) × (s' : BuddyState) × (split_loop (suc t) small s ≡ done (p, s'))
      × Carved s bs small p s'
unfolding split_loop
split_loop-Carved zero small inv ht le ne =
    let (p, s', e, _, c) = split_step-Carved inv zero ht ne in
    let last : small ≡ zero = omega arith in
    (p, s', rw (e, le→ltb small zero (omega arith)), rw last c)
split_loop-Carved (suc t) small inv ht le ne =
    let (p, s', e, ne', c) = split_step-Carved inv (suc t) ht ne in
    elim (Bool-cases (ltb small (suc t))) [
      | inl more ↦
          let (r, s2, e', d) = split_loop-Carved t small c.inv (omega arith) (ground arith) ne' in
          (r, s2, rw (e, more) e', Carved-trans c d)
      | inr stop ↦ let last : small ≡ suc t = ground arith in (p, s', rw (e, stop), rw last c)
    ]
