-- ===== src/Buddy/Allocate.antt =====
-- `buddy_allocate` in kernel/mm/buddy.c: what is allocated, and when it fails.
use sky_os.Base.{
  ℕ, zero, suc, ◌+◌, ◌≤◌, ◌<◌, ◌≡◌, ◌≢◌, ◌⊎◌, refl, ◌∙◌, inl, inr, true, false, List, arith, ◌==◌,
  Bool-cases, ==_iff, dec_lt, ltb, leb, lt→ltb, le→ltb,
}
use sky_os.Base.Runs.{Run, done, panic, fault, ◌>>=◌}
use sky_os.Buddy.{
  BuddyState, buddy_max_order, unlink, take_chunk, take_first, split_loop, buddy_split, find_order,
  size2order, buddy_allocate,
}
use sky_os.Buddy.Invariant.{Inv, Inv-Front, Refined-trans}
use sky_os.Buddy.Halving.{le2page-done}
use sky_os.Buddy.Claim.{Allocated, claim_state, claim_state-Claimed, claim-Allocated}
use sky_os.Buddy.Split.{Carved, split_loop-Carved}

-- `take_first` allocates the first chunk of a free list that has one.
take_first-Allocated :
    {s : BuddyState} {q : ℕ → List ℕ} {bs : List ℕ} (inv : Inv s q bs) (k : ℕ)
    → k < buddy_max_order
    → s.nr k ≢ 0
    → (p : ℕ) × (s' : BuddyState) × (take_first k s ≡ done (p, s')) × Allocated s bs k p s'
unfolding take_first take_chunk
take_first-Allocated {s} inv k hk ne =
    let f = Inv-Front inv k hk ne in
    let s' = claim_state k f.page s in
    let c = claim_state-Claimed inv k f.page hk f.is_chunk f.order_page f.free_page in
    (
      f.page,
      s',
      rw (f.first, le2page-done f.page f.low),
      claim-Allocated inv k f.page hk f.is_chunk f.order_page f.free_page s' c,
    )

-- The claim of a chunk that was carved out first.
Carved-Allocated :
    {s : BuddyState} {bs : List ℕ} {k p : ℕ} {s1 s' : BuddyState}
    → (c : Carved s bs k p s1) → Allocated s1 c.chunks k p s'
    → Allocated s bs k p s'
Carved-Allocated {s} {bs} {s1} {s'} c a =
    let (b, i, free, low, high) = a.was_free in
    let (d, i', free', low', high') = c.refined.covered b i free in
    record {
      lists = a.lists;
      chunks = a.chunks;
      inv = a.inv;
      is_chunk = a.is_chunk;
      order_page = a.order_page;
      free_page = a.free_page;
      was_free = (d, i', free', omega arith, omega arith);
      refined = Refined-trans s bs s1 c.chunks s' a.chunks c.refined a.refined;
      fewer = a.fewer ∙ c.same_free;
    }

buddy_split-done :
    (t k p : ℕ) (s s1 : BuddyState)
    → s.nr (suc t) ≢ 0
    → split_loop (suc t) k s ≡ done (p, s1)
    → (s1.pages p).order ≡ k
    → buddy_split (suc t) k s ≡ done (p, claim_state k p s1)
unfolding buddy_split unlink
buddy_split-done t k p s s1 ne e order =
    let some_chunk : (s.nr (suc t) == 0) ≡ false = ground arith in
    let large : (suc t == 0) ≡ false = ground arith in
    let hit : ((s1.pages p).order == k) ≡ true = ground arith in rw (some_chunk, large, e, hit) refl

-- `buddy_split` allocates the first part of a larger chunk.
buddy_split-Allocated :
    {s : BuddyState} {q : ℕ → List ℕ} {bs : List ℕ} (inv : Inv s q bs) (large k : ℕ)
    → large < buddy_max_order
    → k < large
    → s.nr large ≢ 0
    → (p : ℕ) × (s' : BuddyState) × (buddy_split large k s ≡ done (p, s')) × Allocated s bs k p s'
buddy_split-Allocated inv zero k hl lt ne = absurd (omega arith)
buddy_split-Allocated {s} inv (suc t) k hl lt ne =
    let (p, s1, e, c) = split_loop-Carved t k inv hl (omega arith) ne in
    let hk : k < buddy_max_order = omega arith in
    let claimed = claim_state-Claimed c.inv k p hk c.is_chunk c.order_page c.free_page in
    (
      p,
      claim_state k p s1,
      buddy_split-done t k p s s1 ne e c.order_page,
      Carved-Allocated c
          (claim-Allocated c.inv k p hk c.is_chunk c.order_page c.free_page _ claimed),
    )

-- The search from order `o` ends at a free list that is not empty.
abbrev Found : (fuel o : ℕ) → BuddyState → Type 0
Found fuel o s =
    (j : ℕ) × (find_order fuel o s ≡ done j) × (o ≤ j) × (j < buddy_max_order) × (s.nr j ≢ 0)

-- The search from order `o` reads past `buddy_lists`.
abbrev Exhausted : (fuel o : ℕ) → BuddyState → Type 0
Exhausted fuel o s =
    (find_order fuel o s ≡ fault) × ((j : ℕ) → o ≤ j → j < buddy_max_order → s.nr j ≡ 0)

find_order-skip :
    (fuel o : ℕ) (s : BuddyState)
    → o < buddy_max_order
    → s.nr o ≡ 0
    → find_order (suc fuel) o s ≡ find_order fuel (o + 1) s
unfolding find_order
find_order-skip fuel o s lt empty =
    let here : (s.nr o == 0) ≡ true = ground arith in
    rw (lt→ltb o buddy_max_order lt, here, le→ltb buddy_max_order (o + 1) (omega arith)) refl

find_order-later :
    (fuel o : ℕ) (s : BuddyState)
    → o < buddy_max_order
    → s.nr o ≡ 0
    → Found fuel (o + 1) s ⊎ Exhausted fuel (o + 1) s
    → Found (suc fuel) o s ⊎ Exhausted (suc fuel) o s
find_order-later fuel o s lt empty (inl (j, e, le, hj, ne)) =
    inl (j, find_order-skip fuel o s lt empty ∙ e, omega arith, hj, ne)
find_order-later fuel o s lt empty (inr (e, none_left)) = inr (
  find_order-skip fuel o s lt empty ∙ e,
  λ j le hj. elim (Bool-cases (j == o)) [
    | inl same ↦ rw ((==_iff j o).0 same) empty
    | inr other ↦ none_left j (ground arith) hj
  ],
)

find_order_cases :
    (fuel o : ℕ) (s : BuddyState)
    → o ≤ buddy_max_order
    → buddy_max_order + 1 ≤ o + fuel
    → Found fuel o s ⊎ Exhausted fuel o s
unfolding find_order
find_order_cases zero o s le enough = absurd (omega arith)
find_order_cases (suc fuel) o s le enough = elim (dec_lt o buddy_max_order) [
  | no out ↦
      inr (rw (le→ltb o buddy_max_order (omega arith)) refl, λ j le' lt. absurd (omega arith))
  | yes lt ↦ elim (Bool-cases (s.nr o == 0)) [
    | inr some_chunk ↦
        inl (o, rw (lt→ltb o buddy_max_order lt, some_chunk) refl, omega arith, lt, ground arith)
    | inl empty ↦
        find_order-later fuel o s lt (ground arith)
          (find_order_cases fuel (o + 1) s (omega arith) (omega arith))
  ]
]

-- What `buddy_allocate` does, for the order `k` that it computes from the size.
pub data Outcome (s : BuddyState) (bs : List ℕ) (k : ℕ) : Run (ℕ × BuddyState) → Type 0 where
  -- Some chunk of this order or a higher one is free.
  allocated : {p : ℕ} {s' : BuddyState} → Allocated s bs k p s' → Outcome s bs k (done (p, s'))
  -- The size is larger than the largest chunk.
  too_large : buddy_max_order ≤ k → Outcome s bs k panic
  -- No chunk of this order or a higher one is free: the search reads `buddy_lists[14]`.
  no_chunk :
      k < buddy_max_order
      → ((j : ℕ) → k ≤ j → j < buddy_max_order → s.nr j ≡ 0)
      → Outcome s bs k fault

module _ {s : BuddyState} {q : ℕ → List ℕ} {bs : List ℕ} (inv : Inv s q bs) where
  search_Outcome :
      (k : ℕ)
      → k < buddy_max_order
      → s.nr k ≡ 0
      → Found (buddy_max_order + 1) (k + 1) s ⊎ Exhausted (buddy_max_order + 1) (k + 1) s
      → Outcome s bs k
          (find_order (buddy_max_order + 1) (k + 1) s >>= λ large. buddy_split large k s)
  search_Outcome k hk empty (inl (j, e, le, hj, ne)) =
      let (p, s', e', a) = buddy_split-Allocated inv j k hj (omega arith) ne in
      rw (e, e') (allocated a)
  search_Outcome k hk empty (inr (e, none_left)) = rw e (
      no_chunk hk λ j le hj. elim (Bool-cases (j == k)) [
        | inl same ↦ rw ((==_iff j k).0 same) empty
        | inr other ↦ none_left j (ground arith) hj
      ])

  -- From a state with the invariant, buddy_allocate panics where the order of the size is not
  -- below BUDDY_MAX_ORDER, reads past the free lists where no chunk of the order or a higher one
  -- is free, and else returns a page of a free region whose chunk has the order of the size, is
  -- marked, and keeps the invariant, the allocated chunks and the count of the other free pages.
  pub buddy_allocate-Outcome : (size : ℕ) → Outcome s bs (size2order size) (buddy_allocate size s)
  unfolding buddy_allocate
  buddy_allocate-Outcome size =
      let k = size2order size in
      elim (dec_lt k buddy_max_order) [
        | no big ↦
            let test : leb buddy_max_order k ≡ true = ground arith in
            rw test (too_large (omega arith))
        | yes hk ↦
            let test : leb buddy_max_order k ≡ false = ground arith in
            elim (Bool-cases (ltb 0 (s.nr k))) [
              | inl some_chunk ↦
                  let (p, s', e, a) = take_first-Allocated inv k hk (ground arith) in
                  rw (test, some_chunk, e) (allocated a)
              | inr empty ↦
                  let cases =
                    find_order_cases (buddy_max_order + 1) (k + 1) s (omega arith) (omega arith) in
                  rw (test, empty) (search_Outcome k hk (ground arith) cases)
            ]
      ]
