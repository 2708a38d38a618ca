-- ===== src/Buddy/Statistics.antt =====
-- `buddy_statistics` in kernel/mm/buddy.c: the bytes of the pages that are free.
use sky_os.Base.{
  ℕ, zero, suc, ◌+◌, ◌-◌, ◌*◌, ◌^◌, ◌≤◌, ◌<◌, ◌≡◌, refl, sym, ◌∙◌, ap, inl, inr, true, ◌&&◌, List,
  [], ◌∷◌, arith, ◌==◌, Bool-cases, ==_iff, if◌then◌else◌, has, Distinct, length,
  length-le_of_subset, ltb, lt→ltb, sign_extend,
}
use mathlib.Core.Path.{ap₂}
use sky_os.Buddy.Size.{pow-le}
use sky_os.Buddy.{
  BuddyState, Page, buddy_max_order, buddy_page_size, npage, link_addr, statistics_loop,
  buddy_statistics,
}
use sky_os.Buddy.Tiles.{extent, Tiled}
use sky_os.Buddy.Chunks.{free_pages}
use sky_os.Buddy.Invariant.{Inv, Inv-entry, Inv-Distinct}

-- The links of the free chunks of order `o` among `bs`.
abbrev links_of : (ℕ → Page) → ℕ → List ℕ → List ℕ
links_of pages o [] = []
links_of pages o (b ∷ bs) =
    let rest = links_of pages o bs in
    if ((pages b).order == o && (pages b).free == 1) then link_addr b ∷ rest else rest

has-links_of :
    (pages : ℕ → Page) (o : ℕ) (bs : List ℕ) (a : ℕ)
    → has (link_addr a) (links_of pages o bs)
      ≡ (has a bs && (pages a).order == o && (pages a).free == 1)
has-links_of pages o [] a = refl
has-links_of pages o (b ∷ bs) a = elim (Bool-cases (a == b)) [
  | inl e ↦ rw ((==_iff a b).0 e) (ground (arith, has-links_of pages o bs b))
  | inr ne ↦ ground (arith, has-links_of pages o bs a)
]

Distinct-links_of :
    (pages : ℕ → Page) (o : ℕ) (bs : List ℕ) → Distinct bs → Distinct (links_of pages o bs)
Distinct-links_of pages o [] d = tt
Distinct-links_of pages o (b ∷ bs) d =
    ground (arith, Distinct-links_of pages o bs, has-links_of pages o bs b)

above-links_of :
    (pages : ℕ → Page) (o : ℕ) (bs : List ℕ) (a : ℕ) → has a (links_of pages o bs) ≡ true → 15 ≤ a
above-links_of pages o [] a i = cc
above-links_of pages o (b ∷ bs) a i = ground (arith, above-links_of pages o bs a)

-- The pages of the free chunks whose order is below `n`.
abbrev pages_below : (ℕ → Page) → ℕ → List ℕ → ℕ
pages_below pages zero bs = 0
pages_below pages (suc n) bs = pages_below pages n bs + length (links_of pages n bs) * 2 ^ n

-- What one chunk adds to `pages_below`.
abbrev counts : Page → ℕ → ℕ
counts b n = if ltb b.order n && b.free == 1 then 2 ^ b.order else 0

pages_below-cons :
    (pages : ℕ → Page) (n b : ℕ) (bs : List ℕ)
    → pages_below pages n (b ∷ bs) ≡ counts (pages b) n + pages_below pages n bs
pages_below-cons pages zero b bs = ground arith
pages_below-cons pages (suc n) b bs =
    let rest = pages_below-cons pages n b bs in
    elim (Bool-cases ((pages b).order == n && (pages b).free == 1)) [
      | inl e ↦
          let same : (pages b).order ≡ n = ground arith in
          let before : counts (pages b) n ≡ 0 = ground arith in
          let after : counts (pages b) (suc n) ≡ 2 ^ n =
            (let now : counts (pages b) (suc n) ≡ 2 ^ (pages b).order = ground arith in
              now ∙ ap (λ k. 2 ^ k) same) in
          rw e (omega (arith, rest, before, after))
      | inr ne ↦
          let same : counts (pages b) (suc n) ≡ counts (pages b) n = ground arith in
          rw ne (omega (arith, rest, same))
    ]

pages_below-nil : (pages : ℕ → Page) (n : ℕ) → pages_below pages n [] ≡ 0
pages_below-nil pages zero = refl
pages_below-nil pages (suc n) = omega (arith, pages_below-nil pages n)

pages_below-le :
    (pages : ℕ → Page) (n : ℕ) (bs : List ℕ) → pages_below pages n bs ≤ free_pages pages bs
pages_below-le pages n [] = omega (arith, pages_below-nil pages n)
pages_below-le pages n (b ∷ bs) =
    ground (arith, pages_below-cons pages n b bs, pages_below-le pages n bs)

-- All orders together are all free chunks.
pages_below-all :
    (pages : ℕ → Page) (a : ℕ) (bs : List ℕ)
    → Tiled pages a bs
    → pages_below pages buddy_max_order bs ≡ free_pages pages bs
pages_below-all pages a [] t = pages_below-nil pages buddy_max_order
pages_below-all pages a (b ∷ bs) t =
    let rest = pages_below-all pages (b + extent pages b) bs t.2 in
    let (low, _, _) = t.1 in
    let top : ltb (pages b).order buddy_max_order ≡ true =
      lt→ltb (pages b).order buddy_max_order low in
    let one : counts (pages b) buddy_max_order
        ≡ (if (pages b).free == 1 then extent pages b else 0) =
      rw top refl in
    pages_below-cons pages buddy_max_order b bs ∙ ap₂ ◌+◌ one rest

free_pages-le :
    (pages : ℕ → Page) (a : ℕ) (bs : List ℕ) → Tiled pages a bs → a + free_pages pages bs ≤ npage
free_pages-le pages a [] t = omega arith
free_pages-le pages a (b ∷ bs) t = ground (arith, free_pages-le pages (b + extent pages b) bs t.2)

module _ {s : BuddyState} {q : ℕ → List ℕ} {bs : List ℕ} (inv : Inv s q bs) where
  -- A free list is as long as there are free chunks of its order.
  nr-length : (o : ℕ) → o < buddy_max_order → s.nr o ≡ length (links_of s.pages o bs)
  nr-length o ho =
      let to : length (q o) ≤ length (links_of s.pages o bs) =
        length-le_of_subset (q o) (links_of s.pages o bs) (inv.rings.ring o ho).distinct.1 λ a i.
          let (e, j, order, free) = Inv-entry inv o a ho i in
          rw e (has-links_of s.pages o bs (a - 15) ∙ ground (arith, j, order, free)) in
      let from : length (links_of s.pages o bs) ≤ length (q o) =
        length-le_of_subset (links_of s.pages o bs) (q o)
          (Distinct-links_of s.pages o bs (Inv-Distinct inv))
          λ a i.
            let e : a ≡ link_addr (a - 15) = omega (arith, above-links_of s.pages o bs a i) in
            let i' : has (link_addr (a - 15)) (links_of s.pages o bs) ≡ true = rw (← e) i in
            rw e (inv.listed (a - 15) o ho ∙ sym (has-links_of s.pages o bs (a - 15)) ∙ i') in
      omega (arith, to, from, inv.count o ho)

  csize_lem :
      (i : ℕ)
      → i < buddy_max_order
      → sign_extend (buddy_page_size * 2 ^ i) ≡ buddy_page_size * 2 ^ i
  csize_lem i lt = ground (arith, pow-le i 13 (omega arith))

  statistics_loop_lem :
      (n : ℕ)
      → n ≤ buddy_max_order
      → statistics_loop n s ≡ buddy_page_size * pages_below s.pages n bs
  unfolding statistics_loop
  statistics_loop_lem zero le = omega arith
  statistics_loop_lem (suc i) le =
      let rest = statistics_loop_lem i (omega arith) in
      let fits : pages_below s.pages (suc i) bs ≤ npage =
        omega (arith, pages_below-le s.pages (suc i) bs, free_pages-le s.pages 0 bs inv.tiled) in
      rw (csize_lem i le, nr-length i le, rest) (omega (arith, fits))

  -- In a state with the invariant, buddy_statistics is the page size times the number of pages of
  -- the free chunks; no product or sum overflows.
  pub buddy_statistics_lem : buddy_statistics s ≡ buddy_page_size * free_pages s.pages bs
  unfolding buddy_statistics
  buddy_statistics_lem =
      statistics_loop_lem buddy_max_order (omega arith)
      ∙ ap (λ n. buddy_page_size * n) (pages_below-all s.pages 0 bs inv.tiled)
