-- ===== src/Buddy/Invariant.antt =====
-- The invariant of kernel/mm/buddy.c: the chunks tile the memory, and the free lists hold exactly
-- the free chunks, each in the list of its order, with the right counters.
use sky_os.Base.{
  ℕ, suc, ◌+◌, ◌-◌, ◌≤◌, ◌<◌, ◌≡◌, ◌≢◌, refl, ◌∙◌, ap, true, ◌&&◌, List, [], ◌∷◌, map, arith, ◌==◌,
  has, Distinct, length, length-le_of_subset,
}
use sky_os.Buddy.{BuddyState, buddy_max_order, npage, head_addr, link_addr}
use sky_os.Buddy.Queues.{Rings}
use sky_os.ListHead.Ring.{IsRing, next-IsRing}
use sky_os.Buddy.Tiles.{extent, Tiled, Tiled-mem, Tiled-length, Tiled-Distinct, pow_pos}

pub record Inv (s : BuddyState) (q : ℕ → List ℕ) (bs : List ℕ) : Type 0 where
  pub rings : Rings s.links q
  pub count : (o : ℕ) → o < buddy_max_order → s.nr o ≡ length (q o)
  pub listed :
      (p o : ℕ)
      → o < buddy_max_order
      → has (link_addr p) (q o) ≡ (has p bs && (s.pages p).order == o && (s.pages p).free == 1)
  pub tiled : Tiled s.pages 0 bs

has-map_link : (p : ℕ) (bs : List ℕ) → has (link_addr p) (map link_addr bs) ≡ has p bs
has-map_link p [] = refl
has-map_link p (b ∷ bs) = ground (arith, has-map_link p bs)

length-map_link : (bs : List ℕ) → length (map link_addr bs) ≡ length bs
length-map_link [] = refl
length-map_link (b ∷ bs) = ap suc (length-map_link bs)

module _ {s : BuddyState} {q : ℕ → List ℕ} {bs : List ℕ} (inv : Inv s q bs) where
  pub Inv-Distinct : Distinct bs
  Inv-Distinct = Tiled-Distinct s.pages 0 bs inv.tiled

  -- An entry of a free list is the link of a free chunk of that order.
  pub Inv-entry :
      (o a : ℕ)
      → o < buddy_max_order
      → has a (q o) ≡ true
      → (a ≡ link_addr (a - 15))
        × (has (a - 15) bs ≡ true)
        × ((s.pages (a - 15)).order ≡ o)
        × ((s.pages (a - 15)).free ≡ 1)
  Inv-entry o a ho i =
      let high : 15 ≤ a = inv.rings.above o a ho i in
      let e : a ≡ link_addr (a - 15) = omega arith in
      let i' : has (link_addr (a - 15)) (q o) ≡ true = rw (← e) i in
      let l = inv.listed (a - 15) o ho in
      (e, ground (arith, l), ground (arith, l), ground (arith, l))

  -- No counter overflows: a free list is no longer than the memory has pages.
  pub Inv-nr-le : (o : ℕ) → o < buddy_max_order → s.nr o ≤ npage
  Inv-nr-le o ho =
      let sub : length (q o) ≤ length (map link_addr bs) =
        length-le_of_subset (q o) (map link_addr bs) (inv.rings.ring o ho).distinct.1
          λ a i. let (e, j, _, _) = Inv-entry o a ho i in rw e (rw has-map_link j) in
      omega (arith, sub, length-map_link bs, inv.count o ho, Tiled-length s.pages 0 bs inv.tiled)

  -- The first entry of the free list of order `o`, as the code finds it.
  pub record Front (o : ℕ) : Type 0 where
    pub page : ℕ
    pub rest : List ℕ
    pub list : q o ≡ link_addr page ∷ rest
    pub first : s.links.next (head_addr o) ≡ link_addr page
    pub is_chunk : has page bs ≡ true
    pub order_page : (s.pages page).order ≡ o
    pub free_page : (s.pages page).free ≡ 1
    pub low : page < npage
    pub fits : page + extent s.pages page ≤ npage

  first_entry : (o : ℕ) → o < buddy_max_order → (xs : List ℕ) → q o ≡ xs → s.nr o ≢ 0 → Front o
  first_entry o ho [] e ne = absurd (ne (inv.count o ho ∙ ap length e))
  first_entry o ho (a ∷ rest) e ne =
      let (link, i, order, free) = Inv-entry o a ho (rw e (ground arith)) in
      let (_, high, _) = Tiled-mem s.pages 0 bs (a - 15) inv.tiled i in
      let ring : IsRing s.links (head_addr o) (a ∷ rest) = rw (← e) (inv.rings.ring o ho) in
      record {
        page = a - 15;
        rest = rest;
        list = e ∙ ap (λ x. x ∷ rest) link;
        first = next-IsRing s.links (head_addr o) a rest ring ∙ link;
        is_chunk = i;
        order_page = order;
        free_page = free;
        low = omega (arith, high, pow_pos (s.pages (a - 15)).order);
        fits = high;
      }

  -- A free list whose counter is not 0 has a first entry, and it is a free chunk of its order.
  pub Inv-Front : (o : ℕ) → o < buddy_max_order → s.nr o ≢ 0 → Front o
  Inv-Front o ho ne = first_entry o ho (q o) refl ne

-- What an operation does to chunks: an allocated chunk stays as it is, and each chunk that is free
-- afterwards lies inside one that was free before.
pub record Refined (s : BuddyState) (bs : List ℕ) (s' : BuddyState) (bs' : List ℕ) : Type 0 where
  pub kept :
      (b : ℕ)
      → has b bs ≡ true
      → (s.pages b).free ≡ 0
      → (has b bs' ≡ true) × (s'.pages b ≡ s.pages b)
  pub covered :
      (b : ℕ)
      → has b bs' ≡ true
      → (s'.pages b).free ≡ 1
      → (c : ℕ) × (has c bs ≡ true)
        × ((s.pages c).free ≡ 1)
        × (c ≤ b)
        × (b + extent s'.pages b ≤ c + extent s.pages c)

pub Refined-trans :
    (s : BuddyState) (bs : List ℕ) (s' : BuddyState) (bs' : List ℕ) (s2 : BuddyState) (bs2 : List ℕ)
    → Refined s bs s' bs'
    → Refined s' bs' s2 bs2
    → Refined s bs s2 bs2
Refined-trans s bs s' bs' s2 bs2 f g = record {
  kept = λ b i free.
      let (i', e) = f.kept b i free in let (i2, e2) = g.kept b i' (rw e free) in (i2, e2 ∙ e);
  covered = λ b i free.
      let (c, i', free', le, le') = g.covered b i free in
      let (d, i2, free2, le2, le3) = f.covered c i' free' in
      (d, i2, free2, omega arith, omega arith);
}
