-- ===== src/Buddy/Halving.antt =====
-- One round of the loop of `buddy_split` in kernel/mm/buddy.c, on the chunks and the lists.
use sky_os.Base.{
  ℕ, suc, ◌+◌, ◌-◌, ◌*◌, ◌^◌, ◌≤◌, ◌<◌, ◌≡◌, ◌≢◌, refl, ◌∙◌, ap, inl, inr, true, false, ◌&&◌, ◌||◌,
  List, [], ◌∷◌, ◌++◌, arith, ◌==◌, Bool-cases, ==_iff, has, has_ne, if◌then◌else◌, erase,
  has-erase_self, has-erase_ne, has-snoc, length, length-append, length-erase, write, ltb, leb,
  lt→ltb, dec32,
}
use sky_os.Base.Runs.{done}
use sky_os.ListHead.{list_append, list_del}
use sky_os.Buddy.{
  BuddyState, buddy_max_order, npage, pg_head, head_addr, link_addr, le2page, unlink, set_order,
  get_buddy_page, add_halves, split_step, split_chunk, append_page,
}
use sky_os.Buddy.Queues.{Rings, append-Rings, del-Rings}
use sky_os.Buddy.Tiles.{Tiled, Tiled-mem, Tiled-disjoint, pow_pos, pow_suc}
use sky_os.Buddy.Chunks.{
  insert_after, has-insert_after, free_pages, SameBut, SplitAt, Tiled-split, free_pages-split,
}
use sky_os.Buddy.Invariant.{Inv, Front, Inv-Distinct, Inv-nr-le, Refined}

-- The state after a round that splits page `p` of order `t + 1`.
abbrev pub split_state : (t p : ℕ) → BuddyState → BuddyState
split_state t p s =
    let s1 = unlink (link_addr p) (suc t) s in
    add_halves (suc t) p (p + 2 ^ t) (set_order p (dec32 (s1.pages p).order) s1)

pub le2page-done : (p : ℕ) → p < npage → le2page (link_addr p) ≡ done p
unfolding le2page
le2page-done p lt =
    let up : p + 15 - 15 ≡ p = omega arith in
    let test : (leb 15 (p + 15) && ltb p npage) ≡ true = ground arith in rw up (rw test)

pub get_buddy_page-done :
    (p k : ℕ) (s : BuddyState)
    → (s.pages p).order ≡ k
    → k < buddy_max_order
    → get_buddy_page p s ≡ done (p + 2 ^ k)
unfolding get_buddy_page
get_buddy_page-done p k s e lt = rw e (rw (lt→ltb k 31 (omega arith)))

module _ {s : BuddyState} {q : ℕ → List ℕ} {bs : List ℕ} (inv : Inv s q bs) (t : ℕ)
    (ht : suc t < buddy_max_order) (f : Front inv (suc t)) where
  pub split_step-done : split_step (suc t) s ≡ done (f.page, split_state t f.page s)
  unfolding split_step split_chunk
  split_step-done =
      let p = f.page in
      let s1 = unlink (link_addr p) (suc t) s in
      let order : (s1.pages p).order ≡ suc t = unfold unlink in f.order_page in
      let down : dec32 (s1.pages p).order ≡ t = rw order (omega arith) in
      let low : ltb (p + 2 ^ t) npage ≡ true =
        lt→ltb (p + 2 ^ t) npage
          (omega (arith, f.fits, ap (λ k. 2 ^ k) f.order_page, pow_suc t, pow_pos t)) in
      let s2 = set_order p (dec32 (s1.pages p).order) s1 in
      let half : (s2.pages p).order ≡ t = ground arith in
      rw (f.first, le2page-done p f.low)
        (rw (get_buddy_page-done p t s2 half (omega arith)) (rw low))

  -- What the round does to the pages, the free lists and the counters.
  pub record Halved (s' : BuddyState) : Type 0 where
    pub first : s'.pages f.page ≡ record { order = t; free = 1; flag = pg_head }
    pub second : s'.pages (f.page + 2 ^ t) ≡ record { order = t; free = 1; flag = pg_head }
    pub same : SameBut s.pages s'.pages f.page (f.page + 2 ^ t)
    pub links :
        s'.links
        ≡ list_append
            (link_addr (f.page + 2 ^ t))
            (head_addr t)
            (list_append (link_addr f.page) (head_addr t) (list_del (link_addr f.page) s.links))
    pub nr_half : s'.nr t ≡ s.nr t + 2
    pub nr_whole : s'.nr (suc t) + 1 ≡ s.nr (suc t)
    pub nr_same : (k : ℕ) → k ≢ t → k ≢ suc t → s'.nr k ≡ s.nr k

  pub split_state-Halved : Halved (split_state t f.page s)
  unfolding add_halves unlink append_page
  split_state-Halved =
      let pos = pow_pos t in
      let flag : (s.pages f.page).flag ≡ pg_head =
        (Tiled-mem s.pages 0 bs f.page inv.tiled f.is_chunk).2.1 in
      let some_chunk : 1 ≤ s.nr (suc t) = omega (arith, inv.count (suc t) ht, ap length f.list) in
      let pred : suc t - 1 ≡ t = omega arith in
      record {
        first = ground (arith, pos, flag, f.order_page);
        second = ground (arith, pos, flag, f.order_page);
        same = λ x ne ne'. ground arith;
        links = rw pred;
        nr_half = ground (arith, Inv-nr-le inv t);
        nr_whole = ground (arith, some_chunk, Inv-nr-le inv (suc t));
        nr_same = λ k ne ne'. ground arith;
      }

  -- The free lists after the round.
  abbrev pub halved_lists : ℕ → List ℕ
  halved_lists =
      let q1 = write q (suc t) (erase (link_addr f.page) (q (suc t))) in
      let q2 = write q1 t (q1 t ++ link_addr f.page ∷ []) in
      write q2 t (q2 t ++ link_addr (f.page + 2 ^ t) ∷ [])

  abbrev pub halved_chunks : List ℕ
  halved_chunks = insert_after f.page (f.page + 2 ^ t) bs

  -- Membership in the free lists after the round.
  halved-mem :
      (a o : ℕ)
      → has a (halved_lists o) ≡ (
          if o == t
          then (has a (q t) || (a == link_addr f.page)) || (a == link_addr (f.page + 2 ^ t))
          else (if o == suc t then has a (erase (link_addr f.page) (q (suc t))) else has a (q o)))
  halved-mem a o =
      let p = link_addr f.page in
      let n = link_addr (f.page + 2 ^ t) in
      ground (arith, has-snoc a p (q t), has-snoc a n (q t ++ p ∷ []))

  pub first_listed : has f.page halved_chunks ≡ true
  first_listed =
      ground (arith, has-insert_after f.page f.page (f.page + 2 ^ t) bs f.is_chunk, f.is_chunk)

  length-halved :
      (o : ℕ)
      → length (halved_lists o) ≡ (
          if o == t
          then length (q t) + 2
          else (if o == suc t then length (erase (link_addr f.page) (q (suc t))) else length (q o)))
  length-halved o =
      let p = link_addr f.page in
      let n = link_addr (f.page + 2 ^ t) in
      ground (arith, length-append (q t) (p ∷ []), length-append (q t ++ p ∷ []) (n ∷ []))

  whole_listed : has (link_addr f.page) (q (suc t)) ≡ true
  whole_listed = rw f.list (ground arith)

  whole_gone : has (link_addr f.page) (erase (link_addr f.page) (q (suc t))) ≡ false
  whole_gone = has-erase_self (link_addr f.page) (q (suc t)) (inv.rings.ring (suc t) ht).distinct.1

  second_fresh : has (f.page + 2 ^ t) bs ≡ false
  second_fresh = elim (Bool-cases (has (f.page + 2 ^ t) bs)) [
    | inl i ↦
        let apart =
          Tiled-disjoint s.pages 0 bs f.page (f.page + 2 ^ t) inv.tiled f.is_chunk i
            (omega (arith, pow_pos t)) in
        absurd (omega (arith, apart, ap (λ k. 2 ^ k) f.order_page, pow_suc t, pow_pos t))
    | inr out ↦ out
  ]

  module _ (s' : BuddyState) (h : Halved s') where
    Halved-SplitAt : SplitAt s.pages s'.pages f.page (f.page + 2 ^ t) t
    Halved-SplitAt = record {
      second = refl;
      order_before = f.order_page;
      order_first = rw h.first;
      order_second = rw h.second;
      first_IsChunk = rw h.first (omega arith, refl, omega arith);
      second_IsChunk = rw h.second (omega arith, refl, omega arith);
      same = h.same;
    }

    Halved-Tiled : Tiled s'.pages 0 halved_chunks
    Halved-Tiled =
        Tiled-split s.pages s'.pages 0 bs f.page (f.page + 2 ^ t) t inv.tiled (Inv-Distinct inv)
          f.is_chunk second_fresh Halved-SplitAt

    pub Halved-free_pages : free_pages s'.pages halved_chunks ≡ free_pages s.pages bs
    Halved-free_pages =
        free_pages-split s.pages s'.pages bs f.page (f.page + 2 ^ t) t (Inv-Distinct inv) f.is_chunk
          second_fresh Halved-SplitAt f.free_page (rw h.first) (rw h.second)

    Halved-Rings : Rings s'.links halved_lists
    Halved-Rings =
        let p = link_addr f.page in
        let n = link_addr (f.page + 2 ^ t) in
        let r1 = del-Rings s.links q inv.rings (suc t) ht p whole_listed in
        let r2 =
          append-Rings _ _ r1 t (omega arith) p (omega arith)
            (λ k hk. ground (arith, whole_gone, inv.listed f.page k hk, f.order_page)) in
        let r3 = append-Rings _ _ r2 t (omega arith) n (omega arith) (λ k hk. ground (
          arith,
          inv.listed (f.page + 2 ^ t) k hk,
          second_fresh,
          pow_pos t,
          has-erase_ne n p (q (suc t)),
          has-snoc n p (q t),
        )) in
        rw h.links r3

    Halved-count : (o : ℕ) → o < buddy_max_order → s'.nr o ≡ length (halved_lists o)
    Halved-count o ho = ground (
      arith,
      length-halved o,
      length-erase (q (suc t)) (link_addr f.page) whole_listed,
      inv.count o ho,
      h.nr_half,
      h.nr_whole,
      h.nr_same o,
    )

    Halved-listed :
        (x o : ℕ)
        → o < buddy_max_order
        → has (link_addr x) (halved_lists o)
          ≡ (has x halved_chunks && (s'.pages x).order == o && (s'.pages x).free == 1)
    Halved-listed x o ho = elim (Bool-cases (x == f.page)) [
      | inl e ↦ rw ((==_iff x f.page).0 e) (
          ground (
            arith,
            halved-mem (link_addr f.page) o,
            has-insert_after f.page f.page (f.page + 2 ^ t) bs f.is_chunk,
            inv.listed f.page o ho,
            f.is_chunk,
            f.order_page,
            whole_gone,
            h.first,
            pow_pos t,
          ))
      | inr ne ↦ elim (Bool-cases (x == f.page + 2 ^ t)) [
        | inl e' ↦ rw ((==_iff x (f.page + 2 ^ t)).0 e') (
            ground (
              arith,
              halved-mem (link_addr (f.page + 2 ^ t)) o,
              has-insert_after (f.page + 2 ^ t) f.page (f.page + 2 ^ t) bs f.is_chunk,
              has-erase_ne (link_addr (f.page + 2 ^ t)) (link_addr f.page) (q (suc t)),
              inv.listed (f.page + 2 ^ t) o ho,
              second_fresh,
              h.second,
              pow_pos t,
            ))
        | inr ne' ↦ ground (
          arith,
          halved-mem (link_addr x) o,
          has-insert_after x f.page (f.page + 2 ^ t) bs f.is_chunk,
          has-erase_ne (link_addr x) (link_addr f.page) (q (suc t)),
          inv.listed x o ho,
          h.same x,
        )
      ]
    ]

    pub Halved-Refined : Refined s bs s' halved_chunks
    Halved-Refined = record {
      kept = λ b i free. ground (
        arith,
        has-insert_after b f.page (f.page + 2 ^ t) bs f.is_chunk,
        h.same b,
        second_fresh,
        f.free_page,
        has_ne (f.page + 2 ^ t) b bs second_fresh i,
      );
      covered = λ b i free.
          let whole : 2 ^ (s.pages f.page).order ≡ 2 * 2 ^ t =
            ap (λ k. 2 ^ k) f.order_page ∙ pow_suc t in
          elim (Bool-cases (b == f.page)) [
            | inl e ↦
                let same_b : b ≡ f.page = (==_iff b f.page).0 e in
                let half : 2 ^ (s'.pages b).order ≡ 2 ^ t = rw (same_b, h.first) refl in
                (f.page, f.is_chunk, f.free_page, omega arith, omega (arith, half, whole))
            | inr ne ↦ elim (Bool-cases (b == f.page + 2 ^ t)) [
              | inl e ↦
                  let same_b : b ≡ f.page + 2 ^ t = (==_iff b (f.page + 2 ^ t)).0 e in
                  let half : 2 ^ (s'.pages b).order ≡ 2 ^ t = rw (same_b, h.second) refl in
                  (f.page, f.is_chunk, f.free_page, omega arith, omega (arith, half, whole))
              | inr ne' ↦
                  let old : has b bs ≡ true =
                    ground (arith, has-insert_after b f.page (f.page + 2 ^ t) bs f.is_chunk) in
                  let e : s'.pages b ≡ s.pages b = h.same b (ground arith) (ground arith) in
                  (b, old, rw (← e) free, omega arith, rw e (omega arith))
            ]
          ];
    }

    pub Halved-Inv : Inv s' halved_lists halved_chunks
    Halved-Inv = record {
      rings = Halved-Rings;
      count = Halved-count;
      listed = Halved-listed;
      tiled = Halved-Tiled;
    }
