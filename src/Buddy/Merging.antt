-- ===== src/Buddy/Merging.antt =====
-- One merge of `buddy_free_page` in kernel/mm/buddy.c, on the chunks and the lists.
use sky_os.Base.{
  ℕ, suc, ◌+◌, ◌^◌, ◌≤◌, ◌<◌, ◌≡◌, ◌≢◌, refl, sym, ◌∙◌, inl, inr, true, false, ◌&&◌, ◌||◌,
  if◌then◌else◌, List, [], ◌∷◌, ◌++◌, arith, ◌==◌, Bool-cases, ==_iff, has, has_ne, Distinct,
  Distinct-erase, erase, has-erase_self, has-erase_ne, has-snoc, length, length-append,
  length-erase, write, lt→ltb,
}
use sky_os.Base.Runs.{done}
use sky_os.Buddy.{
  BuddyState, buddy_max_order, pg_head, head_addr, link_addr, unlink, append_page, list_page,
  merge_chunks, merge,
}
use sky_os.ListHead.{list_append, list_del}
use sky_os.Buddy.Queues.{Rings, append-Rings, del-Rings}
use sky_os.Buddy.Tiles.{Tiled-mem, pow_pos, pow_suc}
use sky_os.Buddy.Chunks.{free_pages, SameBut, MergeAt, Tiled-merge, free_pages-erase, free_pages-at}
use sky_os.Buddy.Invariant.{Inv, Inv-Distinct, Inv-nr-le}

-- Two neighbouring free chunks of order `k` in a state with the invariant.
pub record Mergeable (s : BuddyState) (bs : List ℕ) (k p n : ℕ) : Type 0 where
  pub low : suc k < buddy_max_order
  pub second : n ≡ p + 2 ^ k
  pub first_chunk : has p bs ≡ true
  pub second_chunk : has n bs ≡ true
  pub order_first : (s.pages p).order ≡ k
  pub order_second : (s.pages n).order ≡ k
  pub free_first : (s.pages p).free ≡ 1
  pub free_second : (s.pages n).free ≡ 1

module _ {s : BuddyState} {q : ℕ → List ℕ} {bs : List ℕ} (inv : Inv s q bs) (k p n : ℕ)
    (m : Mergeable s bs k p n) where
  abbrev pub merge_state : BuddyState
  merge_state = list_page p (suc k) (merge_chunks p n s)

  p≢n : p ≢ n
  p≢n = ground (arith, m.second, pow_pos k)

  -- What the merge does to the pages, the free lists and the counters.
  pub record Merged (s' : BuddyState) : Type 0 where
    pub first : s'.pages p ≡ record { order = suc k; free = 1; flag = pg_head }
    pub same : SameBut s.pages s'.pages p n
    pub links :
        s'.links
        ≡ list_append
            (link_addr p)
            (head_addr (suc k))
            (list_del (link_addr p) (list_del (link_addr n) s.links))
    pub nr_half : s'.nr k + 2 ≡ s.nr k
    pub nr_whole : s'.nr (suc k) ≡ s.nr (suc k) + 1
    pub nr_same : (o : ℕ) → o ≢ k → o ≢ suc k → s'.nr o ≡ s.nr o

  first_listed : has (link_addr p) (q k) ≡ true
  first_listed = ground (arith, inv.listed p k, m.low, m.first_chunk, m.order_first, m.free_first)

  second_listed : has (link_addr n) (q k) ≡ true
  second_listed =
      ground (arith, inv.listed n k, m.low, m.second_chunk, m.order_second, m.free_second)

  abbrev both_gone : List ℕ
  both_gone = erase (link_addr p) (erase (link_addr n) (q k))

  first_left : has (link_addr p) (erase (link_addr n) (q k)) ≡ true
  first_left = ground (arith, has-erase_ne (link_addr p) (link_addr n) (q k), first_listed, p≢n)

  length-both_gone : length both_gone + 2 ≡ length (q k)
  length-both_gone = omega (
    arith,
    length-erase (q k) (link_addr n) second_listed,
    length-erase (erase (link_addr n) (q k)) (link_addr p) first_left,
  )

  pub merge_state-Merged : Merged merge_state
  unfolding list_page merge_chunks unlink append_page
  merge_state-Merged =
      let flag : (s.pages p).flag ≡ pg_head =
        (Tiled-mem s.pages 0 bs p inv.tiled m.first_chunk).2.1 in
      let hk : k < buddy_max_order = omega (arith, m.low) in
      let two : 2 ≤ s.nr k = omega (arith, length-both_gone, inv.count k hk) in
      record {
        first = ground (arith, p≢n, flag, m.order_first, m.order_second, m.free_first, m.low);
        same = λ x ne ne'. ground arith;
        links = refl;
        nr_half = ground (arith, p≢n, two, m.order_first, m.order_second, Inv-nr-le inv k hk);
        nr_whole = ground (arith, p≢n, m.order_first, m.order_second, Inv-nr-le inv (suc k) m.low);
        nr_same = λ o ne ne'. ground (arith, p≢n, m.order_first, m.order_second);
      }

  merge_chunks-order : ((merge_chunks p n s).pages p).order ≡ suc k
  unfolding merge_chunks unlink
  merge_chunks-order = ground (arith, p≢n, m.order_first, m.low)

  pub merge-done : merge p n s ≡ done merge_state
  unfolding merge
  merge-done = rw (merge_chunks-order, lt→ltb (suc k) buddy_max_order m.low) refl

  -- The free lists after the merge.
  abbrev pub merged_lists : ℕ → List ℕ
  merged_lists =
      let q1 = write q k (erase (link_addr n) (q k)) in
      let q2 = write q1 k (erase (link_addr p) (q1 k)) in
      write q2 (suc k) (q2 (suc k) ++ link_addr p ∷ [])

  abbrev pub merged_chunks : List ℕ
  merged_chunks = erase n bs

  -- Membership in the free lists after the merge.
  merged-mem :
      (a o : ℕ)
      → has a (merged_lists o) ≡ (
          if o == suc k
          then has a (q (suc k)) || (a == link_addr p)
          else (if o == k then has a both_gone else has a (q o)))
  merged-mem a o = ground (arith, has-snoc a (link_addr p) (q (suc k)))

  length-merged :
      (o : ℕ)
      → length (merged_lists o) ≡ (
          if o == suc k
          then length (q (suc k)) + 1
          else (if o == k then length both_gone else length (q o)))
  length-merged o = ground (arith, length-append (q (suc k)) (link_addr p ∷ []))

  both_gone-mem :
      (a : ℕ)
      → has a both_gone
        ≡ (if a == link_addr p then false else (if a == link_addr n then false else has a (q k)))
  both_gone-mem a =
      let hk : k < buddy_max_order = omega (arith, m.low) in
      let distinct : Distinct (q k) = (inv.rings.ring k hk).distinct.1 in
      let gone_p =
        has-erase_self (link_addr p) (erase (link_addr n) (q k))
          (Distinct-erase (q k) (link_addr n) distinct) in
      let gone_n = has-erase_self (link_addr n) (q k) distinct in
      elim (Bool-cases (a == link_addr p)) [
        | inl e ↦ rw e (rw ((==_iff a (link_addr p)).0 e) gone_p)
        | inr ne ↦ elim (Bool-cases (a == link_addr n)) [
          | inl e ↦
              let same_a : a ≡ link_addr n = (==_iff a (link_addr n)).0 e in
              rw (ne, e)
                (has-erase_ne a (link_addr p) (erase (link_addr n) (q k)) ne ∙ rw same_a gone_n)
          | inr ne' ↦
              rw (ne, ne')
                (has-erase_ne a (link_addr p) (erase (link_addr n) (q k)) ne
                  ∙ has-erase_ne a (link_addr n) (q k) ne')
        ]
      ]

  module _ (s' : BuddyState) (h : Merged s') where
    merged-Rings : Rings s'.links merged_lists
    merged-Rings =
        let hk : k < buddy_max_order = omega (arith, m.low) in
        let r1 = del-Rings s.links q inv.rings k hk (link_addr n) second_listed in
        let r2 = del-Rings _ _ r1 k hk (link_addr p) (ground (arith, first_left)) in
        let r3 =
          append-Rings _ _ r2 (suc k) m.low (link_addr p) (omega arith) (λ o ho.
            ground (arith, both_gone-mem (link_addr p), inv.listed p o ho, m.order_first)) in
        rw h.links r3

    merged-MergeAt : MergeAt s.pages s'.pages p n k
    merged-MergeAt = record {
      second = m.second;
      order_first = m.order_first;
      order_second = m.order_second;
      order_after = rw h.first;
      after_IsChunk = rw h.first (m.low, refl, omega arith);
      same = h.same;
    }

    merged-listed :
        (x o : ℕ)
        → o < buddy_max_order
        → has (link_addr x) (merged_lists o)
          ≡ (has x merged_chunks && (s'.pages x).order == o && (s'.pages x).free == 1)
    merged-listed x o ho = elim (Bool-cases (x == p)) [
      | inl e ↦ rw ((==_iff x p).0 e) (
          ground (
            arith,
            merged-mem (link_addr p) o,
            both_gone-mem (link_addr p),
            has-erase_ne p n bs,
            inv.listed p o ho,
            m.first_chunk,
            m.order_first,
            h.first,
            p≢n,
          ))
      | inr ne ↦ elim (Bool-cases (x == n)) [
        | inl e' ↦ rw ((==_iff x n).0 e') (
            ground (
              arith,
              merged-mem (link_addr n) o,
              both_gone-mem (link_addr n),
              has-erase_self n bs (Inv-Distinct inv),
              inv.listed n o ho,
              m.order_second,
              p≢n,
            ))
        | inr ne' ↦ ground (
          arith,
          merged-mem (link_addr x) o,
          both_gone-mem (link_addr x),
          has-erase_ne x n bs,
          inv.listed x o ho,
          h.same x,
        )
      ]
    ]

    pub merged-Inv : Inv s' merged_lists merged_chunks
    merged-Inv = record {
      rings = merged-Rings;
      count = λ o ho. ground (
        arith,
        length-merged o,
        length-both_gone,
        inv.count o ho,
        h.nr_half,
        h.nr_whole,
        h.nr_same o,
      );
      listed = merged-listed;
      tiled =
          Tiled-merge s.pages s'.pages 0 bs p n k inv.tiled (Inv-Distinct inv) m.first_chunk
            m.second_chunk p≢n merged-MergeAt;
    }

    pub merged-first : has p merged_chunks ≡ true
    merged-first = ground (arith, has-erase_ne p n bs, m.first_chunk, p≢n)

    pub merged-free_pages : free_pages s'.pages merged_chunks ≡ free_pages s.pages bs
    merged-free_pages =
        let gone : has n merged_chunks ≡ false = has-erase_self n bs (Inv-Distinct inv) in
        ground (
          arith,
          free_pages-erase s.pages s'.pages bs n m.second_chunk m.free_second,
          free_pages-at s.pages s'.pages merged_chunks p (Distinct-erase bs n (Inv-Distinct inv))
              merged-first (λ x j ne. h.same x ne (λ e. has_ne n x merged_chunks gone j (sym e))),
          m.free_first,
          m.order_first,
          m.order_second,
          h.first,
          pow_suc k,
        )
