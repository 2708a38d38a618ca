-- ===== src/Vms/Covers.antt =====
-- `map` of kernel/mm/vms.c for a whole range of addresses: the entries that it adds.
use sky_os.Base.{
  ℕ, zero, suc, ◌+◌, ◌*◌, ◌/◌, ◌%◌, ◌^◌, ◌≤◌, ◌<◌, ◌≡◌, refl, ◌∙◌, arith, Bool-cases, ltb, ltb→lt,
  u64, inl, inr, ap, subst,
}
use sky_os.Base.Runs.{Run, done, result, >>=-eq-done}
use sky_os.Vms.{
  pgsize, px, pte_addr, offset, next_table, leaf_entry, trans_walk, trans, map_walk, map_pages, map,
}
use sky_os.Vms.Kalloc.{Kalloc}
use sky_os.Vms.Entries.{IsPerm, leaf_entry-fields}
use sky_os.Vms.Walk.{
  Extends, IsClean, Leads, Leads-Extends, Mapped, map_walk-Mapped, map_walk-Valid,
}

-- What `map` does to the entries when it maps the addresses from `va` up to `end`.
pub record Covers (pg va pa end perm : ℕ) (words words' : ℕ → ℕ) : Type 0 where
  pub extends : Extends words words'
  pub clean : IsClean words'
  pub leads :
      (i : ℕ)
      → va + i * pgsize < end
      → Leads 2 pg (va + i * pgsize) words' (leaf_entry (pa + i * pgsize) perm)

px-page : (level va va' : ℕ) → level < 3 → va / pgsize ≡ va' / pgsize → px level va ≡ px level va'
px-page zero va va' lt same = omega arith
px-page (suc zero) va va' lt same = omega arith
px-page (suc (suc zero)) va va' lt same = omega arith
px-page (suc (suc (suc level))) va va' lt same = absurd (omega arith)

-- `trans` looks at the page of an address only.
trans_walk-page :
    (level : ℕ)
    → level < 3
    → (a va va' : ℕ) (words : ℕ → ℕ) → va / pgsize ≡ va' / pgsize
    → trans_walk level a va words ≡ trans_walk level a va' words
unfolding trans_walk pte_addr
trans_walk-page zero lt a va va' words same = rw (px-page 0 va va' lt same) refl
trans_walk-page (suc level) lt a va va' words same =
    let e = px-page (suc level) va va' lt same in
    rw
      (
        e,
        trans_walk-page level (omega arith) (next_table (words (pte_addr a (suc level) va'))) va va'
            words same,
      )
      refl

module _ (k : Kalloc) (pg perm : ℕ) (is_perm : IsPerm perm) where
  open k use {State, kalloc_page, Valid}

  -- One more page in front.
  Covers-page :
      (va pa end : ℕ) (words words1 words' : ℕ → ℕ)
      → pa < 2 ^ 52
      → Mapped 2 pg va pa perm words words1
      → Covers pg (va + pgsize) (pa + pgsize) end perm words1 words'
      → Covers pg va pa end perm words words'
  Covers-page va pa end words words1 words' small m c = record {
    extends = λ x v. let e1 = m.extends x v in c.extends x (rw e1 v) ∙ e1;
    clean = c.clean;
    leads = go;
  }
    where
      go :
          (i : ℕ)
          → va + i * pgsize < end
          → Leads 2 pg (va + i * pgsize) words' (leaf_entry (pa + i * pgsize) perm)
      go zero lt =
          let e : va + 0 * pgsize ≡ va = omega arith in
          let e' : pa + 0 * pgsize ≡ pa = omega arith in
          rw (e, e')
            (Leads-Extends 2 pg va words1 words' (leaf_entry pa perm) c.extends
              (leaf_entry-fields pa small perm is_perm).0 m.leads)
      go (suc i) lt =
          let e : va + suc i * pgsize ≡ va + pgsize + i * pgsize = omega arith in
          let e' : pa + suc i * pgsize ≡ pa + pgsize + i * pgsize = omega arith in
          rw (e, e') (c.leads i (omega arith))

  map_pages-Covers :
      (fuel va pa end : ℕ) (words : ℕ → ℕ) (heap : State) (words' : ℕ → ℕ) (heap' : State)
      → end + pgsize ≤ 2 ^ 64
      → pa + end ≤ va + 2 ^ 52
      → IsClean words
      → Valid heap
      → map_pages kalloc_page fuel pg va pa end perm words heap ≡ done (words', heap')
      → Covers pg va pa end perm words words'
  unfolding map_pages
  map_pages-Covers zero va pa end words heap words' heap' fits small clean ok run = cc
  map_pages-Covers (suc fuel) va pa end words heap words' heap' fits small clean ok run =
      elim (Bool-cases (ltb va end)) [
        | inr stop ↦
            let e =
              ap (λ (r : Run ((ℕ → ℕ) × State)). (result {A = (ℕ → ℕ) × State} (words, heap) r).0)
                (rw stop at run) in
            subst (Covers pg va pa end perm words) e (record {
              extends = λ x v. refl;
              clean = clean;
              leads = λ i lt. absurd (ground arith);
            })
        | inl more ↦
            let lt = ltb→lt va end more in
            let ((words1, heap1), walked, run') =
              >>=-eq-done (map_walk kalloc_page 2 pg va pa perm words heap) _ (rw more at run) in
            let low : pa < 2 ^ 52 = omega arith in
            let e : u64 (va + pgsize) ≡ va + pgsize = omega arith in
            let e' : u64 (pa + pgsize) ≡ pa + pgsize = omega arith in
            let m =
              map_walk-Mapped k va pa perm low is_perm 2 pg words heap words1 heap1 clean ok
                walked in
            let ok1 = map_walk-Valid k va pa perm low is_perm 2 pg words heap ok walked in
            Covers-page va pa end words words1 words' low m (
              map_pages-Covers fuel (va + pgsize) (pa + pgsize) end words1 heap1 words' heap' fits
                (omega arith) m.clean ok1 (rw (e, e') at run'))
      ]

  pub map-Covers :
      (va pa size : ℕ) (words : ℕ → ℕ) (heap : State) (words' : ℕ → ℕ) (heap' : State)
      → va + size + pgsize ≤ 2 ^ 64
      → pa + size ≤ 2 ^ 52
      → IsClean words
      → Valid heap
      → map kalloc_page pg va pa size perm words heap ≡ done (words', heap')
      → Covers pg va pa (va + size) perm words words'
  unfolding map
  map-Covers va pa size words heap words' heap' fits small clean ok run =
      let e : u64 (va + size) ≡ va + size = omega arith in
      map_pages-Covers (size / pgsize + 2) va pa (va + size) words heap words' heap' (omega arith)
        (omega arith) clean ok (rw e at run)

  -- Entries that are added later change nothing.
  pub Covers-later :
      (va pa size : ℕ) {words words1 words' : ℕ → ℕ}
      → pa + size ≤ 2 ^ 52
      → Covers pg va pa (va + size) perm words words1
      → Extends words1 words'
      → IsClean words'
      → Covers pg va pa (va + size) perm words words'
  Covers-later va pa size {words} {words1} {words'} small c later clean = record {
    extends = λ x v. let e = c.extends x v in later x (rw e v) ∙ e;
    clean = clean;
    leads = λ i lt.
        Leads-Extends 2 pg (va + i * pgsize) words1 words' (leaf_entry (pa + i * pgsize) perm) later
          (leaf_entry-fields (pa + i * pgsize) (omega arith) perm is_perm).0 (c.leads i lt);
  }

  pub Covers-trans :
      (va pa size : ℕ) {words words' : ℕ → ℕ}
      → va % pgsize ≡ 0
      → pa % pgsize ≡ 0
      → pa + size ≤ 2 ^ 52
      → Covers pg va pa (va + size) perm words words'
      → (x : ℕ) → x < size
      → (p : ℕ) × (trans pg (va + x) words' ≡ done p)
        × (next_table (words' p) + offset (va + x) ≡ pa + x)
  unfolding trans
  Covers-trans va pa size {words} {words'} va_page pa_page small c x lt =
      let i = x / pgsize in
      let (p, found, at) = c.leads i (omega arith) in
      let same : (va + x) / pgsize ≡ (va + i * pgsize) / pgsize = omega arith in
      let (_, _, names) = leaf_entry-fields (pa + i * pgsize) (omega arith) perm is_perm in
      (
        p,
        trans_walk-page 2 (omega arith) pg (va + x) (va + i * pgsize) words' same ∙ found,
        rw at (omega (arith, names)),
      )
