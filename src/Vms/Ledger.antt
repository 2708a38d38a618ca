-- ===== src/Vms/Ledger.antt =====
-- An allocator that hands out no address twice, and the functions of kernel/mm/vms.c on it.
use sky_os.Base.{
  ℕ, zero, suc, ◌+◌, ◌/◌, ◌^◌, ◌≤◌, ◌<◌, ◌≡◌, arith, subst, ◌-◌, ◌⊎◌, leb, inl, inr, ltb,
  Bool-cases, u64, write,
}
use sky_os.Base.Runs.{Run, done, >>=-eq-done, done_injective}
use sky_os.Vms.Entries.{IsPage}
use sky_os.Vms.Kalloc.{Kalloc}
use sky_os.Vms.{pgsize, valid, pte_addr, next_table, table_entry, map_walk, map_pages, map}

-- Which bytes are held in a state of the allocator, where its state is a valid one.
pub record Ledger {S : Type 0} (kalloc : ℕ → S → Run (ℕ × S)) : Type 1 where
  pub Valid : S → Type 0
  pub Held : S → ℕ → Type 0
  -- Nothing is taken back.
  pub keeps :
      (size : ℕ) {s : S} {a : ℕ} {s' : S}
      → Valid s
      → kalloc size s ≡ done (a, s')
      → Valid s' × ((b : ℕ) → Held s b → Held s' b)
  -- A request that is granted gets whole pages, whose bytes were not held.
  pub grants :
      (size : ℕ) {s : S} {a : ℕ} {s' : S}
      → size < 2 ^ 31
      → Valid s
      → kalloc size s ≡ done (a, s')
      → IsPage a × (a + size ≤ 2 ^ 52) × ((x : ℕ) → x < size → (¬ Held s (a + x)) × Held s' (a + x))

module _ {S : Type 0} {kalloc : ℕ → S → Run (ℕ × S)} (l : Ledger kalloc) where
  open l use {Valid, Held, keeps, grants}

  -- What was held is held.
  pub record Grows (s s' : S) : Type 0 where
    pub valid : Valid s → Valid s'
    pub held : Valid s → (b : ℕ) → Held s b → Held s' b

  pub Grows-refl : (s : S) → Grows s s
  Grows-refl s = record { valid = λ v. v; held = λ v b h. h }

  pub Grows-trans : {s1 s2 s3 : S} → Grows s1 s2 → Grows s2 s3 → Grows s1 s3
  Grows-trans g h = record {
    valid = λ v. h.valid (g.valid v);
    held = λ v b i. h.held (g.valid v) b (g.held v b i);
  }

  pub kalloc-Grows : (size : ℕ) {s : S} {a : ℕ} {s' : S} → kalloc size s ≡ done (a, s') → Grows s s'
  kalloc-Grows size run = record {
    valid = λ v. (keeps size v run).0;
    held = λ v. (keeps size v run).1;
  }

  -- A byte that was held is not among those that are granted.
  pub granted_apart :
      (size : ℕ) {s : S} {a : ℕ} {s' : S} (b : ℕ)
      → size < 2 ^ 31
      → Valid s
      → kalloc size s ≡ done (a, s')
      → Held s b
      → (b < a) ⊎ (a + size ≤ b)
  granted_apart size {s} {a} b small ok got held =
      let (_, _, bytes) = grants size small ok got in
      elim (Bool-cases (leb a b)) [
        | inr below ↦ inl (ground (arith, below))
        | inl above ↦ elim (Bool-cases (ltb b (a + size))) [
          | inr behind ↦ inr (ground (arith, behind))
          | inl in_it ↦
              let e : a + (b - a) ≡ b = ground (arith, above) in
              absurd ((bytes (b - a) (ground (arith, above, in_it))).0 (rw e held))
        ]
      ]

  -- The allocator of the page tables.
  abbrev pub ledger_kalloc : Kalloc
  ledger_kalloc = record {
    State = S;
    kalloc_page = kalloc pgsize;
    Valid = Valid;
    kalloc_IsPage = λ s t s' ok got. (grants pgsize (omega arith) ok got).0;
    kalloc_Valid = λ s t s' ok got. (keeps pgsize ok got).0;
  }

  -- A page that is granted.
  pub kalloc_page-fresh :
      {s : S} {t : ℕ} {s' : S} → Valid s → kalloc pgsize s ≡ done (t, s') → (¬ Held s t) × Held s' t
  kalloc_page-fresh {s} {t} {s'} ok got =
      let (page, high, bytes) = grants pgsize (omega arith) ok got in
      let e : t + 0 ≡ t = omega arith in
      subst (λ a. (¬ Held s a) × Held s' a) e (bytes 0 (omega arith))

  map_walk-Grows :
      (level a va pa perm : ℕ) (words : ℕ → ℕ) (heap : S) {words' : ℕ → ℕ} {heap' : S}
      → map_walk (kalloc pgsize) level a va pa perm words heap ≡ done (words', heap')
      → Grows heap heap'
  unfolding map_walk
  map_walk-Grows zero a va pa perm words heap run =
      elim (Bool-cases (valid (words (pte_addr a 0 va)))) [
        | inl used ↦ cc (rw used at run)
        | inr unused ↦
            subst (λ (x : (ℕ → ℕ) × S). Grows heap x.1) (done_injective (rw unused at run))
              (Grows-refl heap)
      ]
  map_walk-Grows (suc level) a va pa perm words heap run =
      let p = pte_addr a (suc level) va in
      elim (Bool-cases (valid (words p))) [
        | inl used ↦
            map_walk-Grows level (next_table (words p)) va pa perm words heap (rw used at run)
        | inr unused ↦
            let ((t, heap1), got, rest) = >>=-eq-done (kalloc pgsize heap) _ (rw unused at run) in
            Grows-trans (kalloc-Grows pgsize got)
              (map_walk-Grows level t va pa perm (write words p (table_entry t perm)) heap1 rest)
      ]

  map_pages-Grows :
      (fuel pg va pa end perm : ℕ) (words : ℕ → ℕ) (heap : S) {words' : ℕ → ℕ} {heap' : S}
      → map_pages (kalloc pgsize) fuel pg va pa end perm words heap ≡ done (words', heap')
      → Grows heap heap'
  unfolding map_pages
  map_pages-Grows zero pg va pa end perm words heap run = cc
  map_pages-Grows (suc fuel) pg va pa end perm words heap run = elim (Bool-cases (ltb va end)) [
    | inr stop ↦
        subst (λ (x : (ℕ → ℕ) × S). Grows heap x.1) (done_injective (rw stop at run))
          (Grows-refl heap)
    | inl more ↦
        let ((words1, heap1), walked, rest) =
          >>=-eq-done (map_walk (kalloc pgsize) 2 pg va pa perm words heap) _ (rw more at run) in
        Grows-trans (map_walk-Grows 2 pg va pa perm words heap walked) (
          map_pages-Grows fuel pg (u64 (va + pgsize)) (u64 (pa + pgsize)) end perm words1 heap1
            rest)
  ]

  pub map-Grows :
      (pg va pa size perm : ℕ) (words : ℕ → ℕ) (heap : S) {words' : ℕ → ℕ} {heap' : S}
      → map (kalloc pgsize) pg va pa size perm words heap ≡ done (words', heap')
      → Grows heap heap'
  unfolding map
  map-Grows pg va pa size perm words heap run =
      map_pages-Grows (size / pgsize + 2) pg va pa (u64 (va + size)) perm words heap run
