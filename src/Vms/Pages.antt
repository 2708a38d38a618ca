-- ===== src/Vms/Pages.antt =====
-- `map` of kernel/mm/vms.c for a whole range of addresses, and `trans` after it.
use sky_os.Base.{
  ℕ, zero, suc, ◌+◌, ◌*◌, ◌/◌, ◌%◌, ◌^◌, ◌≤◌, ◌<◌, ◌≡◌, ◌≢◌, false, arith, Bool-cases, ltb, le→ltb,
  ltb→lt, u64, inl, inr, write,
}
use sky_os.Base.Runs.{done, out_of_fuel, >>=-ends}
use sky_os.Vms.{
  pgsize, valid, pte_addr, offset, next_table, table_entry, trans, map_walk, map_pages, map,
}
use sky_os.Vms.Kalloc.{Kalloc}
use sky_os.Vms.Entries.{IsPerm}
use sky_os.Vms.Walk.{Extends, IsClean}
use sky_os.Vms.Covers.{map-Covers, Covers-trans}

module _ (k : Kalloc) (pg perm : ℕ) (is_perm : IsPerm perm) where
  open k use {State, kalloc_page, Valid}

  map_walk-ends :
      (level a va pa : ℕ) (words : ℕ → ℕ) (heap : State)
      → ((h : State) → kalloc_page h ≢ out_of_fuel)
      → map_walk kalloc_page level a va pa perm words heap ≢ out_of_fuel
  unfolding map_walk
  map_walk-ends zero a va pa words heap allocates run =
      elim (Bool-cases (valid (words (pte_addr a 0 va)))) [
        | inl used ↦ cc (rw used at run)
        | inr unused ↦ cc (rw unused at run)
      ]
  map_walk-ends (suc level) a va pa words heap allocates run =
      let p = pte_addr a (suc level) va in
      elim (Bool-cases (valid (words p))) [
        | inl used ↦
            map_walk-ends level (next_table (words p)) va pa words heap allocates (rw used at run)
        | inr unused ↦
            >>=-ends (kalloc_page heap) _ (allocates heap)
              (λ (t, heap1).
                map_walk-ends level t va pa (write words p (table_entry t perm)) heap1 allocates)
              (rw unused at run)
      ]

  map_pages-ends :
      (fuel va pa end : ℕ) (words : ℕ → ℕ) (heap : State)
      → end + pgsize ≤ 2 ^ 64
      → end ≤ va + fuel * pgsize
      → ((h : State) → kalloc_page h ≢ out_of_fuel)
      → map_pages kalloc_page (suc fuel) pg va pa end perm words heap ≢ out_of_fuel
  unfolding map_pages
  map_pages-ends zero va pa end words heap fits enough allocates run =
      let stop : ltb va end ≡ false = le→ltb va end (omega arith) in cc (rw stop at run)
  map_pages-ends (suc fuel) va pa end words heap fits enough allocates run =
      elim (Bool-cases (ltb va end)) [
        | inr stop ↦ cc (rw stop at run)
        | inl more ↦
            let lt = ltb→lt va end more in
            let e : u64 (va + pgsize) ≡ va + pgsize = omega arith in
            >>=-ends (map_walk kalloc_page 2 pg va pa perm words heap) _
              (map_walk-ends 2 pg va pa words heap allocates)
              (λ (words1, heap1).
                map_pages-ends fuel (va + pgsize) (u64 (pa + pgsize)) end words1 heap1 fits
                  (omega arith) allocates)
              (rw (more, e) at run)
      ]

  -- When map of whole pages onto whole pages with the permissions 0 or PTE_U, with virtual
  -- addresses that end a page or more below 2 ^ 64, physical addresses up to 2 ^ 52, an allocator
  -- in a valid state that gives aligned pages, and a memory without an entry that is valid and
  -- writable but not readable, returns, every entry that was valid is kept, and trans finds for
  -- each address of the range an entry that names the page of the physical address at the same
  -- distance from the start.
  pub map-trans :
      (va pa size : ℕ) (words : ℕ → ℕ) (heap : State) (words' : ℕ → ℕ) (heap' : State)
      → va % pgsize ≡ 0
      → pa % pgsize ≡ 0
      → va + size + pgsize ≤ 2 ^ 64
      → pa + size ≤ 2 ^ 52
      → IsClean words
      → Valid heap
      → map kalloc_page pg va pa size perm words heap ≡ done (words', heap')
      → Extends words words'
        × ((x : ℕ)
            → x < size
            → (p : ℕ) × (trans pg (va + x) words' ≡ done p)
              × (next_table (words' p) + offset (va + x) ≡ pa + x))
  map-trans va pa size words heap words' heap' va_page pa_page fits small clean ok run =
      let c =
        map-Covers k pg perm is_perm va pa size words heap words' heap' fits small clean ok run in
      (c.extends, Covers-trans k pg perm is_perm va pa size va_page pa_page small c)

  -- The rounds that the model of map is given are enough: where the range ends a page below the
  -- end of the address space and the allocator ends, map does not run out of rounds.
  pub map-ends :
      (va pa size : ℕ) (words : ℕ → ℕ) (heap : State)
      → va + size + pgsize ≤ 2 ^ 64
      → ((h : State) → kalloc_page h ≢ out_of_fuel)
      → map kalloc_page pg va pa size perm words heap ≢ out_of_fuel
  unfolding map
  map-ends va pa size words heap fits allocates run =
      let e : u64 (va + size) ≡ va + size = omega arith in
      let two : size / pgsize + 2 ≡ suc (size / pgsize + 1) = omega arith in
      map_pages-ends (size / pgsize + 1) va pa (va + size) words heap (omega arith) (omega arith)
        allocates (rw (e, two) at run)
