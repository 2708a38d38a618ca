-- ===== src/Vms.antt =====
-- kernel/mm/vms.c with kernel/include/vms.h: Sv39 page tables, three levels of 512 entries of eight
-- bytes. The state is the memory of page table entries by address and the state of the allocator
-- that `kalloc` belongs to; the allocator is a parameter (see Kalloc).
pub mod Covers
pub mod Entries
pub mod Examples
pub mod Kalloc
pub mod Ledger
pub mod Macros
pub mod Pages
pub mod Walk
use sky_os.Base.{
  ℕ, zero, suc, ◌+◌, ◌-◌, ◌*◌, ◌/◌, ◌%◌, ◌^◌, ◌<◌, Bool, not, ◌&&◌, ◌||◌, ◌==◌, ltb, leb,
  if◌then◌else◌, bit_or, write, u64, shr,
}
use sky_os.Base.Runs.{Run, done, panic, out_of_fuel, ◌>>=◌}

abbrev pub pgsize : ℕ
pgsize = 2 ^ 12

abbrev pub pte_v : ℕ
pte_v = 0b1

abbrev pub pte_r : ℕ
pte_r = 0b10

abbrev pub pte_w : ℕ
pte_w = 0b100

abbrev pub pte_x : ℕ
pte_x = 0b1000

-- PTE_X | PTE_W | PTE_R | PTE_V
abbrev pub pte_xwrv : ℕ
pte_xwrv = 0b1111

abbrev pub pte_u : ℕ
pte_u = 0b10000

-- `valid`, `readable`, `writable` and `executable`: one bit of the entry.
unfoldable pub valid : ℕ → Bool
valid e = e % 2 == 1

abbrev pub readable : ℕ → Bool
readable e = shr e 1 % 2 == 1

abbrev pub writable : ℕ → Bool
writable e = shr e 2 % 2 == 1

abbrev pub executable : ℕ → Bool
executable e = shr e 3 % 2 == 1

-- The test of `trans` for an access fault.
unfoldable pub faults : ℕ → Bool
faults e = not (valid e) || (not (readable e) && writable e)

-- The mask of `pte2ppn` has 40 bits.
abbrev pub pte2ppn : ℕ → ℕ
pte2ppn e = shr e 10 % 2 ^ 40

-- The pieces of a page number.
unfoldable pub pte2ppn0 : ℕ → ℕ
pte2ppn0 e = pte2ppn e % 2 ^ 9

unfoldable pub pte2ppn1 : ℕ → ℕ
pte2ppn1 e = shr (pte2ppn e) 9 % 2 ^ 9

unfoldable pub pte2ppn2 : ℕ → ℕ
pte2ppn2 e = shr (pte2ppn e) 9 % 2 ^ 26

-- PGROUNDUP(sz) and PGROUNDDOWN(a)
unfoldable pub pground_up : ℕ → ℕ
pground_up sz = let top = u64 (sz + pgsize + 2 ^ 64 - 1) in top - top % pgsize

unfoldable pub pground_down : ℕ → ℕ
pground_down a = a - a % pgsize

-- PX(level, va)
abbrev pub px : ℕ → ℕ → ℕ
px level va = shr va (12 + 9 * level) % 2 ^ 9

-- OFFSET(addr)
abbrev pub offset : ℕ → ℕ
offset addr = addr % pgsize

-- `a + PX(level, va)` for a pointer to entries of eight bytes.
unfoldable pub pte_addr : (a level va : ℕ) → ℕ
pte_addr a level va = a + 8 * px level va

-- The entry that points to the next level, and the entry of a page.
unfoldable pub table_entry : (a perm : ℕ) → ℕ
table_entry a perm = bit_or (u64 (shr a 12 * 2 ^ 10)) (bit_or pte_v perm)

unfoldable pub leaf_entry : (pa perm : ℕ) → ℕ
leaf_entry pa perm = bit_or (u64 (shr pa 12 * 2 ^ 10)) (bit_or pte_xwrv perm)

-- The page that an entry points to: `pte2ppn(*p) << 12`.
abbrev pub next_table : ℕ → ℕ
next_table e = pte2ppn e * 2 ^ 12

-- One turn of the loop of `trans` for each level; the result is the address of the last entry.
unfoldable pub trans_walk : (level a va : ℕ) → (ℕ → ℕ) → Run ℕ
trans_walk zero a va words =
    let e = words (pte_addr a 0 va) in if faults e then panic else done (pte_addr a 0 va)
trans_walk (suc level) a va words =
    let e = words (pte_addr a (suc level) va) in
    let rest = trans_walk level (next_table e) va words in if faults e then panic else rest

unfoldable pub trans : (pg va : ℕ) → (ℕ → ℕ) → Run ℕ
trans pg va words = trans_walk 2 pg va words

module _ {S : Type 0} (kalloc_page : S → Run (ℕ × S)) where
  -- The inner loop of `map`, from a level down to level 0, on the entries and the allocator.
  unfoldable pub map_walk : (level a va0 pa0 perm : ℕ) → (ℕ → ℕ) → S → Run ((ℕ → ℕ) × S)
  map_walk zero a va0 pa0 perm words heap =
      let p = pte_addr a 0 va0 in
      if valid (words p) then panic else done (write words p (leaf_entry pa0 perm), heap)
  map_walk (suc level) a va0 pa0 perm words heap =
      let p = pte_addr a (suc level) va0 in
      let down = map_walk level (next_table (words p)) va0 pa0 perm words heap in
      let grow = (do
        (t, heap') ← kalloc_page heap
        map_walk level t va0 pa0 perm (write words p (table_entry t perm)) heap') in
      if valid (words p) then down else grow

  -- The outer loop of `map`, up to the address `end`.
  unfoldable pub map_pages : (fuel pg va0 pa0 end perm : ℕ) → (ℕ → ℕ) → S → Run ((ℕ → ℕ) × S)
  map_pages zero pg va0 pa0 end perm words heap = out_of_fuel
  map_pages (suc fuel) pg va0 pa0 end perm words heap =
      let rest = (do
        (words', heap') ← map_walk 2 pg va0 pa0 perm words heap
        map_pages fuel pg (u64 (va0 + pgsize)) (u64 (pa0 + pgsize)) end perm words' heap') in
      if ltb va0 end then rest else done (words, heap)

  -- A page a round, and one round for the last test.
  unfoldable pub map : (pg va pa size perm : ℕ) → (ℕ → ℕ) → S → Run ((ℕ → ℕ) × S)
  map pg va pa size perm words heap =
      map_pages (size / pgsize + 2) pg va pa (u64 (va + size)) perm words heap
