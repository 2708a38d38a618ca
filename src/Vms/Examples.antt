-- ===== src/Vms/Examples.antt =====
-- `map` and `trans` of kernel/mm/vms.c on two pages, with an allocator that hands out one page after
-- the other.
use sky_os.Base.{
  ℕ, suc, ◌+◌, ◌*◌, ◌^◌, ◌<◌, ◌≡◌, ◌≢◌, refl, arith, Bool-cases, ltb, ltb→lt, inl, inr,
  if◌then◌else◌, ap,
}
use sky_os.Base.Runs.{Run, done, panic, out_of_fuel, result}
use sky_os.Vms.{
  pgsize, valid, pte_addr, offset, next_table, leaf_entry, table_entry, trans, map_walk, map_pages,
  map,
}
use sky_os.Vms.Kalloc.{Kalloc}
use sky_os.Vms.Entries.{IsPage}
use sky_os.Vms.Walk.{Extends, IsClean}
use sky_os.Vms.Pages.{map-trans, map-ends}

unfoldable pub next_page : ℕ → Run (ℕ × ℕ)
next_page n = if ltb n (2 ^ 40) then done (n * pgsize, suc n) else panic

pub next_page-IsPage : (n t n' : ℕ) → next_page n ≡ done (t, n') → IsPage t
unfolding next_page
next_page-IsPage n t n' e = elim (Bool-cases (ltb n (2 ^ 40))) [
  | inr full ↦ cc (rw full at e)
  | inl free ↦
      let lt = ltb→lt n (2 ^ 40) free in
      let same : n * pgsize ≡ t =
        ap (λ (r : Run (ℕ × ℕ)). (result {A = ℕ × ℕ} (t, 0) r).0) (rw free at e) in
      (omega (arith, same), omega (arith, same, lt))
]

next_page-ends : (n : ℕ) → next_page n ≢ out_of_fuel
unfolding next_page
next_page-ends n e = elim (Bool-cases (ltb n (2 ^ 40))) [
  | inr full ↦ cc (rw full at e)
  | inl free ↦ cc (rw free at e)
]

abbrev pub pages : Kalloc
pages = record {
  State = ℕ;
  kalloc_page = next_page;
  Valid = λ s. Unit;
  kalloc_IsPage = λ s t s' ok. next_page-IsPage s t s';
  kalloc_Valid = λ s t s' ok got. tt;
}

abbrev pub empty : ℕ → ℕ
empty p = 0

pub empty-IsClean : IsClean empty
unfolding valid
empty-IsClean p v = absurd (ground arith)

-- Two user pages at 0x1000, with the root table at 0x80000000 and the free pages after it.
unfoldable two_pages : (ℕ → ℕ) × ℕ
unfolding map map_pages map_walk valid pte_addr table_entry leaf_entry next_page
two_pages =
    result (empty, 0) (map next_page 0x80000000 0x1000 0x90000000 0x2000 0b10000 empty 0x80001)

two_pages-map :
    map next_page 0x80000000 0x1000 0x90000000 0x2000 0b10000 empty 0x80001 ≡ done two_pages
unfolding two_pages map map_pages map_walk valid pte_addr table_entry leaf_entry next_page
two_pages-map = refl

map-trans_example :
    Extends empty two_pages.0
    × ((x : ℕ)
        → x < 0x2000
        → (p : ℕ) × (trans 0x80000000 (0x1000 + x) two_pages.0 ≡ done p)
          × (next_table (two_pages.0 p) + offset (0x1000 + x) ≡ 0x90000000 + x))
map-trans_example =
    map-trans pages 0x80000000 0b10000 (inr refl) 0x1000 0x90000000 0x2000 empty 0x80001 two_pages.0
      two_pages.1 refl refl (omega arith) (omega arith) empty-IsClean tt two_pages-map

map-ends_example :
    map next_page 0x80000000 0x1000 0x90000000 0x2000 0b10000 empty 0x80001 ≢ out_of_fuel
map-ends_example =
    map-ends pages 0x80000000 0b10000 (inr refl) 0x1000 0x90000000 0x2000 empty 0x80001
      (omega arith) next_page-ends
