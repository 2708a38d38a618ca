-- ===== src/Buddy.antt =====
-- kernel/mm/buddy.c, with the types of kernel/include/buddy.h and the sizes of
-- kernel/include/pmm.h: the buddy allocator of physical pages. The state is the array `pages`, the
-- links of the free lists and the counters `nr`. A `struct Page *` is its index in `pages`.
pub mod Halving
pub mod Split
pub mod Claim
pub mod Allocate
pub mod Merging
pub mod Coalesce
pub mod Release
pub mod Free
pub mod Init
pub mod Size
pub mod Statistics
pub mod Owned
pub mod Reach
pub mod Failures
pub mod Invariant
pub mod Chunks
pub mod Tiles
pub mod Bench
pub mod Examples
pub mod Queues
use sky_os.Base.{
  ℕ, zero, suc, ◌+◌, ◌-◌, ◌*◌, ◌/◌, ◌^◌, ◌<◌, Bool, ◌&&◌, Option, none, some, not, arith, dec_lt,
  ltb, leb, ◌==◌, if◌then◌else◌, write, u32, u64, dec32, dec64, sign_extend,
}
use sky_os.Base.Order.{lt_wf}
use sky_os.Base.Runs.{Run, done, panic, out_of_fuel, ◌>>=◌, ◌>>◌, require, inside}
use sky_os.ListHead.{Links, set_next, set_prev, init_list_head, list_append, list_del}
use mathlib.Core.Logic.{dite}
use mathlib.Core.WellFounded.{Acc, WellFounded}

abbrev pub buddy_max_order : ℕ
buddy_max_order = 14

abbrev pub buddy_max_order_nr_pages : ℕ
buddy_max_order_nr_pages = 2 ^ (buddy_max_order - 1)

abbrev pub buddy_page_size : ℕ
buddy_page_size = 0x1000

-- 64 MB of pages.
abbrev pub npage : ℕ
npage = 2 ^ 26 / 2 ^ 12

abbrev pub pg_head : ℕ
pg_head = 1

abbrev pub pg_tail : ℕ
pg_tail = 2

-- `struct Page` less its `list_link`, whose two fields are in the links at `link_addr`.
pub record Page : Type 0 where
  pub order : ℕ
  pub free : ℕ
  pub flag : ℕ

pub record BuddyState : Type 0 where
  pub pages : ℕ → Page
  pub links : Links
  pub nr : ℕ → ℕ

-- The addresses of `buddy_lists[i].head` and of `pages[p].list_link`; 0 is NULL.
abbrev pub head_addr : ℕ → ℕ
head_addr i = i + 1

abbrev pub link_addr : ℕ → ℕ
link_addr p = p + 15

-- `le2page`, and the check that the result lies in `pages` where the code then uses it.
unfoldable pub le2page : ℕ → Run ℕ
le2page le = inside (leb 15 le && ltb (le - 15) npage) >> done (le - 15)

abbrev pub set_order : ℕ → ℕ → BuddyState → BuddyState
set_order p v s = record s { pages = write s.pages p (record (s.pages p) { order = v }) }

abbrev pub set_free : ℕ → ℕ → BuddyState → BuddyState
set_free p v s = record s { pages = write s.pages p (record (s.pages p) { free = v }) }

abbrev pub set_flag : ℕ → ℕ → BuddyState → BuddyState
set_flag p v s = record s { pages = write s.pages p (record (s.pages p) { flag = v }) }

abbrev pub set_nr : ℕ → ℕ → BuddyState → BuddyState
set_nr i v s = record s { nr = write s.nr i v }

-- `list_del` of the entry at `le`, and `buddy_lists[i].nr--`.
unfoldable pub unlink : ℕ → ℕ → BuddyState → BuddyState
unlink le i s = set_nr i (dec64 (s.nr i)) (record s { links = list_del le s.links })

-- `list_append` of page `p` to `buddy_lists[i].head`.
unfoldable pub append_page : ℕ → ℕ → BuddyState → BuddyState
append_page p i s = record s { links = list_append (link_addr p) (head_addr i) s.links }

-- `list_append` of page `p` to `buddy_lists[i].head`, and `buddy_lists[i].nr++`.
unfoldable pub list_page : (p i : ℕ) → BuddyState → BuddyState
list_page p i s = let s1 = append_page p i s in set_nr i (u64 (s1.nr i + 1)) s1

unfoldable pub buddy_lists_init : ℕ → BuddyState → BuddyState
buddy_lists_init zero s = s
buddy_lists_init (suc i) s =
    let s' = buddy_lists_init i s in
    set_nr i 0 (record s' { links = init_list_head (head_addr i) s'.links })

-- `memset(pages, 0, npage)` counts bytes, and a `struct Page` has 32 of them.
unfoldable pub clear_pages : BuddyState → BuddyState
clear_pages s =
    let cleared : ℕ → Bool = λ p. ltb p (npage / 32) in
    let cleared_link : ℕ → Bool = λ a. leb 15 a && cleared (a - 15) in
    record {
      pages = λ p. if cleared p then record { order = 0; free = 0; flag = 0 } else s.pages p;
      links = record {
        next = λ a. if cleared_link a then 0 else s.links.next a;
        prev = λ a. if cleared_link a then 0 else s.links.prev a;
      };
      nr = s.nr;
    }

-- The body of the loop of `buddy_pages_init`.
unfoldable pub init_chunk : ℕ → BuddyState → BuddyState
init_chunk i s =
    let last = buddy_max_order - 1 in
    list_page i last (set_flag i pg_head (set_free i 1 (set_order i last s)))

-- The loop runs for `i = 0` and for `i = 8192`: 16384 pages are two chunks.
unfoldable pub buddy_pages_init : BuddyState → BuddyState
buddy_pages_init s = init_chunk buddy_max_order_nr_pages (init_chunk 0 (clear_pages s))

unfoldable pub buddy_init : BuddyState → BuddyState
buddy_init s = buddy_pages_init (buddy_lists_init buddy_max_order s)

-- `while (tmp > 1) { tmp >>= 1; order += 1; }`
unfoldable pub size2order_loop : (tmp order : ℕ) → Acc ◌<◌ tmp → ℕ
size2order_loop tmp order (Acc.intro _ smaller) =
    dite (dec_lt 1 tmp)
      (λ h. size2order_loop (tmp / 2) (order + 1) (smaller (tmp / 2) (omega arith))) (λ _. order)

-- `nr_page` is a `uint`, and `(1 << order) * BUDDY_PAGE_SIZE` is computed as an `int`.
unfoldable pub size2order : ℕ → ℕ
size2order size =
    let nr_page = u32 (size / buddy_page_size) in
    let order = size2order_loop nr_page 0 (lt_wf.apply nr_page) in
    let res = sign_extend (2 ^ order * buddy_page_size) in if ltb res size then order + 1 else order

-- The shift `1 << p->order` is defined for an order below 31.
unfoldable pub get_buddy_page : ℕ → BuddyState → Run ℕ
get_buddy_page p s = inside (ltb (s.pages p).order 31) >> done (p + 2 ^ (s.pages p).order)

-- The end of a round of the loop of `buddy_split`: the halves `p` and `buddy_p` are listed.
unfoldable pub add_halves : (tmp p buddy_p : ℕ) → BuddyState → BuddyState
add_halves tmp p buddy_p s =
    let s1 = append_page buddy_p (tmp - 1) (append_page p (tmp - 1) s) in
    let s2 = set_nr (tmp - 1) (u64 (s1.nr (tmp - 1) + 2)) s1 in
    let s3 = set_flag p pg_head (set_flag buddy_p pg_head s2) in
    let s4 = set_order buddy_p (s3.pages p).order s3 in set_free p 1 (set_free buddy_p 1 s4)

-- A round for the first entry `lh` of `buddy_lists[tmp]`.
unfoldable pub split_chunk : (tmp lh : ℕ) → BuddyState → Run (ℕ × BuddyState)
split_chunk tmp lh s = do
  let s1 = unlink lh tmp s
  p ← le2page lh
  let s2 = set_order p (dec32 (s1.pages p).order) s1
  buddy_p ← get_buddy_page p s2
  inside (ltb buddy_p npage)
  done (p, add_halves tmp p buddy_p s2)

-- One round of the loop of `buddy_split`: the first chunk of order `tmp` becomes two of `tmp - 1`.
unfoldable pub split_step : ℕ → BuddyState → Run (ℕ × BuddyState)
split_step tmp s = split_chunk tmp (s.links.next (head_addr tmp)) s

-- The `do ... while (tmp > order_small)` of `buddy_split`, which is entered with `tmp > 0`.
unfoldable pub split_loop : (tmp order_small : ℕ) → BuddyState → Run (ℕ × BuddyState)
split_loop zero order_small s = out_of_fuel
split_loop (suc t) order_small s = split_step (suc t) s >>= λ r.
    let rest = split_loop t order_small r.1 in if ltb order_small t then rest else done r

unfoldable pub buddy_split : (order_large order_small : ℕ) → BuddyState → Run (ℕ × BuddyState)
buddy_split order_large order_small s = do
  require (not (s.nr order_large == 0))
  require (not (order_large == 0))
  (p, s1) ← split_loop order_large order_small s
  require ((s1.pages p).order == order_small)
  done (p, unlink (link_addr p) order_small (set_free p 0 s1))

-- `while (buddy_lists[order].nr == 0) { order++; if (order > BUDDY_MAX_ORDER) goto fail; }`
unfoldable pub find_order : (fuel order : ℕ) → BuddyState → Run ℕ
find_order zero order s = out_of_fuel
find_order (suc fuel) order s =
    let rest = find_order fuel (order + 1) s in
    inside (ltb order buddy_max_order)
    >> (if s.nr order == 0
        then (if ltb buddy_max_order (order + 1) then panic else rest)
        else done order)

-- The allocation of the chunk at the entry `lh` of the free list of this order.
unfoldable pub take_chunk : (order lh : ℕ) → BuddyState → Run (ℕ × BuddyState)
take_chunk order lh s = do let s1 = unlink lh order s; p ← le2page lh; done (p, set_free p 0 s1)

-- The first chunk of the free list of this order.
unfoldable pub take_first : ℕ → BuddyState → Run (ℕ × BuddyState)
take_first order s = take_chunk order (s.links.next (head_addr order)) s

-- From one order up to the highest there are fewer than `buddy_max_order + 1` rounds.
unfoldable pub buddy_allocate : ℕ → BuddyState → Run (ℕ × BuddyState)
buddy_allocate size s =
    let order = size2order size in
    if leb buddy_max_order order
    then panic
    else if ltb 0 (s.nr order)
    then take_first order s
    else find_order (buddy_max_order + 1) (order + 1) s >>= λ large. buddy_split large order s

-- The chunk at page `p` takes in the chunk at `buddy_p`: both leave their list.
unfoldable pub merge_chunks : (p buddy_p : ℕ) → BuddyState → BuddyState
merge_chunks p buddy_p s =
    let s1 = set_flag buddy_p pg_tail s in
    let s2 = unlink (link_addr buddy_p) (s1.pages buddy_p).order s1 in
    let s3 = unlink (link_addr p) (s2.pages p).order s2 in
    set_order p (u32 ((s3.pages p).order + 1)) s3

-- The merge, and the append to the list of the new order.
unfoldable pub merge : (p buddy_p : ℕ) → BuddyState → Run BuddyState
merge p buddy_p s =
    let s1 = merge_chunks p buddy_p s in
    let order = (s1.pages p).order in
    inside (ltb order buddy_max_order) >> done (list_page p order s1)

-- The test of the page behind the chunk: `we ensure buddy_p must be a PG_HEAD page`.
unfoldable pub can_merge : (p buddy_p : ℕ) → BuddyState → Bool
can_merge p buddy_p s =
    let b = s.pages buddy_p in
    (b.free == 1) && (b.flag == pg_head) && (b.order == (s.pages p).order)

-- The test and the body of the loop of `buddy_free_page`: `none` when the loop ends.
unfoldable pub merge_step : ℕ → BuddyState → Run (Option BuddyState)
merge_step p s =
    if ltb (s.pages p).order (buddy_max_order - 1)
    then (do
      buddy_p ← get_buddy_page p s
      inside (ltb buddy_p npage)
      if can_merge p buddy_p s then (do s' ← merge p buddy_p s; done (some s')) else done none)
    else done none

unfoldable pub merge_loop : (fuel p : ℕ) → BuddyState → Run BuddyState
merge_loop zero p s = out_of_fuel
merge_loop (suc fuel) p s =
    merge_step p s >>= λ r. elim r [ none ↦ done s | some s' ↦ merge_loop fuel p s' ]

-- The order of a page that is freed is below `buddy_max_order`, and each merge raises it.
unfoldable pub buddy_free_page : ℕ → BuddyState → Run BuddyState
buddy_free_page p s = do
  inside (ltb p npage)
  require (not ((s.pages p).flag == pg_tail))
  require (not ((s.pages p).free == 1))
  let s1 = set_free p 1 s
  let order = (s1.pages p).order
  inside (ltb order buddy_max_order)
  merge_loop buddy_max_order p (list_page p order s1)

-- The bytes in the free lists of the orders below `n`: `total_size` after `n` rounds.
unfoldable pub statistics_loop : ℕ → BuddyState → ℕ
statistics_loop zero s = 0
statistics_loop (suc i) s =
    u64 (statistics_loop i s + s.nr i * sign_extend (buddy_page_size * 2 ^ i))

unfoldable pub buddy_statistics : BuddyState → ℕ
unfolding statistics_loop
buddy_statistics s = statistics_loop buddy_max_order s
