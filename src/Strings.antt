-- ===== src/Strings.antt =====
-- kernel/common/strings.c. The memory is the byte at each address; `char` has no sign on this machine.
-- A loop that ends at a byte of the memory has a number of rounds as fuel.
pub mod Copy
mod Examples
pub mod Scan
use sky_os.Base.{
  ℕ, zero, suc, ◌+◌, ◌-◌, ◌^◌, Option, none, some, ◌==◌, ltb, leb, ◌&&◌, if◌then◌else◌, write, u8,
  u32,
}
use sky_os.Base.Runs.{Run, done, out_of_fuel, ◌>>◌, inside}

abbrev pub Memory : Type 0
Memory = ℕ → ℕ

-- The loop of `memset` after `n` rounds.
unfoldable pub set_bytes : (dst c n : ℕ) → Memory → Memory
set_bytes dst c zero m = m
set_bytes dst c (suc i) m = write (set_bytes dst c i m) (dst + i) (u8 c)

-- The index is an `int`, which leaves its range after 2 ^ 31 rounds.
unfoldable pub memset : (dst c n : ℕ) → Memory → Run Memory
memset dst c n m = inside (ltb n (2 ^ 31)) >> done (set_bytes dst c n m)

-- The loop of `memcpy` after `n` rounds.
unfoldable pub copy_bytes : (dst src n : ℕ) → Memory → Memory
copy_bytes dst src zero m = m
copy_bytes dst src (suc i) m = let m' = copy_bytes dst src i m in write m' (dst + i) (m' (src + i))

-- The index is an `int`, as in `memset`.
unfoldable pub memcpy : (dst src n : ℕ) → Memory → Run Memory
memcpy dst src n m = inside (ltb n (2 ^ 31)) >> done (copy_bytes dst src n m)

unfoldable pub strcpy : (fuel dest src : ℕ) → Memory → Run Memory
strcpy zero dest src m = out_of_fuel
strcpy (suc fuel) dest src m =
    let rest = strcpy fuel (dest + 1) (src + 1) (write m dest (m src)) in
    if m src == 0 then done (write m dest 0) else rest

unfoldable pub strncpy : (dest src n : ℕ) → Memory → Memory
strncpy dest src zero m = write m dest 0
strncpy dest src (suc n) m =
    let rest = strncpy (dest + 1) (src + 1) n (write m dest (m src)) in
    if m src == 0 then write m dest 0 else rest

-- The loop of `strlen` at `i`.
unfoldable pub strlen_from : (fuel str i : ℕ) → Memory → Run ℕ
strlen_from zero str i m = out_of_fuel
strlen_from (suc fuel) str i m =
    let rest = strlen_from fuel str (u32 (i + 1)) m in if m (str + i) == 0 then done i else rest

unfoldable pub strlen : (fuel str : ℕ) → Memory → Run ℕ
strlen fuel str m = strlen_from fuel str 0 m

-- The difference of the first bytes that differ, as a pair of the bytes that are subtracted.
unfoldable pub strcmp : (fuel s1 s2 : ℕ) → Memory → Run (ℕ × ℕ)
strcmp zero s1 s2 m = out_of_fuel
strcmp (suc fuel) s1 s2 m =
    let rest = strcmp fuel (s1 + 1) (s2 + 1) m in
    if m s1 == m s2 then (if m s1 == 0 then done (0, 0) else rest) else done (m s1, m s2)

unfoldable pub strchr : (fuel s c : ℕ) → Memory → Run (Option ℕ)
strchr zero s c m = out_of_fuel
strchr (suc fuel) s c m =
    let rest = strchr fuel (s + 1) c m in
    if m s == u8 c then done (some s) else if m s == 0 then done none else rest

-- The loop of `strrchr`, for a character `c` from 0 to 255.
unfoldable pub strrchr_from : (fuel s c : ℕ) → Option ℕ → Memory → Run (Option ℕ)
strrchr_from zero s c occ m = out_of_fuel
strrchr_from (suc fuel) s c occ m =
    let rest = strrchr_from fuel (s + 1) c (if m s == c then some (s + 1) else occ) m in
    if m s == 0 then done occ else rest

unfoldable pub strrchr : (fuel s c : ℕ) → Memory → Run (Option ℕ)
strrchr fuel s c m = strrchr_from fuel s c none m

unfoldable pub tolower : ℕ → ℕ
tolower c = if leb 65 c && leb c 90 then c + 32 else c

unfoldable pub toupper : ℕ → ℕ
toupper c = if leb 97 c && leb c 122 then c - 32 else c

-- What `memcmp` returns.
pub data Order : Type 0 where
  less : Order
  same : Order
  more : Order

-- The loop of `memcmp`, with `n` bytes left.
unfoldable pub memcmp : (a b n : ℕ) → Memory → Order
memcmp a b zero m = Order.same
memcmp a b (suc n) m =
    let rest = memcmp (a + 1) (b + 1) n m in
    if ltb (m a) (m b) then Order.less else if ltb (m b) (m a) then Order.more else rest
