-- ===== src/Strings/Copy.antt =====
-- The functions of kernel/common/strings.c that write.
use sky_os.Base.{
  ◌^◌, lt→ltb, ℕ, zero, suc, ◌+◌, ◌≤◌, ◌<◌, ◌≡◌, ◌⊎◌, refl, ◌∙◌, inl, false, List, [], ◌∷◌, arith,
  ◌==◌, length, write, u8,
}
use sky_os.Base.Runs.{done}
use sky_os.Strings.{Memory, set_bytes, memset, copy_bytes, memcpy, strcpy}
use sky_os.Strings.Scan.{IsString}

-- Two ranges of `n` bytes without a common byte.
abbrev pub Apart : (a b n : ℕ) → Type 0
Apart a b n = (a + n ≤ b) ⊎ (b + n ≤ a)

-- What `m'` has in the `n` bytes from `dst` on, and that no other byte has changed.
pub record Filled (dst n : ℕ) (value : ℕ → ℕ) (m m' : Memory) : Type 0 where
  pub set : (i : ℕ) → i < n → m' (dst + i) ≡ value i
  pub others : (a : ℕ) → (a < dst) ⊎ (dst + n ≤ a) → m' a ≡ m a

set_bytes-Filled : (dst c n : ℕ) (m : Memory) → Filled dst n (λ i. u8 c) m (set_bytes dst c n m)
unfolding set_bytes
set_bytes-Filled dst c zero m = record {
  set = λ i lt. absurd (omega arith);
  others = λ a out. refl;
}
set_bytes-Filled dst c (suc n) m =
    let f = set_bytes-Filled dst c n m in
    record { set = λ i lt. ground (arith, f.set i); others = λ a out. ground (arith, f.others a) }

-- memset of fewer than 2 ^ 31 bytes returns; it sets the bytes from the address on to the low byte
-- of the value and changes no others.
pub memset_lem :
    (dst c n : ℕ) (m : Memory)
    → n < 2 ^ 31
    → (m' : Memory) × (memset dst c n m ≡ done m') × Filled dst n (λ i. u8 c) m m'
unfolding memset
memset_lem dst c n m lt =
    (set_bytes dst c n m, rw (lt→ltb n (2 ^ 31) lt) refl, set_bytes-Filled dst c n m)

copy_bytes-Filled :
    (dst src n : ℕ) (m : Memory)
    → Apart dst src n
    → Filled dst n (λ i. m (src + i)) m (copy_bytes dst src n m)
unfolding copy_bytes
copy_bytes-Filled dst src zero m apart = record {
  set = λ i lt. absurd (omega arith);
  others = λ a out. refl;
}
copy_bytes-Filled dst src (suc n) m apart =
    let f = copy_bytes-Filled dst src n m (ground arith) in
    let last : copy_bytes dst src n m (src + n) ≡ m (src + n) = f.others (src + n) (ground arith) in
    record {
      set = λ i lt. ground (arith, f.set i, last);
      others = λ a out. ground (arith, f.others a);
    }

-- memcpy of fewer than 2 ^ 31 bytes between ranges without a common byte returns; it copies the
-- bytes and changes no others.
pub memcpy_lem :
    (dst src n : ℕ) (m : Memory)
    → n < 2 ^ 31
    → Apart dst src n
    → (m' : Memory) × (memcpy dst src n m ≡ done m') × Filled dst n (λ i. m (src + i)) m m'
unfolding memcpy
memcpy_lem dst src n m lt apart =
    (copy_bytes dst src n m, rw (lt→ltb n (2 ^ 31) lt) refl, copy_bytes-Filled dst src n m apart)

IsString-frame :
    (m m' : Memory) (s : ℕ) (xs : List ℕ)
    → IsString m s xs
    → ((a : ℕ) → s ≤ a → a ≤ s + length xs → m' a ≡ m a)
    → IsString m' s xs
IsString-frame m m' s [] t same = same s (omega arith) (omega arith) ∙ t
IsString-frame m m' s (x ∷ xs) (at, ne, t) same = (
  same s (omega arith) (omega arith) ∙ at,
  ne,
  IsString-frame m m' (s + 1) xs t (λ a low high. same a (omega arith) (omega arith)),
)

-- strcpy of a string to a place for it and its end that has no byte in common with it returns,
-- after a round for each byte; the string then stands at the new place, and no other byte has
-- changed.
pub strcpy_lem :
    (xs : List ℕ) (fuel dest src : ℕ) (m : Memory)
    → IsString m src xs
    → Apart dest src (suc (length xs))
    → length xs < fuel
    → (m' : Memory) × (strcpy fuel dest src m ≡ done m')
      × IsString m' dest xs
      × ((a : ℕ) → (a < dest) ⊎ (dest + length xs < a) → m' a ≡ m a)
unfolding strcpy
strcpy_lem xs zero dest src m t apart lt = absurd (omega arith)
strcpy_lem [] (suc fuel) dest src m t apart lt =
    (write m dest 0, rw t refl, ground arith, λ a out. ground arith)
strcpy_lem (x ∷ xs) (suc fuel) dest src m (at, ne, t) apart lt =
    let go : (x == 0) ≡ false = ground arith in
    let m1 = write m dest x in
    let t1 = IsString-frame m m1 (src + 1) xs t (λ a low high. ground arith) in
    let (m', run, t', kept) =
      strcpy_lem xs fuel (dest + 1) (src + 1) m1 t1 (ground arith) (omega arith) in
    let first : m' dest ≡ x = kept dest (inl (omega arith)) ∙ ground arith in
    (m', rw (at, go) run, (first, ne, t'), λ a out. kept a (ground arith) ∙ ground arith)
