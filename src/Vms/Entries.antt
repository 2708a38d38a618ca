-- ===== src/Vms/Entries.antt =====
-- The page table entries that kernel/mm/vms.c writes.
use sky_os.Base.{
  ℕ, ◌+◌, ◌*◌, ◌%◌, ◌^◌, ◌<◌, ◌≡◌, ◌⊎◌, inl, inr, true, false, arith, bit_or, u64, shr,
}
use sky_os.Base.Bits.{bit_or-shifted}
use sky_os.Vms.{pgsize, pte_u, valid, faults, next_table, table_entry, leaf_entry}

-- The permissions that `kmap` and `umap` pass to `map`.
abbrev pub IsPerm : ℕ → Type 0
IsPerm perm = (perm ≡ 0) ⊎ (perm ≡ pte_u)

-- A page of the physical memory that an entry can name.
abbrev pub IsPage : ℕ → Type 0
IsPage a = (a % pgsize ≡ 0) × (a < 2 ^ 52)

-- An entry that `trans` accepts.
abbrev pub Accepted : ℕ → Type 0
Accepted e = faults e ≡ false

table_entry-sum :
    (a b : ℕ) → a < 2 ^ 52 → b < 2 ^ 10 → bit_or (u64 (shr a 12 * 2 ^ 10)) b ≡ shr a 12 * 2 ^ 10 + b
table_entry-sum a b small fits =
    let e : u64 (shr a 12 * 2 ^ 10) ≡ shr a 12 * 2 ^ 10 = omega arith in
    rw e (bit_or-shifted 10 (shr a 12) b fits)

module _ (a : ℕ) (small : a < 2 ^ 52) where
  leaf_value :
      (perm : ℕ)
      → IsPerm perm
      → (leaf_entry a perm ≡ shr a 12 * 2 ^ 10 + 15) ⊎ (leaf_entry a perm ≡ shr a 12 * 2 ^ 10 + 31)
  unfolding leaf_entry
  leaf_value perm (inl e) = inl (rw e (table_entry-sum a 15 small (omega arith)))
  leaf_value perm (inr e) = inr (rw e (table_entry-sum a 31 small (omega arith)))

  table_value :
      (perm : ℕ)
      → IsPerm perm
      → (table_entry a perm ≡ shr a 12 * 2 ^ 10 + 1) ⊎ (table_entry a perm ≡ shr a 12 * 2 ^ 10 + 17)
  unfolding table_entry
  table_value perm (inl e) = inl (rw e (table_entry-sum a 1 small (omega arith)))
  table_value perm (inr e) = inr (rw e (table_entry-sum a 17 small (omega arith)))

  -- The entry of a page is valid and accepted, and names the page that holds the address.
  pub leaf_entry-fields :
      (perm : ℕ)
      → IsPerm perm
      → (valid (leaf_entry a perm) ≡ true)
        × Accepted (leaf_entry a perm)
        × (next_table (leaf_entry a perm) + a % pgsize ≡ a)
  unfolding valid faults
  leaf_entry-fields perm h = ground (arith, leaf_value perm h)

  -- The entry of a table is valid and accepted, and names the table.
  pub table_entry-fields :
      (perm : ℕ)
      → IsPerm perm
      → a % pgsize ≡ 0
      → (valid (table_entry a perm) ≡ true)
        × Accepted (table_entry a perm)
        × (next_table (table_entry a perm) ≡ a)
  unfolding valid faults
  table_entry-fields perm h aligned = ground (arith, table_value perm h)

pub valid-Accepted : (e : ℕ) → Accepted e → valid e ≡ true
unfolding faults
valid-Accepted e h = ground arith
