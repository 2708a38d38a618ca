-- ===== src/Vms/Walk.antt =====
-- The walk of `map` in kernel/mm/vms.c for one page, and the walk of `trans` after it.
use sky_os.Base.{
  ℕ, zero, suc, ◌^◌, ◌<◌, ◌≡◌, inl, inr, refl, ◌∙◌, true, false, arith, Bool-cases, write, ap,
  subst,
}
use sky_os.Base.Runs.{Run, done, result, >>=-eq-done, done_injective}
use sky_os.Vms.{valid, faults, next_table, pte_addr, table_entry, leaf_entry, trans_walk, map_walk}
use sky_os.Vms.Kalloc.{Kalloc}
use sky_os.Vms.Entries.{IsPerm, Accepted, leaf_entry-fields, table_entry-fields, valid-Accepted}

-- Valid entries stay as they are.
abbrev pub Extends : (ℕ → ℕ) → (ℕ → ℕ) → Type 0
Extends words words' = (p : ℕ) → valid (words p) ≡ true → words' p ≡ words p

-- `trans` accepts every valid entry.
abbrev pub IsClean : (ℕ → ℕ) → Type 0
IsClean words = (p : ℕ) → valid (words p) ≡ true → Accepted (words p)

-- The translation of `va` from table `a` ends at the entry `e`.
abbrev pub Leads : (level a va : ℕ) → (ℕ → ℕ) → ℕ → Type 0
Leads level a va words e = (p : ℕ) × (trans_walk level a va words ≡ done p) × (words p ≡ e)

-- New entries do not change a translation.
pub Leads-Extends :
    (level a va : ℕ) (words words' : ℕ → ℕ) (e : ℕ)
    → Extends words words'
    → valid e ≡ true
    → Leads level a va words e
    → Leads level a va words' e
unfolding trans_walk
Leads-Extends zero a va words words' e ext ok (p, run, at) =
    elim (Bool-cases (faults (words (pte_addr a 0 va)))) [
      | inl bad ↦ cc (rw bad at run)
      | inr fine ↦
          let same = ext (pte_addr a 0 va) (valid-Accepted _ fine) in
          (p, rw (same, fine) (rw fine at run), ext p (rw at ok) ∙ at)
    ]
Leads-Extends (suc level) a va words words' e ext ok (p, run, at) =
    elim (Bool-cases (faults (words (pte_addr a (suc level) va)))) [
      | inl bad ↦ cc (rw bad at run)
      | inr fine ↦
          let same = ext (pte_addr a (suc level) va) (valid-Accepted _ fine) in
          let rest =
            Leads-Extends level (next_table (words (pte_addr a (suc level) va))) va words words' e
              ext ok (p, rw fine at run, at) in
          rw (same, fine) rest
    ]

-- What `map` does to the entries when it maps the page at `pa` for `va` below table `a`.
pub record Mapped (level a va pa perm : ℕ) (words words' : ℕ → ℕ) : Type 0 where
  pub extends : Extends words words'
  pub clean : IsClean words'
  pub leads : Leads level a va words' (leaf_entry pa perm)

write-Extends :
    (words : ℕ → ℕ) (p e : ℕ) → valid (words p) ≡ false → Extends words (write words p e)
write-Extends words p e free x ok = ground arith

write-IsClean : (words : ℕ → ℕ) (p e : ℕ) → IsClean words → Accepted e → IsClean (write words p e)
write-IsClean words p e clean ok x v = ground (arith, clean x)

write_at : (words : ℕ → ℕ) (p e : ℕ) → write words p e p ≡ e
write_at words p e = ground arith

-- One level up: the entry at this level names the table below.
Mapped-up :
    (level a va pa perm t : ℕ) (words words1 words' : ℕ → ℕ)
    → Extends words words1
    → Accepted (words1 (pte_addr a (suc level) va))
    → next_table (words1 (pte_addr a (suc level) va)) ≡ t
    → Mapped level t va pa perm words1 words'
    → Mapped (suc level) a va pa perm words words'
unfolding trans_walk
Mapped-up level a va pa perm t words words1 words' ext acc next m =
    let p = pte_addr a (suc level) va in
    let same : words' p ≡ words1 p = m.extends p (valid-Accepted (words1 p) acc) in
    let (r, run, e) = m.leads in
    record {
      extends = λ x v. let e1 = ext x v in m.extends x (rw e1 v) ∙ e1;
      clean = m.clean;
      leads = (r, rw (same, acc) (rw next run), e);
    }

module _ (k : Kalloc) (va pa perm : ℕ) (pa_small : pa < 2 ^ 52) (is_perm : IsPerm perm) where
  open k use {State, kalloc_page, Valid, kalloc_IsPage, kalloc_Valid}

  -- The walk of `map` for one page adds entries, and from then on `va` leads to the new entry.
  pub map_walk-Mapped :
      (level a : ℕ) (words : ℕ → ℕ) (heap : State) (words' : ℕ → ℕ) (heap' : State)
      → IsClean words
      → Valid heap
      → map_walk kalloc_page level a va pa perm words heap ≡ done (words', heap')
      → Mapped level a va pa perm words words'
  unfolding map_walk trans_walk
  map_walk-Mapped zero a words heap words' heap' clean ok run =
      elim (Bool-cases (valid (words (pte_addr a 0 va)))) [
        | inl used ↦ cc (rw used at run)
        | inr unused ↦
            let p = pte_addr a 0 va in
            let (v, acc, _) = leaf_entry-fields pa pa_small perm is_perm in
            let e =
              ap (λ (r : Run ((ℕ → ℕ) × State)). (result {A = (ℕ → ℕ) × State} (words, heap) r).0)
                (rw unused at run) in
            let at_p : write words p (leaf_entry pa perm) p ≡ leaf_entry pa perm =
              write_at words p (leaf_entry pa perm) in
            subst (Mapped zero a va pa perm words) e (record {
              extends = write-Extends words p (leaf_entry pa perm) unused;
              clean = write-IsClean words p (leaf_entry pa perm) clean acc;
              leads = (p, rw (at_p, acc) refl, at_p);
            })
      ]
  map_walk-Mapped (suc level) a words heap words' heap' clean ok run =
      let p = pte_addr a (suc level) va in
      elim (Bool-cases (valid (words p))) [
        | inl used ↦
            let run' = rw used at run in
            let t = next_table (words p) in
            Mapped-up level a va pa perm t words words words' (λ x v. refl) (clean p used) refl
              (map_walk-Mapped level t words heap words' heap' clean ok run')
        | inr unused ↦
            let ((t, heap1), got, run') = >>=-eq-done (kalloc_page heap) _ (rw unused at run) in
            let (aligned, small) = kalloc_IsPage heap t heap1 ok got in
            let (v, acc, next) = table_entry-fields t small perm is_perm aligned in
            let words1 = write words p (table_entry t perm) in
            let at_p : words1 p ≡ table_entry t perm = write_at words p (table_entry t perm) in
            Mapped-up level a va pa perm t words words1 words'
              (write-Extends words p (table_entry t perm) unused) (rw at_p acc) (rw at_p next)
              (map_walk-Mapped level t words1 heap1 words' heap'
                (write-IsClean words p (table_entry t perm) clean acc)
                (kalloc_Valid heap t heap1 ok got) run')
      ]

  -- It leaves the allocator in a valid state.
  pub map_walk-Valid :
      (level a : ℕ) (words : ℕ → ℕ) (heap : State) {words' : ℕ → ℕ} {heap' : State}
      → Valid heap
      → map_walk kalloc_page level a va pa perm words heap ≡ done (words', heap')
      → Valid heap'
  unfolding map_walk
  map_walk-Valid zero a words heap ok run = elim (Bool-cases (valid (words (pte_addr a 0 va)))) [
    | inl used ↦ cc (rw used at run)
    | inr unused ↦ subst (λ (x : (ℕ → ℕ) × State). Valid x.1) (done_injective (rw unused at run)) ok
  ]
  map_walk-Valid (suc level) a words heap ok run =
      let p = pte_addr a (suc level) va in
      elim (Bool-cases (valid (words p))) [
        | inl used ↦ map_walk-Valid level (next_table (words p)) words heap ok (rw used at run)
        | inr unused ↦
            let ((t, heap1), got, rest) = >>=-eq-done (kalloc_page heap) _ (rw unused at run) in
            map_walk-Valid level t (write words p (table_entry t perm)) heap1
              (kalloc_Valid heap t heap1 ok got) rest
      ]
