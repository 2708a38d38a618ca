-- ===== src/Buddy/Tiles.antt =====
-- The chunks of kernel/mm/buddy.c: the first pages `bs` of all chunks, free and allocated, in the
-- order of their addresses. Each chunk begins where the one before it ends.
use sky_os.Base.{
  ℕ, zero, suc, ◌+◌, ◌*◌, ◌^◌, ◌≤◌, ◌<◌, ◌≡◌, inl, inr, true, List, [], ◌∷◌, arith, ◌==◌,
  Bool-cases, ==_iff, has, Distinct, length,
}
use native.Mathlib.Nat.{pow-suc}
use sky_os.Buddy.{Page, buddy_max_order, npage, pg_head}

-- The pages of the chunk that begins at page `p`.
abbrev pub extent : (ℕ → Page) → ℕ → ℕ
extent pages p = 2 ^ (pages p).order

abbrev pub IsChunk : Page → Type 0
IsChunk b = (b.order < buddy_max_order) × (b.flag ≡ pg_head) × (b.free ≤ 1)

-- From page `a` to the end of memory the chunks are `bs`.
abbrev pub Tiled : (ℕ → Page) → ℕ → List ℕ → Type 0
Tiled pages a [] = a ≡ npage
Tiled pages a (b ∷ bs) = (b ≡ a) × IsChunk (pages b) × Tiled pages (b + extent pages b) bs

pub pow_pos : (o : ℕ) → 1 ≤ 2 ^ o
pow_pos zero = omega arith
pow_pos (suc o) = omega (arith, pow-suc 2 o, pow_pos o)

pub pow_suc : (o : ℕ) → 2 ^ suc o ≡ 2 * 2 ^ o
pow_suc o = omega (arith, pow-suc 2 o)

module _ (pages : ℕ → Page) where
  pub Tiled-le : (a : ℕ) (bs : List ℕ) → Tiled pages a bs → a ≤ npage
  Tiled-le a [] t = omega arith
  Tiled-le a (b ∷ bs) t = omega (arith, Tiled-le (b + extent pages b) bs t.2)

  -- A chunk is well formed and lies inside the memory.
  pub Tiled-mem :
      (a : ℕ) (bs : List ℕ) (p : ℕ)
      → Tiled pages a bs
      → has p bs ≡ true
      → (a ≤ p) × (p + extent pages p ≤ npage) × IsChunk (pages p)
  Tiled-mem a [] p t i = cc
  Tiled-mem a (b ∷ bs) p t i = elim (Bool-cases (p == b)) [
    | inl e ↦
        let same : p ≡ b = (==_iff p b).0 e in
        rw same (omega arith, (Tiled-le (b + extent pages b) bs t.2), t.1)
    | inr ne ↦
        let (low, high, chunk) = Tiled-mem (b + extent pages b) bs p t.2 (ground arith) in
        (omega arith, high, chunk)
  ]

  -- Two chunks are the same or do not overlap.
  pub Tiled-disjoint :
      (a : ℕ) (bs : List ℕ) (p r : ℕ)
      → Tiled pages a bs
      → has p bs ≡ true
      → has r bs ≡ true
      → p < r
      → p + extent pages p ≤ r
  Tiled-disjoint a [] p r t i j lt = cc
  Tiled-disjoint a (b ∷ bs) p r t i j lt = elim (Bool-cases (p == b)) [
    | inl e ↦
        let same : p ≡ b = (==_iff p b).0 e in
        let later : has r bs ≡ true = ground arith in
        let (low, _, _) = Tiled-mem (b + extent pages b) bs r t.2 later in rw same low
    | inr ne ↦
        let i' : has p bs ≡ true = ground arith in
        let (low, _, _) = Tiled-mem (b + extent pages b) bs p t.2 i' in
        Tiled-disjoint (b + extent pages b) bs p r t.2 i' (ground arith) lt
  ]

  pub Tiled-Distinct : (a : ℕ) (bs : List ℕ) → Tiled pages a bs → Distinct bs
  Tiled-Distinct a [] t = tt
  Tiled-Distinct a (b ∷ bs) t = (
    elim (Bool-cases (has b bs)) [
      | inl i ↦
          let (low, _, _) = Tiled-mem (b + extent pages b) bs b t.2 i in
          absurd (omega (arith, pow_pos (pages b).order))
      | inr out ↦ out
    ],
    Tiled-Distinct (b + extent pages b) bs t.2,
  )

  pub Tiled-length : (a : ℕ) (bs : List ℕ) → Tiled pages a bs → a + length bs ≤ npage
  Tiled-length a [] t = omega arith
  Tiled-length a (b ∷ bs) t =
      omega (arith, pow_pos (pages b).order, Tiled-length (b + extent pages b) bs t.2)

  -- A change that keeps the chunks at `bs` well formed and their orders keeps the tiling.
  pub Tiled-frame :
      (pages' : ℕ → Page) (a : ℕ) (bs : List ℕ)
      → Tiled pages a bs
      → ((p : ℕ) → has p bs ≡ true → ((pages' p).order ≡ (pages p).order) × IsChunk (pages' p))
      → Tiled pages' a bs
  Tiled-frame pages' a [] t same = t
  Tiled-frame pages' a (b ∷ bs) t same =
      let (e, chunk) = same b (ground arith) in
      (
        t.0,
        chunk,
        rw e (Tiled-frame pages' (b + extent pages b) bs t.2 (λ p i. same p (ground arith))),
      )
