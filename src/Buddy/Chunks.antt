-- ===== src/Buddy/Chunks.antt =====
-- Splitting and merging chunks of kernel/mm/buddy.c, and the pages that are free.
use sky_os.Base.{
  ℕ, suc, ◌+◌, ◌^◌, ◌<◌, ◌≡◌, ◌≢◌, refl, sym, subst, ◌∙◌, inl, inr, true, false, List, [], ◌∷◌,
  arith, ◌==◌, Bool-cases, ==_iff, ◌||◌, if◌then◌else◌, has, has_ne, erase, Distinct,
}
use sky_os.Buddy.{Page, npage}
use sky_os.Buddy.Tiles.{extent, IsChunk, Tiled, pow_pos, pow_suc, Tiled-mem, Tiled-frame}

abbrev pub insert_after : (p n : ℕ) → List ℕ → List ℕ
insert_after p n [] = []
insert_after p n (b ∷ bs) = if p == b then b ∷ n ∷ bs else b ∷ insert_after p n bs

pub has-insert_after :
    (a p n : ℕ) (bs : List ℕ)
    → has p bs ≡ true
    → has a (insert_after p n bs) ≡ (has a bs || (a == n))
has-insert_after a p n [] i = cc
has-insert_after a p n (b ∷ bs) i = ground (arith, has-insert_after a p n bs)

-- The pages of the free chunks among `bs`.
abbrev pub free_pages : (ℕ → Page) → List ℕ → ℕ
free_pages pages [] = 0
free_pages pages (b ∷ bs) =
    (if (pages b).free == 1 then extent pages b else 0) + free_pages pages bs

-- `pages'` differs from `pages` at most at `p` and `n`.
abbrev pub SameBut : (ℕ → Page) → (ℕ → Page) → ℕ → ℕ → Type 0
SameBut pages pages' p n = (x : ℕ) → x ≢ p → x ≢ n → pages' x ≡ pages x

module _ (pages pages' : ℕ → Page) where
  pub free_pages-frame :
      (bs : List ℕ)
      → ((x : ℕ) → has x bs ≡ true → pages' x ≡ pages x)
      → free_pages pages' bs ≡ free_pages pages bs
  free_pages-frame [] same = refl
  free_pages-frame (b ∷ bs) same =
      rw (same b (ground arith), free_pages-frame bs (λ x i. same x (ground arith)))

  pub Tiled-same :
      (a : ℕ) (bs : List ℕ)
      → Tiled pages a bs
      → ((x : ℕ) → has x bs ≡ true → pages' x ≡ pages x)
      → Tiled pages' a bs
  Tiled-same a bs t same =
      Tiled-frame pages pages' a bs t λ x i. rw (same x i) (refl, (Tiled-mem pages a bs x t i).2)

  -- A chunk of order `k + 1` at `p` becomes two chunks of order `k`, at `p` and at `n`.
  pub record SplitAt (p n k : ℕ) : Type 0 where
    pub second : n ≡ p + 2 ^ k
    pub order_before : (pages p).order ≡ suc k
    pub order_first : (pages' p).order ≡ k
    pub order_second : (pages' n).order ≡ k
    pub first_IsChunk : IsChunk (pages' p)
    pub second_IsChunk : IsChunk (pages' n)
    pub same : SameBut pages pages' p n

  pub Tiled-split :
      (a : ℕ) (bs : List ℕ) (p n k : ℕ)
      → Tiled pages a bs
      → Distinct bs
      → has p bs ≡ true
      → has n bs ≡ false
      → SplitAt p n k
      → Tiled pages' a (insert_after p n bs)
  Tiled-split a [] p n k t d i out sp = cc
  Tiled-split a (b ∷ bs) p n k t d i out sp = elim (Bool-cases (p == b)) [
    | inl e ↦
        let same_b : p ≡ b = (==_iff p b).0 e in
        let rest : Tiled pages' (p + extent pages p) bs =
          Tiled-same (p + extent pages p) bs (rw same_b t.2)
            λ x j. sp.same x (ground arith) (ground arith) in
        let here : n + extent pages' n ≡ p + extent pages p =
          rw (sp.order_second, sp.order_before) (omega (arith, pow_suc k, sp.second)) in
        rw e (
          rw (← same_b) (
            ground arith,
            sp.first_IsChunk,
            (rw sp.order_first sp.second, sp.second_IsChunk, rw here rest),
          ))
    | inr ne ↦
        let same_b : pages' b ≡ pages b = sp.same b (ground arith) (ground arith) in
        rw ne (
          t.0,
          rw same_b t.1,
          rw same_b
              (Tiled-split (b + extent pages b) bs p n k t.2 d.1 (ground arith) (ground arith) sp),
        )
  ]

  pub free_pages-split :
      (bs : List ℕ) (p n k : ℕ)
      → Distinct bs
      → has p bs ≡ true
      → has n bs ≡ false
      → SplitAt p n k
      → (pages p).free ≡ 1
      → (pages' p).free ≡ 1
      → (pages' n).free ≡ 1
      → free_pages pages' (insert_after p n bs) ≡ free_pages pages bs
  free_pages-split [] p n k d i out sp f f' g' = refl
  free_pages-split (b ∷ bs) p n k d i out sp f f' g' = elim (Bool-cases (p == b)) [
    | inl e ↦
        let same_b : p ≡ b = (==_iff p b).0 e in
        let rest : free_pages pages' bs ≡ free_pages pages bs =
          free_pages-frame bs λ x j. sp.same x (ground arith) (ground arith) in
        rw e (
          rw (← same_b) (
            rw (f, f', g', sp.order_first, sp.order_second, sp.order_before)
              (omega (arith, rest, pow_suc k))))
    | inr ne ↦
        let same_b : pages' b ≡ pages b = sp.same b (ground arith) (ground arith) in
        let rest : free_pages pages' (insert_after p n bs) ≡ free_pages pages bs =
          free_pages-split bs p n k d.1 (ground arith) (ground arith) sp f f' g' in
        rw ne (rw same_b (rw rest refl))
  ]

  -- The chunk of order `k` at `p` and the one behind it, at `n`, become one of order `k + 1`.
  pub record MergeAt (p n k : ℕ) : Type 0 where
    pub second : n ≡ p + 2 ^ k
    pub order_first : (pages p).order ≡ k
    pub order_second : (pages n).order ≡ k
    pub order_after : (pages' p).order ≡ suc k
    pub after_IsChunk : IsChunk (pages' p)
    pub same : SameBut pages pages' p n

  Tiled-merge_here :
      (bs : List ℕ) (p n k : ℕ)
      → Tiled pages (p + extent pages p) bs
      → Distinct bs
      → has p bs ≡ false
      → has n bs ≡ true
      → MergeAt p n k
      → Tiled pages' (p + extent pages' p) (erase n bs)
  Tiled-merge_here [] p n k t d out j m = cc
  Tiled-merge_here (c ∷ cs) p n k t d out j m =
      let first : n ≡ c = rw m.second (rw (← m.order_first) (sym t.0)) in
      let hit : (n == c) ≡ true = (==_iff n c).1 first in
      let rest : Tiled pages' (c + extent pages c) cs =
        Tiled-same (c + extent pages c) cs t.2 λ x i. m.same x (ground arith) (ground arith) in
      let e : p + extent pages' p ≡ c + extent pages c =
        rw (m.order_after, ← first, m.order_second) (omega (arith, pow_suc k, m.second)) in
      rw hit (rw e rest)

  pub Tiled-merge :
      (a : ℕ) (bs : List ℕ) (p n k : ℕ)
      → Tiled pages a bs
      → Distinct bs
      → has p bs ≡ true
      → has n bs ≡ true
      → p ≢ n
      → MergeAt p n k
      → Tiled pages' a (erase n bs)
  Tiled-merge a [] p n k t d i j ne m = cc
  Tiled-merge a (b ∷ bs) p n k t d i j ne m = elim (Bool-cases (p == b)) [
    | inl e ↦
        let same_b : p ≡ b = (==_iff p b).0 e in
        let miss : (n == b) ≡ false = ground arith in
        let rest : Tiled pages' (p + extent pages' p) (erase n bs) =
          Tiled-merge_here bs p n k (rw same_b t.2) d.1 (rw same_b d.0) (ground arith) m in
        rw miss (rw (← same_b) (ground arith, m.after_IsChunk, rest))
    | inr other ↦
        let i' : has p bs ≡ true = ground arith in
        let (low, _, _) = Tiled-mem pages (b + extent pages b) bs p t.2 i' in
        let miss : (n == b) ≡ false =
          ground (arith, pow_pos (pages b).order, pow_pos k, m.second) in
        let same_b : pages' b ≡ pages b = m.same b (ground arith) (ground arith) in
        let rest : Tiled pages' (b + extent pages b) (erase n bs) =
          Tiled-merge (b + extent pages b) bs p n k t.2 d.1 i' (ground arith) ne m in
        rw miss (t.0, rw same_b t.1, rw same_b rest)
  ]

  pub free_pages-erase :
      (bs : List ℕ) (n : ℕ)
      → has n bs ≡ true
      → (pages n).free ≡ 1
      → free_pages pages (erase n bs) + extent pages n ≡ free_pages pages bs
  free_pages-erase [] n i f = cc
  free_pages-erase (b ∷ bs) n i f = elim (Bool-cases (n == b)) [
    | inl e ↦ rw e (rw (← (==_iff n b).0 e) (rw f (omega arith)))
    | inr ne ↦ rw ne (omega (arith, free_pages-erase bs n (ground arith) f))
  ]

  -- A change at one chunk changes the sum by what that chunk counts for.
  pub free_pages-at :
      (bs : List ℕ) (p : ℕ)
      → Distinct bs
      → has p bs ≡ true
      → ((x : ℕ) → has x bs ≡ true → x ≢ p → pages' x ≡ pages x)
      → free_pages pages' bs + free_pages pages (p ∷ [])
        ≡ free_pages pages bs + free_pages pages' (p ∷ [])
  free_pages-at [] p d i same = cc
  free_pages-at (b ∷ bs) p d i same = elim (Bool-cases (p == b)) [
    | inl e ↦
        let rest : free_pages pages' bs ≡ free_pages pages bs =
          free_pages-frame bs
            λ x j. same x (ground arith) (λ q. has_ne b x bs d.0 j (sym (q ∙ (==_iff p b).0 e))) in
        rw (← (==_iff p b).0 e) (omega (arith, rest))
    | inr ne ↦
        let same_b : pages' b ≡ pages b = same b (ground arith) (ground arith) in
        let rest = free_pages-at bs p d.1 (ground arith) (λ x j. same x (ground arith)) in
        rw same_b (omega (arith, rest))
  ]

Tiled-first :
    (pages : ℕ → Page) (a : ℕ) (bs : List ℕ) → Tiled pages a bs → a < npage → has a bs ≡ true
Tiled-first pages a [] t lt = absurd (omega arith)
Tiled-first pages a (b ∷ bs) t lt = ground arith

-- The chunk behind a chunk that does not end the memory.
pub Tiled-next :
    (pages : ℕ → Page) (a : ℕ) (bs : List ℕ) (p : ℕ)
    → Tiled pages a bs
    → has p bs ≡ true
    → p + extent pages p < npage
    → has (p + extent pages p) bs ≡ true
Tiled-next pages a [] p t i lt = cc
Tiled-next pages a (b ∷ bs) p t i lt = elim (Bool-cases (p == b)) [
  | inl e ↦
      let same_b : p ≡ b = (==_iff p b).0 e in
      let next : has (b + extent pages b) bs ≡ true =
        Tiled-first pages (b + extent pages b) bs t.2 (rw (← same_b) lt) in
      let hit : has (b + extent pages b) (b ∷ bs) ≡ true = ground (arith, next) in
      subst (λ x. has (x + extent pages x) (b ∷ bs) ≡ true) (sym same_b) hit
  | inr ne ↦ ground (arith, Tiled-next pages (b + extent pages b) bs p t.2)
]
