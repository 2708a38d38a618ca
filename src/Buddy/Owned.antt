-- ===== src/Buddy/Owned.antt =====
-- Who holds which pages of kernel/mm/buddy.c, and that a call keeps this apart.
use sky_os.Base.{
  ℕ, ◌+◌, ◌*◌, ◌^◌, ◌≤◌, ◌<◌, ◌≡◌, ◌≢◌, sym, ap, subst, inl, inr, true, false, List, ◌∷◌, arith,
  ◌==◌, Bool-cases, ==_iff, has, has_ne, erase, Distinct, Distinct-erase, has-erase_self,
  has-erase_of,
}
use sky_os.Base.Runs.{Run, done, result}
use sky_os.Buddy.{BuddyState, buddy_page_size, npage, buddy_allocate, buddy_free_page}
use sky_os.Buddy.Tiles.{extent, Tiled-mem, Tiled-disjoint, pow_pos}
use sky_os.Buddy.Invariant.{Inv}
use sky_os.Buddy.Claim.{Allocated}
use sky_os.Buddy.Allocate
use sky_os.Buddy.Allocate.{Outcome, buddy_allocate-Outcome}
use sky_os.Buddy.Free
use sky_os.Buddy.Free.{FreeOutcome, Released, buddy_free_page-FreeOutcome}
use sky_os.Buddy.Size.{size2order_lem}

-- The pages that callers hold are the first pages of allocated chunks.
pub record Owned (s : BuddyState) (live : List ℕ) : Type 0 where
  pub lists : ℕ → List ℕ
  pub chunks : List ℕ
  pub inv : Inv s lists chunks
  pub held : (p : ℕ) → has p live ≡ true → (has p chunks ≡ true) × ((s.pages p).free ≡ 0)
  pub distinct : Distinct live

pub Outcome-done :
    {s : BuddyState} {bs : List ℕ} {k : ℕ} (r : Run (ℕ × BuddyState)) {p : ℕ} {s' : BuddyState}
    → Outcome s bs k r
    → r ≡ done (p, s')
    → Allocated s bs k p s'
Outcome-done {s} {bs} {k} _ {p} {s'} (Allocate.allocated a) e =
    subst (λ x. Allocated s bs k x.0 x.1) (ap (result (p, s')) e) a
Outcome-done _ (Allocate.too_large le) e = cc
Outcome-done _ (Allocate.no_chunk lt none_left) e = cc

pub FreeOutcome-done :
    {s : BuddyState} {bs : List ℕ} {k p : ℕ} (r : Run BuddyState) {s' : BuddyState}
    → FreeOutcome s bs k p r
    → r ≡ done s'
    → Released s bs k p s'
FreeOutcome-done {s} {bs} {k} {p} _ {s'} (Free.released a) e =
    subst (λ x. Released s bs k p x) (ap (result s') e) a
FreeOutcome-done _ (Free.past_end j le lt end) e = cc

module _ {s : BuddyState} {live : List ℕ} (o : Owned s live) where
  -- A page that is handed out was not held before.
  pub fresh-Allocated :
      {k p : ℕ} {s' : BuddyState} → Allocated s o.chunks k p s' → has p live ≡ false
  fresh-Allocated {k} {p} a = elim (Bool-cases (has p live)) [
    | inr out ↦ out
    | inl i ↦
        let (i', f) = o.held p i in
        let (c, j, free_c, low, high) = a.was_free in
        elim (Bool-cases (c == p)) [
          | inl same ↦
              let e : c ≡ p = (==_iff c p).0 same in
              absurd (omega (arith, f, free_c, ap (λ x. (s.pages x).free) e))
          | inr other ↦
              let lt : c < p = ground arith in
              let apart = Tiled-disjoint s.pages 0 o.chunks c p o.inv.tiled j i' lt in
              absurd (omega (arith, apart, high, pow_pos k))
        ]
  ]

  pub allocate-Owned :
      (size : ℕ) {p : ℕ} {s' : BuddyState}
      → buddy_allocate size s ≡ done (p, s')
      → Owned s' (p ∷ live)
  allocate-Owned size {p} e =
      let a = Outcome-done _ (buddy_allocate-Outcome o.inv size) e in
      record {
        lists = a.lists;
        chunks = a.chunks;
        inv = a.inv;
        held = λ r i. elim (Bool-cases (r == p)) [
          | inl same ↦ rw ((==_iff r p).0 same) (a.is_chunk, a.free_page)
          | inr other ↦
              let (i', f) = o.held r (ground arith) in
              let (i2, e2) = a.refined.kept r i' f in (i2, rw e2 f)
        ];
        distinct = (fresh-Allocated a, o.distinct);
      }

  pub free-Owned :
      (p : ℕ) {s' : BuddyState}
      → has p live ≡ true
      → buddy_free_page p s ≡ done s'
      → Owned s' (erase p live)
  free-Owned p i e =
      let (i', f) = o.held p i in
      let a = FreeOutcome-done _ (buddy_free_page-FreeOutcome o.inv p i' f) e in
      record {
        lists = a.lists;
        chunks = a.chunks;
        inv = a.inv;
        held = λ r j.
            let ne : r ≢ p =
              λ same. has_ne p r (erase p live) (has-erase_self p live o.distinct) j (sym same) in
            let (j', f') = o.held r (ground (arith, has-erase_of r p live)) in
            let (j2, e2) = a.kept r j' f' ne in (j2, rw e2 f');
        distinct = Distinct-erase live p o.distinct;
      }

pub Owned-disjoint :
    {s : BuddyState} {live : List ℕ} (o : Owned s live) (p r : ℕ)
    → has p live ≡ true
    → has r live ≡ true
    → p < r
    → (p + extent s.pages p ≤ r) × (r + extent s.pages r ≤ npage)
Owned-disjoint {s} o p r i j lt =
    let (i', _) = o.held p i in
    let (j', _) = o.held r j in
    let (_, high, _) = Tiled-mem s.pages 0 o.chunks r o.inv.tiled j' in
    (Tiled-disjoint s.pages 0 o.chunks p r o.inv.tiled i' j' lt, high)

pub Owned-fits :
    {s : BuddyState} {live : List ℕ} (o : Owned s live) (size : ℕ) {p : ℕ} {s' : BuddyState}
    → size < 2 ^ 31
    → buddy_allocate size s ≡ done (p, s')
    → (has p live ≡ false) × (size ≤ extent s'.pages p * buddy_page_size) × ((s'.pages p).free ≡ 0)
Owned-fits o size {p} {s'} small e =
    let a = Outcome-done _ (buddy_allocate-Outcome o.inv size) e in
    (fresh-Allocated o a, rw (a.order_page) (size2order_lem size small).0, a.free_page)

-- An allocation leaves the pages that are held as they are.
pub allocate-held :
    {s : BuddyState} {live : List ℕ} (o : Owned s live) (size : ℕ) {p : ℕ} {s' : BuddyState}
    → buddy_allocate size s ≡ done (p, s')
    → (r : ℕ) → has r live ≡ true
    → s'.pages r ≡ s.pages r
allocate-held o size e r i =
    let a = Outcome-done _ (buddy_allocate-Outcome o.inv size) e in
    let (i', f) = o.held r i in (a.refined.kept r i' f).1
