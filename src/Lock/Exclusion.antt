-- ===== src/Lock/Exclusion.antt =====
-- Which harts own the lock of kernel/sync/lock.c.
use sky_os.Base.{ℕ, ◌≡◌, ◌≢◌, refl, inl, inr, Bool, true, false, arith, ◌==◌, Bool-cases}
use sky_os.Lock.{Place, Harts, Step, Reach, go}

-- Behind the loop of `acquire` and not yet through `release`.
abbrev pub owns : Place → Bool
owns Place.outside = false
owns Place.trying = false
owns Place.owning = true
owns Place.leaving = true
owns Place.stopped = false

-- The lock word is 0 and no hart owns the lock, or it is 1 and exactly one does.
pub data Inv (s : Harts) : Type 0 where
  free : s.lock ≡ 0 → ((h : ℕ) → owns (s.place h) ≡ false) → Inv s
  held :
      (h : ℕ)
      → s.lock ≡ 1
      → owns (s.place h) ≡ true
      → ((i : ℕ) → i ≢ h → owns (s.place i) ≡ false)
      → Inv s

module _ {s : Harts} (h : ℕ) (p : Place) where
  -- A hart that does not own the lock before or after leaves the rest as it is.
  stay-Inv : Inv s → owns (s.place h) ≡ owns p → Inv (go h p s.lock s)
  stay-Inv (Inv.free e none) same = Inv.free e (λ i. ground (arith, none i, none h, same))
  stay-Inv (Inv.held o e own others) same =
      Inv.held o e (ground (arith, own, same)) (λ i ne. ground (arith, others i ne, others h, same))

Step-Inv : {s s' : Harts} → Inv s → Step s s' → Inv s'
Step-Inv v (Step.enter h here word) = stay-Inv h Place.trying v (rw here refl)
Step-Inv v (Step.re_lock h here word) = stay-Inv h Place.stopped v (rw here refl)
Step-Inv (Inv.free e none) (Step.take h here word) =
    Inv.held h refl (ground arith) (λ i ne. ground (arith, none i))
Step-Inv (Inv.held o e own others) (Step.take h here word) = absurd (omega arith)
Step-Inv (Inv.free e none) (Step.spin h here word) = absurd (word e)
Step-Inv {s} (Inv.held o e own others) (Step.spin h here word) =
    let v = stay-Inv h Place.trying (Inv.held o e own others) (rw here refl) in rw e at v
Step-Inv v (Step.leave h here word) = stay-Inv h Place.leaving v (rw here refl)
Step-Inv (Inv.free e none) (Step.re_release h here word) = cc (rw here at (none h))
Step-Inv (Inv.held o e own others) (Step.re_release h here word) = absurd (omega arith)
Step-Inv (Inv.free e none) (Step.drop h here) = cc (rw here at (none h))
Step-Inv {s} (Inv.held o e own others) (Step.drop h here) = Inv.free refl (λ i.
    elim (Bool-cases (i == h)) [
      | inl same ↦ rw same refl
      | inr ne ↦ elim (Bool-cases (i == o)) [
        | inl is_owner ↦ absurd (ground (arith, others h, here))
        | inr other ↦ ground (arith, others i)
      ]
    ])

pub Reach-Inv : {s : Harts} → Reach s → Inv s
Reach-Inv Reach.start = Inv.free refl (λ h. refl)
Reach-Inv (Reach.step r t) = Step-Inv (Reach-Inv r) t

-- In every state that the steps of any number of harts through acquire and release lead to from an
-- initialised lock, two harts that own the lock are the same hart.
pub owners-same :
    {s : Harts} → Reach s → (h i : ℕ) → owns (s.place h) ≡ true → owns (s.place i) ≡ true → h ≡ i
owners-same {s} r h i a b = go (Reach-Inv r)
  where
    go : Inv s → h ≡ i
    go (Inv.free e none) = cc (none h)
    go (Inv.held o e own others) = elim (Bool-cases (h == o)) [
      | inl x ↦ elim (Bool-cases (i == o)) [
        | inl y ↦ ground arith
        | inr y ↦ absurd (ground (arith, others i))
      ]
      | inr x ↦ absurd (ground (arith, others h))
    ]

-- In every state that the steps lead to, the lock word is 1 where a hart is behind acquire and
-- before release, so that the test of release does not stop that hart.
pub owner-release : {s : Harts} → Reach s → (h : ℕ) → s.place h ≡ Place.owning → s.lock ≡ 1
owner-release {s} r h here = go (Reach-Inv r)
  where
    go : Inv s → s.lock ≡ 1
    go (Inv.free e none) = cc (rw here at (none h))
    go (Inv.held o e own others) = e
