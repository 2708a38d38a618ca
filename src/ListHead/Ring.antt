-- ===== src/ListHead/Ring.antt =====
-- What a ring of nodes of kernel/include/list.h stands for: from the head the `next` links lead
-- through the entries in order and back to the head, and the `prev` links lead the other way.
use sky_os.Base.{
  ℕ, ◌≡◌, ◌≢◌, ◌↔◌, refl, sym, ◌∙◌, inl, inr, true, false, ◌||◌, List, [], ◌∷◌, ◌++◌, arith, ◌==◌,
  ==_iff, Bool-cases, has, has_ne, erase, Distinct, has-erase_of, Distinct-snoc, Distinct-erase,
}
use sky_os.ListHead.{Links, init_list_head, list_append, list_del, list_empty}

-- The links lead from `a` through `xs` to `b` and back.
abbrev pub Seg : Links → ℕ → List ℕ → ℕ → Type 0
Seg l a [] b = (l.next a ≡ b) × (l.prev b ≡ a)
Seg l a (x ∷ xs) b = (l.next a ≡ x) × (l.prev x ≡ a) × Seg l x xs b

-- A ring with head `h` and the distinct entries `xs`.
pub record IsRing (l : Links) (h : ℕ) (xs : List ℕ) : Type 0 where
  pub chain : Seg l h xs h
  pub distinct : Distinct (h ∷ xs)

-- `l'` has the links of `l` at the head `h` and at the entries `xs`.
abbrev pub Agree : Links → Links → ℕ → List ℕ → Type 0
Agree l l' h xs = (a : ℕ) → has a (h ∷ xs) ≡ true → (l'.next a ≡ l.next a) × (l'.prev a ≡ l.prev a)

module _ (l : Links) where
  Seg-prev-mem : (a : ℕ) (xs : List ℕ) (b : ℕ) → Seg l a xs b → has (l.prev b) (a ∷ xs) ≡ true
  Seg-prev-mem a [] b s = ground arith
  Seg-prev-mem a (x ∷ xs) b s = ground (arith, Seg-prev-mem x xs b s.2)

  Seg-next-mem :
      (a : ℕ) (xs : List ℕ) (b n : ℕ)
      → Seg l a xs b
      → has n (a ∷ xs) ≡ true
      → (l.next n == b) || has (l.next n) xs ≡ true
  Seg-next-mem a [] b n s i = ground arith
  Seg-next-mem a (x ∷ xs) b n s i = ground (arith, Seg-next-mem x xs b n s.2)

  Seg-prev_of-mem :
      (a : ℕ) (xs : List ℕ) (b n : ℕ)
      → Seg l a xs b
      → has n xs ≡ true
      → has (l.prev n) (a ∷ xs) ≡ true
  Seg-prev_of-mem a [] b n s i = cc
  Seg-prev_of-mem a (x ∷ xs) b n s i = ground (arith, Seg-prev_of-mem x xs b n s.2)

  Seg-frame :
      (l' : Links) (a : ℕ) (xs : List ℕ) (b : ℕ)
      → Seg l a xs b
      → ((n : ℕ) → has n (a ∷ xs) ≡ true → l'.next n ≡ l.next n)
      → ((n : ℕ) → ((n == b) || has n xs) ≡ true → l'.prev n ≡ l.prev n)
      → Seg l' a xs b
  Seg-frame l' a [] b s f g = ground (arith, f a, g b)
  Seg-frame l' a (x ∷ xs) b s f g =
      let rest : Seg l' x xs b =
        Seg-frame l' x xs b s.2 (λ n i. f n (ground arith)) (λ n i. g n (ground arith)) in
      ground (arith, f a, g x, rest)

  pub IsRing-frame :
      (l' : Links) (h : ℕ) (xs : List ℕ) → IsRing l h xs → Agree l l' h xs → IsRing l' h xs
  IsRing-frame l' h xs r same = record {
    chain = Seg-frame l' h xs h r.chain (λ n i. (same n i).0) (λ n i. (same n (ground arith)).1);
    distinct = r.distinct;
  }

-- What `list_append new h` does to the links, where `last` is the last node before it.
record Appended (l l' : Links) (h new last : ℕ) : Type 0 where
  next_new : l'.next new ≡ h
  prev_new : l'.prev new ≡ last
  next_last : l'.next last ≡ new
  prev_head : l'.prev h ≡ new
  other_next : (n : ℕ) → n ≢ new → n ≢ last → l'.next n ≡ l.next n
  other_prev : (n : ℕ) → n ≢ new → n ≢ h → l'.prev n ≡ l.prev n

list_append-Appended :
    (l : Links) (h new : ℕ)
    → new ≢ h
    → new ≢ l.prev h
    → l.next (l.prev h) ≡ h
    → Appended l (list_append new h l) h new (l.prev h)
unfolding list_append
list_append-Appended l h new ne ne' e = record {
  next_new = ground arith;
  prev_new = ground arith;
  next_last = ground arith;
  prev_head = ground arith;
  other_next = λ n p q. ground arith;
  other_prev = λ n p q. ground arith;
}

Seg-snoc :
    (l l' : Links) (a : ℕ) (xs : List ℕ) (h new : ℕ)
    → Seg l a xs h
    → Distinct (a ∷ xs)
    → has h xs ≡ false
    → has new (a ∷ xs) ≡ false
    → Appended l l' h new (l.prev h)
    → Seg l' a (xs ++ new ∷ []) h
Seg-snoc l l' a [] h new s d out fresh ap = ground (arith, ap.next_last, ap.prev_head)
Seg-snoc l l' a (x ∷ xs) h new s d out fresh ap =
    let rest : Seg l' x (xs ++ new ∷ []) h =
      Seg-snoc l l' x xs h new s.2 d.1 (ground arith) (ground arith) ap in
    ground (arith, ap.other_next a, ap.other_prev x, rest, Seg-prev-mem l x xs h s.2)

Seg-next-last : (l : Links) (a : ℕ) (xs : List ℕ) (b : ℕ) → Seg l a xs b → l.next (l.prev b) ≡ b
Seg-next-last l a [] b s = ground arith
Seg-next-last l a (x ∷ xs) b s = Seg-next-last l x xs b s.2

module _ (l : Links) (h : ℕ) (xs : List ℕ) (r : IsRing l h xs) (new : ℕ)
    (fresh : has new (h ∷ xs) ≡ false) where
  appended : Appended l (list_append new h l) h new (l.prev h)
  appended =
      list_append-Appended l h new (ground arith) (ground (arith, Seg-prev-mem l h xs h r.chain))
        (Seg-next-last l h xs h r.chain)

  -- list_append of a node that is not in the ring puts it behind the last entry of the ring.
  pub list_append-IsRing : IsRing (list_append new h l) h (xs ++ new ∷ [])
  list_append-IsRing = record {
    chain = Seg-snoc l _ h xs h new r.chain r.distinct r.distinct.0 fresh appended;
    distinct = Distinct-snoc (h ∷ xs) new r.distinct fresh;
  }

  -- `list_append` leaves every ring alone that shares no node with its own.
  pub list_append-Agree :
      (k : ℕ) (ys : List ℕ)
      → has new (k ∷ ys) ≡ false
      → ((a : ℕ) → has a (k ∷ ys) ≡ true → has a (h ∷ xs) ≡ false)
      → Agree l (list_append new h l) k ys
  list_append-Agree k ys out apart a i =
      let last : has (l.prev h) (h ∷ xs) ≡ true = Seg-prev-mem l h xs h r.chain in
      let e : has a (h ∷ xs) ≡ false = apart a i in
      let ne : a ≢ new = λ p. has_ne new a (k ∷ ys) out i (sym p) in
      let ne' : a ≢ l.prev h = λ p. has_ne a (l.prev h) (h ∷ xs) e last p in
      (appended.other_next a ne ne', appended.other_prev a ne (ground arith))

-- What `list_del n` does to the links.
record Deleted (l l' : Links) (n : ℕ) : Type 0 where
  bridge_next : l'.next (l.prev n) ≡ l.next n
  bridge_prev : l'.prev (l.next n) ≡ l.prev n
  other_next : (m : ℕ) → m ≢ l.prev n → l'.next m ≡ l.next m
  other_prev : (m : ℕ) → m ≢ l.next n → l'.prev m ≡ l.prev m

list_del-Deleted : (l : Links) (n : ℕ) → n ≢ l.prev n → Deleted l (list_del n l) n
unfolding list_del
list_del-Deleted l n ne = record {
  bridge_next = ground arith;
  bridge_prev = ground arith;
  other_next = λ m p. ground arith;
  other_prev = λ m p. ground arith;
}

-- The links pass over the entry `n` behind `a`.
Seg-skip :
    (l l' : Links) (a : ℕ) (xs : List ℕ) (b n : ℕ)
    → l.prev n ≡ a
    → Seg l n xs b
    → has a xs ≡ false
    → Distinct xs
    → has b xs ≡ false
    → has n xs ≡ false
    → Deleted l l' n
    → Seg l' a xs b
Seg-skip l l' a [] b n e s out d out' out'' del = ground (arith, del.bridge_next, del.bridge_prev)
Seg-skip l l' a (x ∷ xs) b n e s out d out' out'' del =
    let rest : Seg l' x xs b =
      Seg-frame l l' x xs b s.2
        (λ m i. del.other_next m (λ p. has_ne a m (x ∷ xs) out i (sym (p ∙ e))))
        (λ m i. del.other_prev m (λ p. ground arith)) in
    ground (arith, del.bridge_next, del.bridge_prev, rest)

Seg-erase :
    (l l' : Links) (a : ℕ) (xs : List ℕ) (b n : ℕ)
    → Seg l a xs b
    → Distinct (a ∷ xs)
    → has b xs ≡ false
    → has n xs ≡ true
    → Deleted l l' n
    → Seg l' a (erase n xs) b
Seg-erase l l' a [] b n s d out i del = cc
Seg-erase l l' a (x ∷ xs) b n s d out i del = elim (Bool-cases (n == x)) [
  | inl e ↦
      let same : n ≡ x = (==_iff n x).0 e in
      rw e (
        Seg-skip l l' a xs b n (rw same s.1) (rw same s.2) (ground arith) d.1.1 (ground arith)
          (rw same d.1.0) del)
  | inr ne ↦
      let later : has n xs ≡ true = ground arith in
      let rest : Seg l' x (erase n xs) b =
        Seg-erase l l' x xs b n s.2 d.1 (ground arith) later del in
      rw ne (
        ground (
          arith,
          rest,
          del.other_next a,
          del.other_prev x,
          Seg-prev_of-mem l x xs b n s.2 later,
          Seg-next-mem l x xs b n s.2 (ground arith),
        ))
]

Seg-next_of-mem :
    (l : Links) (a : ℕ) (xs : List ℕ) (b n : ℕ)
    → Seg l a xs b
    → has n xs ≡ true
    → ((l.next n == b) || has (l.next n) xs) ≡ true
Seg-next_of-mem l a xs b n s i = Seg-next-mem l a xs b n s (ground arith)

Seg-prev-ne :
    (l : Links) (a : ℕ) (xs : List ℕ) (b n : ℕ)
    → Seg l a xs b
    → Distinct (a ∷ xs)
    → has n xs ≡ true
    → n ≢ l.prev n
Seg-prev-ne l a [] b n s d i = cc
Seg-prev-ne l a (x ∷ xs) b n s d i = ground (arith, Seg-prev-ne l x xs b n s.2 d.1)

module _ (l : Links) (h : ℕ) (xs : List ℕ) (r : IsRing l h xs) (n : ℕ) (i : has n xs ≡ true) where
  deleted : Deleted l (list_del n l) n
  deleted = list_del-Deleted l n (Seg-prev-ne l h xs h n r.chain r.distinct i)

  -- list_del of an entry of a ring takes that entry out and keeps the order of the others.
  pub list_del-IsRing : IsRing (list_del n l) h (erase n xs)
  list_del-IsRing = record {
    chain = Seg-erase l _ h xs h n r.chain r.distinct r.distinct.0 i deleted;
    distinct = (has-erase_of h n xs r.distinct.0, Distinct-erase xs n r.distinct.1);
  }

  -- `list_del` leaves every ring alone that shares no node with its own.
  pub list_del-Agree :
      (k : ℕ) (ys : List ℕ)
      → ((a : ℕ) → has a (k ∷ ys) ≡ true → has a (h ∷ xs) ≡ false)
      → Agree l (list_del n l) k ys
  list_del-Agree k ys apart a j =
      let e : has a (h ∷ xs) ≡ false = apart a j in
      let before : has (l.prev n) (h ∷ xs) ≡ true = Seg-prev_of-mem l h xs h n r.chain i in
      let behind : has (l.next n) (h ∷ xs) ≡ true = Seg-next_of-mem l h xs h n r.chain i in
      (
        deleted.other_next a (has_ne a (l.prev n) (h ∷ xs) e before),
        deleted.other_prev a (has_ne a (l.next n) (h ∷ xs) e behind),
      )

-- The first entry is behind the head, and an empty ring is a head that is linked to itself.
pub next-IsRing : (l : Links) (h x : ℕ) (xs : List ℕ) → IsRing l h (x ∷ xs) → l.next h ≡ x
next-IsRing l h x xs r = r.chain.0

pub init_list_head-IsRing : (l : Links) (h : ℕ) → IsRing (init_list_head h l) h []
unfolding init_list_head
init_list_head-IsRing l h = record { chain = (ground arith, ground arith); distinct = (refl, tt) }

-- On a ring, list_empty is true exactly where the ring has no entries.
pub list_empty-IsRing :
    (l : Links) (h : ℕ) (xs : List ℕ) → IsRing l h xs → (list_empty h l ≡ true) ↔ (xs ≡ [])
unfolding list_empty
list_empty-IsRing l h [] r = (λ _. refl, λ _. ground (arith, r.chain.0, r.chain.1))
list_empty-IsRing l h (x ∷ xs) r = (λ e. absurd (ground (arith, r.chain.0, r.distinct.0)), λ e. cc)
