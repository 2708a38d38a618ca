-- ===== src/Buddy/Queues.antt =====
-- The free lists of kernel/mm/buddy.c as rings: `q o` are the addresses of the links in
-- `buddy_lists[o]`, in order.
use sky_os.Base.{
  ℕ, ◌≤◌, ◌<◌, ◌≡◌, inl, inr, true, false, List, [], ◌∷◌, ◌++◌, arith, ◌==◌, Bool-cases, ==_iff,
  write, has, erase, has-snoc, has-erase_of,
}
use sky_os.ListHead.{Links, list_append, list_del}
use sky_os.ListHead.Ring.{
  IsRing, IsRing-frame, list_append-IsRing, list_append-Agree, list_del-IsRing, list_del-Agree,
}
use sky_os.Buddy.{buddy_max_order, head_addr}

pub record Rings (l : Links) (q : ℕ → List ℕ) : Type 0 where
  pub ring : (o : ℕ) → o < buddy_max_order → IsRing l (head_addr o) (q o)
  pub above : (o a : ℕ) → o < buddy_max_order → has a (q o) ≡ true → 15 ≤ a
  pub apart :
      (o k a : ℕ)
      → o < buddy_max_order
      → k < buddy_max_order
      → has a (q o) ≡ true
      → has a (q k) ≡ true
      → o ≡ k

module _ (l : Links) (q : ℕ → List ℕ) (r : Rings l q) where
  -- Two free lists share no node, the heads included.
  Rings-disjoint :
      (o k : ℕ)
      → o < buddy_max_order
      → k < buddy_max_order
      → (k == o) ≡ false
      → (a : ℕ) → has a (head_addr k ∷ q k) ≡ true
      → has a (head_addr o ∷ q o) ≡ false
  Rings-disjoint o k ho hk ne a i =
      ground (arith, r.above o a ho, r.above k a hk, r.apart o k a ho hk)

  module _ (o : ℕ) (ho : o < buddy_max_order) (a : ℕ) where
    pub append-Rings :
        15 ≤ a
        → ((k : ℕ) → k < buddy_max_order → has a (q k) ≡ false)
        → Rings (list_append a (head_addr o) l) (write q o (q o ++ a ∷ []))
    append-Rings high fresh =
        let out : (k : ℕ) → k < buddy_max_order → has a (head_addr k ∷ q k) ≡ false =
          λ k hk. ground (arith, fresh k hk) in
        record {
          ring = λ k hk. elim (Bool-cases (k == o)) [
            | inl same ↦
                let e : k ≡ o = (==_iff k o).0 same in
                rw same (rw e (list_append-IsRing l (head_addr o) (q o) (r.ring o ho) a (out o ho)))
            | inr other ↦ rw other (
                IsRing-frame l _ (head_addr k) (q k) (r.ring k hk) (
                  list_append-Agree l (head_addr o) (q o) (r.ring o ho) a (out o ho) (head_addr k)
                    (q k) (out k hk) (Rings-disjoint o k ho hk other)))
          ];
          above = λ k b hk i. ground (arith, has-snoc b a (q o), r.above k b hk);
          apart = λ k j b hk hj i i'.
              ground (arith, has-snoc b a (q o), r.apart k j b hk hj, fresh k hk, fresh j hj);
        }

    pub del-Rings : has a (q o) ≡ true → Rings (list_del a l) (write q o (erase a (q o)))
    del-Rings i = record {
      ring = λ k hk. elim (Bool-cases (k == o)) [
        | inl same ↦
            rw same
              (rw ((==_iff k o).0 same) (list_del-IsRing l (head_addr o) (q o) (r.ring o ho) a i))
        | inr other ↦ rw other (
            IsRing-frame l _ (head_addr k) (q k) (r.ring k hk) (
              list_del-Agree l (head_addr o) (q o) (r.ring o ho) a i (head_addr k) (q k)
                (Rings-disjoint o k ho hk other)))
      ];
      above = λ k b hk j. ground (arith, has-erase_of b a (q o), r.above k b hk);
      apart = λ k j b hk hj i' i''. ground (arith, has-erase_of b a (q o), r.apart k j b hk hj);
    }
