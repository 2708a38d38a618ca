-- ===== src/Buddy/Size.antt =====
-- `size2order` in kernel/mm/buddy.c: the order for a size.
use sky_os.Base.{
  ℕ, zero, suc, ◌+◌, ◌*◌, ◌/◌, ◌^◌, ◌≤◌, ◌<◌, ◌≡◌, arith, dec_lt, ltb, lt→ltb, le→ltb,
  if◌then◌else◌, u32, sign_extend, ◌∙◌, dec_le,
}
use sky_os.Base.Order.{lt_wf}
use mathlib.Core.WellFounded.{Acc}
use mathlib.Core.Logic.{dif_pos, dif_neg}
use sky_os.Buddy.{buddy_page_size, size2order_loop, size2order}
use native.Mathlib.Nat.{zero-add}
use native.Mathlib.Numerals.{add-one}
use native.Mathlib.Bridge.{le_prop}
use sky_os.Buddy.Tiles.{pow_pos, pow_suc}

-- The loop adds the binary logarithm of `tmp` to `order`.
size2order_loop-IsLog :
    (tmp order : ℕ) (w : Acc ◌<◌ tmp)
    → 1 ≤ tmp
    → (k : ℕ) × (size2order_loop tmp order w ≡ order + k) × (2 ^ k ≤ tmp) × (tmp < 2 * 2 ^ k)
unfolding size2order_loop
size2order_loop-IsLog tmp order (Acc.intro _ smaller) pos = elim (dec_lt 1 tmp) [
  | yes more ↦
      let (k, e, low, high) =
        size2order_loop-IsLog (tmp / 2) (order + 1) (smaller (tmp / 2) (omega arith))
          (omega arith) in
      (
        suc k,
        rw (dif_pos (dec_lt 1 tmp) le_prop more) (omega (arith, e)),
        omega (arith, pow_suc k),
        omega (arith, pow_suc k),
      )
  | no last ↦ (0, rw (dif_neg _ last) (omega arith), omega arith, omega arith)
]

too_small : (tmp : ℕ) → tmp ≤ 1 → ¬ (1 < tmp)
too_small tmp le h = omega arith

-- A number below 2 still has logarithm 0.
pub size2order_loop-small :
    (tmp order : ℕ) (w : Acc ◌<◌ tmp) → tmp ≤ 1 → size2order_loop tmp order w ≡ order
unfolding size2order_loop
size2order_loop-small tmp order (Acc.intro _ smaller) le = rw (dif_neg _ (too_small tmp le))

pub pow-lt : (j k : ℕ) → j < k → 2 * 2 ^ j ≤ 2 ^ k
pow-lt j zero lt = absurd (omega arith)
pow-lt zero (suc k) lt = omega (arith, pow_suc k, pow_pos k)
pow-lt (suc j) (suc k) lt = omega (arith, pow_suc j, pow_suc k, pow-lt j k (omega arith))

pub pow-le : (j k : ℕ) → j ≤ k → 2 ^ j ≤ 2 ^ k
pow-le j k le = elim (dec_lt j k) [
  | yes lt ↦ omega (arith, pow-lt j k lt)
  | no last ↦ let e : j ≡ k = omega arith in rw e (omega arith)
]

-- The last lines of `size2order`, once the loop has found the order `k`.
round_up : (size k : ℕ) → ℕ
round_up size k = if ltb (sign_extend (2 ^ k * buddy_page_size)) size then k + 1 else k

abbrev pub IsLeast : (size k : ℕ) → Type 0
IsLeast size k =
    (size ≤ 2 ^ k * buddy_page_size) × ((j : ℕ) → size ≤ 2 ^ j * buddy_page_size → k ≤ j)

round_up-IsLeast :
    (size k : ℕ)
    → size < 2 ^ 31
    → 2 ^ k * buddy_page_size < 2 ^ 31
    → size < 2 * 2 ^ k * buddy_page_size
    → ((j : ℕ) → j < k → 2 ^ j * buddy_page_size < size)
    → IsLeast size (round_up size k)
unfolding round_up
round_up-IsLeast size k small fits below above =
    let e : sign_extend (2 ^ k * buddy_page_size) ≡ 2 ^ k * buddy_page_size = ground arith in
    rw e (elim (dec_lt (2 ^ k * buddy_page_size) size) [
      | yes more ↦ rw (lt→ltb (2 ^ k * buddy_page_size) size more) (
        rw add-one (omega (arith, pow_suc k)),
        λ j le. elim (dec_lt k j) [
          | yes ok ↦ omega arith
          | no out ↦ absurd (omega (arith, pow-le j k (omega arith)))
        ],
      )
      | no enough ↦ rw (le→ltb (2 ^ k * buddy_page_size) size (omega arith)) (
        omega arith,
        λ j le. elim (dec_le k j) [
          | yes ok ↦ ok
          | no out ↦ absurd (omega (arith, above j (omega arith)))
        ],
      )
    ])

-- For a size below 2 ^ 31 bytes, size2order is the least order whose chunks hold the size.
pub size2order_lem : (size : ℕ) → size < 2 ^ 31 → IsLeast size (size2order size)
unfolding size2order round_up
size2order_lem size small =
    let nr_page = u32 (size / buddy_page_size) in
    let e : nr_page ≡ size / buddy_page_size = omega arith in
    elim (dec_lt 0 nr_page) [
      | no none_whole ↦
          rw (size2order_loop-small nr_page 0 (lt_wf.apply nr_page) (omega arith)) (
            round_up-IsLeast size 0 small (omega arith) (omega arith)
              (λ j lt. absurd (omega arith)))
      | yes whole ↦
          let (k, loop, low, high) =
            size2order_loop-IsLog nr_page 0 (lt_wf.apply nr_page) (omega arith) in
          let le : 2 ^ k * buddy_page_size ≤ size = omega arith in
          rw (loop ∙ zero-add k) (
            round_up-IsLeast size k small (omega arith) (omega arith)
              (λ j lt. omega (arith, pow-lt j k lt, pow_pos j)))
    ]
