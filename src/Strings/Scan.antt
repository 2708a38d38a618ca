-- ===== src/Strings/Scan.antt =====
-- The functions of kernel/common/strings.c that read strings.
use sky_os.Base.{
  ℕ, zero, suc, ◌+◌, ◌^◌, ◌<◌, ◌≡◌, ◌≢◌, ◌↔◌, refl, sym, ◌∙◌, ap, inl, inr, false, List, [], ◌∷◌,
  Option, none, some, arith, ◌==◌, Bool-cases, ==_iff, length, u32, if◌then◌else◌,
}
use sky_os.Base.Runs.{done}
use sky_os.Strings.{Memory, Order, strlen_from, strlen, strcmp, memcmp, strrchr_from, strrchr}

-- The bytes `xs`, none of them 0, stand at `s` with a 0 behind them.
abbrev pub IsString : Memory → ℕ → List ℕ → Type 0
IsString m s [] = m s ≡ 0
IsString m s (x ∷ xs) = (m s ≡ x) × (x ≢ 0) × IsString m (s + 1) xs

strlen_from_lem :
    (xs : List ℕ) (fuel str i : ℕ) (m : Memory)
    → IsString m (str + i) xs
    → i + length xs < 2 ^ 32
    → length xs < fuel
    → strlen_from fuel str i m ≡ done (i + length xs)
unfolding strlen_from
strlen_from_lem xs zero str i m s small lt = absurd (omega arith)
strlen_from_lem [] (suc fuel) str i m s small lt = let e : i + 0 ≡ i = omega arith in rw (s, e) refl
strlen_from_lem (x ∷ xs) (suc fuel) str i m (at, ne, s) small lt =
    let go : (m (str + i) == 0) ≡ false = ground arith in
    let e : u32 (i + 1) ≡ i + 1 = omega arith in
    let e' : str + i + 1 ≡ str + (i + 1) = omega arith in
    let e'' : i + 1 + length xs ≡ i + suc (length xs) = omega arith in
    rw (go, e)
      (strlen_from_lem xs fuel str (i + 1) m (rw e' at s) (omega arith) (omega arith) ∙ ap done e'')

-- strlen of a string of fewer than 2 ^ 32 bytes returns its length, after a round for each byte.
pub strlen_lem :
    (xs : List ℕ) (fuel str : ℕ) (m : Memory)
    → IsString m str xs
    → length xs < 2 ^ 32
    → length xs < fuel
    → strlen fuel str m ≡ done (length xs)
unfolding strlen
strlen_lem xs fuel str m s small lt =
    let e : str ≡ str + 0 = omega arith in
    let e' : 0 + length xs ≡ length xs = omega arith in
    strlen_from_lem xs fuel str 0 m (rw e at s) (omega arith) lt ∙ ap done e'

heads : {x y : ℕ} {xs ys : List ℕ} → (x == y) ≡ false → x ∷ xs ≡ y ∷ ys → ⊥
heads {x} {y} ne h = absurd (first (cc h) ne)
  where
    first : x ≡ y → (x == y) ≡ false → ⊥
    first e ne = ground arith

-- strcmp of two strings returns, after a round for each byte, and the difference is 0 exactly
-- where the strings are the same.
pub strcmp_lem :
    (xs ys : List ℕ) (fuel s1 s2 : ℕ) (m : Memory)
    → IsString m s1 xs
    → IsString m s2 ys
    → length xs < fuel
    → (a b : ℕ) × (strcmp fuel s1 s2 m ≡ done (a, b)) × ((a ≡ b) ↔ (xs ≡ ys))
unfolding strcmp
strcmp_lem xs ys zero s1 s2 m s t lt = absurd (omega arith)
strcmp_lem [] [] (suc fuel) s1 s2 m s t lt = (0, 0, rw (s, t) refl, (λ _. refl, λ _. refl))
strcmp_lem [] (y ∷ ys) (suc fuel) s1 s2 m s (at, ne, t) lt =
    let differ : (0 == y) ≡ false = ground arith in
    (0, y, rw (s, at, differ) refl, (λ e. absurd (ne (sym e)), λ e. cc))
strcmp_lem (x ∷ xs) [] (suc fuel) s1 s2 m (at, ne, s) t lt =
    let differ : (x == 0) ≡ false = ground arith in
    (x, 0, rw (at, t, differ) refl, (λ e. absurd (ne e), λ e. cc))
strcmp_lem (x ∷ xs) (y ∷ ys) (suc fuel) s1 s2 m (at, ne, s) (at', ne', t) lt =
    elim (Bool-cases (x == y)) [
      | inl same ↦
          let e : x ≡ y = (==_iff x y).0 same in
          let go : (x == 0) ≡ false = ground arith in
          let (a, b, run, (to, from)) =
            strcmp_lem xs ys fuel (s1 + 1) (s2 + 1) m s t (omega arith) in
          (a, b, rw (at, at', same, go) run, (λ h. cc (e, to h), λ h. from (cc h)))
      | inr differ ↦ (
        x,
        y,
        rw (at, at', differ) refl,
        (λ e. absurd (ground arith), λ h. absurd (heads differ h)),
      )
    ]

-- The last place of `c` in a list.
abbrev pub last_index : ℕ → List ℕ → Option ℕ
last_index c [] = none
last_index c (x ∷ xs) = elim (last_index c xs) [
  | some i ↦ some (suc i)
  | none ↦ if x == c then some 0 else none
]

-- The place behind the last `c` in a string at `s`, or else `occ`.
abbrev pub behind : ℕ → Option ℕ → Option ℕ → Option ℕ
behind s occ none = occ
behind s occ (some i) = some (s + i + 1)

strrchr_from_lem :
    (xs : List ℕ) (fuel s c : ℕ) (occ : Option ℕ) (m : Memory)
    → IsString m s xs
    → length xs < fuel
    → strrchr_from fuel s c occ m ≡ done (behind s occ (last_index c xs))
unfolding strrchr_from
strrchr_from_lem xs zero s c occ m t lt = absurd (omega arith)
strrchr_from_lem [] (suc fuel) s c occ m t lt = rw t refl
strrchr_from_lem (x ∷ xs) (suc fuel) s c occ m (at, ne, t) lt =
    let go : (x == 0) ≡ false = ground arith in
    let rest =
      strrchr_from_lem xs fuel (s + 1) c (if x == c then some (s + 1) else occ) m t (omega arith) in
    rw (at, go) (rest ∙ ap done (join (last_index c xs)))
  where
    join :
        (r : Option ℕ)
        → behind (s + 1) (if x == c then some (s + 1) else occ) r
          ≡ behind s occ (elim r [ some i ↦ some (suc i) | none ↦ if x == c then some 0 else none ])
    join (some i) = ap some (omega arith)
    join none = elim (Bool-cases (x == c)) [
      | inl e ↦ let z : s + 1 ≡ s + 0 + 1 = omega arith in rw e (ap some z)
      | inr e ↦ rw e refl
    ]

-- strrchr of a string returns, after a round for each byte: none where the character is not in the
-- string, and else the address behind its last place, not the address of the place.
pub strrchr_lem :
    (xs : List ℕ) (fuel s c : ℕ) (m : Memory)
    → IsString m s xs
    → length xs < fuel
    → strrchr fuel s c m ≡ done (behind s none (last_index c xs))
unfolding strrchr
strrchr_lem xs fuel s c m t lt = strrchr_from_lem xs fuel s c none m t lt

-- memcmp finds no difference exactly where the two ranges hold the same bytes.
pub memcmp_lem :
    (n a b : ℕ) (m : Memory)
    → (memcmp a b n m ≡ Order.same) ↔ ((i : ℕ) → i < n → m (a + i) ≡ m (b + i))
unfolding memcmp
memcmp_lem zero a b m = (λ _ i lt. absurd (omega arith), λ _. refl)
memcmp_lem (suc n) a b m =
    let (to, from) = memcmp_lem n (a + 1) (b + 1) m in
    (
      λ e i lt. at i lt (ground (arith, e)) (to (ground (arith, e))),
      λ h. ground (arith, first h, from (λ i lt. next h i lt)),
    )
  where
    first : ((i : ℕ) → i < suc n → m (a + i) ≡ m (b + i)) → m a ≡ m b
    first h =
        let e : a + 0 ≡ a = omega arith in
        let e' : b + 0 ≡ b = omega arith in rw (e, e') at (h 0 (omega arith))

    next :
        ((i : ℕ) → i < suc n → m (a + i) ≡ m (b + i))
        → (i : ℕ) → i < n
        → m (a + 1 + i) ≡ m (b + 1 + i)
    next h i lt =
        let e : a + suc i ≡ a + 1 + i = omega arith in
        let e' : b + suc i ≡ b + 1 + i = omega arith in rw (e, e') at (h (suc i) (omega arith))

    at :
        (i : ℕ)
        → i < suc n
        → m a ≡ m b
        → ((j : ℕ) → j < n → m (a + 1 + j) ≡ m (b + 1 + j))
        → m (a + i) ≡ m (b + i)
    at zero lt e rest =
        let e1 : a + 0 ≡ a = omega arith in let e2 : b + 0 ≡ b = omega arith in rw (e1, e2) e
    at (suc i) lt e rest =
        let e1 : a + suc i ≡ a + 1 + i = omega arith in
        let e2 : b + suc i ≡ b + 1 + i = omega arith in rw (e1, e2) (rest i (omega arith))
