-- ===== src/Strings/Examples.antt =====
-- kernel/common/strings.c with the string "aba" at 100.
use sky_os.Base.{
  ℕ, ◌+◌, ◌<◌, ◌≡◌, ◌↔◌, ◌⊎◌, inr, refl, List, [], ◌∷◌, none, some, arith, length, ◌==◌,
  if◌then◌else◌,
}
use sky_os.Base.Runs.{done}
use sky_os.Strings.{Memory, strcpy, strcmp, strrchr, strrchr_from}
use sky_os.Strings.Scan.{IsString, strcmp_lem, strrchr_lem, behind, last_index}
use sky_os.Strings.Copy.{strcpy_lem}

abbrev aba : Memory
aba a = if a == 100 then 97 else if a == 101 then 98 else if a == 102 then 97 else 0

abbrev letters : List ℕ
letters = 97 ∷ 98 ∷ 97 ∷ []

aba-IsString : IsString aba 100 letters
aba-IsString = ground arith

-- The last 'a' is at 102.
strrchr_run : strrchr 9 100 97 aba ≡ done (some 103)
unfolding strrchr strrchr_from
strrchr_run = refl

strcmp_lem_example :
    (a b : ℕ) × (strcmp 9 100 100 aba ≡ done (a, b)) × ((a ≡ b) ↔ (letters ≡ letters))
strcmp_lem_example =
    strcmp_lem letters letters 9 100 100 aba aba-IsString aba-IsString (omega arith)

strrchr_lem_example : strrchr 9 100 97 aba ≡ done (behind 100 none (last_index 97 letters))
strrchr_lem_example = strrchr_lem letters 9 100 97 aba aba-IsString (omega arith)

strcpy_lem_example :
    (m' : Memory) × (strcpy 9 200 100 aba ≡ done m')
    × IsString m' 200 letters
    × ((a : ℕ) → (a < 200) ⊎ (200 + length letters < a) → m' a ≡ aba a)
strcpy_lem_example = strcpy_lem letters 9 200 100 aba aba-IsString (inr (omega arith)) (omega arith)
