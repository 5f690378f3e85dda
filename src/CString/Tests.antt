-- ===== src/CString/Tests.antt =====
-- Three texts in a small memory: runs, and the theorems at them.
use class_assignments.Prelude.{
  ℕ, ◌+◌, ◌-◌, ◌≤◌, ◌<◌, ◌≡◌, ◌⊎◌, inr, refl, ◌&&◌, Option, some, List, [], ◌∷◌, arith, ltb, leb,
  if◌then◌else◌, get_or,
}
use class_assignments.Prelude.Int.{negsuc}
use class_assignments.CString.{
  Memory, memmove, strcmp, strlen, strnlen, strchr, strrchr, strcspn, strspn, strpbrk, strstr,
  strtok_r, strlcpy, strlcat, copy_up,
}
use class_assignments.CString.Texts.{IsText}
use class_assignments.CString.Move.{memmove_lem}
use class_assignments.CString.Compare.{strcmp_lem}
use class_assignments.CString.Scan.{searches}
use class_assignments.CString.Substring.{strstr_lem}
use class_assignments.CString.Token.{Tokens, strtok_r-Tokens}
use class_assignments.CString.Copy.{strlcpy_lem, strlcat_lem}

-- "ab c" is at 100, " ," at 105, "b " at 108.
abbrev memory : Memory
memory j = get_or (97 ∷ 98 ∷ 32 ∷ 99 ∷ 0 ∷ 32 ∷ 44 ∷ 0 ∷ 98 ∷ 32 ∷ 0 ∷ []) (j - 100) 0

abbrev words : List ℕ
words = 97 ∷ 98 ∷ 32 ∷ 99 ∷ []

abbrev stops : List ℕ
stops = 32 ∷ 44 ∷ []

abbrev part : List ℕ
part = 98 ∷ 32 ∷ []

words-IsText : IsText memory 100 words
words-IsText = omega arith

stops-IsText : IsText memory 105 stops
stops-IsText = omega arith

part-IsText : IsText memory 108 part
part-IsText = omega arith

-- The pointer that memmove returns is behind the block where it copies upwards.
moved_pointer : (m : Memory) → memmove 100 102 3 m ≡ some (103, copy_up 3 100 102 m)
unfolding memmove
moved_pointer m = refl

memmove_lem_example :
    (m' : Memory) × (memmove 102 100 3 memory ≡ some (102, m'))
    × ((j : ℕ) → m' j ≡ (if leb 102 j && ltb j 105 then memory (100 + (j - 102)) else memory j))
memmove_lem_example = memmove_lem 102 100 3 memory (omega arith) (omega arith)

strcmp_lem_example : strcmp 9 100 108 memory ≡ some (negsuc 0)
strcmp_lem_example =
    strcmp_lem 9 100 108 words part memory words-IsText part-IsText (omega arith) (omega arith)
      (omega arith)

searches_example :
    (strlen 9 100 memory ≡ some 4)
    × (strnlen 9 100 3 memory ≡ some 3)
    × (strchr 9 100 99 memory ≡ some (some 103))
    × (strrchr 9 100 99 memory ≡ some (some 103))
    × (strcspn 9 100 105 memory ≡ some 2)
    × (strspn 9 100 105 memory ≡ some 0)
    × (strpbrk 9 100 105 memory ≡ some (some 102))
searches_example =
    searches 9 100 105 99 3 words stops memory words-IsText stops-IsText (omega arith) (omega arith)
      (omega arith) (omega arith) (omega arith)

strstr_lem_example : strstr 9 100 108 memory ≡ some (some 101)
strstr_lem_example =
    strstr_lem 9 100 108 words part memory words-IsText part-IsText (omega arith) (omega arith)
      (omega arith) (omega arith)

strtok_r-Tokens_example :
    (token : Option ℕ) × (save' : ℕ) × (m' : Memory) × (strtok_r 9 100 105 0 memory
      ≡ some (token, save', m'))
    × Tokens memory m' stops words token save'
    × ((j : ℕ) → j < 100 → m' j ≡ memory j)
    × ((j : ℕ) → 104 < j → m' j ≡ memory j)
strtok_r-Tokens_example =
    strtok_r-Tokens 9 105 stops memory stops-IsText (omega arith) (omega arith) 100 0 100 words refl
      (omega arith) words-IsText (omega arith)

-- Room for two bytes and the null byte.
strlcpy_lem_example :
    (m' : Memory) × (strlcpy 9 200 100 3 memory ≡ some (4, m'))
    × (0 < 3 → IsText m' 200 (97 ∷ 98 ∷ []))
    × ((j : ℕ) → (j < 200) ⊎ (203 ≤ j) → m' j ≡ memory j)
strlcpy_lem_example =
    strlcpy_lem 9 200 100 3 words memory words-IsText (omega arith) (omega arith)
      (inr (omega arith)) (omega arith)

strlcat_lem_example :
    (m' : Memory) × (strlcat 9 108 100 4 memory ≡ some (6, m'))
    × (2 < 4 → IsText m' 108 (98 ∷ 32 ∷ 97 ∷ []))
    × ((j : ℕ) → (j < 110) ⊎ (112 ≤ j) → m' j ≡ memory j)
strlcat_lem_example =
    strlcat_lem 9 108 100 4 words part memory words-IsText part-IsText (omega arith) (omega arith)
      (inr (omega arith)) (omega arith) (omega arith)
