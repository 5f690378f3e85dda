-- ===== src/Bitmap/Scan.antt =====
-- Finding and claiming the first free range.

use mathlib.Core.Path.{subst}
use native.Mathlib.Decide.{ℕ_discrete}
use class_assignments.Prelude.{
  ℕ, zero, suc, ◌+◌, ◌-◌, ◌<◌, ◌≤◌, ◌≡◌, ◌≢◌, refl, inl, inr, Bool, true, false, not, some, arith,
  leb, le→leb, leb→le, ◌==◌, if◌then◌else◌, Bool-cases,
}
use class_assignments.Bitmap.{Bitmap, bitmap_error, scan_loop, bitmap_scan, bitmap_scan_and_flip}
use class_assignments.Bitmap.Bits.{IsBitmap, Holds, bit}
use class_assignments.Bitmap.Ranges.{
  within, AllBits, all_bits, all_bits_iff, bitmap_contains_lem, bitmap_set_multiple-Holds,
}

-- The index `r` begins the first group of `cnt` bits at or after `start` that are all `value`.
pub record IsFirst (b : Bitmap) (start cnt : ℕ) (value : Bool) (r : ℕ) : Type 0 where
  pub after : start ≤ r
  pub inside : r + cnt ≤ b.bit_cnt
  pub group : AllBits (bit b) r cnt value
  pub first : (j : ℕ) → start ≤ j → j < r → ¬ AllBits (bit b) j cnt value

-- There is no such group.
abbrev pub HasNone : Bitmap → (start cnt : ℕ) → Bool → Type 0
HasNone b start cnt value =
    (j : ℕ) → start ≤ j → j + cnt ≤ b.bit_cnt → ¬ AllBits (bit b) j cnt value

-- What a scan may return.
pub data Scanned (b : Bitmap) (start cnt : ℕ) (value : Bool) : ℕ → Type 0 where
  found : {r : ℕ} → IsFirst b start cnt value r → Scanned b start cnt value r
  missing : {r : ℕ} → r ≡ bitmap_error → HasNone b start cnt value → Scanned b start cnt value r

not-not : (x : Bool) → not (not x) ≡ x
not-not true = refl
not-not false = refl

-- A group that does not begin at `i` begins after it.
Scanned-step :
    {b : Bitmap} {i cnt : ℕ} {value : Bool} {r : ℕ}
    → ¬ AllBits (bit b) i cnt value
    → Scanned b (i + 1) cnt value r
    → Scanned b i cnt value r
Scanned-step {b} {i} {cnt} {value} here (found t) = found (record {
  after = omega (arith, t.after);
  inside = t.inside;
  group = t.group;
  first = λ j p q. elim (ℕ_discrete i j) [
    | yes e ↦ subst (λ k. ¬ AllBits (bit b) k cnt value) e here
    | no ne ↦ t.first j (omega arith) q
  ];
})
Scanned-step {b} {i} {cnt} {value} here (missing e t) = missing e (λ j p q. elim (ℕ_discrete i j) [
  | yes same ↦ subst (λ k. ¬ AllBits (bit b) k cnt value) same here
  | no ne ↦ t j (omega arith) q
])

scan_loop-Scanned :
    {b : Bitmap}
    → IsBitmap b
    → (left i cnt : ℕ) (value : Bool) → left ≡ b.bit_cnt - cnt + 1 - i
    → cnt ≤ b.bit_cnt
    → (r : ℕ) × (scan_loop b left i cnt value ≡ some r) × Scanned b i cnt value r
unfolding scan_loop
scan_loop-Scanned v zero i cnt value e h =
    (bitmap_error, refl, missing refl (λ j p q. absurd (omega arith)))
scan_loop-Scanned {b} v (suc left) i cnt value e h =
    let asked = bitmap_contains_lem v i cnt (not value) (omega arith) in
    elim (Bool-cases (all_bits (bit b) i cnt value)) [
      | inl all ↦ (
        i,
        rw (asked, not-not, all),
        found (record {
          after = omega arith;
          inside = omega arith;
          group = (all_bits_iff _ _ _ _).0 all;
          first = λ j p q. absurd (omega arith);
        }),
      )
      | inr other ↦
          let here : ¬ AllBits (bit b) i cnt value =
            λ all. absurd (ground (arith, other, (all_bits_iff (bit b) i cnt value).1 all)) in
          let (r, run, t) = scan_loop-Scanned v left (i + 1) cnt value (omega arith) h in
          (r, rw (asked, not-not, other) run, Scanned-step here t)
    ]

-- bitmap_scan, from a start inside the bitmap, returns the index of the first group of `cnt`
-- bits at or after it that all have the value, or BITMAP_ERROR where there is none.
pub bitmap_scan-Scanned :
    {b : Bitmap}
    → IsBitmap b
    → (start cnt : ℕ) (value : Bool) → start ≤ b.bit_cnt
    → (r : ℕ) × (bitmap_scan b start cnt value ≡ some r) × Scanned b start cnt value r
unfolding bitmap_scan
bitmap_scan-Scanned {b} v start cnt value h = elim (Bool-cases (leb cnt b.bit_cnt)) [
  | inl fits ↦
      let (r, run, t) =
        scan_loop-Scanned v (b.bit_cnt - cnt + 1 - start) start cnt value refl
          (leb→le cnt b.bit_cnt fits) in
      (r, rw (le→leb start b.bit_cnt h, fits) run, t)
  | inr large ↦
      let wide : b.bit_cnt < cnt = ground arith in
      (
        bitmap_error,
        rw (le→leb start b.bit_cnt h, large),
        missing refl (λ j p q. absurd (omega arith)),
      )
]

-- What scan-and-flip may do: claim the first group, or change nothing.
pub data Claimed (b : Bitmap) (start cnt : ℕ) (value : Bool) : ℕ → Bitmap → Type 0 where
  claimed :
      {r : ℕ} {b' : Bitmap}
      → r ≢ bitmap_error
      → IsFirst b start cnt value r
      → Holds b (λ j. if within r cnt j then not value else bit b j) b'
      → Claimed b start cnt value r b'
  refused :
      {r : ℕ} {b' : Bitmap}
      → r ≡ bitmap_error
      → HasNone b start cnt value
      → b' ≡ b
      → Claimed b start cnt value r b'

scan_and_flip_of_Scanned :
    {b : Bitmap}
    → IsBitmap b
    → (start cnt : ℕ) (value : Bool) {r : ℕ} → bitmap_scan b start cnt value ≡ some r
    → Scanned b start cnt value r
    → (b' : Bitmap) × (bitmap_scan_and_flip b start cnt value ≡ some (r, b'))
      × Claimed b start cnt value r b'
unfolding bitmap_scan_and_flip
scan_and_flip_of_Scanned {b} v start cnt value {r} run (found t) =
    let ne : r ≢ bitmap_error = omega (arith, t.inside, v.small) in
    let miss : (r == bitmap_error) ≡ false = ground arith in
    let (b', flip, u) = bitmap_set_multiple-Holds v r cnt (not value) t.inside in
    (b', rw (run, miss, flip), claimed ne t u)
scan_and_flip_of_Scanned {b} v start cnt value run (missing e t) =
    (b, rw (run, e), refused e t refl)

-- bitmap_scan_and_flip, from a start inside the bitmap, flips the first group of `cnt` bits that
-- all have the value, leaves every other bit, and returns its index, which is not BITMAP_ERROR;
-- where there is no group it returns BITMAP_ERROR and leaves the bitmap.
pub bitmap_scan_and_flip-Claimed :
    {b : Bitmap}
    → IsBitmap b
    → (start cnt : ℕ) (value : Bool) → start ≤ b.bit_cnt
    → (r : ℕ) × (b' : Bitmap) × (bitmap_scan_and_flip b start cnt value ≡ some (r, b'))
      × Claimed b start cnt value r b'
bitmap_scan_and_flip-Claimed v start cnt value h =
    let (r, run, t) = bitmap_scan-Scanned v start cnt value h in
    let (b', flip, c) = scan_and_flip_of_Scanned v start cnt value run t in (r, b', flip, c)
