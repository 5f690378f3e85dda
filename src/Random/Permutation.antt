-- ===== src/Random/Permutation.antt =====
-- The state of RC4 as a permutation of the bytes.
use class_assignments.Prelude.{
  ℕ, zero, suc, ◌+◌, ◌%◌, ◌≤◌, ◌<◌, ◌≡◌, refl, sym, ◌∙◌, ap, arith, ◌==◌, ◌&&◌, if◌then◌else◌, ltb,
  leb, Bool-cases, inl, inr, length, All,
}
use class_assignments.Random.{
  Generator, set_byte, swap_byte, identity_loop, seed_byte, mix_loop, random_init, next_state,
  bytes_loop,
}

-- The bytes at the indexes below 256 are bytes, and no two are the same.
pub record IsPermutation (s : ℕ → ℕ) : Type 0 where
  pub bytes : (i : ℕ) → i < 256 → s i < 256
  pub differ : (i j : ℕ) → i < 256 → j < 256 → s i ≡ s j → i ≡ j

pub record IsGenerator (g : Generator) : Type 0 where
  pub permutation : IsPermutation g.s
  pub in_range : (g.s_i < 256) × (g.s_j < 256)

pub identity_loop_lem :
    (rounds i : ℕ) (s : ℕ → ℕ) (k : ℕ)
    → i + rounds ≤ 256
    → identity_loop rounds i s k ≡ (if leb i k && ltb k (i + rounds) then k else s k)
unfolding identity_loop
identity_loop_lem zero i s k l = ground arith
identity_loop_lem (suc rounds) i s k l =
    identity_loop_lem rounds (i + 1) (set_byte i (i % 256) s) k (omega arith) ∙ ground arith

-- Where the byte at an index comes from.
swapped_from : (a b i : ℕ) → ℕ
swapped_from a b i = if b == i then a else if a == i then b else i

swap_byte-from : (a b : ℕ) (s : ℕ → ℕ) (i : ℕ) → swap_byte a b s i ≡ s (swapped_from a b i)
unfolding swapped_from
swap_byte-from a b s i = elim (Bool-cases (b == i)) [
  | inl e ↦ rw e refl
  | inr e ↦ elim (Bool-cases (a == i)) [ inl e' ↦ rw (e, e') refl | inr e' ↦ rw (e, e') refl ]
]

swapped_from-injective : (a b i j : ℕ) → swapped_from a b i ≡ swapped_from a b j → i ≡ j
unfolding swapped_from
swapped_from-injective a b i j e = ground arith

swapped_from-range : (a b i : ℕ) → a < 256 → b < 256 → i < 256 → swapped_from a b i < 256
unfolding swapped_from
swapped_from-range a b i l l' l'' = ground arith

swap-IsPermutation :
    (a b : ℕ) (s : ℕ → ℕ) → a < 256 → b < 256 → IsPermutation s → IsPermutation (swap_byte a b s)
swap-IsPermutation a b s l l' p =
    let from = swapped_from a b in
    record {
      bytes =
          λ i k. rw (swap_byte-from a b s i) (p.bytes (from i) (swapped_from-range a b i l l' k));
      differ = λ i j k k' e. swapped_from-injective a b i j (
          p.differ (from i) (from j) (swapped_from-range a b i l l' k)
            (swapped_from-range a b j l l' k')
            (sym (swap_byte-from a b s i) ∙ e ∙ swap_byte-from a b s j));
    }

byte : (n : ℕ) → n % 256 < 256
byte n = omega arith

mix_loop-IsPermutation :
    (seed rounds i j : ℕ) (s : ℕ → ℕ)
    → i + rounds ≤ 256
    → IsPermutation s
    → IsPermutation (mix_loop seed rounds i j s)
unfolding mix_loop
mix_loop-IsPermutation seed zero i j s l p = p
mix_loop-IsPermutation seed (suc rounds) i j s l p =
    let j' = (j + (s i + seed_byte seed (i % 4))) % 256 in
    mix_loop-IsPermutation seed rounds (i + 1) j' (swap_byte i j' s) (omega arith)
      (swap-IsPermutation i j' s (omega arith) (byte (j + (s i + seed_byte seed (i % 4)))) p)

identity-IsPermutation : (s : ℕ → ℕ) → IsPermutation (identity_loop 256 0 s)
identity-IsPermutation s =
    let here : (k : ℕ) → k < 256 → identity_loop 256 0 s k ≡ k =
      λ k l. identity_loop_lem 256 0 s k (omega arith) ∙ ground arith in
    record { bytes = λ i l. rw (here i l) l; differ = λ i j l l' e. sym (here i l) ∙ e ∙ here j l' }

pub random_init-IsGenerator : (seed : ℕ) (g : Generator) → IsGenerator (random_init seed g)
unfolding random_init
random_init-IsGenerator seed g = record {
  permutation =
      mix_loop-IsPermutation seed 256 0 0 (identity_loop 256 0 g.s) (omega arith)
        (identity-IsPermutation g.s);
  in_range = (omega arith, omega arith);
}

next-IsGenerator : (g : Generator) → IsGenerator g → IsGenerator (next_state g)
next-IsGenerator g w =
    let i = (g.s_i + 1) % 256 in
    let j = (g.s_j + g.s i) % 256 in
    record {
      permutation =
          swap-IsPermutation i j g.s (byte (g.s_i + 1)) (byte (g.s_j + g.s i)) w.permutation;
      in_range = (byte (g.s_i + 1), byte (g.s_j + g.s i));
    }

pub bytes_loop-IsGenerator :
    (size : ℕ) (g : Generator)
    → IsGenerator g
    → let r = bytes_loop size g in
      (length r.0 ≡ size) × All (λ b. b < 256) r.0 × IsGenerator r.1 × (r.1.inited ≡ g.inited)
unfolding bytes_loop
bytes_loop-IsGenerator zero g w = (refl, tt, w, refl)
bytes_loop-IsGenerator (suc size) g w =
    let g' = next_state g in
    let w' = next-IsGenerator g w in
    let (l, bytes, w'', same) = bytes_loop-IsGenerator size g' w' in
    (
      ap suc l,
      (
        w'.permutation.bytes ((g'.s g'.s_i + g'.s g'.s_j) % 256) (byte (g'.s g'.s_i + g'.s g'.s_j)),
        bytes,
      ),
      w'',
      same,
    )
