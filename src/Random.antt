-- ===== src/Random.antt =====
-- cs439/proj4/lib/random.c: random bytes by RC4.
-- The static variables are one state; the bytes written to a buffer are a list.
pub mod Permutation
pub mod Keystream
mod Tests
use class_assignments.Prelude.{
  ℕ, zero, suc, ◌+◌, ◌*◌, ◌/◌, ◌%◌, ◌^◌, ◌==◌, Bool, true, false, List, [], ◌∷◌, if◌then◌else◌,
}

-- `s`, `s_i`, `s_j` and `inited`
pub record Generator : Type 0 where
  pub s : ℕ → ℕ
  pub s_i : ℕ
  pub s_j : ℕ
  pub inited : Bool

-- `s[i] = byte;`
abbrev pub set_byte : (i byte : ℕ) → (ℕ → ℕ) → ℕ → ℕ
set_byte i byte s k = if i == k then byte else s k

-- The bytes at the indexes `a` and `b` change places.
abbrev pub swap_byte : (a b : ℕ) → (ℕ → ℕ) → ℕ → ℕ
swap_byte a b s = set_byte b (s a) (set_byte a (s b) s)

-- `for (i = 0; i < 256; i++) s[i] = i;`
unfoldable pub identity_loop : (rounds i : ℕ) → (ℕ → ℕ) → ℕ → ℕ
identity_loop zero i s = s
identity_loop (suc rounds) i s = identity_loop rounds (i + 1) (set_byte i (i % 256) s)

-- `seedp[i]` of an `unsigned` in the byte order of the machine
abbrev pub seed_byte : (seed i : ℕ) → ℕ
seed_byte seed i = seed / 2 ^ (8 * i) % 256

unfoldable pub mix_loop : (seed rounds i j : ℕ) → (ℕ → ℕ) → ℕ → ℕ
mix_loop seed zero i j s = s
mix_loop seed (suc rounds) i j s =
    let j' = (j + (s i + seed_byte seed (i % 4))) % 256 in
    mix_loop seed rounds (i + 1) j' (swap_byte i j' s)

unfoldable pub random_init : (seed : ℕ) → Generator → Generator
random_init seed g = record {
  s = mix_loop seed 256 0 0 (identity_loop 256 0 g.s);
  s_i = 0;
  s_j = 0;
  inited = true;
}

-- One round of random_bytes, up to the byte that it writes.
abbrev pub next_state : Generator → Generator
next_state g =
    let s_i = (g.s_i + 1) % 256 in
    let s_j = (g.s_j + g.s s_i) % 256 in
    record { s = swap_byte s_i s_j g.s; s_i = s_i; s_j = s_j; inited = g.inited }

abbrev pub byte_of : Generator → ℕ
byte_of g = g.s ((g.s g.s_i + g.s g.s_j) % 256)

unfoldable pub bytes_loop : (size : ℕ) → Generator → List ℕ × Generator
bytes_loop zero g = ([], g)
bytes_loop (suc size) g =
    let g' = next_state g in let rest = bytes_loop size g' in (byte_of g' ∷ rest.0, rest.1)

unfoldable pub random_bytes : (size : ℕ) → Generator → List ℕ × Generator
random_bytes size g = bytes_loop size (if g.inited then g else random_init 0 g)

-- The `unsigned long` that the bytes are in memory
abbrev pub as_ulong : List ℕ → ℕ
as_ulong [] = 0
as_ulong (b ∷ bs) = b + 256 * as_ulong bs

unfoldable pub random_ulong : Generator → ℕ × Generator
random_ulong g = let r = random_bytes 4 g in (as_ulong r.0, r.1)
