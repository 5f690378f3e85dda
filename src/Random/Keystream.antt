-- ===== src/Random/Keystream.antt =====
-- The bytes of random_bytes after random_init, against RC4 written out from its definition.
use mathlib.Core.Path.{subst}
use native.Mathlib.Nat.{zero-add}
use class_assignments.Prelude.{
  ℕ, zero, suc, ◌+◌, ◌*◌, ◌/◌, ◌%◌, ◌^◌, ◌≤◌, ◌<◌, ◌≡◌, refl, sym, ◌∙◌, ap, arith, ◌==◌, true,
  false, List, [], ◌∷◌, if◌then◌else◌, ltb, leb, ◌&&◌, length, get_or,
}
use class_assignments.Random.{
  Generator, swap_byte, identity_loop, seed_byte, mix_loop, random_init, next_state, byte_of,
  bytes_loop, random_bytes, as_ulong, random_ulong,
}
use class_assignments.Random.Permutation.{
  IsGenerator, identity_loop_lem, random_init-IsGenerator, bytes_loop-IsGenerator,
}

-- The key: the four bytes of the seed, the lowest first.
pub key : (seed i : ℕ) → ℕ
key seed i =
    get_or (seed % 256 ∷ seed / 256 % 256 ∷ seed / 65536 % 256 ∷ seed / 16777216 % 256 ∷ []) i 0

-- The values of `s` at `a` and `b` have changed places.
pub transposed : (a b : ℕ) → (ℕ → ℕ) → ℕ → ℕ
transposed a b s k = if k == a then s b else if k == b then s a else s k

-- The permutation and the index `j` after `n` rounds of the key schedule, from the identity on.
pub schedule : (seed n : ℕ) → (ℕ → ℕ) × ℕ
schedule seed zero = (λ k. k, 0)
schedule seed (suc n) =
    let before = schedule seed n in
    let j = (before.1 + before.0 n + key seed (n % 4)) % 256 in (transposed n j before.0, j)

-- The same after `n` rounds of generation.
pub generation : (seed n : ℕ) → (ℕ → ℕ) × ℕ
generation seed zero = ((schedule seed 256).0, 0)
generation seed (suc n) =
    let before = generation seed n in
    let i = (n + 1) % 256 in let j = (before.1 + before.0 i) % 256 in (transposed i j before.0, j)

-- Byte `n` of the key stream.
pub keystream : (seed n : ℕ) → ℕ
keystream seed n =
    let now = generation seed (suc n) in now.0 ((now.0 ((n + 1) % 256) + now.0 now.1) % 256)

-- The same bytes, as far as an index of eight bits reaches.
abbrev Agrees : (s s' : ℕ → ℕ) → Type 0
Agrees s s' = (k : ℕ) → k < 256 → s k ≡ s' k

swap-Agrees :
    (a b : ℕ) (s s' : ℕ → ℕ)
    → a < 256
    → b < 256
    → Agrees s s'
    → Agrees (swap_byte a b s) (transposed a b s')
unfolding transposed
swap-Agrees a b s s' l l' v k h = ground (arith, v a l, v b l', v k h)

seed_byte-key : (seed i : ℕ) → i < 4 → seed_byte seed i ≡ key seed i
unfolding key
seed_byte-key seed zero l = ground arith
seed_byte-key seed (suc zero) l = ground arith
seed_byte-key seed (suc (suc zero)) l = ground arith
seed_byte-key seed (suc (suc (suc zero))) l = ground arith
seed_byte-key seed (suc (suc (suc (suc i)))) l = absurd (omega arith)

mix_loop-Agrees :
    (seed rounds i j : ℕ) (s : ℕ → ℕ)
    → i + rounds ≤ 256
    → Agrees s (schedule seed i).0
    → j ≡ (schedule seed i).1
    → Agrees (mix_loop seed rounds i j s) (schedule seed (i + rounds)).0
unfolding mix_loop schedule
mix_loop-Agrees seed zero i j s l v e =
    subst (λ n. Agrees s (schedule seed n).0) (let e0 : i ≡ i + 0 = omega arith in e0) v
mix_loop-Agrees seed (suc rounds) i j s l v e =
    let before = schedule seed i in
    let j' = (j + (s i + seed_byte seed (i % 4))) % 256 in
    let e1 : suc i ≡ i + 1 = omega arith in
    let e' : i + 1 + rounds ≡ i + suc rounds = omega arith in
    let same : j' ≡ (before.1 + before.0 i + key seed (i % 4)) % 256 =
      ground (arith, e, v i (omega arith), seed_byte-key seed (i % 4) (omega arith)) in
    let swapped = swap-Agrees i j' s before.0 (omega arith) (omega arith) v in
    subst (λ n. Agrees (mix_loop seed (suc rounds) i j s) (schedule seed n).0) e'
      (mix_loop-Agrees seed rounds (i + 1) j' (swap_byte i j' s) (omega arith)
        (subst (λ n. Agrees (swap_byte i j' s) (schedule seed n).0) e1
          (subst (λ n. Agrees (swap_byte i j' s) (transposed i n before.0)) same swapped))
        (subst (λ n. j' ≡ (schedule seed n).1) e1 same))

-- The generator has been through `n` rounds.
pub record IsAt (seed n : ℕ) (g : Generator) : Type 0 where
  pub on : g.inited ≡ true
  pub index : g.s_i ≡ n % 256
  pub other_index : g.s_j ≡ (generation seed n).1
  pub bytes : (k : ℕ) → k < 256 → g.s k ≡ (generation seed n).0 k

identity_of :
    (seed : ℕ) (s : ℕ → ℕ) (k : ℕ)
    → k < 256
    → (if leb 0 k && ltb k (0 + 256) then k else s k) ≡ (schedule seed 0).0 k
unfolding schedule
identity_of seed s k l = ground arith

random_init-IsAt : (seed : ℕ) (g : Generator) → IsAt seed 0 (random_init seed g)
unfolding random_init generation schedule
random_init-IsAt seed g = record {
  on = refl;
  index = refl;
  other_index = refl;
  bytes =
      mix_loop-Agrees seed 256 0 0 (identity_loop 256 0 g.s) (omega arith)
        (λ k l. identity_loop_lem 256 0 g.s k (omega arith) ∙ identity_of seed g.s k l) refl;
}

next-IsAt :
    (seed n : ℕ) (g : Generator)
    → IsAt seed n g
    → IsAt seed (suc n) (next_state g) × (byte_of (next_state g) ≡ keystream seed n)
unfolding generation keystream
next-IsAt seed n g v =
    let before = generation seed n in
    let i = (n + 1) % 256 in
    let j = (before.1 + before.0 i) % 256 in
    let now : Generator = record { s = swap_byte i j g.s; s_i = i; s_j = j; inited = g.inited } in
    let index : (g.s_i + 1) % 256 ≡ i = omega (arith, v.index) in
    let other_index : (g.s_j + g.s i) % 256 ≡ j =
      rw (v.other_index, v.bytes i (omega arith)) refl in
    let next : next_state g ≡ now = rw (index, other_index) refl in
    let agrees : Agrees now.s (transposed i j before.0) =
      swap-Agrees i j g.s before.0 (omega arith) (omega arith) v.bytes in
    let sum : now.s i + now.s j ≡ transposed i j before.0 i + transposed i j before.0 j =
      rw (agrees i (omega arith), agrees j (omega arith)) refl in
    let out : byte_of now ≡ keystream seed n =
      ap (λ m. now.s (m % 256)) sum
      ∙ agrees ((transposed i j before.0 i + transposed i j before.0 j) % 256) (omega arith) in
    (
      subst (IsAt seed (suc n)) (sym next)
          (record { on = v.on; index = omega arith; other_index = refl; bytes = agrees }),
      ap byte_of next ∙ out,
    )

-- A first byte of the key stream, and the bytes behind it.
keystream-cons :
    (seed n x size : ℕ) (xs : List ℕ)
    → x ≡ keystream seed n
    → ((k : ℕ) → k < size → get_or xs k 0 ≡ keystream seed (suc n + k))
    → (k : ℕ) → k < suc size
    → get_or (x ∷ xs) k 0 ≡ keystream seed (n + k)
keystream-cons seed n x size xs e v zero l =
    let at : n ≡ n + 0 = omega arith in e ∙ ap (keystream seed) at
keystream-cons seed n x size xs e v (suc k) l =
    let at : suc n + k ≡ n + suc k = omega arith in v k (omega arith) ∙ ap (keystream seed) at

bytes_loop-keystream :
    (size seed n : ℕ) (g : Generator)
    → IsAt seed n g
    → let r = bytes_loop size g in
      IsAt seed (n + size) r.1 × ((k : ℕ) → k < size → get_or r.0 k 0 ≡ keystream seed (n + k))
unfolding bytes_loop
bytes_loop-keystream zero seed n g v =
    let e : n ≡ n + 0 = omega arith in (subst (λ m. IsAt seed m g) e v, λ k l. absurd (omega arith))
bytes_loop-keystream (suc size) seed n g v =
    let (v', byte) = next-IsAt seed n g v in
    let (w, rest) = bytes_loop-keystream size seed (suc n) (next_state g) v' in
    let e : suc n + size ≡ n + suc size = omega arith in
    (
      subst (λ m. IsAt seed m (bytes_loop size (next_state g)).1) e w,
      keystream-cons seed n (byte_of (next_state g)) size (bytes_loop size (next_state g)).0 byte
          rest,
    )

-- A call of random_bytes on an initialized generator.
random_bytes-keystream :
    (size seed n : ℕ) (g : Generator)
    → IsAt seed n g
    → IsGenerator g
    → let r = random_bytes size g in
      (length r.0 ≡ size)
      × ((k : ℕ) → k < size → get_or r.0 k 0 ≡ keystream seed (n + k))
      × IsAt seed (n + size) r.1
      × IsGenerator r.1
unfolding random_bytes
random_bytes-keystream size seed n g v w =
    let started : (if g.inited then g else random_init 0 g) ≡ g =
      ap (λ b. if b then g else random_init 0 g) v.on in
    let (now, bytes) = bytes_loop-keystream size seed n g v in
    let (l, small, w', same) = bytes_loop-IsGenerator size g w in rw started (l, bytes, now, w')

-- Before the first random_init, random_bytes begins with the seed 0.
random_bytes-unstarted :
    (size : ℕ) (g : Generator)
    → random_bytes size (record g { inited = false })
      ≡ random_bytes size (random_init 0 (record g { inited = false }))
unfolding random_bytes random_init
random_bytes-unstarted size g = refl

as_ulong-get_or :
    (bs : List ℕ)
    → length bs ≡ 4
    → as_ulong bs
      ≡ get_or bs 0 0 + 2 ^ 8 * get_or bs 1 0 + 2 ^ 16 * get_or bs 2 0 + 2 ^ 24 * get_or bs 3 0
as_ulong-get_or [] e = absurd (omega arith)
as_ulong-get_or (a ∷ []) e = absurd (omega arith)
as_ulong-get_or (a ∷ b ∷ []) e = absurd (omega arith)
as_ulong-get_or (a ∷ b ∷ c ∷ []) e = absurd (omega arith)
as_ulong-get_or (a ∷ b ∷ c ∷ d ∷ []) e = omega arith
as_ulong-get_or (a ∷ b ∷ c ∷ d ∷ x ∷ bs) e = absurd (omega arith)

random_ulong-keystream :
    (seed n : ℕ) (g : Generator)
    → IsAt seed n g
    → IsGenerator g
    → (random_ulong g).0
      ≡ keystream seed n
        + 2 ^ 8 * keystream seed (n + 1)
        + 2 ^ 16 * keystream seed (n + 2)
        + 2 ^ 24 * keystream seed (n + 3)
unfolding random_ulong
random_ulong-keystream seed n g v w =
    let (l, bytes, now, w') = random_bytes-keystream 4 seed n g v w in
    let at : n + 0 ≡ n = omega arith in
    let first = bytes 0 (omega arith) ∙ ap (keystream seed) at in
    as_ulong-get_or (random_bytes 4 g).0 l
    ∙ rw (first, bytes 1 (omega arith), bytes 2 (omega arith), bytes 3 (omega arith)) refl

-- Two calls of random_bytes after a random_init write, in turn, as many bytes as they are asked
-- for, and these are the successive bytes of the RC4 key stream of the seed, whatever the state
-- was before: the key stream is written out from the definition of RC4, with the four bytes of
-- the seed as the key. random_ulong after the first call returns the next four of them, the
-- lowest first. The state stays a permutation of the bytes, with its indexes below 256. A
-- random_bytes of a generator that is not initialized is one after random_init with the seed 0.
pub keystream_lem :
    (seed size more : ℕ) (g : Generator)
    → let first = random_bytes size (random_init seed g) in
      let second = random_bytes more first.1 in
      (length first.0 ≡ size)
      × ((k : ℕ) → k < size → get_or first.0 k 0 ≡ keystream seed k)
      × (length second.0 ≡ more)
      × ((k : ℕ) → k < more → get_or second.0 k 0 ≡ keystream seed (size + k))
      × ((random_ulong first.1).0
          ≡ keystream seed size
            + 2 ^ 8 * keystream seed (size + 1)
            + 2 ^ 16 * keystream seed (size + 2)
            + 2 ^ 24 * keystream seed (size + 3))
      × (random_bytes size (record g { inited = false })
          ≡ random_bytes size (random_init 0 (record g { inited = false })))
      × IsGenerator second.1
keystream_lem seed size more g =
    let start = random_init seed g in
    let (l, bytes, now0, w) =
      random_bytes-keystream size seed 0 start (random_init-IsAt seed g)
        (random_init-IsGenerator seed g) in
    let now = subst (λ n. IsAt seed n (random_bytes size start).1) (zero-add size) now0 in
    let (l', bytes', now', w') =
      random_bytes-keystream more seed size (random_bytes size start).1 now w in
    (
      l,
      λ k h. bytes k h ∙ ap (keystream seed) (zero-add k),
      l',
      bytes',
      random_ulong-keystream seed size (random_bytes size start).1 now w,
      random_bytes-unstarted size g,
      w',
    )
