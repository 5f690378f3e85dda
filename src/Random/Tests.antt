-- ===== src/Random/Tests.antt =====
-- The generator before its first use.
use class_assignments.Prelude.{ℕ, ◌+◌, ◌*◌, ◌^◌, ◌<◌, ◌≡◌, false, length, get_or}
use class_assignments.Random.{Generator, random_init, random_bytes, random_ulong}
use class_assignments.Random.Permutation.{IsGenerator}
use class_assignments.Random.Keystream.{keystream, keystream_lem}

abbrev unused : Generator
unused = record { s = λ i. 0; s_i = 0; s_j = 0; inited = false }

keystream_lem_example :
    let first = random_bytes 3 (random_init 7 unused) in
    let second = random_bytes 5 first.1 in
    (length first.0 ≡ 3)
    × ((k : ℕ) → k < 3 → get_or first.0 k 0 ≡ keystream 7 k)
    × (length second.0 ≡ 5)
    × ((k : ℕ) → k < 5 → get_or second.0 k 0 ≡ keystream 7 (3 + k))
    × ((random_ulong first.1).0
        ≡ keystream 7 3
          + 2 ^ 8 * keystream 7 (3 + 1)
          + 2 ^ 16 * keystream 7 (3 + 2)
          + 2 ^ 24 * keystream 7 (3 + 3))
    × (random_bytes 3 (record unused { inited = false })
        ≡ random_bytes 3 (random_init 0 (record unused { inited = false })))
    × IsGenerator second.1
keystream_lem_example = keystream_lem 7 3 5 unused
