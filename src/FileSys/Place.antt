-- ===== src/FileSys/Place.antt =====
-- Where `place` puts a sector, and where the block map finds it.
use mathlib.Core.Path.{subst}
use native.Mathlib.Decide.{dec_lt}
use class_assignments.Prelude.{
  ℕ, ◌+◌, ◌-◌, ◌*◌, ◌/◌, ◌%◌, ◌<◌, ◌≡◌, refl, true, false, Option, some, [], arith, ltb, ◌==◌,
  if◌then◌else◌, get_elem?, get_or, set, length, All, get_elem?-set, get_or-set, length-set,
  All-set, All-get_in, lt→ltb,
}
use class_assignments.FileSys.Blocks.{Blocks, place}

-- Blocks that a file can have.
abbrev pub max_blocks : ℕ
max_blocks = 1011

-- The arrays have the sizes that inode.h gives them.
pub record IsShaped (b : Blocks) : Type 0 where
  pub direct : length b.inode_disk.direct_block ≡ 115
  pub indirect : length b.lv1_indirect ≡ 7
  pub index_sizes : All (λ xs. length xs ≡ 128) b.lv1_indirect

-- The sector of block `k`, with the index blocks in memory.
unfoldable pub slot : Blocks → ℕ → Option ℕ
slot b k =
    if ltb k 115
    then get_elem? b.inode_disk.direct_block k
    else get_elem? (get_or b.lv1_indirect ((k - 115) / 128) []) ((k - 115) % 128)

-- `b'` is `b` with `sector` for block `count`.
pub record Placed (count sector : ℕ) (b b' : Blocks) : Type 0 where
  pub shaped : IsShaped b'
  pub slots : (k : ℕ) → slot b' k ≡ (if count == k then some sector else slot b k)
  pub rest : record b'.inode_disk { direct_block = b.inode_disk.direct_block } ≡ b.inode_disk

place-direct :
    (b : Blocks) (count sector : ℕ)
    → IsShaped b
    → count < 115
    → (b' : Blocks) × (place count sector b ≡ some b') × Placed count sector b b'
unfolding place slot
place-direct b count sector v h = (
  record b {
    inode_disk = record b.inode_disk { direct_block = set b.inode_disk.direct_block count sector };
  },
  rw (lt→ltb count 115 h),
  record {
    shaped = record {
      direct = rw length-set v.direct;
      indirect = v.indirect;
      index_sizes = v.index_sizes;
    };
    slots = λ k.
        ground
          (arith, get_elem?-set b.inode_disk.direct_block count k sector (omega (arith, v.direct)));
    rest = refl;
  },
)

place-indirect :
    (b : Blocks) (tmp sector : ℕ)
    → IsShaped b
    → tmp < 896
    → (b' : Blocks) × (place (115 + tmp) sector b ≡ some b') × Placed (115 + tmp) sector b b'
unfolding place slot
place-indirect b tmp sector v h =
    let i = tmp / 128 in
    let index = get_or b.lv1_indirect i [] in
    let in_list : i < length b.lv1_indirect = omega (arith, v.indirect) in
    let size : length index ≡ 128 =
      All-get_in (λ xs. length xs ≡ 128) b.lv1_indirect i [] in_list v.index_sizes in
    let past : ltb (115 + tmp) 115 ≡ false = ground arith in
    let room : ltb (115 + tmp) (115 + 128 * 7) ≡ true = ground arith in
    let sub : 115 + tmp - 115 ≡ tmp = omega arith in
    (
      record b { lv1_indirect = set b.lv1_indirect i (set index (tmp % 128) sector) },
      rw (past, room, sub),
      record {
        shaped = record {
          direct = v.direct;
          indirect = rw length-set v.indirect;
          index_sizes =
              All-set (λ xs. length xs ≡ 128) b.lv1_indirect i _ (rw length-set size) v.index_sizes;
        };
        slots = λ k.
            let j = k - 115 in
            let new = set index (tmp % 128) sector in
            ground (
              arith,
              get_or-set b.lv1_indirect i (j / 128) new [] in_list,
              get_elem?-set index (tmp % 128) (j % 128) sector (omega (arith, size)),
            );
        rest = refl;
      },
    )

-- The step that records the sector of a block, with the arrays of the sizes that inode.h gives
-- them: below the largest size it does not panic, the block is then at that sector, and every
-- other block is where it was.
pub place-Placed :
    (b : Blocks) (count sector : ℕ)
    → IsShaped b
    → count < max_blocks
    → (b' : Blocks) × (place count sector b ≡ some b') × Placed count sector b b'
place-Placed b count sector v h = elim (dec_lt count 115) [
  | yes direct ↦ place-direct b count sector v direct
  | no past ↦
      let e : 115 + (count - 115) ≡ count = omega arith in
      subst (λ c. (b' : Blocks) × (place c sector b ≡ some b') × Placed c sector b b') e
        (place-indirect b (count - 115) sector v (omega arith))
]
