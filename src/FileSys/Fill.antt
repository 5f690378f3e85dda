-- ===== src/FileSys/Fill.antt =====
-- The loop that claims the blocks of a file: every block gets a sector of its own, filled with zeros.
use mathlib.Core.Path.{subst}
use native.Mathlib.Decide.{ℕ_discrete}
use class_assignments.Prelude.{
  ℕ, zero, suc, ◌+◌, ◌≤◌, ◌<◌, ◌≡◌, ◌≢◌, refl, ◌∙◌, Bool, true, false, some, arith, ◌==◌,
  if◌then◌else◌, Bool-cases, inl, inr,
}
use class_assignments.Bitmap.Bits.{bit}
use class_assignments.Disk.{data_sector, block_write}
use class_assignments.Inode.Layout.{IsBlock, IsBlock-of_same}
use class_assignments.FileSys.{FileSys, Claim, zeros}
use class_assignments.FileSys.Blocks.{Blocks, fill_loop}
use class_assignments.FileSys.Place.{max_blocks, IsShaped, slot, Placed, place-Placed}
use class_assignments.FileSys.Claims.{
  free_sectors, put_sector, block_write_lem, length-zeros, Claims, IsAllocator, put-Good,
  count_bits-mark,
}

-- The blocks below `count` have their sectors: `sec k` is that of block `k`.
pub record IsFilled (own : ℕ → Bool) (fs : FileSys) (b : Blocks) (count : ℕ) (sec : ℕ → ℕ)
    : Type 0 where
  pub shaped : IsShaped b
  pub slots : (k : ℕ) → k < count → slot b k ≡ some (sec k)
  pub block : (k : ℕ) → k < count → IsBlock fs.disk (sec k)
  pub marked : (k : ℕ) → k < count → bit fs.free_map (sec k) ≡ true
  pub apart : (k : ℕ) → k < count → own (sec k) ≡ false
  pub distinct : (j k : ℕ) → j < count → k < count → sec j ≡ sec k → j ≡ k

-- From `fs` to `fs'`, `left` blocks have been added, from block `count` on.
pub record Fills (own : ℕ → Bool) (left count : ℕ) (sec sec' : ℕ → ℕ) (b b' : Blocks)
    (fs fs' : FileSys) : Type 0 where
  pub old : (k : ℕ) → k < count → sec' k ≡ sec k
  pub fresh : (k : ℕ) → count ≤ k → k < count + left → bit fs.free_map (sec' k) ≡ false
  pub zeroed :
      (k : ℕ) → count ≤ k → k < count + left → fs'.disk.sectors (sec' k) ≡ data_sector zeros
  pub same :
      (t : ℕ) → own t ≡ false → bit fs.free_map t ≡ true → fs'.disk.sectors t ≡ fs.disk.sectors t
  pub still : (t : ℕ) → bit fs.free_map t ≡ true → bit fs'.free_map t ≡ true
  pub used : free_sectors fs' + left ≡ free_sectors fs
  pub same_map : fs'.free_map.bit_cnt ≡ fs.free_map.bit_cnt
  pub same_size : fs'.disk.size ≡ fs.disk.size
  pub rest : record b'.inode_disk { direct_block = b.inode_disk.direct_block } ≡ b.inode_disk

pub Fills-refl :
    (own : ℕ → Bool) (count : ℕ) (sec : ℕ → ℕ) (b : Blocks) (fs : FileSys)
    → Fills own 0 count sec sec b b fs fs
Fills-refl own count sec b fs = record {
  old = λ k h. refl;
  fresh = λ k h l. absurd (omega arith);
  zeroed = λ k h l. absurd (omega arith);
  same = λ t o m. refl;
  still = λ t m. m;
  used = omega arith;
  same_map = refl;
  same_size = refl;
  rest = refl;
}

abbrev with_block : (ℕ → ℕ) → (count s : ℕ) → ℕ → ℕ
with_block sec count s k = if count == k then s else sec k

module _ {allocate : (cnt : ℕ) → FileSys → Claim} {Good : FileSys → Type 0} {own : ℕ → Bool}
    (al : IsAllocator allocate Good own) where
  -- A sector that has been claimed, and filled with zeros.
  module _ {fs fs' : FileSys} {s : ℕ} (c : Claims own fs s fs') (good : Good fs)
      (good' : Good fs') where
    claimed-own : own s ≡ false
    claimed-own = elim (Bool-cases (own s)) [
      | inl o ↦ absurd (ground (arith, al.own_marked fs good s o, c.was_free))
      | inr n ↦ n
    ]

    claimed-IsBlock : IsBlock (put_sector fs' s (data_sector zeros)).disk s
    claimed-IsBlock =
        let (readable, in_disk) = al.on_disk fs good in
        record {
          readable = omega (arith, c.in_map);
          in_disk = omega (arith, c.in_map, c.same_size);
          raw = ground arith;
          full = ground (arith, length-zeros);
        }

    claimed-write :
        block_write fs'.disk s (data_sector zeros)
        ≡ some (put_sector fs' s (data_sector zeros)).disk
    claimed-write =
        let (readable, in_disk) = al.on_disk fs good in
        block_write_lem fs'.disk s (data_sector zeros) (omega (arith, c.in_map, c.same_size))

    claimed-used : free_sectors fs' + 1 ≡ free_sectors fs
    claimed-used = ground (
      arith,
      c.same_map,
      count_bits-mark (bit fs.free_map) (bit fs'.free_map) s 0 fs.free_map.bit_cnt c.was_free
          c.marks,
      c.in_map,
    )

    fill_one :
        (b b' : Blocks) (count : ℕ) (sec : ℕ → ℕ)
        → IsFilled own fs b count sec
        → Placed count s b b'
        → let sec' = with_block sec count s in
          let fs'' = put_sector fs' s (data_sector zeros) in
          IsFilled own fs'' b' (count + 1) sec' × Fills own 1 count sec sec' b b' fs fs''
    fill_one b b' count sec v p =
        let apart = claimed-own in
        let new = claimed-IsBlock in
        (
          record {
            shaped = p.shaped;
            slots = λ k h. ground (arith, p.slots k, v.slots k);
            block = λ k h. elim (Bool-cases (count == k)) [
              | inl e ↦ rw e new
              | inr e ↦
                  let l : k < count = ground arith in
                  let other : sec k ≢ s = λ q. ground (arith, v.marked k l, c.was_free) in
                  rw e (
                    IsBlock-of_same (v.block k l) c.same_size
                      (ground (arith, c.same_disk (sec k) (v.apart k l))))
            ];
            marked = λ k h. ground (arith, c.marks (with_block sec count s k), v.marked k);
            apart = λ k h. ground (arith, v.apart k);
            distinct =
                λ i k h l e. ground (arith, v.distinct i k, v.marked i, v.marked k, c.was_free);
          },
          record {
            old = λ k h. ground arith;
            fresh = λ k h l. ground (arith, c.was_free);
            zeroed = λ k h l. ground arith;
            same = λ t o m. ground (arith, c.same_disk t, c.was_free);
            still = λ t m. ground (arith, c.marks t);
            used = claimed-used;
            same_map = c.same_map;
            same_size = c.same_size;
            rest = p.rest;
          },
        )

Fills-step :
    {own : ℕ → Bool} (left count : ℕ) {sec sec' sec'' : ℕ → ℕ} {b b' b'' : Blocks}
    {fs fs' fs'' : FileSys}
    → IsFilled own fs' b' (count + 1) sec'
    → Fills own 1 count sec sec' b b' fs fs'
    → Fills own left (count + 1) sec' sec'' b' b'' fs' fs''
    → Fills own (suc left) count sec sec'' b b'' fs fs''
Fills-step left count {sec} {sec'} {sec''} {fs = fs} {fs' = fs'} v s t = record {
  old = λ k h. ground (arith, s.old k, t.old k);
  fresh = λ k h l. elim (ℕ_discrete count k) [
    | yes e ↦ rw (t.old k (omega arith)) (s.fresh k h (omega arith))
    | no ne ↦ not_marked (sec'' k) (t.fresh k (omega arith) (omega arith))
  ];
  zeroed = λ k h l. elim (ℕ_discrete count k) [
    | yes e ↦
        let below : k < count + 1 = omega arith in
        rw (t.old k below)
          (t.same (sec' k) (v.apart k below) (v.marked k below) ∙ s.zeroed k h below)
    | no ne ↦ t.zeroed k (omega arith) (omega arith)
  ];
  same = λ x o m. t.same x o (s.still x m) ∙ s.same x o m;
  still = λ x m. t.still x (s.still x m);
  used = omega (arith, s.used, t.used);
  same_map = t.same_map ∙ s.same_map;
  same_size = t.same_size ∙ s.same_size;
  rest = ground (arith, s.rest, t.rest);
}
  where
    not_marked : (x : ℕ) → bit fs'.free_map x ≡ false → bit fs.free_map x ≡ false
    not_marked x clear = elim (Bool-cases (bit fs.free_map x)) [
      | inl m ↦ absurd (ground (arith, s.still x m))
      | inr c ↦ c
    ]

module _ {allocate : (cnt : ℕ) → FileSys → Claim} {Good : FileSys → Type 0} {own : ℕ → Bool}
    (al : IsAllocator allocate Good own) where
  -- Where enough sectors are free and the file does not grow too large, the loop of
  -- inode_allocate and inode_extend_file gives each block that it adds a sector that was free,
  -- and no two blocks the same; the sector is marked and holds zeros. The blocks that there
  -- were, every other marked sector but those of the map's own file, and the rest of the inode
  -- stay as they were.
  pub fill_loop-Fills :
      (left count current_sector : ℕ) (b : Blocks) (fs : FileSys) (sec : ℕ → ℕ)
      → Good fs
      → IsFilled own fs b count sec
      → left ≤ free_sectors fs
      → count + left ≤ max_blocks
      → (r : ℕ) × (b' : Blocks) × (fs' : FileSys) × (sec' : ℕ → ℕ) × (fill_loop allocate left count
            current_sector b fs
          ≡ some (r, b', fs'))
        × Good fs'
        × IsFilled own fs' b' (count + left) sec'
        × Fills own left count sec sec' b b' fs fs'
  unfolding fill_loop
  fill_loop-Fills zero count current_sector b fs sec good v h l =
      let e : count ≡ count + 0 = omega arith in
      (
        current_sector,
        b,
        fs,
        sec,
        refl,
        good,
        subst (λ n. IsFilled own fs b n sec) e v,
        Fills-refl own count sec b fs,
      )
  fill_loop-Fills (suc left) count current_sector b fs sec good v h l =
      let (s, fs1, claim, good1, c) = al.claims fs good (omega arith) in
      let (b1, put, p) = place-Placed b count s v.shaped (omega arith) in
      let (v1, f1) = fill_one al c good good1 b b1 count sec v p in
      let good2 = put-Good al fs1 good1 s (data_sector zeros) (claimed-own al c good good1) in
      let (r, b2, fs2, sec2, run, good3, v2, f2) =
        fill_loop-Fills left (count + 1) s b1 (put_sector fs1 s (data_sector zeros))
          (with_block sec count s) good2 v1 (omega (arith, f1.used)) (omega arith) in
      let e : count + 1 + left ≡ count + suc left = omega arith in
      (
        r,
        b2,
        fs2,
        sec2,
        rw (claim, claimed-write al c good good1, put) run,
        good3,
        subst (λ n. IsFilled own fs2 b2 n sec2) e v2,
        Fills-step left count v1 f1 f2,
      )
