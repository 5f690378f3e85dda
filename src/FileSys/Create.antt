-- ===== src/FileSys/Create.antt =====
-- The index blocks of a new file: index_loop.
pub mod File
use mathlib.Core.Path.{subst}
use native.Mathlib.Decide.{ℕ_discrete}
use class_assignments.Prelude.{
  ℕ, zero, suc, ◌+◌, ◌-◌, ◌/◌, ◌%◌, ◌≤◌, ◌<◌, ◌≡◌, ◌≢◌, refl, sym, ◌∙◌, ap, Bool, true, false, not,
  Option, none, some, List, [], ◌∷◌, arith, ltb, leb, ◌==◌, beq, if◌then◌else◌, ◌>>=◌, lt→ltb,
  Bool-cases, inl, inr, length, get_or, set, get_or-set, length-set,
}
use class_assignments.Bitmap.Bits.{bit}
use class_assignments.Bitmap.Ranges.{count_bits}
use class_assignments.Disk.{InodeDisk, Sector, index_sector, Disk, update, block_write}
use class_assignments.Inode.Layout.{IsBlock-of_same}
use class_assignments.FileSys.{FileSys, Claim}
use class_assignments.FileSys.Blocks.{Blocks, index_loop, claimed_or}
use class_assignments.FileSys.Claims.{
  free_sectors, put_sector, block_write_lem, Claims, IsAllocator, put-Good, count_bits-mark,
}
use class_assignments.FileSys.Fill.{IsFilled}
use class_assignments.FileSys.Indexes.{IsIndex, NotIn, Loaded}

-- `n` free sectors have been taken. No other marked sector has changed but those of the map's file.
pub record Grows (own : ℕ → Bool) (n : ℕ) (fs fs' : FileSys) : Type 0 where
  pub same :
      (t : ℕ) → own t ≡ false → bit fs.free_map t ≡ true → fs'.disk.sectors t ≡ fs.disk.sectors t
  pub still : (t : ℕ) → bit fs.free_map t ≡ true → bit fs'.free_map t ≡ true
  pub used : free_sectors fs' + n ≡ free_sectors fs
  pub same_map : fs'.free_map.bit_cnt ≡ fs.free_map.bit_cnt
  pub same_size : fs'.disk.size ≡ fs.disk.size

Grows-refl : (own : ℕ → Bool) (fs : FileSys) → Grows own 0 fs fs
Grows-refl own fs = record {
  same = λ t o m. refl;
  still = λ t m. m;
  used = omega arith;
  same_map = refl;
  same_size = refl;
}

Grows-step :
    {own : ℕ → Bool} {n : ℕ} {fs fs1 fs2 : FileSys}
    → Grows own 1 fs fs1
    → Grows own n fs1 fs2
    → Grows own (suc n) fs fs2
Grows-step v w = record {
  same = λ t o m. w.same t o (v.still t m) ∙ v.same t o m;
  still = λ t m. w.still t (v.still t m);
  used = omega (arith, v.used, w.used);
  same_map = w.same_map ∙ v.same_map;
  same_size = w.same_size ∙ v.same_size;
}

-- The index blocks below `i` have their sectors, which are not the sector `s`, and which were free
-- in `base`.
pub record IsIndexed (own : ℕ → Bool) (base fs : FileSys) (s : ℕ) (ss : List ℕ)
    (xss : List (List ℕ)) (i : ℕ) : Type 0 where
  pub block : (j : ℕ) → j < i → IsIndex own fs (get_or ss j 0) (get_or xss j [])
  pub distinct : (j k : ℕ) → j < i → k < i → get_or ss j 0 ≡ get_or ss k 0 → j ≡ k
  pub other : (j : ℕ) → j < i → get_or ss j 0 ≢ s
  pub fresh : (j : ℕ) → j < i → bit base.free_map (get_or ss j 0) ≡ false

IsIndex-Grows :
    {own : ℕ → Bool} {n s : ℕ} {xs : List ℕ} {fs fs' : FileSys}
    → Grows own n fs fs'
    → IsIndex own fs s xs
    → IsIndex own fs' s xs
IsIndex-Grows {s = s} g v = record {
  marked = g.still s v.marked;
  in_map = omega (arith, v.in_map, g.same_map);
  apart = v.apart;
  readable = v.readable;
  in_disk = omega (arith, v.in_disk, g.same_size);
  holds = g.same s v.apart v.marked ∙ v.holds;
}

pub IsFilled-Grows :
    {own : ℕ → Bool} {n count : ℕ} {sec : ℕ → ℕ} {b : Blocks} {fs fs' : FileSys}
    → Grows own n fs fs'
    → IsFilled own fs b count sec
    → IsFilled own fs' b count sec
IsFilled-Grows {sec = sec} g v = record {
  shaped = v.shaped;
  slots = v.slots;
  block = λ k h.
      IsBlock-of_same (v.block k h) g.same_size (g.same (sec k) (v.apart k h) (v.marked k h));
  marked = λ k h. g.still (sec k) (v.marked k h);
  apart = v.apart;
  distinct = v.distinct;
}

module _ {allocate : (cnt : ℕ) → FileSys → Claim} {Good : FileSys → Type 0} {own : ℕ → Bool}
    (al : IsAllocator allocate Good own) where
  module _ {fs fs' : FileSys} {s : ℕ} (c : Claims own fs s fs') (good : Good fs) where
    claimed-apart : own s ≡ false
    claimed-apart = elim (Bool-cases (own s)) [
      | inl o ↦ absurd (ground (arith, al.own_marked fs good s o, c.was_free))
      | inr n ↦ n
    ]

    -- A sector that has been claimed and written.
    Claims-Grows : (x : Sector) → Grows own 1 fs (put_sector fs' s x)
    Claims-Grows x = record {
      same = λ t o m. ground (arith, c.same_disk t, c.was_free);
      still = λ t m. ground (arith, c.marks t);
      used = ground (
        arith,
        c.same_map,
        count_bits-mark (bit fs.free_map) (bit fs'.free_map) s 0 fs.free_map.bit_cnt c.was_free
            c.marks,
        c.in_map,
      );
      same_map = c.same_map;
      same_size = c.same_size;
    }

    claimed-IsIndex : (xs : List ℕ) → IsIndex own (put_sector fs' s (index_sector xs)) s xs
    claimed-IsIndex xs =
        let (small, inside) = al.on_disk fs good in
        record {
          marked = ground (arith, c.marks s);
          in_map = omega (arith, c.in_map, c.same_map);
          apart = claimed-apart;
          readable = omega (arith, c.in_map);
          in_disk = omega (arith, c.in_map, c.same_size);
          holds = ground arith;
        }

    -- One more index block.
    IsIndexed-step :
        (base : FileSys) (h i : ℕ) (ss : List ℕ) (xss : List (List ℕ))
        → ((t : ℕ) → bit base.free_map t ≡ true → bit fs.free_map t ≡ true)
        → bit fs.free_map h ≡ true
        → i < length ss
        → IsIndexed own base fs h ss xss i
        → IsIndexed own base
            (put_sector fs' s (index_sector (get_or xss i [])))
            h
            (set ss i s)
            xss
            (i + 1)
    IsIndexed-step base h i ss xss since marked room v =
        let x = get_or xss i [] in
        let fs2 = put_sector fs' s (index_sector x) in
        let old : (j : ℕ) → j < i → get_or (set ss i s) j 0 ≡ get_or ss j 0 =
          (λ j l. ground (arith, get_or-set ss i j s 0 room)) in
        let not_new : (j : ℕ) → j < i → get_or ss j 0 ≢ s =
          (λ j l e. ground (arith, (v.block j l).marked, c.was_free)) in
        let was_free : bit base.free_map s ≡ false = ground (arith, since s, c.was_free) in
        let not_header : s ≢ h = (λ e. ground (arith, marked, c.was_free)) in
        let new : get_or (set ss i s) i 0 ≡ s = ground (arith, get_or-set ss i i s 0 room) in
        record {
          block = λ j l. elim (Bool-cases (j == i)) [
            | inl e ↦ let e' : j ≡ i = ground arith in rw (e', new) (claimed-IsIndex x)
            | inr e ↦
                let below : j < i = ground arith in
                rw (old j below) (IsIndex-Grows (Claims-Grows (index_sector x)) (v.block j below))
          ];
          distinct = λ j k l m e. elim (ℕ_discrete j i) [
            | yes p ↦ elim (ℕ_discrete k i) [
              | yes q ↦ omega arith
              | no q ↦ absurd (
                  not_new k (omega arith)
                    (sym (old k (omega arith)) ∙ sym e ∙ ap (λ n. get_or (set ss i s) n 0) p ∙ new))
            ]
            | no p ↦ elim (ℕ_discrete k i) [
              | yes q ↦ absurd (
                  not_new j (omega arith)
                    (sym (old j (omega arith)) ∙ e ∙ ap (λ n. get_or (set ss i s) n 0) q ∙ new))
              | no q ↦
                  v.distinct j k (omega arith) (omega arith)
                    (sym (old j (omega arith)) ∙ e ∙ old k (omega arith))
            ]
          ];
          other = λ j l e. elim (ℕ_discrete j i) [
            | yes p ↦ not_header (sym new ∙ sym (ap (λ n. get_or (set ss i s) n 0) p) ∙ e)
            | no p ↦ v.other j (omega arith) (sym (old j (omega arith)) ∙ e)
          ];
          fresh = λ j l. elim (ℕ_discrete j i) [
            | yes p ↦ rw (p, new) was_free
            | no p ↦ rw (old j (omega arith)) (v.fresh j (omega arith))
          ];
        }

  -- Each round gives its index block a free sector, and no two the same. What is marked in `base` is
  -- marked now.
  pub index_loop-IsIndexed :
      (base : FileSys) (left i current_sector h : ℕ) (b : Blocks) (fs : FileSys)
      → ((t : ℕ) → bit base.free_map t ≡ true → bit fs.free_map t ≡ true)
      → Good fs
      → bit fs.free_map h ≡ true
      → left ≤ free_sectors fs
      → length b.inode_disk.lv1_ind_block ≡ i + left
      → IsIndexed own base fs h b.inode_disk.lv1_ind_block b.lv1_indirect i
      → (ss : List ℕ) × (fs' : FileSys) × (index_loop allocate left i current_sector b fs
          ≡ some (record b { inode_disk = record b.inode_disk { lv1_ind_block = ss } }, fs'))
        × Good fs'
        × (length ss ≡ length b.inode_disk.lv1_ind_block)
        × IsIndexed own base fs' h ss b.lv1_indirect (i + left)
        × Grows own left fs fs'
  unfolding index_loop
  index_loop-IsIndexed base zero i current_sector h b fs since good marked room size v =
      let ss = b.inode_disk.lv1_ind_block in
      let e : i ≡ i + 0 = omega arith in
      (
        ss,
        fs,
        refl,
        good,
        refl,
        subst (IsIndexed own base fs h ss b.lv1_indirect) e v,
        Grows-refl own fs,
      )
  index_loop-IsIndexed base (suc left) i current_sector h b fs since good marked room size v =
      let ss = b.inode_disk.lv1_ind_block in
      let x = index_sector (get_or b.lv1_indirect i []) in
      let (s, fs1, claim, good1, c) = al.claims fs good (omega arith) in
      let (small, inside) = al.on_disk fs good in
      let fs2 = put_sector fs1 s x in
      let g = Claims-Grows c good x in
      let good2 = put-Good al fs1 good1 s x (claimed-apart c good) in
      let (ss', fs', run, good', size', v', g') =
        index_loop-IsIndexed base left (i + 1) s h
          (record b { inode_disk = record b.inode_disk { lv1_ind_block = set ss i s } }) fs2
          (λ t m. g.still t (since t m)) good2 (g.still h marked) (omega (arith, g.used))
          (omega (arith, length-set ss i s))
          (IsIndexed-step c good base h i ss b.lv1_indirect since marked (omega arith) v) in
      let e : i + 1 + left ≡ i + suc left = omega arith in
      (
        ss',
        fs',
        rw (claim, block_write_lem fs1.disk s x (omega (arith, c.in_map, c.same_size))) run,
        good',
        size' ∙ length-set ss i s,
        subst (IsIndexed own base fs' h ss' b.lv1_indirect) e v',
        Grows-step g g',
      )

-- The index blocks as lists.
pub IsIndexed-Loaded :
    (own : ℕ → Bool) (base fs : FileSys) (h : ℕ) (ss : List ℕ) (xss : List (List ℕ))
    → length ss ≡ length xss
    → IsIndexed own base fs h ss xss (length ss)
    → Loaded own fs ss xss × NotIn h ss
IsIndexed-Loaded own base fs h [] [] e v = (tt, tt)
IsIndexed-Loaded own base fs h [] (xs ∷ xss) e v = absurd (omega arith)
IsIndexed-Loaded own base fs h (s ∷ ss) [] e v = absurd (omega arith)
IsIndexed-Loaded own base fs h (s ∷ ss) (xs ∷ xss) e v =
    let tail : (g : ℕ)
        → ((j : ℕ) → j < length ss → get_or ss j 0 ≢ g)
        → Loaded own fs ss xss × NotIn g ss =
      (λ g apart. IsIndexed-Loaded own base fs g ss xss (omega arith) (record {
        block = λ j l. v.block (suc j) (omega arith);
        distinct =
            λ j k l m p. omega (arith, v.distinct (suc j) (suc k) (omega arith) (omega arith) p);
        other = apart;
        fresh = λ j l. v.fresh (suc j) (omega arith);
      })) in
    let (loaded, rest) = tail h (λ j l. v.other (suc j) (omega arith)) in
    let (again, clear) =
      tail s (λ j l p. omega (arith, v.distinct (suc j) 0 (omega arith) (omega arith) p)) in
    ((v.block 0 (omega arith), clear, loaded), (v.other 0 (omega arith), rest))
