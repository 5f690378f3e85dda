-- ===== src/FileSys/OpenInodes/OpenClose.antt =====
-- inode_close, by the openers of each sector, and inode_close after inode_open.
use class_assignments.Prelude.{
  ℕ, ◌+◌, ◌-◌, ◌≤◌, ◌<◌, ◌^◌, ◌≡◌, ◌≢◌, refl, sym, ◌∙◌, ap, Bool, true, false, ◌&&◌, Option, some,
  arith, ltb, leb, ◌==◌, if◌then◌else◌, All, Bool-cases, inl, inr, lt→ltb,
}
use class_assignments.Disk.{InodeDisk, inode_sector}
use class_assignments.FileSys.{FileSys}
use class_assignments.FileSys.Claims.{block_write_lem, put_sector}
use class_assignments.FileSys.OpenInodes.{
  OpenInode, Table, inode_at, list_remove, store, inode_open, inode_get_inumber, close_opener,
  inode_close,
}
use class_assignments.FileSys.OpenInodes.Counted.{
  openers, IsCounted, openers-inode_at, put_inode-IsCounted, list_remove-IsCounted,
}
use class_assignments.FileSys.OpenInodes.Open.{inode_open-Opens}

-- An opener of the sector of `i` is gone.
pub record Closes (intr_on : Bool) (i : OpenInode) (st st' : Table) : Type 0 where
  pub counted : IsCounted st'.open_inodes
  pub count :
      (t : ℕ)
      → openers t st'.open_inodes
        ≡ (if i.sector == t then openers t st.open_inodes - 1 else openers t st.open_inodes)
  pub same_map : st'.fs.free_map ≡ st.fs.free_map
  pub written :
      (t : ℕ)
      → st'.fs.disk.sectors t
        ≡ (if intr_on && (i.sector == t) then inode_sector i.inode_disk else st.fs.disk.sectors t)

module _ (release : (sector cnt : ℕ) → FileSys → Option FileSys) where
  close_opener-Closes :
      (st : Table) (p : ℕ) (i : OpenInode)
      → IsCounted st.open_inodes
      → inode_at p st.open_inodes ≡ some i
      → (i.open_cnt ≡ 1 → i.removed ≡ false)
      → (st' : Table) × (close_opener release i st ≡ some st')
        × IsCounted st'.open_inodes
        × ((t : ℕ)
            → openers t st'.open_inodes
              ≡ (if i.sector == t then openers t st.open_inodes - 1 else openers t st.open_inodes))
        × (st'.fs ≡ st.fs)
  unfolding close_opener
  close_opener-Closes st p i v at last =
      let es = st.open_inodes in
      let (now, used, address) = openers-inode_at es p i v at in
      let opened : ltb 0 i.open_cnt ≡ true = lt→ltb 0 i.open_cnt used in
      let left : (t : ℕ) → (i.sector ≡ t) → openers t es ≡ i.open_cnt =
        (λ t e. ap (λ n. openers n es) (sym e) ∙ now) in
      elim (Bool-cases (i.open_cnt == 1)) [
        | inl one ↦
            let only : i.open_cnt ≡ 1 = ground (arith, one) in
            let (counted, count) = list_remove-IsCounted es p i v at in
            let count_here : (t : ℕ)
                → openers t (list_remove i.address es)
                  ≡ (if i.sector == t then 0 else openers t es) =
              rw address count in
            (
              record { open_inodes = list_remove i.address es; fs = st.fs },
              rw (opened, one, last only) refl,
              rw address counted,
              λ t. count_here t ∙ (elim (Bool-cases (i.sector == t)) [
                | inl here ↦ rw here (omega (arith, left t (ground (arith, here)), only))
                | inr away ↦ rw away refl
              ]),
              refl,
            )
        | inr more ↦
            let new : OpenInode = record i { open_cnt = i.open_cnt - 1 } in
            let (counted, count) = put_inode-IsCounted es p i new v at refl refl (ground arith) in
            (
              store new st,
              rw (opened, more) refl,
              counted,
              λ t. count t ∙ (elim (Bool-cases (i.sector == t)) [
                | inl here ↦ rw here (omega (arith, left t (ground (arith, here))))
                | inr away ↦ rw away refl
              ]),
              refl,
            )
      ]

  -- inode_close of a pointer to an inode that is not removed or has another opener, on a list of
  -- open inodes in which each has an opener and no sector and no address repeats, for a sector
  -- of the device below 2^31: it does not panic, the sector has one opener less, the others have
  -- what they had, the list is still as regular, the free map is unchanged, and on the device
  -- only the sector of the inode is written, with the inode, where interrupts are on.
  pub inode_close-Closes :
      (intr_on : Bool) (st : Table) (p : ℕ) (i : OpenInode)
      → IsCounted st.open_inodes
      → inode_at p st.open_inodes ≡ some i
      → (i.open_cnt ≡ 1 → i.removed ≡ false)
      → i.sector < st.fs.disk.size
      → i.sector < 2 ^ 31
      → (st' : Table) × (inode_close release intr_on (some p) st ≡ some st')
        × Closes intr_on i st st'
  unfolding inode_close
  inode_close-Closes true st p i v at last inside small =
      let in_range : leb (2 ^ 31) i.sector ≡ false = ground arith in
      let st1 : Table = record st { fs = put_sector st.fs i.sector (inode_sector i.inode_disk) } in
      let (st', run, counted, count, same) = close_opener-Closes st1 p i v at last in
      (
        st',
        rw (at, in_range, block_write_lem st.fs.disk i.sector (inode_sector i.inode_disk) inside)
            run,
        record {
          counted = counted;
          count = count;
          same_map = rw same refl;
          written = λ t. rw same refl;
        },
      )
  inode_close-Closes false st p i v at last inside small =
      let (st', run, counted, count, same) = close_opener-Closes st p i v at last in
      (
        st',
        rw at run,
        record {
          counted = counted;
          count = count;
          same_map = rw same refl;
          written = λ t. rw same refl;
        },
      )

  -- inode_open of a sector of the device, up to 50000, that holds an inode, on a list of open
  -- inodes in which each has an opener and no sector and no address repeats, and with memory at
  -- an address that is not in use: it returns a pointer to an inode of that sector, which has
  -- one opener more than before, while every other sector has the same number. An inode_close of
  -- the pointer, with interrupts on or off, takes the opener away again, for every sector, and
  -- the list is as regular as before.
  pub inode_close-inode_open :
      (intr_on : Bool) (st : Table) (a sector : ℕ) (d : InodeDisk)
      → IsCounted st.open_inodes
      → All (λ f. f.address ≢ a) st.open_inodes
      → sector ≤ 50000
      → sector < st.fs.disk.size
      → st.fs.disk.sectors sector ≡ inode_sector d
      → (p : ℕ) × (st1 st2 : Table) × (inode_open (some a) sector st ≡ some (some p, st1))
        × (inode_get_inumber p st1 ≡ some sector)
        × (inode_close release intr_on (some p) st1 ≡ some st2)
        × IsCounted st2.open_inodes
        × ((t : ℕ)
            → openers t st1.open_inodes
              ≡ (if sector == t then openers t st.open_inodes + 1 else openers t st.open_inodes))
        × ((t : ℕ) → openers t st2.open_inodes ≡ openers t st.open_inodes)
  unfolding inode_get_inumber
  inode_close-inode_open intr_on st a sector d v apart readable inside holds =
      let (p, i, st1, run, o, opened, last) =
        inode_open-Opens st a sector d v apart readable inside holds in
      let in_disk : i.sector < st1.fs.disk.size = rw (o.place, o.same_fs) inside in
      let (st2, run2, c) =
        inode_close-Closes intr_on st1 p i o.counted o.at last in_disk (omega (arith, o.place)) in
      (
        p,
        st1,
        st2,
        run,
        rw o.at (ap some o.place),
        run2,
        c.counted,
        o.count,
        λ t. c.count t ∙ ground (arith, o.count t, o.place),
      )
