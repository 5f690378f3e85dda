-- ===== src/FileSys/OpenInodes/Open.antt =====
-- inode_open and inode_reopen, by the openers of each sector.
use class_assignments.Prelude.{
  ℕ, ◌+◌, ◌≤◌, ◌<◌, ◌≡◌, ◌≢◌, refl, sym, ◌∙◌, ap, false, Option, none, some, List, ◌∷◌, arith, ◌==◌,
  if◌then◌else◌, All, Bool-cases, inl, inr, lt→ltb, le→leb,
}
use mathlib.Core.Path.{subst}
use class_assignments.Disk.{InodeDisk, inode_sector, Disk, block_read}
use class_assignments.FileSys.OpenInodes.{
  OpenInode, Table, find_sector, inode_at, store, fresh_inode, inode_reopen, open_found, inode_open,
}
use class_assignments.FileSys.OpenInodes.Counted.{
  openers, IsCounted, find_sector-none, find_sector-some, openers-none, openers-inode_at,
  put_inode-IsCounted, inode_at-put_inode, inode_at-put_inode_other,
}

-- The pointer `p` is a further opener of the sector; `i` is the inode that it points to.
pub record Opens (sector p : ℕ) (i : OpenInode) (st st' : Table) : Type 0 where
  pub counted : IsCounted st'.open_inodes
  pub count :
      (t : ℕ)
      → openers t st'.open_inodes
        ≡ (if sector == t then openers t st.open_inodes + 1 else openers t st.open_inodes)
  pub at : inode_at p st'.open_inodes ≡ some i
  pub place : i.sector ≡ sector
  pub others : (q : ℕ) → p ≢ q → inode_at q st'.open_inodes ≡ inode_at q st.open_inodes
  pub same_fs : st'.fs ≡ st.fs

pub inode_reopen-Opens :
    (st : Table) (p : ℕ) (i : OpenInode)
    → IsCounted st.open_inodes
    → inode_at p st.open_inodes ≡ some i
    → (st' : Table) × (inode_reopen (some p) st ≡ some (some p, st'))
      × Opens i.sector p (record i { open_cnt = i.open_cnt + 1 }) st st'
unfolding inode_reopen
inode_reopen-Opens st p i v at =
    let es = st.open_inodes in
    let new : OpenInode = record i { open_cnt = i.open_cnt + 1 } in
    let (now, used, address) = openers-inode_at es p i v at in
    let (counted, count) = put_inode-IsCounted es p i new v at refl refl (omega arith) in
    (
      store new st,
      rw at refl,
      record {
        counted = counted;
        count = λ t. elim (Bool-cases (i.sector == t)) [
          | inl here ↦
              let e : i.sector ≡ t = ground (arith, here) in
              count t ∙ rw here (ap (λ n. n + 1) (sym now ∙ ap (λ n. openers n es) e))
          | inr away ↦ count t ∙ rw away refl
        ];
        at = inode_at-put_inode es p i new at (sym address);
        place = refl;
        others = λ q ne. inode_at-put_inode_other es q new (λ e. ne (sym address ∙ e));
        same_fs = refl;
      },
    )

fresh-Opens :
    (st : Table) (a sector : ℕ) (d : InodeDisk)
    → IsCounted st.open_inodes
    → All (λ f. f.address ≢ a) st.open_inodes
    → All (λ f. f.sector ≢ sector) st.open_inodes
    → Opens sector a
        (fresh_inode a sector d)
        st
        (record st { open_inodes = fresh_inode a sector d ∷ st.open_inodes })
unfolding openers IsCounted
fresh-Opens st a sector d v apart closed = record {
  counted = (omega arith, closed, apart, v);
  count = λ t. elim (Bool-cases (sector == t)) [
    | inl here ↦
        let e : sector ≡ t = ground (arith, here) in
        rw (here, ← e, openers-none st.open_inodes sector closed) refl
    | inr away ↦ rw away refl
  ];
  at = ground arith;
  place = refl;
  others = λ q ne. let away : (a == q) ≡ false = ground arith in rw away refl;
  same_fs = refl;
}

-- The two ways through inode_open.
inode_open-found :
    (memory : Option ℕ) (sector : ℕ) (st : Table) (i : OpenInode)
    → find_sector sector st.open_inodes ≡ some i
    → inode_open memory sector st ≡ inode_reopen (some i.address) st
unfolding inode_open open_found
inode_open-found memory sector st i found = ap (λ r. open_found r memory sector st) found

inode_open-missing :
    (a sector : ℕ) (st : Table) (d : InodeDisk)
    → find_sector sector st.open_inodes ≡ none
    → block_read st.fs.disk sector ≡ some (inode_sector d)
    → inode_open (some a) sector st
      ≡ some (some a, record st { open_inodes = fresh_inode a sector d ∷ st.open_inodes })
unfolding inode_open open_found
inode_open-missing a sector st d missing read =
    ap (λ r. open_found r (some a) sector st) missing ∙ rw read refl

block_read_lem :
    (disk : Disk) (s : ℕ) → s ≤ 50000 → s < disk.size → block_read disk s ≡ some (disk.sectors s)
unfolding block_read
block_read_lem disk s readable inside = rw (le→leb s 50000 readable, lt→ltb s disk.size inside) refl

-- `i` is what inode_open of the sector gives, where the search for an open inode finds `r`: the inode
-- that was found, with one opener more, or a new one, not removed, with one opener and no denial,
-- that holds the inode `d` of the sector.
pub IsOpened : Option OpenInode → (a sector : ℕ) → InodeDisk → OpenInode → Type 0
IsOpened none a sector d i =
    (i.address ≡ a)
    × (i.sector ≡ sector)
    × (i.open_cnt ≡ 1)
    × (i.removed ≡ false)
    × (i.deny_write_cnt ≡ 0)
    × (i.inode_disk ≡ d)
IsOpened (some found) a sector d i = i ≡ record found { open_cnt = found.open_cnt + 1 }

-- inode_open of a sector of the device, up to 50000, that holds an inode, on a list of open
-- inodes in which each has an opener and no sector and no address repeats, and with memory at an
-- address that is not in use: it returns a pointer to an inode of that sector. That is the open
-- inode of the sector, where there is one, with one opener more and nothing else changed; where
-- there is none, it is a new inode at the address, not removed, with one opener, no denial of
-- writes and what the sector holds. The sector has one opener more, the others have what they
-- had, every other pointer points to what it did, the list is still as regular, and the file
-- system is unchanged.
pub inode_open-Opens :
    (st : Table) (a sector : ℕ) (d : InodeDisk)
    → IsCounted st.open_inodes
    → All (λ f. f.address ≢ a) st.open_inodes
    → sector ≤ 50000
    → sector < st.fs.disk.size
    → st.fs.disk.sectors sector ≡ inode_sector d
    → (p : ℕ) × (i : OpenInode) × (st' : Table) × (inode_open (some a) sector st
        ≡ some (some p, st'))
      × Opens sector p i st st'
      × IsOpened (find_sector sector st.open_inodes) a sector d i
      × (i.open_cnt ≡ 1 → i.removed ≡ false)
unfolding IsOpened
inode_open-Opens st a sector d v apart readable inside holds =
    by_search (find_sector sector st.open_inodes) refl
  where
    es : List OpenInode
    es = st.open_inodes

    Opened : Option OpenInode → Type 0
    Opened r =
        (p : ℕ) × (i : OpenInode) × (st' : Table) × (inode_open (some a) sector st
          ≡ some (some p, st'))
        × Opens sector p i st st'
        × IsOpened r a sector d i
        × (i.open_cnt ≡ 1 → i.removed ≡ false)

    by_search : (r : Option OpenInode) → find_sector sector es ≡ r → Opened r
    by_search none missing = (
      a,
      fresh_inode a sector d,
      record st { open_inodes = fresh_inode a sector d ∷ es },
      inode_open-missing a sector st d missing
          (block_read_lem st.fs.disk sector readable inside ∙ ap some holds),
      fresh-Opens st a sector d v apart (find_sector-none es sector missing),
      (refl, refl, refl, refl, refl, refl),
      λ e. refl,
    )
    by_search (some i) found =
        let (place, at) = find_sector-some es sector i v found in
        let (st', run, o) = inode_reopen-Opens st i.address i v at in
        let (now, used, address) = openers-inode_at es i.address i v at in
        (
          i.address,
          record i { open_cnt = i.open_cnt + 1 },
          st',
          inode_open-found (some a) sector st i found ∙ run,
          subst (λ s. Opens s i.address (record i { open_cnt = i.open_cnt + 1 }) st st') place o,
          refl,
          λ e. absurd (omega arith),
        )
