-- ===== src/FileSys/OpenInodes/Deny.antt =====
-- inode_deny_write and inode_allow_write.
use class_assignments.Prelude.{
  ℕ, ◌+◌, ◌-◌, ◌<◌, ◌≡◌, refl, sym, ◌∙◌, ap, true, false, some, List, [], ◌∷◌, arith, ltb, leb,
  ◌==◌, Bool-cases, inl, inr, lt→ltb, le→leb,
}
use class_assignments.FileSys.OpenInodes.{
  OpenInode, Table, inode_at, put_inode, store, inode_deny_write, inode_allow_write,
}
use class_assignments.FileSys.OpenInodes.Counted.{
  IsCounted, openers-inode_at, inode_at-put_inode, some-inj,
}

put_inode-put_inode :
    (es : List OpenInode) (x y : OpenInode)
    → x.address ≡ y.address
    → put_inode x (put_inode y es) ≡ put_inode x es
put_inode-put_inode [] x y e = refl
put_inode-put_inode (f ∷ es) x y e = elim (Bool-cases (f.address == y.address)) [
  | inl here ↦
      let head : (f.address == x.address) ≡ true = ground arith in
      let own : (y.address == x.address) ≡ true = ground arith in rw (here, head, own) refl
  | inr later ↦
      let head : (f.address == x.address) ≡ false = ground arith in
      rw (later, head) (ap (λ l. f ∷ l) (put_inode-put_inode es x y e))
]

put_inode-own :
    (es : List OpenInode) (a : ℕ) (i : OpenInode)
    → inode_at a es ≡ some i
    → i.address ≡ a
    → put_inode i es ≡ es
put_inode-own [] a i e same = refl
put_inode-own (f ∷ es) a i e same = elim (Bool-cases (f.address == a)) [
  | inl here ↦
      let found : f ≡ i = some-inj (sym (rw here refl) ∙ e) in
      let head : (f.address == i.address) ≡ true = ground arith in
      rw head (ap (λ x. x ∷ es) (sym found))
  | inr later ↦
      let head : (f.address == i.address) ≡ false = ground arith in
      rw head (ap (λ l. f ∷ l) (put_inode-own es a i (sym (rw later refl) ∙ e) same))
]

-- inode_deny_write of a pointer to an open inode that is denied writes by fewer than its
-- openers, on a list of open inodes in which each has an opener and no sector and no address
-- repeats: it counts one denial more and does not panic, and an inode_allow_write after it gives
-- the table that there was.
pub inode_allow_write-inode_deny_write :
    (st : Table) (p : ℕ) (i : OpenInode)
    → IsCounted st.open_inodes
    → inode_at p st.open_inodes ≡ some i
    → i.deny_write_cnt < i.open_cnt
    → (st' : Table) × (inode_deny_write p st ≡ some st')
      × (inode_at p st'.open_inodes ≡ some (record i { deny_write_cnt = i.deny_write_cnt + 1 }))
      × (inode_allow_write p st' ≡ some st)
unfolding inode_deny_write inode_allow_write
inode_allow_write-inode_deny_write st p i v at room =
    let es = st.open_inodes in
    let new : OpenInode = record i { deny_write_cnt = i.deny_write_cnt + 1 } in
    let (now, used, address) = openers-inode_at es p i v at in
    let at_new : inode_at p (put_inode new es) ≡ some new =
      inode_at-put_inode es p i new at (sym address) in
    let allowed : leb (i.deny_write_cnt + 1) i.open_cnt ≡ true =
      le→leb (i.deny_write_cnt + 1) i.open_cnt (omega arith) in
    let denied : ltb 0 (i.deny_write_cnt + 1) ≡ true =
      lt→ltb 0 (i.deny_write_cnt + 1) (omega arith) in
    let back : i.deny_write_cnt + 1 - 1 ≡ i.deny_write_cnt = omega arith in
    (
      store new st,
      rw (at, allowed) refl,
      at_new,
      rw (at_new, denied, allowed, back)
          (ap (λ l. some (record st { open_inodes = l }))
            (put_inode-put_inode es i new refl ∙ put_inode-own es p i at address)),
    )
