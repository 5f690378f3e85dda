-- ===== src/FileSys/OpenInodes/Counted.antt =====
-- The list of open inodes as a count of openers for each sector.
use class_assignments.Prelude.{
  ℕ, ◌<◌, ◌≡◌, ◌≢◌, refl, sym, ◌∙◌, ap, true, false, Option, none, some, List, [], ◌∷◌, arith, ◌==◌,
  if◌then◌else◌, All, Bool-cases, inl, inr,
}
use mathlib.Core.Path.{subst}
use class_assignments.FileSys.OpenInodes.{OpenInode, find_sector, inode_at, put_inode, list_remove}

pub some-inj : {a b : OpenInode} → some a ≡ some b → a ≡ b
some-inj {a = a} e =
    ap (λ (m : Option OpenInode). elim m as (λ x. OpenInode) [ none ↦ a | some x ↦ x ]) e

-- Openers of the sector.
unfoldable pub openers : ℕ → List OpenInode → ℕ
openers t [] = 0
openers t (e ∷ es) = if e.sector == t then e.open_cnt else openers t es

-- Each inode has an opener, and its sector and its address are its own.
unfoldable pub IsCounted : List OpenInode → Type 0
IsCounted [] = Unit
IsCounted (e ∷ es) =
    (0 < e.open_cnt)
    × All (λ f. f.sector ≢ e.sector) es
    × All (λ f. f.address ≢ e.address) es
    × IsCounted es

pub All-inode_at :
    (P : OpenInode → Type 0) (es : List OpenInode) (a : ℕ) (i : OpenInode)
    → All P es
    → inode_at a es ≡ some i
    → P i
All-inode_at P [] a i h e = absurd (ground (arith, e))
All-inode_at P (f ∷ es) a i h e = elim (Bool-cases (f.address == a)) [
  | inl here ↦ let same : f ≡ i = some-inj (sym (rw here refl) ∙ e) in subst P same h.0
  | inr later ↦ All-inode_at P es a i h.1 (sym (rw later refl) ∙ e)
]

pub All-put_inode :
    (P : OpenInode → Type 0) (es : List OpenInode) (i : OpenInode)
    → P i
    → All P es
    → All P (put_inode i es)
All-put_inode P [] i p h = h
All-put_inode P (f ∷ es) i p h = elim (Bool-cases (f.address == i.address)) [
  | inl here ↦ rw here (p, h.1)
  | inr later ↦ rw later (h.0, All-put_inode P es i p h.1)
]

pub All-list_remove :
    (P : OpenInode → Type 0) (es : List OpenInode) (a : ℕ) → All P es → All P (list_remove a es)
All-list_remove P [] a h = h
All-list_remove P (f ∷ es) a h = elim (Bool-cases (f.address == a)) [
  | inl here ↦ rw here h.1
  | inr later ↦ rw later (h.0, All-list_remove P es a h.1)
]

pub find_sector-none :
    (es : List OpenInode) (s : ℕ) → find_sector s es ≡ none → All (λ f. f.sector ≢ s) es
find_sector-none [] s e = tt
find_sector-none (f ∷ es) s e = elim (Bool-cases (f.sector == s)) [
  | inl here ↦ absurd (ground (arith, here, e))
  | inr later ↦ (ground (arith, later), find_sector-none es s (sym (rw later refl) ∙ e))
]

-- What the search finds is what a pointer to it points to.
pub find_sector-some :
    (es : List OpenInode) (s : ℕ) (i : OpenInode)
    → IsCounted es
    → find_sector s es ≡ some i
    → (i.sector ≡ s) × (inode_at i.address es ≡ some i)
unfolding IsCounted
find_sector-some [] s i v e = absurd (ground (arith, e))
find_sector-some (f ∷ es) s i v e = elim (Bool-cases (f.sector == s)) [
  | inl here ↦
      let same : f ≡ i = some-inj (sym (rw here refl) ∙ e) in
      subst (λ x. (x.sector ≡ s) × (inode_at x.address (f ∷ es) ≡ some x)) same
        (ground (arith, here), ground arith)
  | inr later ↦
      let (sector, at) = find_sector-some es s i v.3 (sym (rw later refl) ∙ e) in
      let ne : i.address ≢ f.address =
        All-inode_at (λ x. x.address ≢ f.address) es i.address i v.2 at in
      (sector, ground (arith, at, ne))
]

pub openers-none : (es : List OpenInode) (t : ℕ) → All (λ f. f.sector ≢ t) es → openers t es ≡ 0
unfolding openers
openers-none [] t h = refl
openers-none (f ∷ es) t h = ground (arith, h.0, openers-none es t h.1)

pub openers-inode_at :
    (es : List OpenInode) (a : ℕ) (i : OpenInode)
    → IsCounted es
    → inode_at a es ≡ some i
    → (openers i.sector es ≡ i.open_cnt) × (0 < i.open_cnt) × (i.address ≡ a)
unfolding IsCounted openers
openers-inode_at [] a i v e = absurd (ground (arith, e))
openers-inode_at (f ∷ es) a i v e = elim (Bool-cases (f.address == a)) [
  | inl here ↦
      let same : f ≡ i = some-inj (sym (rw here refl) ∙ e) in
      subst
        (λ x.
          ((if f.sector == x.sector then f.open_cnt else openers x.sector es) ≡ x.open_cnt)
          × (0 < x.open_cnt)
          × (x.address ≡ a))
        same (ground arith, v.0, ground (arith, here))
  | inr later ↦
      let at : inode_at a es ≡ some i = sym (rw later refl) ∙ e in
      let (count, some_opener, address) = openers-inode_at es a i v.3 at in
      let ne : i.sector ≢ f.sector = All-inode_at (λ x. x.sector ≢ f.sector) es a i v.1 at in
      (ground (arith, count, ne), some_opener, address)
]

-- A store that changes the number of openers of one inode.
pub put_inode-IsCounted :
    (es : List OpenInode) (a : ℕ) (i new : OpenInode)
    → IsCounted es
    → inode_at a es ≡ some i
    → new.address ≡ i.address
    → new.sector ≡ i.sector
    → 0 < new.open_cnt
    → IsCounted (put_inode new es)
      × ((t : ℕ)
          → openers t (put_inode new es) ≡ (if i.sector == t then new.open_cnt else openers t es))
unfolding IsCounted openers
put_inode-IsCounted [] a i new v e same place used = absurd (ground (arith, e))
put_inode-IsCounted (f ∷ es) a i new v e same place used = elim (Bool-cases (f.address == a)) [
  | inl here ↦
      let found : f ≡ i = some-inj (sym (rw here refl) ∙ e) in
      let address : f.address ≡ new.address = ap (λ (x : OpenInode). x.address) found ∙ sym same in
      let sector : f.sector ≡ new.sector = ap (λ (x : OpenInode). x.sector) found ∙ sym place in
      let head : (f.address == new.address) ≡ true = ground arith in
      rw head (
        (
          used,
          subst (λ n. All (λ x. x.sector ≢ n) es) sector v.1,
          subst (λ n. All (λ x. x.address ≢ n) es) address v.2,
          v.3,
        ),
        λ t. ground arith,
      )
  | inr later ↦
      let at : inode_at a es ≡ some i = sym (rw later refl) ∙ e in
      let (counted, count) = put_inode-IsCounted es a i new v.3 at same place used in
      let ne : i.sector ≢ f.sector = All-inode_at (λ x. x.sector ≢ f.sector) es a i v.1 at in
      let apart : i.address ≢ f.address = All-inode_at (λ x. x.address ≢ f.address) es a i v.2 at in
      let head : (f.address == new.address) ≡ false = ground arith in
      rw head (
        (
          v.0,
          All-put_inode (λ x. x.sector ≢ f.sector) es new (λ q. ne (sym place ∙ q)) v.1,
          All-put_inode (λ x. x.address ≢ f.address) es new (λ q. apart (sym same ∙ q)) v.2,
          counted,
        ),
        λ t. ground (arith, count t, ne),
      )
]

pub list_remove-IsCounted :
    (es : List OpenInode) (a : ℕ) (i : OpenInode)
    → IsCounted es
    → inode_at a es ≡ some i
    → IsCounted (list_remove a es)
      × ((t : ℕ) → openers t (list_remove a es) ≡ (if i.sector == t then 0 else openers t es))
unfolding IsCounted openers
list_remove-IsCounted [] a i v e = absurd (ground (arith, e))
list_remove-IsCounted (f ∷ es) a i v e = elim (Bool-cases (f.address == a)) [
  | inl here ↦
      let found : f ≡ i = some-inj (sym (rw here refl) ∙ e) in
      let sector : f.sector ≡ i.sector = ap (λ (x : OpenInode). x.sector) found in
      let gone : openers f.sector es ≡ 0 = openers-none es f.sector v.1 in
      rw here (
        v.3,
        λ t. elim (Bool-cases (f.sector == t)) [
          | inl s ↦ let p : f.sector ≡ t = ground (arith, s) in ground (arith, gone, p, sector)
          | inr s ↦ ground (arith, s, sector)
        ],
      )
  | inr later ↦
      let at : inode_at a es ≡ some i = sym (rw later refl) ∙ e in
      let (counted, count) = list_remove-IsCounted es a i v.3 at in
      let ne : i.sector ≢ f.sector = All-inode_at (λ x. x.sector ≢ f.sector) es a i v.1 at in
      rw later (
        (
          v.0,
          All-list_remove (λ x. x.sector ≢ f.sector) es a v.1,
          All-list_remove (λ x. x.address ≢ f.address) es a v.2,
          counted,
        ),
        λ t. ground (arith, count t, ne),
      )
]

-- A store leaves the other inodes.
pub inode_at-put_inode_other :
    (es : List OpenInode) (a : ℕ) (new : OpenInode)
    → new.address ≢ a
    → inode_at a (put_inode new es) ≡ inode_at a es
inode_at-put_inode_other [] a new other = refl
inode_at-put_inode_other (f ∷ es) a new other =
    let rest = inode_at-put_inode_other es a new other in
    elim (Bool-cases (f.address == new.address)) [
      | inl here ↦
          let not_new : (new.address == a) ≡ false = ground arith in
          let not_old : (f.address == a) ≡ false = ground arith in
          rw here (rw (not_new, not_old) refl)
      | inr later ↦ rw later (ap (λ r. if f.address == a then some f else r) rest)
    ]

pub inode_at-put_inode :
    (es : List OpenInode) (a : ℕ) (i new : OpenInode)
    → inode_at a es ≡ some i
    → a ≡ new.address
    → inode_at a (put_inode new es) ≡ some new
inode_at-put_inode [] a i new e same = absurd (ground (arith, e))
inode_at-put_inode (f ∷ es) a i new e same = elim (Bool-cases (f.address == a)) [
  | inl here ↦
      let head : (f.address == new.address) ≡ true = ground arith in
      let own : (new.address == a) ≡ true = ground arith in rw (head, own) refl
  | inr later ↦
      let at : inode_at a es ≡ some i = sym (rw later refl) ∙ e in
      let head : (f.address == new.address) ≡ false = ground arith in
      rw (head, later) (inode_at-put_inode es a i new at same)
]
