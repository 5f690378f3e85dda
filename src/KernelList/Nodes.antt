-- ===== src/KernelList/Nodes.antt =====
-- A well-formed list and the elements that it holds.
use class_assignments.Prelude.{
  ℕ, ◌+◌, ◌≤◌, ◌<◌, ◌≡◌, ◌≢◌, refl, sym, ◌∙◌, List, [], ◌∷◌, ◌++◌, arith, ◌==◌, true, false,
  Bool-cases, inl, inr, some, ◌||◌,
}
use class_assignments.KernelList.{
  Links, tail_of, splice_out, splice_in, is_interior, is_tail, is_head, list_next,
}
use class_assignments.KernelList.Chains.{
  Chain, last_of, count, count-++, count-last_of, Chain-split, last_of-++,
}
use class_assignments.KernelList.Splice.{
  splice_in-Chain, splice_in-next, splice_in-prev, splice_out-Chain, splice_out-next,
  splice_out-prev,
}

-- `ns` are the elements after the head, the tail last. No two are the same, and none is NULL.
pub record Nodes (h : Links) (list : ℕ) (ns : List ℕ) : Type 0 where
  pub chain : Chain h list ns
  pub at_tail : last_of list ns ≡ tail_of list
  pub no_prev : h.prev list ≡ 0
  pub no_next : h.next (tail_of list) ≡ 0
  pub apart : (j : ℕ) → count j (0 ∷ list ∷ ns) ≤ 1

-- The list at `list` holds the elements `xs`.
abbrev pub IsList : (h : Links) (list : ℕ) (xs : List ℕ) → Type 0
IsList h list xs = Nodes h list (xs ++ tail_of list ∷ [])

-- The links of an element.
pub Nodes-links :
    (h : Links) (list : ℕ) (us : List ℕ) (e : ℕ) (ws : List ℕ)
    → Nodes h list (us ++ e ∷ ws)
    → (h.next (last_of list us) ≡ e)
      × (h.prev e ≡ last_of list us)
      × (e ≢ 0)
      × (last_of list us ≢ 0)
Nodes-links h list us e ws w =
    let (c, n, p, c') = Chain-split h list us e ws w.chain in
    let there : 0 < count (last_of list us) (list ∷ us) = count-last_of list us in
    (
      n,
      p,
      ground (arith, w.apart 0, count-++ 0 us (e ∷ ws)),
      ground (arith, w.apart 0, count-++ 0 us (e ∷ ws)),
    )

-- The chain from `f` comes before `e`.
pub Nodes-splice_in :
    (h : Links) (list : ℕ) (us : List ℕ) (e : ℕ) (ws : List ℕ) (f : ℕ) (gs : List ℕ)
    → ((j : ℕ) → count j (0 ∷ list ∷ us) + count j (e ∷ ws) + count j (f ∷ gs) ≤ 1)
    → Chain h f gs
    → Nodes h list (us ++ e ∷ ws)
    → Nodes (splice_in e f (last_of f gs) h) list (us ++ f ∷ (gs ++ e ∷ ws))
Nodes-splice_in h list us e ws f gs apart c w =
    let apart' : (j : ℕ) → count j (list ∷ us) + count j (e ∷ ws) + count j (f ∷ gs) ≤ 1 =
      λ j. ground (arith, apart j) in
    let t = last_of e ws in
    let last : t ≡ tail_of list = sym (last_of-++ list us e ws) ∙ w.at_tail in
    let at_t : 0 < count t (e ∷ ws) = count-last_of e ws in
    record {
      chain = splice_in-Chain h list us e ws f gs apart' w.chain c;
      at_tail = last_of-++ list us f (gs ++ e ∷ ws) ∙ last_of-++ f gs e ws ∙ last;
      no_prev =
          splice_in-prev h list us e ws f gs apart' w.chain list (ground (arith, apart list))
          ∙ w.no_prev;
      no_next =
          rw (sym last)
            (splice_in-next h list us e ws f gs apart' w.chain t (ground (arith, apart t)))
          ∙ w.no_next;
      apart =
          λ j. ground (arith, apart j, count-++ j us (f ∷ (gs ++ e ∷ ws)), count-++ j gs (e ∷ ws));
    }

-- The chain from `f` leaves the list.
pub Nodes-splice_out :
    (h : Links) (list : ℕ) (us : List ℕ) (f : ℕ) (gs : List ℕ) (r : ℕ) (vs : List ℕ)
    → Nodes h list (us ++ f ∷ (gs ++ r ∷ vs))
    → let h' = splice_out f (last_of f gs) h in Nodes h' list (us ++ r ∷ vs) × Chain h' f gs
Nodes-splice_out h list us f gs r vs w =
    let apart : (j : ℕ) → count j (0 ∷ list ∷ us) + count j (f ∷ gs) + count j (r ∷ vs) ≤ 1 =
      λ j. ground (arith, w.apart j, count-++ j us (f ∷ (gs ++ r ∷ vs)), count-++ j gs (r ∷ vs)) in
    let apart' : (j : ℕ) → count j (list ∷ us) + count j (f ∷ gs) + count j (r ∷ vs) ≤ 1 =
      λ j. ground (arith, apart j) in
    let t = last_of r vs in
    let last : t ≡ tail_of list =
      sym (last_of-++ list us f (gs ++ r ∷ vs) ∙ last_of-++ f gs r vs) ∙ w.at_tail in
    let at_t : 0 < count t (r ∷ vs) = count-last_of r vs in
    let (c, c') = splice_out-Chain h list us f gs r vs apart' w.chain in
    (
      record {
        chain = c;
        at_tail = last_of-++ list us r vs ∙ last;
        no_prev =
            splice_out-prev h list us f gs r vs apart' w.chain list (ground (arith, apart list))
            ∙ w.no_prev;
        no_next =
            rw (sym last)
              (splice_out-next h list us f gs r vs apart' w.chain t (ground (arith, apart t)))
            ∙ w.no_next;
        apart = λ j. ground (arith, apart j, count-++ j us (r ∷ vs));
      },
      c',
    )

-- The guards of the calls, by the links that they test.
pub guard-next :
    (h : Links) (e : ℕ) → e ≢ 0 → h.next e ≢ 0 → (is_head e h || is_interior e h) ≡ true
guard-next h e real next =
    let e1 : (e == 0) ≡ false = ground arith in
    let e2 : (h.next e == 0) ≡ false = ground arith in
    elim (Bool-cases (h.prev e == 0)) [
      | inl head ↦ rw (e1, e2, head) refl
      | inr interior ↦ rw (e1, e2, interior) refl
    ]

pub guard-prev :
    (h : Links) (e : ℕ) → e ≢ 0 → h.prev e ≢ 0 → (is_interior e h || is_tail e h) ≡ true
guard-prev h e real prev =
    let e1 : (e == 0) ≡ false = ground arith in
    let e2 : (h.prev e == 0) ≡ false = ground arith in
    elim (Bool-cases (h.next e == 0)) [
      | inl tail ↦ rw (e1, e2, tail) refl
      | inr interior ↦ rw (e1, e2, interior) refl
    ]

pub guard-interior :
    (h : Links) (e : ℕ) → e ≢ 0 → h.prev e ≢ 0 → h.next e ≢ 0 → is_interior e h ≡ true
guard-interior h e real prev next =
    let e1 : (e == 0) ≡ false = ground arith in
    let e2 : (h.prev e == 0) ≡ false = ground arith in
    let e3 : (h.next e == 0) ≡ false = ground arith in rw (e1, e2, e3) refl

-- No element of a chain is NULL, and none of its links, where those at its ends are not.
pub last_of-real : (f : ℕ) (gs : List ℕ) → count 0 (f ∷ gs) ≡ 0 → last_of f gs ≢ 0
last_of-real f [] none_null = ground arith
last_of-real f (g ∷ gs) none_null = last_of-real g gs (ground arith)

pub prev-real :
    (h : Links) (f : ℕ) (gs : List ℕ)
    → Chain h f gs
    → count 0 (f ∷ gs) ≡ 0
    → h.prev f ≢ 0
    → h.prev (last_of f gs) ≢ 0
prev-real h f [] c none_null real = real
prev-real h f (g ∷ gs) (n, p, c) none_null real =
    let f_real : f ≢ 0 = ground arith in prev-real h g gs c (ground arith) (rw p f_real)

pub next-real :
    (h : Links) (f : ℕ) (gs : List ℕ) (r : ℕ) (vs : List ℕ)
    → Chain h f (gs ++ r ∷ vs)
    → count 0 (gs ++ r ∷ vs) ≡ 0
    → h.next f ≢ 0
next-real h f [] r vs (n, p, c) none_null = let real : r ≢ 0 = ground arith in rw n real
next-real h f (g ∷ gs) r vs (n, p, c) none_null = let real : g ≢ 0 = ground arith in rw n real

-- list_next, from an element or the head.
pub list_next_run :
    (h : Links) (list : ℕ) (us : List ℕ) (e : ℕ) (ws : List ℕ)
    → Nodes h list (us ++ e ∷ ws)
    → list_next (last_of list us) h ≡ some e
unfolding list_next
list_next_run h list us e ws w =
    let (n, p, here, before) = Nodes-links h list us e ws w in
    let next : h.next (last_of list us) ≢ 0 = rw n here in
    rw (guard-next h (last_of list us) before next, n) refl
