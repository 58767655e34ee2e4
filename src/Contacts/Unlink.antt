-- ===== src/Contacts/Unlink.antt =====
-- `Node::insert` and `Node::remove` of test2/contacts.cpp on the chain of nodes.
use test_linux.Base.{
  ℕ, ◌≡◌, ◌≢◌, ◌⊎◌, inl, inr, refl, subst, true, false, some, [], ◌∷◌, ◌==◌, Bool-cases, arith, ok,
  if◌then◌else◌, pos,
}
use test_linux.Contacts.Persons.{Person}
use test_linux.Contacts.Nodes.{Node, Cells, Store, put, insert, unlink}
use test_linux.Contacts.Chain.{
  Entries, has, node, Chain, nil, cons, frame, relink, Place, place, null_out,
}

-- What unlinking does to the nodes.
pub record Unlinked (h g : Cells) (item : ℕ) (at : Node) : Type 0 where
  pub cleared : g item ≡ some (record at { prev = 0; next = 0 })
  pub before :
      (n : Node) → at.prev ≢ 0 → h at.prev ≡ some n → g at.prev ≡ some (record n { next = at.next })
  pub behind :
      (n : Node) → at.next ≢ 0 → h at.next ≡ some n → g at.next ≡ some (record n { prev = at.prev })
  pub rest : (a : ℕ) → a ≢ item → a ≢ at.prev → a ≢ at.next → g a ≡ h a

abbrev pub without : ℕ → Entries → Entries
without a [] = []
without a ((p, d) ∷ xs) = elim (a == p) [ true ↦ xs | false ↦ (p, d) ∷ without a xs ]

pub has-without : (a b : ℕ) (xs : Entries) → has a xs ≡ false → has a (without b xs) ≡ false
has-without a b [] h = refl
has-without a b ((p, d) ∷ xs) h = elim (Bool-cases (b == p)) [
  | inl e ↦ rw (e, without) (ground arith)
  | inr e ↦ rw (e, without) (ground (arith, has-without a b xs))
]

pub Unlinked-Chain :
    {h g : Cells} {prev p : ℕ} {xs : Entries} (item : ℕ) (at : Node)
    → Chain h prev p xs
    → has prev xs ≡ false
    → has item xs ≡ true
    → h item ≡ some at
    → Unlinked h g item at
    → Chain g prev (if p == item then at.next else p) (without item xs)
Unlinked-Chain item at nil outside i e u = cc
Unlinked-Chain {h} {g} item at (cons {prev} {p} {q} {d} {xs} ne e out c) outside i e' u =
    elim (Bool-cases (item == p)) [
      | inl here ↦
          let same : (p == item) ≡ true = ground arith in
          let next : at.next ≡ q = ground arith in
          rw (here, without, same, next)
            (relink prev c (λ n e'' ne'. ground (arith, u.behind n))
              (λ a i' ne'. ground (arith, u.rest a)))
      | inr other ↦
          let different : (p == item) ≡ false = ground arith in
          rw (other, without, different)
            (kept (place item c out (ground arith)) other
              (Unlinked-Chain item at c out (ground arith) e' u))
    ]
  where
    kept :
        Place h p q xs item
        → (item == p) ≡ false
        → Chain g p (if q == item then at.next else q) (without item xs)
        → Chain g prev p ((p, d) ∷ without item xs)
    kept pl other rest = cons ne held (has-without p item xs out) rest
      where
        held : g p ≡ some (node d prev (if q == item then at.next else q))
        held = elim (Bool-cases (q == item)) [
          | inl next ↦ rw next (ground (arith, pl.first, u.before (node d prev q)))
          | inr far ↦ rw far (ground (arith, pl.later, u.rest p))
        ]

pub insert-Chain :
    {s : Store} {first : ℕ} {xs : Entries} (item : ℕ) (d : Person) (old : Node)
    → Chain s.cells 0 first xs
    → item ≢ 0
    → s.cells item ≡ some (record old { person = d })
    → has item xs ≡ false
    → (t : Store) × (insert s item first ≡ ok (pos 0, item, t))
      × Chain t.cells 0 item ((item, d) ∷ xs)
      × (t.fresh ≡ s.fresh)
      × ((a : ℕ) → a ≢ item → has a xs ≡ false → t.cells a ≡ s.cells a)
unfolding insert
insert-Chain {s} item d old nil ne e out = (
  record s { cells = put (put s.cells item (some (node d old.prev 0))) item (some (node d 0 0)) },
  ground arith,
  cons ne (ground arith) refl nil,
  refl,
  λ a other out'. ground arith,
)
insert-Chain {s} {first} item d old (cons {q} {d = d'} ne' e' out' c) ne e out = (
  record s {
    cells =
        put (put (put s.cells item (some (node d old.prev first))) item (some (node d 0 first)))
          first (some (node d' item q));
  },
  ground arith,
  cons ne (ground arith) out (cons ne' (ground arith) out' (frame c λ a i. ground arith)),
  refl,
  λ a other out''. ground arith,
)

-- A node of the chain, or any where there is none to read.
neighbour :
    {h : Cells} {prev p : ℕ} {xs : Entries} (k : ℕ) (other : Node)
    → Chain h prev p xs
    → has prev xs ≡ false
    → (k ≡ 0) ⊎ (has k xs ≡ true)
    → (n : Node) × (k ≢ 0 → h k ≡ some n)
neighbour k other c outside (inl e) = (other, λ ne. absurd (ne e))
neighbour k other c outside (inr i) = let pl = place k c outside i in (pl.at, λ ne. pl.holds)

module _ (s : Store) (item : ℕ) (at before behind : Node) where
  abbrev spliced : Cells
  spliced =
      let h =
        if at.prev == 0
        then s.cells
        else put s.cells at.prev (some (record before { next = at.next })) in
      let h' =
        if at.next == 0 then h else put h at.next (some (record behind { prev = at.prev })) in
      put (put h' item (some (record at { next = 0 }))) item
        (some (record at { prev = 0; next = 0 }))

module _ (s : Store) (item : ℕ) (at before behind : Node) (ne : item ≢ 0)
    (e : s.cells item ≡ some at) (e_before : at.prev ≢ 0 → s.cells at.prev ≡ some before)
    (e_behind : at.next ≢ 0 → s.cells at.next ≡ some behind) (apart : at.next ≢ item)
    (apart' : at.prev ≢ item) (apart'' : at.prev ≡ at.next → at.next ≡ 0) where
  unlink-spliced :
      (first : ℕ)
      → unlink s item first
        ≡ ok (
          (if item == first then at.next else first),
          record s { cells = spliced s item at before behind },
        )
  unfolding unlink
  unlink-spliced first = ground arith

  spliced-Unlinked : Unlinked s.cells (spliced s item at before behind) item at
  spliced-Unlinked = record {
    cleared = ground arith;
    before = λ n ne' e'. ground arith;
    behind = λ n ne' e'. ground arith;
    rest = λ a ne₁ ne₂ ne₃. ground arith;
  }

pub unlink-Chain :
    {s : Store} {first : ℕ} {xs : Entries} (item : ℕ)
    → Chain s.cells 0 first xs
    → has item xs ≡ true
    → (t : Store) × (q : ℕ) × (unlink s item first ≡ ok (q, t))
      × Chain t.cells 0 q (without item xs)
      × (t.fresh ≡ s.fresh)
      × ((n : Node) × (t.cells item ≡ some n))
      × ((a : ℕ) → a ≢ 0 → has a xs ≡ false → t.cells a ≡ s.cells a)
unfolding unlink
unlink-Chain {s} {first} {xs} item c i =
    let pl = place item c (null_out c) i in
    let (n, e_n) = neighbour pl.at.prev pl.at c (null_out c) (ground (arith, pl.first, pl.later)) in
    let (m, e_m) = neighbour pl.at.next pl.at c (null_out c) pl.behind in go pl n m e_n e_m
  where
    go :
        (pl : Place s.cells 0 first xs item) (n m : Node)
        → (pl.at.prev ≢ 0 → s.cells pl.at.prev ≡ some n)
        → (pl.at.next ≢ 0 → s.cells pl.at.next ≡ some m)
        → (t : Store) × (q : ℕ) × (unlink s item first ≡ ok (q, t))
          × Chain t.cells 0 q (without item xs)
          × (t.fresh ≡ s.fresh)
          × ((n : Node) × (t.cells item ≡ some n))
          × ((a : ℕ) → a ≢ 0 → has a xs ≡ false → t.cells a ≡ s.cells a)
    go pl n m e_n e_m = (
      record s { cells = spliced s item pl.at n m },
      (if item == first then pl.at.next else first),
      unlink-spliced s item pl.at n m pl.ne_null pl.holds e_n e_m pl.apart.0 pl.apart.1 pl.apart.2
          first,
      subst (λ (q : ℕ). Chain (spliced s item pl.at n m) 0 q (without item xs)) turned
          (Unlinked-Chain item pl.at c (null_out c) i pl.holds unlinked),
      refl,
      (record pl.at { prev = 0; next = 0 }, unlinked.cleared),
      λ a ne out. unlinked.rest a (ground arith) (outer a ne out) (ground arith),
    )
      where
        unlinked : Unlinked s.cells (spliced s item pl.at n m) item pl.at
        unlinked =
            spliced-Unlinked s item pl.at n m pl.ne_null pl.holds e_n e_m pl.apart.0 pl.apart.1
              pl.apart.2

        turned :
            (if first == item then pl.at.next else first)
            ≡ (if item == first then pl.at.next else first)
        turned = ground arith

        outer : (a : ℕ) → a ≢ 0 → has a xs ≡ false → a ≢ pl.at.prev
        outer a ne out = elim (Bool-cases (item == first)) [
          | inl head ↦ ground (arith, pl.first)
          | inr later ↦ ground (arith, pl.later)
        ]
