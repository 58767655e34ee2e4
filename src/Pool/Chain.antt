-- ===== src/Pool/Chain.antt =====
-- The list macros of 2.3.1-coroutine/server_mulport_epoll.c keep a stack of nodes, as long as only
-- the head is removed.
use test_linux.Base.{
  ℕ, ◌≡◌, refl, ◌≢◌, Bool, true, false, ◌||◌, some, List, [], ◌∷◌, arith, ok, ◌==◌,
}
use test_linux.Pool.Links.{Link, link, Heap, load, update, ll_add, ll_remove}

abbrev pub has : ℕ → List ℕ → Bool
has a [] = false
has a (x ∷ xs) = (a == x) || has a xs

-- From `p` the `next` pointers lead through the distinct nodes `xs` to NULL. Every `prev` is NULL:
-- LL_ADD never sets one.
pub data Chain (h : Heap) : ℕ → List ℕ → Type 0 where
  nil : Chain h 0 []
  cons :
      {p q : ℕ} {xs : List ℕ}
      → p ≢ 0
      → h p ≡ some (link 0 q)
      → has p xs ≡ false
      → Chain h q xs
      → Chain h p (p ∷ xs)

-- A chain survives a change that spares its nodes.
frame :
    {h g : Heap} {p : ℕ} {xs : List ℕ}
    → Chain h p xs
    → ((a : ℕ) → has a xs ≡ true → g a ≡ h a)
    → Chain g p xs
frame nil same = nil
frame (cons {p} ne e out c) same =
    cons ne (ground (arith, same p)) out (frame c λ a i. same a (ground arith))

load-some : (h : Heap) (p : ℕ) (l : Link) → p ≢ 0 → h p ≡ some l → load h p ≡ ok l
unfolding load
load-some h p l ne e = ground arith

-- Adding an allocated node that is not in the list puts it in front; no other node changes.
pub ll_add-Chain :
    {h : Heap} {list : ℕ} {xs : List ℕ} (item : ℕ) (old : Link)
    → Chain h list xs
    → item ≢ 0
    → h item ≡ some old
    → has item xs ≡ false
    → (g : Heap) × (ll_add h item list ≡ ok (g, item))
      × Chain g item (item ∷ xs)
      × ((a : ℕ) → a ≢ item → g a ≡ h a)
unfolding ll_add
ll_add-Chain {h} {list} item old c ne e out = (
  g,
  ground arith,
  cons ne (ground arith) out (frame c λ a i. ground arith),
  λ a other. ground arith,
)
  where
    g : Heap
    g = update (update h item (link 0 old.next)) item (link 0 list)

cleared : Heap → ℕ → Heap
cleared h p = update (update h p (link 0 0)) p (link 0 0)

-- Removing the head leaves the rest of the list, and clears the node's pointers.
pub ll_remove-head :
    {h : Heap} {p j : ℕ} {xs : List ℕ}
    → Chain h p (j ∷ xs)
    → (g : Heap) × (q : ℕ) × (ll_remove h p p ≡ ok (g, q))
      × Chain g q xs
      × (g p ≡ some (link 0 0))
      × ((a : ℕ) → a ≢ p → g a ≡ h a)
unfolding ll_remove cleared
ll_remove-head {h} {p} (cons {q} ne e out nil) =
    (cleared h p, 0, ground arith, nil, ground arith, λ a other. ground arith)
ll_remove-head {h} {p} (cons ne e out (cons {p = m} {q = r} ne' e' out' c)) = (
  cleared (update h m (link 0 r)) p,
  m,
  ground arith,
  frame (cons ne' e' out' c) (λ a i. ground arith),
  ground arith,
  λ a other. ground arith,
)

-- Removing another node does not take it out: no `prev` leads to it, so it stays behind its
-- predecessor, and the nodes after it are cut off.
pub ll_remove-second :
    {h : Heap} {p j : ℕ} {m : ℕ} {xs : List ℕ}
    → Chain h p (j ∷ m ∷ xs)
    → (g : Heap) × (ll_remove h m p ≡ ok (g, p)) × Chain g p (j ∷ m ∷ [])
unfolding ll_remove cleared
ll_remove-second {h} (cons {p} ne e out (cons {p = m} ne' e' out' nil)) = (
  cleared h m,
  ground arith,
  cons ne (ground arith) (ground arith) (cons ne' (ground arith) refl nil),
)
ll_remove-second {h}
      (cons {p} ne e out (cons {p = m} ne' e' out' (cons {p = k} {q = r} ne'' e'' out'' c))) =
    (
      cleared (update h k (link 0 r)) m,
      ground arith,
      cons ne (ground arith) (ground arith) (cons ne' (ground arith) refl nil),
    )
