-- ===== src/Pool/Links.antt =====
-- The list macros LL_ADD and LL_REMOVE of 2.3.1-coroutine/server_mulport_epoll.c, over a heap of the
-- `prev` and `next` pointers of jobs (and of workers); 0 is NULL. A pointer that is NULL or leads to
-- no node is a fault where it is followed.
use test_linux.Base.{ℕ, Option, some, Run, ok, fault, ◌>>=◌, or_fault, ◌==◌, if◌then◌else◌}

pub record Link : Type 0 where
  pub prev : ℕ
  pub next : ℕ

abbrev pub link : ℕ → ℕ → Link
link p n = record { prev = p; next = n }

abbrev pub Heap : Type 0
Heap = ℕ → Option Link

unfoldable pub load : Heap → ℕ → Run Link
load h p = if p == 0 then fault else or_fault (h p)

abbrev pub update : Heap → ℕ → Link → Heap
update h p l q = if q == p then some l else h q

-- `p->prev = x` and `p->next = x`.
unfoldable pub set_prev : Heap → ℕ → ℕ → Run Heap
unfolding load
set_prev h p x = do l ← load h p; ok (update h p (link x l.next))

unfoldable pub set_next : Heap → ℕ → ℕ → Run Heap
unfolding load
set_next h p x = do l ← load h p; ok (update h p (link l.prev x))

-- LL_ADD: the result is the heap and the new head. The old head's `prev` is not set.
unfoldable pub ll_add : Heap → (item list : ℕ) → Run (Heap × ℕ)
unfolding set_prev set_next
ll_add h item list = do h ← set_prev h item 0; h ← set_next h item list; ok (h, item)

-- LL_REMOVE, statement by statement.
unfoldable pub ll_remove : Heap → (item list : ℕ) → Run (Heap × ℕ)
unfolding set_prev set_next
ll_remove h item list = do
  l ← load h item
  h ← if l.prev == 0 then ok h else set_next h l.prev l.next
  l ← load h item
  h ← if l.next == 0 then ok h else set_prev h l.next l.prev
  l ← load h item
  let list' = if list == item then l.next else list
  h ← set_next h item 0
  h ← set_prev h item 0
  ok (h, list')
