-- ===== src/Load/Connections.antt =====
-- What the counter and the ports of test7/mul_port_client_epoll.c, and of the variant in test9, keep
-- to.
use test_linux.Base.{
  ℕ, ◌+◌, ◌<◌, ◌≡◌, refl, subst, false, Option, none, some, List, [], ◌∷◌, take, ℤ, Bytes, length,
  All, arith,
}
use test_linux.Io.Errno.{bytes, failed}
use test_linux.Io.Echo.{max_buffer}
use test_linux.Server.State.{inc, dec}
use test_linux.Server.Accounts.{positive, negative}
use test_linux.Load.Client.{
  Load, Variant, Ready, writable, readable, neither, Answers, next_index, received, drop_broken,
  handle, handle_all, connect_one, connect_step, events_step, turn, turns, at_start,
}

-- The counter is ahead of the sockets that are open by those closed on an error.
pub record Balanced (v : Variant) (s : Load) : Type 0 where
  pub counted :
      positive s.connections + length s.closed
      ≡ length s.sockets + length s.broken + negative s.connections
  pub in_range : s.index < v.max_port
  pub ports_in_range : All (λ p. p < v.max_port) s.ports
  pub never_set : s.is_continue ≡ false
  pub a_port_each : length s.ports ≡ length s.sockets

module _ (v : Variant) (hello : ℤ → Bytes) (data_from : ℕ → Bytes) (greeting : Bytes)
    (some_port : 0 < v.max_port) where
  received-Balanced : (s : Load) (fd : ℕ) (b : Bytes) → Balanced v s → Balanced v (received s fd b)
  unfolding received dec
  received-Balanced s fd [] inv = ground arith
  received-Balanced s fd (c ∷ cs) inv = ground arith

  handle-Balanced :
      (s : Load) (fd : ℕ) (r : Ready) → Balanced v s → Balanced v (handle v hello data_from s fd r)
  unfolding handle drop_broken
  handle-Balanced s fd writable inv = ground arith
  handle-Balanced s fd (readable (bytes b)) inv = received-Balanced s fd (take max_buffer b) inv
  handle-Balanced s fd (readable (failed errno)) inv = ground arith
  handle-Balanced s fd neither inv = ground arith

  handle_all-Balanced :
      (es : List (ℕ × Ready)) (s : Load)
      → Balanced v s
      → Balanced v (handle_all v hello data_from es s)
  unfolding handle_all
  handle_all-Balanced [] s inv = inv
  handle_all-Balanced ((fd, r) ∷ es) s inv =
      handle_all-Balanced es (handle v hello data_from s fd r) (handle-Balanced s fd r inv)

  next_index-Balanced :
      (s : Load) → Balanced v s → Balanced v (record s { index = next_index v s.index })
  unfolding next_index
  next_index-Balanced s inv = ground arith

  connect_step-Balanced :
      (s t : Load) (a : Answers)
      → connect_step v hello data_from s a ≡ some t
      → Balanced v s
      → Balanced v t
  unfolding connect_step connect_one inc
  connect_step-Balanced s t a e inv = ground arith

  turn-Balanced :
      (s t : Load) (a : Answers) → turn v hello data_from s a ≡ some t → Balanced v s → Balanced v t
  unfolding turn
  turn-Balanced s t a e inv = go (connect_step v hello data_from stepped a) refl e
    where
      stepped : Load
      stepped = record s { index = next_index v s.index }

      ended : (u : Load) → Balanced v u → Balanced v (events_step v hello data_from a u)
      ended u inv' = ground (arith, handle_all-Balanced a.events u inv')

      go :
          (o : Option Load)
          → connect_step v hello data_from stepped a ≡ o
          → ◌≡◌ {A = Option Load}
              (elim o [ none ↦ none | some u ↦ some (events_step v hello data_from a u) ])
              (some t)
          → Balanced v t
      go none e₁ h = cc
      go (some u) e₁ h =
          let same : events_step v hello data_from a u ≡ t = cc in
          subst (Balanced v) same
            (ended u (connect_step-Balanced stepped u a e₁ (next_index-Balanced s inv)))

  turns-from :
      (answers : List Answers) (s t : Load)
      → turns v hello data_from answers s ≡ some t
      → Balanced v s
      → Balanced v t
  unfolding turns
  turns-from [] s t e inv = let same : s ≡ t = cc in subst (Balanced v) same inv
  turns-from (a ∷ rest) s t e inv =
      go (turn v hello data_from s a) refl (λ u e' inv'. turns-from rest u t e' inv') e
    where
      go :
          (o : Option Load)
          → turn v hello data_from s a ≡ o
          → ((u : Load) → turns v hello data_from rest u ≡ some t → Balanced v u → Balanced v t)
          → ◌≡◌ {A = Option Load}
              (elim o [ none ↦ none | some u ↦ turns v hello data_from rest u ])
              (some t)
          → Balanced v t
      go none e₁ again h = cc
      go (some u) e₁ again h = again u h (turn-Balanced s u a e₁ inv)

  -- However long the program runs, `connections` is the number of the sockets that it has opened
  -- and not closed, and of those that it has closed on an error, which it goes on to count. The port
  -- is always one of the first MAX_PORT, if there is one, and `isContinue` is never set.
  pub turns-Balanced :
      (answers : List Answers) {t : Load}
      → turns v hello data_from answers (at_start greeting) ≡ some t
      → Balanced v t
  turns-Balanced answers {t} e = turns-from answers (at_start greeting) t e (record {
    counted = omega arith;
    in_range = omega arith;
    ports_in_range = tt;
    never_set = refl;
    a_port_each = refl;
  })
