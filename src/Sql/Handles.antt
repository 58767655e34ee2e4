-- ===== src/Sql/Handles.antt =====
-- What becomes of the handles of test4/connectionpool.h.
use test_linux.Base.{
  ℕ, zero, suc, ◌+◌, ◌%◌, ◌^◌, ◌≡◌, refl, sym, subst, Bool, true, false, Option, none, some, List,
  [], ◌∷◌, ◌++◌, length, length-append, times, times-append, arith, Bool-cases, inl, inr,
}
use test_linux.Sql.Pool.{
  ConnectionPool, Answer, create, entered, init, acquire, release, shutdown, available, Calls,
  begins, inits, acquires, releases, shuts,
}

length-create :
    (n : ℕ) (answers : ℕ → Answer) (i : ℕ) (created closed : List ℕ)
    → (create n answers i created closed).2 ≡ true
    → length (create n answers i created closed).0 ≡ length created + n
unfolding create
length-create zero answers i created closed e = omega arith
length-create (suc n) answers i created closed e =
    go (answers i).handle (answers i).connects refl refl
      λ conn. length-create n answers (i + 1) (created ++ conn ∷ []) closed
  where
    go :
        (h : Option ℕ) (b : Bool)
        → (answers i).handle ≡ h
        → (answers i).connects ≡ b
        → ((conn : ℕ)
            → (create n answers (i + 1) (created ++ conn ∷ []) closed).2 ≡ true
            → length (create n answers (i + 1) (created ++ conn ∷ []) closed).0
              ≡ length (created ++ conn ∷ []) + n)
        → length (create (suc n) answers i created closed).0 ≡ length created + suc n
    go none b at_handle at_connects rest = ground arith
    go (some conn) true at_handle at_connects rest =
        ground (arith, rest conn, length-append created (conn ∷ []))
    go (some conn) false at_handle at_connects rest = ground arith

record Inv (p : ConnectionPool) (lent : List ℕ) : Type 0 where
  kept : (j : ℕ) → times p.opened j ≡ times p.connections j + times lent j + times p.closed j
  counted : p.available_connection ≡ length p.connections % 2 ^ 64

entered-Inv :
    {p : ConnectionPool} {lent : List ℕ} (n : ℕ) (created closed : List ℕ) (all : Bool)
    → Inv p lent
    → (all ≡ true → length created ≡ n)
    → Inv ((entered n p (created, closed, all)).1) lent
unfolding entered
entered-Inv {p} n created closed true inv size = record {
  kept = λ j. ground (
    arith,
    inv.kept j,
    times-append p.opened (created ++ closed) j,
    times-append created closed j,
    times-append p.connections created j,
    times-append p.closed closed j,
  );
  counted = omega (arith, inv.counted, size refl, length-append p.connections created);
}
entered-Inv {p} n created closed false inv size = record {
  kept = λ j. ground (
    arith,
    inv.kept j,
    times-append p.opened (created ++ closed) j,
    times-append p.closed (created ++ closed) j,
  );
  counted = inv.counted;
}

init-Inv :
    {p : ConnectionPool} {lent : List ℕ} (n : ℕ) (answers : ℕ → Answer)
    → Inv p lent
    → Inv ((init n answers p).1) lent
unfolding init
init-Inv {p} {lent} n answers inv =
    let made = create n answers 0 [] [] in
    elim (Bool-cases p.active_flag) [
      | inl active ↦
          let same : init n answers p ≡ (false, p) = ground arith in
          subst (λ (r : Bool × ConnectionPool). Inv r.1 lent) (sym same) inv
      | inr idle ↦
          let same : init n answers p ≡ entered n p made = ground arith in
          subst (λ (r : Bool × ConnectionPool). Inv r.1 lent) (sym same)
            (entered-Inv n made.0 made.1 made.2 inv
              λ e. omega (arith, length-create n answers 0 [] [] e))
    ]

acquire-Inv :
    {p q : ConnectionPool} {lent : List ℕ} (conn : ℕ)
    → Inv p lent
    → acquire p ≡ some (some conn, q)
    → Inv q (conn ∷ lent)
unfolding acquire
acquire-Inv {p} {q} {lent} conn inv e = record {
  kept = λ j. ground (arith, inv.kept j);
  counted = ground (arith, inv.counted);
}

release-Inv :
    {p : ConnectionPool} (front back : List ℕ) (conn : ℕ)
    → Inv p (front ++ conn ∷ back)
    → Inv (release (some conn) p) (front ++ back)
unfolding release
release-Inv {p} front back conn inv = record {
  kept = λ j. ground (
    arith,
    inv.kept j,
    times-append front (conn ∷ back) j,
    times-append front back j,
    times-append p.connections (conn ∷ []) j,
  );
  counted = ground (arith, inv.counted, length-append p.connections (conn ∷ []));
}

shutdown-Inv : {p : ConnectionPool} {lent : List ℕ} → Inv p lent → Inv (shutdown p) lent
unfolding shutdown
shutdown-Inv {p} {lent} inv = record {
  kept = λ j. ground (arith, inv.kept j, times-append p.closed p.connections j);
  counted = refl;
}

Calls-Inv : {p : ConnectionPool} {lent : List ℕ} → Calls p lent → Inv p lent
Calls-Inv begins = record { kept = λ j. refl; counted = refl }
Calls-Inv (inits n answers calls) = init-Inv n answers (Calls-Inv calls)
Calls-Inv (acquires conn calls e) = acquire-Inv conn (Calls-Inv calls) e
Calls-Inv (releases front back conn calls) = release-Inv front back conn (Calls-Inv calls)
Calls-Inv (shuts calls) = shutdown-Inv (Calls-Inv calls)

-- In every run, a connection that has been made is in one place and as often as it was made: in the
-- pool, with a client, or closed. No connection is lost or closed twice, a failed `init` included.
pub handles_kept :
    {p : ConnectionPool} {lent : List ℕ}
    → Calls p lent
    → (conn : ℕ)
    → times p.opened conn ≡ times p.connections conn + times lent conn + times p.closed conn
handles_kept calls conn = (Calls-Inv calls).kept conn

-- In every run, `available` gives the number of connections in the pool, modulo 2 ^ 64.
pub available-length :
    {p : ConnectionPool} {lent : List ℕ}
    → Calls p lent
    → available p ≡ length p.connections % 2 ^ 64
available-length calls = (Calls-Inv calls).counted
