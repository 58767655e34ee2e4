-- ===== src/Sql/Pool.antt =====
-- `ConnectionPool` of test4/connectionpool.h. A handle is a number; each method holds the mutex while it
-- runs, so a run is a list of calls.
use test_linux.Base.{
  ℕ, zero, suc, ◌+◌, ◌-◌, ◌%◌, ◌^◌, ◌≡◌, Bool, true, false, Option, none, some, List, [], ◌∷◌, ◌++◌,
  if◌then◌else◌,
}

-- `opened` and `closed` are the handles that have been connected and closed.
pub record ConnectionPool : Type 0 where
  pub connections : List ℕ
  pub active_flag : Bool
  pub total_connection : ℕ
  pub available_connection : ℕ
  pub opened : List ℕ
  pub closed : List ℕ

abbrev pub new_pool : ConnectionPool
new_pool = record {
  connections = [];
  active_flag = false;
  total_connection = 0;
  available_connection = 0;
  opened = [];
  closed = [];
}

-- What `mysql_init` gives, and whether `mysql_real_connect` succeeds.
pub record Answer : Type 0 where
  pub handle : Option ℕ
  pub connects : Bool

-- The loop of `init` for `n` more connections: `created` so far, and those that were closed.
unfoldable pub create :
    ℕ → (ℕ → Answer) → (i : ℕ) (created closed : List ℕ) → List ℕ × List ℕ × Bool
create zero answers i created closed = (created, closed, true)
create (suc n) answers i created closed = elim (answers i).handle [
  | none ↦ (created, closed, false)
  | some conn ↦ elim (answers i).connects [
    | true ↦ create n answers (i + 1) (created ++ conn ∷ []) closed
    | false ↦ (created, conn ∷ closed, false)
  ]
]

-- Where not all connections could be made, those that were are closed again.
unfoldable pub entered :
    (max_conn_num : ℕ) → ConnectionPool → List ℕ × List ℕ × Bool → Bool × ConnectionPool
entered max_conn_num p (created, closed, false) = (
  false,
  record p { opened = p.opened ++ (created ++ closed); closed = p.closed ++ (created ++ closed) },
)
entered max_conn_num p (created, closed, true) = (
  true,
  record {
    connections = p.connections ++ created;
    active_flag = true;
    total_connection = (p.total_connection + max_conn_num) % 2 ^ 64;
    available_connection = (p.available_connection + max_conn_num) % 2 ^ 64;
    opened = p.opened ++ (created ++ closed);
    closed = p.closed ++ closed;
  },
)

unfoldable pub init : (max_conn_num : ℕ) → (ℕ → Answer) → ConnectionPool → Bool × ConnectionPool
unfolding create entered
init max_conn_num answers p =
    if p.active_flag
    then (false, p)
    else entered max_conn_num p (create max_conn_num answers 0 [] [])

-- What `acquire` returns, none where it has to wait.
unfoldable pub acquire : ConnectionPool → Option (Option ℕ × ConnectionPool)
acquire p = elim p.connections [
  | [] ↦ if p.active_flag then none else some (none, p)
  | conn ∷ rest ↦
      if p.active_flag
      then some (
        some conn,
        record p {
          connections = rest;
          available_connection = (p.available_connection + 2 ^ 64 - 1) % 2 ^ 64;
        },
      )
      else some (none, p)
]

-- A null pointer is none.
unfoldable pub release : Option ℕ → ConnectionPool → ConnectionPool
release none p = p
release (some conn) p = record p {
  connections = p.connections ++ conn ∷ [];
  available_connection = (p.available_connection + 1) % 2 ^ 64;
}

unfoldable pub shutdown : ConnectionPool → ConnectionPool
shutdown p = record p {
  connections = [];
  active_flag = false;
  total_connection = 0;
  available_connection = 0;
  closed = p.closed ++ p.connections;
}

abbrev pub available : ConnectionPool → ℕ
available p = p.available_connection

-- A run: `lent` are the handles that clients hold, and a client gives back only such a one.
pub data Calls : ConnectionPool → (lent : List ℕ) → Type 0 where
  begins : Calls new_pool []
  inits :
      {p : ConnectionPool} {lent : List ℕ} (max_conn_num : ℕ) (answers : ℕ → Answer)
      → Calls p lent
      → Calls ((init max_conn_num answers p).1) lent
  acquires :
      {p q : ConnectionPool} {lent : List ℕ} (conn : ℕ)
      → Calls p lent
      → acquire p ≡ some (some conn, q)
      → Calls q (conn ∷ lent)
  releases :
      {p : ConnectionPool} (front back : List ℕ) (conn : ℕ)
      → Calls p (front ++ conn ∷ back)
      → Calls (release (some conn) p) (front ++ back)
  shuts : {p : ConnectionPool} {lent : List ℕ} → Calls p lent → Calls (shutdown p) lent
