-- ===== src/Query/Client.antt =====
-- `dns_commit` and `main` of test5/dnstest.cpp. The system's answers are given: whether `socket` and
-- `connect` succeed, whether `send` takes the request, and what `recv` gives, none where it is 0 or
-- less. `blank` is what an object on the stack holds before it is set.
use test_linux.Base.{
  ℕ, Bool, true, false, not, ◌-◌, Option, none, some, List, [], ◌∷◌, ◌++◌, length, take, replicate,
  ℤ, pos, negsuc, Run, ok, ◌>>=◌, Bytes, if◌then◌else◌,
}
use test_linux.Query.Message.{DnsQueries, create_header, create_queries, type_a, dns_build_request}
use test_linux.Query.Answers.{Ipv4, print_dns_a_records}

pub record System : Type 0 where
  pub opened : Bool
  pub connected : Bool
  pub random_id : ℕ
  pub blank : DnsQueries
  pub taken : Bytes → Bool
  pub received : Option Bytes

-- The answer, the request that was given to `send`, and what was printed.
pub record Outcome : Type 0 where
  pub answer : ℤ
  pub request : Option Bytes
  pub printed : List Ipv4

abbrev pub response_size : ℕ
response_size = 2048

-- The buffer after `recv`.
abbrev pub response_of : Bytes → Bytes
response_of d = take response_size d ++ replicate (response_size - length d) 0

unfoldable pub take_response : (fuel : ℕ) → Option Bytes → (request : Bytes) → Run Outcome
take_response fuel none request =
    ok (record { answer = negsuc 2; request = some request; printed = [] })
take_response fuel (some d) request = do
  printed ← print_dns_a_records fuel (response_of d) (length (take response_size d))
  ok (record { answer = pos 0; request = some request; printed = printed })

-- What `create` answers is not looked at.
unfoldable pub send_request : (fuel : ℕ) → System → (hostname : Bytes) → Run Outcome
send_request fuel sys hostname = do
  (ret, dq) ← create_queries sys.blank hostname type_a 1
  let request = dns_build_request (create_header sys.random_id 0x0100 1) dq
  elim (sys.taken request) [
    | true ↦ take_response fuel sys.received request
    | false ↦ ok (record { answer = negsuc 1; request = some request; printed = [] })
  ]

unfoldable pub dns_commit : (fuel : ℕ) → System → (hostname : Bytes) → Run Outcome
dns_commit fuel sys hostname =
    if not sys.opened
    then ok (record { answer = negsuc 0; request = none; printed = [] })
    else if not sys.connected
    then ok (record { answer = negsuc 3; request = none; printed = [] })
    else send_request fuel sys hostname

-- `main`, for the names on the command line, each with the system's answers.
unfoldable pub dns_main : (fuel : ℕ) → List (System × Bytes) → Run (List Outcome)
dns_main fuel [] = ok []
dns_main fuel ((sys, hostname) ∷ rest) = do
  first ← dns_commit fuel sys hostname
  others ← dns_main fuel rest
  ok (first ∷ others)
