-- ===== src/Dns/Client.antt =====
-- The asynchronous client of 2.3.1-coroutine/async_dns_client_noblock.c: what
-- `dns_async_client_commit` and a turn of the loop of `dns_async_client_proc` do to the sockets and
-- blocks that they share through the epoll instance.
use test_linux.Base.{
  out_of_fuel, ℕ, zero, suc, ◌+◌, ◌-◌, Bool, true, false, Option, none, some, List, [], ◌∷◌, ◌++◌,
  ℤ, pos, negsuc, Run, ok, ◌>>=◌, or_fault, length, take, replicate, get_elem?, Bytes,
  if◌then◌else◌, remove, ◌≡◌, times, ◌<◌,
}
use test_linux.Dns.Request.{
  blank_header, blank_question, dns_create_header, dns_create_question, dns_build_request,
}
use test_linux.Dns.Response.{DnsItem, dns_parse_response}

-- All lists have the newest first. `lost` is history, for the theorems: sockets that stay open with
-- nothing left that will close them.
pub record Client : Type 0 where
  pub sockets : List ℕ  -- opened
  pub watched : List ℕ  -- in the epoll instance, each with its `ep_arg`
  pub closed : List ℕ
  pub lost : List ℕ
  pub requests : List Bytes  -- sent
  pub results : List (ℤ × List DnsItem)  -- given to the callback
  pub freed : List Bytes  -- strings of answers, freed

-- What the system answers to a commit: the socket, the number from `random`, and whether `ep_arg` is
-- allocated and EPOLL_CTL_ADD succeeds.
pub record Submission : Type 0 where
  pub sockfd : Option ℕ
  pub random : ℕ
  pub allocated : Bool
  pub added : Bool

-- From the blank header and question to the request; that `dns_create_question` may fail is not
-- looked at.
unfoldable pub make_request : (ℕ → Option Bytes) → Bytes → ℕ → Run (Bytes × ℕ)
make_request malloc domain r = do
  header ← or_fault ((dns_create_header (some blank_header) r).1)
  (_, question) ← dns_create_question malloc (some blank_question) domain
  question ← or_fault question
  dns_build_request header question (replicate 1024 0)

abbrev pub opened : Client → ℕ → Bytes × ℕ → Client
opened s fd (request, len) = record s {
  sockets = fd ∷ s.sockets;
  requests = take len request ∷ s.requests;
}

-- After the request has been sent: the result, and the state.
unfoldable pub watch : Client → ℕ → Submission → ℤ × Client
watch s fd a =
    if a.allocated
    then (if a.added
        then (pos 0, record s { watched = fd ∷ s.watched })
        else (negsuc 0, record s { lost = fd ∷ s.lost }))
    else (negsuc 0, record s { lost = fd ∷ s.lost })

-- The result is none where the program exits.
unfoldable pub dns_async_client_commit :
    (ℕ → Option Bytes) → Client → Bytes → Submission → Run (Option ℤ × Client)
unfolding make_request watch
dns_async_client_commit malloc s domain a = elim (a.sockfd) [
  | none ↦ ok (none, s)
  | some fd ↦ do
    made ← make_request malloc domain a.random
    let (ret, s) = watch (opened s fd made) fd a
    ok (some ret, s)
]

-- The strings that are freed from the i-th item on, for so many items.
unfoldable pub free_from : List DnsItem → ℕ → ℕ → Run (List Bytes)
free_from list i zero = ok []
free_from list i (suc n) = do
  item ← or_fault (get_elem? list i)
  rest ← free_from list (i + 1) n
  ok (item.domain ∷ item.ip ∷ rest)

unfoldable pub dns_async_client_free_domains : List DnsItem → ℤ → Run (List Bytes)
unfolding free_from
dns_async_client_free_domains list (pos count) = free_from list 0 count
dns_async_client_free_domains list (negsuc k) = ok []

-- The buffer that `recvfrom` fills with a datagram; it stays zero where that fails.
unfoldable pub packet_buffer : Bytes → Bytes
packet_buffer datagram = take 1024 datagram ++ replicate (1024 - length (take 1024 datagram)) 0

-- One ready socket in `dns_async_client_proc`.
module _ (inet_ntop : Bytes → Bytes) (calloc : ℕ → Bool) (fuel : ℕ) where
  unfoldable pub take_reply : Client → ℕ → Bytes → Run Client
  unfolding packet_buffer dns_async_client_free_domains
  take_reply s sockfd datagram = do
    (count, list) ← dns_parse_response inet_ntop calloc fuel (packet_buffer datagram)
    strings ← dns_async_client_free_domains list count
    ok (record s {
      results = (count, list) ∷ s.results;
      watched = remove sockfd s.watched;
      closed = sockfd ∷ s.closed;
      freed = strings ++ s.freed;
    })

  -- A commit, or a reply on a socket that is watched: epoll reports no other.
  pub data ClientStep (malloc : ℕ → Option Bytes) (s : Client) : Client → Type 0 where
    commit :
        (domain : Bytes) (a : Submission) {r : Option ℤ} {t : Client}
        → dns_async_client_commit malloc s domain a ≡ ok (r, t)
        → ClientStep malloc s t
    reply :
        (sockfd : ℕ) (datagram : Bytes) {t : Client}
        → 0 < times s.watched sockfd
        → take_reply s sockfd datagram ≡ ok t
        → ClientStep malloc s t

  pub data ClientRun (malloc : ℕ → Option Bytes) (s : Client) : Client → Type 0 where
    none_yet : ClientRun malloc s s
    after : {t u : Client} → ClientRun malloc s t → ClientStep malloc t u → ClientRun malloc s u

-- `dns_client_commit` polls its socket for a reply; an empty list stands for `n <= 0`.
unfoldable pub wait_reply : List Bytes → Run Bytes
wait_reply [] = out_of_fuel
wait_reply ([] ∷ rest) = wait_reply rest
wait_reply ((c ∷ cs) ∷ rest) = ok (c ∷ cs)

module _ (inet_ntop : Bytes → Bytes) (calloc : ℕ → Bool) (fuel : ℕ)
    (malloc : ℕ → Option Bytes) where
  -- The result is none where the program exits.
  unfoldable pub dns_client_commit :
      (domain : Bytes) (sockfd : Option ℕ) (r : ℕ) → List Bytes → Run (Option ℤ)
  unfolding make_request wait_reply packet_buffer
  dns_client_commit domain none r datagrams = ok none
  dns_client_commit domain (some fd) r datagrams = do
    _ ← make_request malloc domain r
    datagram ← wait_reply datagrams
    _ ← dns_parse_response inet_ntop calloc fuel (packet_buffer datagram)
    ok (some (pos 0))

  -- The loop of `main` over the domains, with what the system answers to each; none where the
  -- program exits on the way.
  unfoldable pub commit_all : List (Bytes × Submission) → Client → Run (Option Client)
  unfolding dns_async_client_commit
  commit_all [] s = ok (some s)
  commit_all ((domain, a) ∷ rest) s = do
    (ret, s) ← dns_async_client_commit malloc s domain a
    elim ret [ none ↦ ok none | some _ ↦ commit_all rest s ]

-- `dns_async_client_init`: the context's descriptor, if one is returned, and the descriptors closed.
unfoldable pub dns_async_client_init : Option ℕ → (allocated created : Bool) → Option ℕ × List ℕ
dns_async_client_init none allocated created = (none, [])
dns_async_client_init (some epfd) false created = (none, epfd ∷ [])
dns_async_client_init (some epfd) true false = (none, [])
dns_async_client_init (some epfd) true true = (some epfd, [])

abbrev pub idle : Client
idle = record {
  sockets = [];
  watched = [];
  closed = [];
  lost = [];
  requests = [];
  results = [];
  freed = [];
}
