-- ===== src/Dns/Freed.antt =====
-- Which strings the client of 2.3.1-coroutine/async_dns_client_noblock.c frees.
use test_linux.Base.{
  ℕ, ◌+◌, ◌≡◌, refl, subst, Bool, Option, none, some, List, [], ◌∷◌, ◌++◌, append_assoc, ℤ, pos,
  negsuc, ok, ◌>>=◌, >>=-eq-ok, length, get_elem?, Bytes, length-append, arith,
}
use test_linux.Dns.Response.{DnsItem, dns_parse_response}
use test_linux.Dns.Client.{
  Client, Submission, make_request, opened, watch, dns_async_client_commit, free_from,
  dns_async_client_free_domains, packet_buffer, take_reply, ClientStep, commit, reply, ClientRun,
  none_yet, after, idle,
}

-- The strings of a list of items.
abbrev pub strings : List DnsItem → List Bytes
strings [] = []
strings (i ∷ is) = i.domain ∷ i.ip ∷ strings is

get_elem-middle :
    (seen : List DnsItem) (i : DnsItem) (is : List DnsItem)
    → get_elem? (seen ++ i ∷ is) (length seen) ≡ some i
get_elem-middle [] i is = refl
get_elem-middle (x ∷ seen) i is = get_elem-middle seen i is

free_from-strings :
    (seen is : List DnsItem) → free_from (seen ++ is) (length seen) (length is) ≡ ok (strings is)
unfolding free_from
free_from-strings seen [] = refl
free_from-strings seen (i ∷ is) =
    rw (get_elem-middle seen i is, free_from, ◌>>=◌, rest (free_from-strings (seen ++ i ∷ []) is))
      refl
  where
    size : length (seen ++ i ∷ []) ≡ length seen + 1
    size = omega (arith, length-append seen (i ∷ []))

    rest :
        free_from ((seen ++ i ∷ []) ++ is) (length (seen ++ i ∷ [])) (length is) ≡ ok (strings is)
        → free_from (seen ++ i ∷ is) (length seen + 1) (length is) ≡ ok (strings is)
    rest e = rw (size, append_assoc seen (i ∷ []) is) at e

-- What a response comes to: a list with its length, or no list.
abbrev Counted : ℤ → List DnsItem → Type 0
Counted (pos n) list = n ≡ length list
Counted (negsuc n) list = list ≡ []

-- The strings of all the lists that were given to the callback.
abbrev pub all_strings : List (ℤ × List DnsItem) → List Bytes
all_strings [] = []
all_strings ((count, list) ∷ results) = strings list ++ all_strings results

-- What is freed is what was given.
abbrev AllFreed : Client → Type 0
AllFreed s = s.freed ≡ all_strings s.results

watch-AllFreed :
    (s : Client) (fd : ℕ) (made : Bytes × ℕ) (a : Submission)
    → AllFreed s
    → AllFreed ((watch (opened s fd made) fd a).1)
unfolding watch
watch-AllFreed s fd (request, len) a inv = ground (arith, inv)

module _ (inet_ntop : Bytes → Bytes) (calloc : ℕ → Bool) (fuel : ℕ) where
  dns_parse_response-Counted :
      (buffer : Bytes) {count : ℤ} {list : List DnsItem}
      → dns_parse_response inet_ntop calloc fuel buffer ≡ ok (count, list)
      → Counted count list
  unfolding dns_parse_response
  dns_parse_response-Counted buffer e = ground arith

  free_domains-strings :
      (count : ℤ) (list : List DnsItem)
      → Counted count list
      → dns_async_client_free_domains list count ≡ ok (strings list)
  unfolding dns_async_client_free_domains
  free_domains-strings (pos n) list c = rw c (free_from-strings [] list)
  free_domains-strings (negsuc n) list c = rw c refl

  take_reply-AllFreed :
      (s t : Client) (fd : ℕ) (datagram : Bytes)
      → take_reply inet_ntop calloc fuel s fd datagram ≡ ok t
      → AllFreed s
      → AllFreed t
  unfolding take_reply
  take_reply-AllFreed s t fd datagram e inv =
      let ((count, list), parsed, e₁) =
        >>=-eq-ok (dns_parse_response inet_ntop calloc fuel (packet_buffer datagram)) _ e in
      let (given, freed, e₂) = >>=-eq-ok (dns_async_client_free_domains list count) _ e₁ in
      let counted = dns_parse_response-Counted (packet_buffer datagram) parsed in
      let all = free_domains-strings count list counted in ground (arith, inv, all)

  module _ (malloc : ℕ → Option Bytes) where
    commit-AllFreed :
        (s t : Client) (domain : Bytes) (a : Submission) (r : Option ℤ)
        → dns_async_client_commit malloc s domain a ≡ ok (r, t)
        → AllFreed s
        → AllFreed t
    unfolding dns_async_client_commit
    commit-AllFreed s t domain a r e inv = go a.sockfd e
      where
        go :
            (o : Option ℕ)
            → dns_async_client_commit malloc s domain
                (record { sockfd = o; random = a.random; allocated = a.allocated; added = a.added })
              ≡ ok (r, t)
            → t.freed ≡ all_strings t.results
        go none h = let same : s ≡ t = cc in subst AllFreed same inv
        go (some fd) h =
            let (made, e₁, e₂) = >>=-eq-ok (make_request malloc domain a.random) _ h in
            let same : (watch (opened s fd made) fd a).1 ≡ t = cc in
            subst AllFreed same (watch-AllFreed s fd made a inv)

    ClientStep-AllFreed :
        {s t : Client} → ClientStep inet_ntop calloc fuel malloc s t → AllFreed s → AllFreed t
    ClientStep-AllFreed {s} {t} (commit domain a {r} e) inv = commit-AllFreed s t domain a r e inv
    ClientStep-AllFreed {s} {t} (reply sockfd datagram h e) inv =
        take_reply-AllFreed s t sockfd datagram e inv

    -- In every run of commits and replies the strings freed are exactly those of the lists that the
    -- callback was given, each string of each list once and no other.
    pub ClientRun-AllFreed :
        {t : Client}
        → ClientRun inet_ntop calloc fuel malloc idle t
        → t.freed ≡ all_strings t.results
    ClientRun-AllFreed none_yet = refl
    ClientRun-AllFreed (after run step) = ClientStep-AllFreed step (ClientRun-AllFreed run)
