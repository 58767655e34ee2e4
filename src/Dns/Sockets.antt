-- ===== src/Dns/Sockets.antt =====
-- Which sockets and strings the client of 2.3.1-coroutine/async_dns_client_noblock.c gives back.
use test_linux.Base.{
  times-remove, ℕ, ◌+◌, ◌<◌, ◌≡◌, refl, subst, Bool, Option, none, some, ℤ, ok, >>=-eq-ok, Bytes,
  times, arith,
}
use test_linux.Dns.Freed.{all_strings, ClientRun-AllFreed}
use test_linux.Dns.Client.{
  Client, Submission, make_request, opened, watch, dns_async_client_commit, take_reply, ClientStep,
  commit, reply, ClientRun, none_yet, after, idle,
}

-- Every socket is watched, closed or lost, as often as it was opened.
abbrev Accounted : Client → Type 0
Accounted s =
    (fd : ℕ) → times s.sockets fd ≡ times s.watched fd + times s.closed fd + times s.lost fd

watch-Accounted :
    (s : Client) (fd : ℕ) (made : Bytes × ℕ) (a : Submission)
    → Accounted s
    → Accounted ((watch (opened s fd made) fd a).1)
unfolding watch
watch-Accounted s fd (request, len) a inv j = ground (arith, inv j)

module _ (inet_ntop : Bytes → Bytes) (calloc : ℕ → Bool) (fuel : ℕ) where
  take_reply-Accounted :
      (s t : Client) (fd : ℕ) (datagram : Bytes)
      → 0 < times s.watched fd
      → take_reply inet_ntop calloc fuel s fd datagram ≡ ok t
      → Accounted s
      → Accounted t
  unfolding take_reply
  take_reply-Accounted s t fd datagram h e inv j =
      ground (arith, inv j, times-remove fd s.watched j h)

  module _ (malloc : ℕ → Option Bytes) where
    commit-Accounted :
        (s t : Client) (domain : Bytes) (a : Submission) (r : Option ℤ)
        → dns_async_client_commit malloc s domain a ≡ ok (r, t)
        → Accounted s
        → Accounted t
    unfolding dns_async_client_commit
    commit-Accounted s t domain a r e inv j = go a.sockfd e
      where
        go :
            (o : Option ℕ)
            → dns_async_client_commit malloc s domain
                (record { sockfd = o; random = a.random; allocated = a.allocated; added = a.added })
              ≡ ok (r, t)
            → times t.sockets j ≡ times t.watched j + times t.closed j + times t.lost j
        go none h = let same : s ≡ t = cc in subst Accounted same inv j
        go (some fd) h =
            let (made, e₁, e₂) = >>=-eq-ok (make_request malloc domain a.random) _ h in
            let same : (watch (opened s fd made) fd a).1 ≡ t = cc in
            subst Accounted same (watch-Accounted s fd made a inv) j

    ClientStep-Accounted :
        {s t : Client} → ClientStep inet_ntop calloc fuel malloc s t → Accounted s → Accounted t
    ClientStep-Accounted {s} {t} (commit domain a {r} e) inv = commit-Accounted s t domain a r e inv
    ClientStep-Accounted {s} {t} (reply sockfd datagram h e) inv =
        take_reply-Accounted s t sockfd datagram h e inv

    -- In every run of commits and replies each socket is watched, closed by its reply, or lost by a
    -- commit that failed after opening it, as often as it was opened; and the strings freed are exactly
    -- those of the lists that the callback was given, each string of each list once and no other.
    pub ClientRun-Accounted :
        {t : Client} (fd : ℕ)
        → ClientRun inet_ntop calloc fuel malloc idle t
        → (times t.sockets fd ≡ times t.watched fd + times t.closed fd + times t.lost fd)
          × (t.freed ≡ all_strings t.results)
    ClientRun-Accounted fd run = (kept run fd, ClientRun-AllFreed inet_ntop calloc fuel malloc run)
      where
        kept : {t : Client} → ClientRun inet_ntop calloc fuel malloc idle t → Accounted t
        kept none_yet = λ j. refl
        kept (after run step) = ClientStep-Accounted step (kept run)
