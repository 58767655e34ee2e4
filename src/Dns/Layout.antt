-- ===== src/Dns/Layout.antt =====
-- The request that `dns_build_request` of 2.3.1-coroutine/async_dns_client_noblock.c lays out in the
-- buffer of its caller, which has 1024 bytes.
use native.Mathlib.Decide.{dec_le}
use test_linux.Base.{
  ℕ, ◌+◌, ◌-◌, ◌≤◌, ◌<◌, ◌≡◌, refl, ap, ap₂, ◌∙◌, [], ◌∷◌, ◌++◌, append_assoc, arith, Run, ok,
  fault, length, drop, length-append, length-drop, drop-drop, ◌>>=◌, Bytes, le16, htons, write_at,
  write_both, write_both-fault,
}
use test_linux.Dns.Request.{DnsHeader, header_bytes, dns_build_request}
use test_linux.Dns.Question.{question_in}

module _ (header : DnsHeader) (hostname qname request : Bytes)
    (sized : length qname ≡ length hostname + 2) (full : length request ≡ 1024) where
  -- The writes after the name.
  finish : Bytes → Run (Bytes × ℕ)
  finish block = do
    block ← write_at block (12 + (length hostname + 2)) (le16 (htons 1))
    block ← write_at block (12 + (length hostname + 2) + 2) (le16 (htons 1))
    ok (block, length hostname + 2 + 2 + 2 + 12)

  named : Bytes
  named = header_bytes header ++ qname

  length-named : length named ≡ length hostname + 14
  unfolding named header_bytes
  length-named = omega arith

  build-named :
      length hostname ≤ 1010
      → dns_build_request header (question_in hostname qname) request
        ≡ finish (named ++ drop (12 + length qname) request)
  unfolding dns_build_request header_bytes finish named
  build-named small =
      write_both request [] request (header_bytes header) qname 0 12 finish refl refl refl
        (omega arith)

  -- A question of up to 1006 bytes of host name, with its block of two bytes more, fits the buffer
  -- of 1024 bytes: the request is the header, the name, type and class one in network order, and
  -- the rest of the buffer is not touched.
  pub dns_build_request-layout :
      length hostname ≤ 1006
      → dns_build_request header (question_in hostname qname) request
        ≡ ok (
          header_bytes header ++ (qname ++ (0 ∷ 1 ∷ 0 ∷ 1 ∷ drop (length hostname + 18) request)),
          length hostname + 18,
        )
  unfolding finish htons named
  dns_build_request-layout small =
      build-named (omega arith)
      ∙ write_both _ named (drop (12 + length qname) request) (le16 (htons 1)) (le16 (htons 1)) _ _
          (λ block. ok (block, length hostname + 2 + 2 + 2 + 12)) refl (omega (arith, length-named))
          refl (omega (arith, length-drop (12 + length qname) request))
      ∙ ap₂ (λ (b : Bytes) (n : ℕ). ok (b, n)) shape total
    where
      total : length hostname + 2 + 2 + 2 + 12 ≡ length hostname + 18
      total = omega arith

      tail : drop 4 (drop (12 + length qname) request) ≡ drop (length hostname + 18) request
      tail = drop-drop 4 (12 + length qname) request ∙ ap (λ (k : ℕ). drop k request) (omega arith)

      shape :
          (named ++ (0 ∷ 1 ∷ 0 ∷ 1 ∷ [])) ++ drop 4 (drop (12 + length qname) request)
          ≡ header_bytes header ++ (qname ++ (0 ∷ 1 ∷ 0 ∷ 1 ∷ drop (length hostname + 18) request))
      shape =
          rw tail
            (append_assoc named (0 ∷ 1 ∷ 0 ∷ 1 ∷ []) _ ∙ append_assoc (header_bytes header) qname _)

  -- The question of a host name of 1007 bytes or more is written past the end of the buffer of 1024
  -- bytes.
  pub dns_build_request-overflow :
      1007 ≤ length hostname → dns_build_request header (question_in hostname qname) request ≡ fault
  unfolding finish dns_build_request header_bytes
  dns_build_request-overflow large = elim (dec_le (length hostname) 1010) [
    | yes fits ↦
        build-named fits
        ∙ write_both-fault _ (le16 (htons 1)) (le16 (htons 1)) _ _
            (λ block. ok (block, length hostname + 2 + 2 + 2 + 12))
            (omega (arith, whole, length-named)) refl (omega (arith, whole, length-named))
    | no over ↦ first_two (omega arith)
  ]
    where
      whole :
          length (named ++ drop (12 + length qname) request)
          ≡ length named + (1024 - (12 + length qname))
      whole = omega (
        arith,
        length-append named (drop (12 + length qname) request),
        length-drop (12 + length qname) request,
      )

      first_two :
          1010 < length hostname
          → dns_build_request header (question_in hostname qname) request ≡ fault
      first_two over =
          write_both-fault request (header_bytes header) qname 0 12 finish (omega arith) refl
            (omega arith)
