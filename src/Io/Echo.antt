-- ===== src/Io/Echo.antt =====
-- The two plain receive loops of 2.3.1-coroutine/server_mulport_epoll.c: `client_cb`, which sends
-- back what comes on a blocking socket, and `epoll_et_loop`, which drains an edge-triggered one.
-- The system answers with the list of what each `recv` finds; one that ends first leaves the loop
-- going.
use test_linux.Base.{
  ℕ, zero, suc, ◌≤◌, ◌<◌, ◌≡◌, refl, ap, ◌∙◌, Bool, true, false, Option, none, some, List, [], ◌∷◌,
  ◌++◌, append_assoc, append-nil, arith, ◌==◌, length, take, Bytes, if◌then◌else◌, All,
}
use test_linux.Io.Errno.{eagain, Incoming, bytes, failed}

abbrev pub max_buffer : ℕ
max_buffer = 128

-- `client_cb`: each chunk received is sent back; the result is what was handed to `send`, chunk by
-- chunk.
unfoldable pub client_cb : List Incoming → List Bytes → Option (List Bytes)
client_cb [] sent = none
client_cb (failed errno ∷ is) sent = some sent
client_cb (bytes b ∷ is) sent = elim (take max_buffer b) [
  | [] ↦ some sent
  | c ∷ cs ↦ client_cb is (sent ++ (c ∷ cs) ∷ [])
]

-- `epoll_et_loop`: what was read, and whether the socket was closed.
unfoldable pub epoll_et_loop : List Incoming → Bytes → Option (Bytes × Bool)
epoll_et_loop [] out = none
epoll_et_loop (failed errno ∷ is) out = some (out, (if errno == eagain then false else true))
epoll_et_loop (bytes b ∷ is) out = elim (take max_buffer b) [
  | [] ↦ some (out, true)
  | c ∷ cs ↦ epoll_et_loop is (out ++ c ∷ cs)
]

-- Chunks that one `recv` can return.
abbrev pub IsChunk : Bytes → Type 0
IsChunk b = (0 < length b) × (length b ≤ max_buffer)

abbrev pub incoming : List Bytes → List Incoming → List Incoming
incoming [] rest = rest
incoming (b ∷ bs) rest = bytes b ∷ incoming bs rest

abbrev pub concat : List Bytes → Bytes
concat [] = []
concat (b ∷ bs) = b ++ concat bs

pub take-chunk : (n : ℕ) (b : Bytes) → length b ≤ n → take n b ≡ b
take-chunk zero [] h = refl
take-chunk zero (x ∷ b) h = elim h [ ]
take-chunk (suc n) [] h = refl
take-chunk (suc n) (x ∷ b) h = ap (λ (t : Bytes). x ∷ t) (take-chunk n b (omega arith))

-- What ends the loops: the peer's close, or an error.
abbrev pub IsLast : Incoming → Type 0
IsLast (bytes b) = b ≡ []
IsLast (failed errno) = Unit

-- `client_cb` sends back every chunk that comes before the close or the error, in order, and nothing
-- else.
pub client_cb-echo :
    (chunks sent : List Bytes) (last : Incoming) (is : List Incoming)
    → All IsChunk chunks
    → IsLast last
    → client_cb (incoming chunks (last ∷ is)) sent ≡ some (sent ++ chunks)
unfolding client_cb
client_cb-echo [] sent (failed errno) is ok_chunks end = rw (append-nil sent)
client_cb-echo [] sent (bytes b) is ok_chunks end = rw (end, append-nil sent)
client_cb-echo ([] ∷ chunks) sent last is ok_chunks end = absurd (omega arith)
client_cb-echo ((c ∷ cs) ∷ chunks) sent last is ok_chunks end =
    rw (take-chunk max_buffer (c ∷ cs) ok_chunks.0.1) (
      client_cb-echo chunks (sent ++ (c ∷ cs) ∷ []) last is ok_chunks.1 end
      ∙ ap some (append_assoc sent ((c ∷ cs) ∷ []) chunks))

-- Whether what ends the drain also closes the socket.
abbrev pub closes : Incoming → Bool
closes (bytes b) = true
closes (failed errno) = if errno == eagain then false else true

-- `epoll_et_loop` reads every byte that comes before the end, in order. It closes the socket at the
-- peer's close and at every error but EAGAIN, which only says that all has been read.
pub epoll_et_loop-drains :
    (chunks : List Bytes) (out : Bytes) (last : Incoming) (is : List Incoming)
    → All IsChunk chunks
    → IsLast last
    → epoll_et_loop (incoming chunks (last ∷ is)) out ≡ some (out ++ concat chunks, closes last)
unfolding epoll_et_loop
epoll_et_loop-drains [] out (failed errno) is ok_chunks end = rw (append-nil out)
epoll_et_loop-drains [] out (bytes b) is ok_chunks end = rw (end, append-nil out)
epoll_et_loop-drains ([] ∷ chunks) out last is ok_chunks end = absurd (omega arith)
epoll_et_loop-drains ((c ∷ cs) ∷ chunks) out last is ok_chunks end =
    rw (take-chunk max_buffer (c ∷ cs) ok_chunks.0.1) (
      epoll_et_loop-drains chunks (out ++ c ∷ cs) last is ok_chunks.1 end
      ∙ ap (λ (b : Bytes). some (b, closes last)) (append_assoc out (c ∷ cs) (concat chunks)))
