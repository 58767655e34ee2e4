-- ===== src/Chat/Oversized.antt =====
-- What a message that is too long for the server's buffer does to it.
use test_linux.Base.{
  ℕ, zero, suc, ◌≤◌, ◌<◌, ◌≡◌, ◌≢◌, refl, ap, ◌∙◌, none, some, List, [], ◌∷◌, ◌++◌, All, length,
  drop, length-append, length-drop, ok, Bytes, pos, arith,
}
use test_linux.Chat.Library.{KcpCalls, RoomLaws}
use test_linux.Chat.Session.{Address, Session}
use test_linux.Chat.Server.{Server, find, body_size, header_size, get_conv, take_datagram, receive}
use test_linux.Chat.Sending.{put-at}
use test_linux.Chat.Receive.{
  read, is_keep_alive, after_next, after_next-inbox, after_next-buf, receive-big, receive-next,
}
use test_linux.Chat.Datagram.{fed, handle_session-fed, take_datagram-known}

-- A message that does not end the loop.
abbrev pub IsRead : Bytes → Type 0
IsRead m = (m ≢ []) × (length m ≤ body_size)

module _ {K : Type 0} (calls : KcpCalls K) (inet_ntoa decimal : ℕ → Bytes)
    (inbox sent : K → List Bytes) (laws : RoomLaws calls inbox sent) where
  receive-oversized :
      (n : ℕ) (now : ℕ → ℕ) (id : ℕ) (s : Server K) (ms : List Bytes) (m : Bytes)
      (rest : List Bytes)
      → length ms < n
      → inbox (s.memory id).kcp ≡ ms ++ m ∷ rest
      → All IsRead ms
      → body_size < length m
      → length s.buf ≡ body_size
      → receive calls inet_ntoa decimal n now id s ≡ ok none
  receive-oversized zero now id s ms m rest enough e fit big sized = absurd (omega arith)
  receive-oversized (suc n) now id s [] m rest enough e fit big sized =
      receive-big calls inet_ntoa decimal inbox sent laws n now id s m rest e big
  receive-oversized (suc n) now id s ([] ∷ ms) m rest enough e fit big sized = absurd (fit.0.0 refl)
  receive-oversized (suc n) now id s ((c ∷ w) ∷ ms) m rest enough e fit big sized =
      let b = is_keep_alive calls ((read calls s id (c ∷ w)).buf) in
      let u = after_next calls inet_ntoa decimal inbox sent laws s id (now 0) (c ∷ w) b in
      receive-next calls inet_ntoa decimal inbox sent laws n now id s c w (ms ++ m ∷ rest) e fit.0.1
        sized
      ∙ receive-oversized n (λ i. now (suc i)) id u ms m rest (omega arith)
          (after_next-inbox calls inet_ntoa decimal inbox sent laws s id (now 0) (c ∷ w)
            (ms ++ m ∷ rest) b e fit.0.1)
          fit.1 big
          (after_next-buf calls inet_ntoa decimal inbox sent laws s id (now 0) (c ∷ w) b
              (omega (arith, fit.0))
            ∙ sized)

  -- Over a kcp library that keeps to its laws: for a datagram of 24 to 4096 bytes from a client
  -- whose conv the server knows, which the library accepts and after which a message of more than
  -- 4096 bytes waits behind others that are not empty and fit, where the server's buffer has 4096
  -- bytes, on more fuel than there are of these others: the server's process exits.
  pub take_datagram-oversized :
      (n : ℕ) (now : ℕ → ℕ) (d : Bytes) (addr : Address) (s : Server K) (conv id : ℕ)
      (ms : List Bytes) (m : Bytes) (rest : List Bytes)
      → header_size ≤ length d
      → length d ≤ body_size
      → length s.buf ≡ body_size
      → get_conv d ≡ ok conv
      → find conv s.sessions ≡ some id
      → (calls.input (s.memory id).kcp d).0 ≡ pos 0
      → inbox ((calls.input (s.memory id).kcp d).1) ≡ ms ++ m ∷ rest
      → All IsRead ms
      → body_size < length m
      → length ms < n
      → take_datagram calls inet_ntoa decimal n now (some d) addr s ≡ ok none
  take_datagram-oversized n now d addr s conv id ms m rest long fits sized names known fine waits
        fit big enough =
      let (u, e, (users, sessions, buf, at, heard, kcp)) =
        take_datagram-known calls inet_ntoa decimal inbox sent laws n now d addr s conv id long fits
          sized names known in
      e
      ∙ handle_session-fed calls inet_ntoa decimal inbox sent laws n now id u d
          (drop (length d) s.buf) buf (ap (λ (k : K). (calls.input k d).0) (kcp id) ∙ fine)
      ∙ receive-oversized n now id (fed calls inet_ntoa decimal inbox sent laws u id d) ms m rest
          enough
          (ap (λ (a : Session K). inbox a.kcp)
              (put-at u.memory id
                (record (u.memory id) { kcp = (calls.input (u.memory id).kcp d).1 }))
            ∙ ap (λ (k : K). inbox ((calls.input k d).1)) (kcp id)
            ∙ waits)
          fit big
          (ap length buf
            ∙ omega (arith, length-append d (drop (length d) s.buf), length-drop (length d) s.buf))
