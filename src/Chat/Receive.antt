-- ===== src/Chat/Receive.antt =====
-- The passes of the loop that reads a session's messages, by what waits in the inbox.
use test_linux.Base.{
  ℕ, zero, suc, ◌+◌, ◌≤◌, ◌<◌, ◌≡◌, ◌≢◌, refl, ap, ◌∙◌, Bool, true, false, Option, none, some, List,
  [], ◌∷◌, ◌++◌, length, take, drop, length-append, length-drop, take-append, Run, ok, Bytes,
  negsuc, slice, write_at, same, le→leb, if◌then◌else◌, arith, leb,
}
use test_linux.Chat.Library.{KcpCalls, RoomLaws}
use test_linux.Chat.Session.{Session, keep_alive_cmd, recv, set_keep_alive}
use test_linux.Chat.Server.{
  Server, put, body_size, handle_message, message_line, notify, heed, take_message, receive,
}
use test_linux.Chat.Sending.{put-at, send_all-inbox}

-- A write to the front of a block.
pub write_at-front :
    (block bytes : Bytes)
    → length bytes ≤ length block
    → write_at block 0 bytes ≡ ok (bytes ++ drop (length bytes) block)
unfolding write_at
write_at-front block bytes h =
    let fits : leb (0 + length bytes) (length block) ≡ true = le→leb _ _ (omega arith) in
    let e : 0 + length bytes ≡ length bytes = omega arith in
    rw fits (ap (λ n. ok (bytes ++ drop n block)) e)

pub slice-front : (block : Bytes) (n : ℕ) → n ≤ length block → slice block 0 n ≡ ok (take n block)
unfolding slice
slice-front block n h =
    let fits : leb (0 + n) (length block) ≡ true = le→leb _ _ (omega arith) in rw fits refl

module _ {K : Type 0} (calls : KcpCalls K) where
  -- The session after its next message has been read.
  abbrev pub emptied : Session K → Session K
  emptied a = record a { kcp = (calls.recv a.kcp body_size).1 }

  -- The server after it, with the message at the front of the buffer.
  abbrev pub read : Server K → ℕ → Bytes → Server K
  read s id m = record s {
    memory = put s.memory id (emptied (s.memory id));
    buf = m ++ drop (length m) s.buf;
  }

  -- The buffer is taken for a keep-alive.
  abbrev pub is_keep_alive : Bytes → Bool
  is_keep_alive buf = same (take (length keep_alive_cmd) buf) keep_alive_cmd

  unfoldable pub alive : Server K → (id current : ℕ) → Server K
  alive s id current = record s { memory = put s.memory id (set_keep_alive (s.memory id) current) }

module _ {K : Type 0} (calls : KcpCalls K) (inet_ntoa decimal : ℕ → Bytes)
    (inbox sent : K → List Bytes) (laws : RoomLaws calls inbox sent) where
  pub receive-none :
      (n : ℕ) (now : ℕ → ℕ) (id : ℕ) (s : Server K)
      → inbox (s.memory id).kcp ≡ []
      → receive calls inet_ntoa decimal (suc n) now id s ≡ ok (some (read calls s id []))
  unfolding receive recv take_message
  receive-none n now id s e =
      let (code, not_big, got) = laws.recv_none (s.memory id).kcp body_size e in
      rw got (rw (write_at-front s.buf [] (omega arith)) (ends code not_big))
    where
      ends :
          (code : ℕ)
          → code ≢ 2
          → take_message calls inet_ntoa decimal
              (receive calls inet_ntoa decimal n (λ i. now (suc i)) id)
              (negsuc code)
              id
              (now 0)
              (read calls s id [])
            ≡ ok (some (read calls s id []))
      ends zero ne = refl
      ends (suc zero) ne = refl
      ends (suc (suc zero)) ne = absurd (ne refl)
      ends (suc (suc (suc code))) ne = refl

  pub receive-big :
      (n : ℕ) (now : ℕ → ℕ) (id : ℕ) (s : Server K) (m : Bytes) (ms : List Bytes)
      → inbox (s.memory id).kcp ≡ m ∷ ms
      → body_size < length m
      → receive calls inet_ntoa decimal (suc n) now id s ≡ ok none
  unfolding receive recv take_message
  receive-big n now id s m ms e big =
      let got = laws.recv_big (s.memory id).kcp body_size m ms e big in
      rw got (rw (write_at-front s.buf [] (omega arith)) refl)

  -- An empty message ends the loop.
  pub receive-empty :
      (n : ℕ) (now : ℕ → ℕ) (id : ℕ) (s : Server K) (ms : List Bytes)
      → inbox (s.memory id).kcp ≡ [] ∷ ms
      → receive calls inet_ntoa decimal (suc n) now id s ≡ ok (some (read calls s id []))
  unfolding receive recv take_message
  receive-empty n now id s ms e =
      let (got, left) = laws.recv_next (s.memory id).kcp body_size [] ms e (omega arith) in
      rw got (rw (write_at-front s.buf [] (omega arith)) refl)

  heed-lem :
      (again : Server K → Run (Option (Server K))) (n id current : ℕ) (s : Server K) (m : Bytes)
      → slice s.buf 0 (suc n) ≡ ok m
      → (b : Bool)
      → heed calls inet_ntoa decimal again n id current s b
        ≡ again
            (if b then alive calls s id current else handle_message calls inet_ntoa decimal s id m)
  unfolding heed alive
  heed-lem again n id current s m e true = refl
  heed-lem again n id current s m e false = rw e refl

  -- Any other is handed to the room, or taken for a keep-alive.
  pub receive-next :
      (n : ℕ) (now : ℕ → ℕ) (id : ℕ) (s : Server K) (c : ℕ) (m : Bytes) (ms : List Bytes)
      → inbox (s.memory id).kcp ≡ (c ∷ m) ∷ ms
      → length (c ∷ m) ≤ body_size
      → length s.buf ≡ body_size
      → receive calls inet_ntoa decimal (suc n) now id s
        ≡ receive calls inet_ntoa decimal n
            (λ i. now (suc i))
            id
            (if is_keep_alive calls ((read calls s id (c ∷ m)).buf)
              then alive calls (read calls s id (c ∷ m)) id (now 0)
              else handle_message calls inet_ntoa decimal (read calls s id (c ∷ m)) id (c ∷ m))
  unfolding receive recv take_message alive
  receive-next n now id s c m ms e fits sized =
      let (got, left) = laws.recv_next (s.memory id).kcp body_size (c ∷ m) ms e fits in
      rw got (
        rw (write_at-front s.buf (c ∷ m) (omega arith)) (
          rw head (
            heed-lem _ (length m) id (now 0) (read calls s id (c ∷ m)) (c ∷ m) whole
              (is_keep_alive calls after))))
    where
      after : Bytes
      after = (c ∷ m) ++ drop (length (c ∷ m)) s.buf

      long : length after ≡ body_size
      long = omega (
        arith,
        length-append (c ∷ m) (drop (length (c ∷ m)) s.buf),
        length-drop (length (c ∷ m)) s.buf,
      )

      head : slice after 0 (length keep_alive_cmd) ≡ ok (take (length keep_alive_cmd) after)
      head = slice-front after (length keep_alive_cmd) (omega (arith, long))

      whole : slice after 0 (suc (length m)) ≡ ok (c ∷ m)
      whole =
          slice-front after (suc (length m)) (omega (arith, long))
          ∙ ap ok (take-append (c ∷ m) (drop (length (c ∷ m)) s.buf))

  -- The server after a message.
  abbrev pub after_next : Server K → (id current : ℕ) → Bytes → Bool → Server K
  after_next s id current m b =
      if b
      then alive calls (read calls s id m) id current
      else handle_message calls inet_ntoa decimal (read calls s id m) id m

  read-inbox :
      (s : Server K) (id : ℕ) (m : Bytes) (ms : List Bytes)
      → inbox (s.memory id).kcp ≡ m ∷ ms
      → length m ≤ body_size
      → inbox ((read calls s id m).memory id).kcp ≡ ms
  read-inbox s id m ms e fits =
      ap (λ (a : Session K). inbox a.kcp) (put-at s.memory id (emptied calls (s.memory id)))
      ∙ (laws.recv_next (s.memory id).kcp body_size m ms e fits).1

  pub after_next-inbox :
      (s : Server K) (id current : ℕ) (m : Bytes) (ms : List Bytes) (b : Bool)
      → inbox (s.memory id).kcp ≡ m ∷ ms
      → length m ≤ body_size
      → inbox ((after_next s id current m b).memory id).kcp ≡ ms
  unfolding alive handle_message notify set_keep_alive
  after_next-inbox s id current m ms true e fits =
      ap (λ (a : Session K). inbox a.kcp)
        (put-at ((read calls s id m).memory) id
          (set_keep_alive ((read calls s id m).memory id) current))
      ∙ read-inbox s id m ms e fits
  after_next-inbox s id current m ms false e fits =
      send_all-inbox calls inbox sent laws s.users
        (message_line inet_ntoa decimal ((read calls s id m).memory id).addr m)
        ((read calls s id m).memory) id
      ∙ read-inbox s id m ms e fits

  pub after_next-buf :
      (s : Server K) (id current : ℕ) (m : Bytes) (b : Bool)
      → length m ≤ length s.buf
      → length ((after_next s id current m b).buf) ≡ length s.buf
  unfolding alive handle_message notify
  after_next-buf s id current m true fits =
      omega (arith, length-append m (drop (length m) s.buf), length-drop (length m) s.buf)
  after_next-buf s id current m false fits =
      omega (arith, length-append m (drop (length m) s.buf), length-drop (length m) s.buf)
