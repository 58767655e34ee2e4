-- ===== src/Chat/Lines.antt =====
-- The lines that the messages of a session come to, and their lengths.
use test_linux.Base.{
  ℕ, zero, suc, ◌^◌, ◌≤◌, ◌<◌, ◌≡◌, ◌⊎◌, refl, true, false, List, [], ◌∷◌, ◌++◌, append-nil, length,
  replicate, length-append, Bytes, htons, bytes_of, begins, departs, if◌then◌else◌, arith,
}
use test_linux.Chat.Session.{Address, get_addr_to_string, keep_alive_cmd}
use test_linux.Chat.Server.{body_size, name_of, message_line}

-- The messages that are handed to the room: up to the first empty one, without the keep-alives.
abbrev pub texts : List Bytes → List Bytes
texts [] = []
texts ([] ∷ ms) = []
texts ((c ∷ m) ∷ ms) = if begins keep_alive_cmd (c ∷ m) then texts ms else (c ∷ m) ∷ texts ms

-- When the session was last heard of: at the reading for the last keep-alive among them.
abbrev pub latest : (now : ℕ → ℕ) → List Bytes → ℕ → ℕ
latest now [] old = old
latest now ([] ∷ ms) old = old
latest now ((c ∷ m) ∷ ms) old =
    latest (λ i. now (suc i)) ms (if begins keep_alive_cmd (c ∷ m) then now 0 else old)

-- Each message fits the buffer and is a keep-alive, or tells itself from one by its own bytes.
abbrev pub Clear : List Bytes → Type 0
Clear [] = Unit
Clear (m ∷ ms) =
    (length m ≤ body_size)
    × ((begins keep_alive_cmd m ≡ true)
        ⊎ ((begins keep_alive_cmd m ≡ false) × (departs keep_alive_cmd m ≡ true)))
    × Clear ms

-- What a session that is listed so often takes.
abbrev pub taken : ℕ → List Bytes → List Bytes
taken zero lines = []
taken (suc n) lines = lines

abbrev pub lines_of : (inet_ntoa decimal : ℕ → Bytes) → Address → List Bytes → List Bytes
lines_of inet_ntoa decimal a [] = []
lines_of inet_ntoa decimal a (m ∷ ms) =
    message_line inet_ntoa decimal a m ∷ lines_of inet_ntoa decimal a ms

pub taken-cons :
    (n : ℕ) (l : Bytes) (ls : List Bytes) → n ≤ 1 → replicate n l ++ taken n ls ≡ taken n (l ∷ ls)
taken-cons zero l ls h = refl
taken-cons (suc zero) l ls h = refl
taken-cons (suc (suc n)) l ls h = absurd (omega arith)

pub taken-none : (n : ℕ) (l : List Bytes) → l ++ taken n [] ≡ l
taken-none zero l = append-nil l
taken-none (suc n) l = append-nil l

module _ (inet_ntoa decimal : ℕ → Bytes) (dotted : (n : ℕ) → length (inet_ntoa n) ≤ 15)
    (digits : (n : ℕ) → n < 2 ^ 16 → length (decimal n) ≤ 5) where
  pub length-get_addr_to_string :
      (a : Address) → length (get_addr_to_string inet_ntoa decimal a) ≤ 21
  unfolding get_addr_to_string htons
  length-get_addr_to_string a = omega (
    arith,
    length-append (inet_ntoa a.s_addr) (bytes_of ":" ++ decimal (htons a.sin_port)),
    dotted a.s_addr,
    digits (htons a.sin_port) (omega arith),
  )

  pub length-message_line :
      (a : Address) (m : Bytes)
      → length m ≤ body_size
      → length (message_line inet_ntoa decimal a m) ≤ 8192
  unfolding message_line name_of
  length-message_line a m fits = omega (
    arith,
    length-append (name_of inet_ntoa decimal a) (bytes_of "] : " ++ m),
    length-append (bytes_of "user from [") (get_addr_to_string inet_ntoa decimal a),
    length-get_addr_to_string a,
  )
