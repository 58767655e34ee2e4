-- ===== src/Chat/Sending.antt =====
-- What sending a line to a list of sessions does to each session's memory.
use test_linux.Base.{
  inl, inr, eq-cases, ℕ, suc, ◌≤◌, ◌≡◌, ◌≢◌, refl, ap, subst, sym, ◌∙◌, List, [], ◌∷◌, ◌++◌,
  append_assoc, append-nil, length, replicate, times, Bytes, arith,
}
use test_linux.Chat.Library.{KcpCalls, RoomLaws}
use test_linux.Chat.Session.{Session, send}
use test_linux.Chat.Server.{Memory, Server, put, send_all, notify}

pub put-at : {A : Type 0} (memory : ℕ → A) (id : ℕ) (a : A) → put memory id a id ≡ a
put-at memory id a = ground arith

pub put-else :
    {A : Type 0} (memory : ℕ → A) (id j : ℕ) (a : A) → id ≢ j → put memory id a j ≡ memory j
put-else memory id j a h = ground arith

-- What no message and no datagram changes in a session.
abbrev pub Still : {K : Type 0} → (s t : Session K) → Type 0
Still s t = (t.kcp_opt ≡ s.kcp_opt) × (t.addr ≡ s.addr) × (t.recv_latest_time ≡ s.recv_latest_time)

pub Still-trans : {K : Type 0} (r s t : Session K) → Still r s → Still s t → Still r t
Still-trans r s t h h' = (h'.0 ∙ h.0, h'.1 ∙ h.1, h'.2 ∙ h.2)

-- An object overwritten by one that is related to it.
pub put-related :
    {A : Type 0} (P : A → A → Type 0) (refl_P : (a : A) → P a a) (memory : ℕ → A) (id : ℕ) (a : A)
    → P (memory id) a
    → (j : ℕ) → P (memory j) (put memory id a j)
put-related P refl_P memory id a h j = elim (eq-cases id j) [
  | inl e ↦
      subst (λ (x : _). P (memory j) x) (sym (ap (λ k. put memory k a j) e ∙ put-at memory j a))
        (subst (λ k. P (memory k) a) e h)
  | inr ne ↦ subst (λ (x : _). P (memory j) x) (sym (put-else memory id j a ne)) (refl_P (memory j))
]

module _ {K : Type 0} (calls : KcpCalls K) where
  pub send_all-Still :
      (users : List ℕ) (str : Bytes) (memory : Memory K) (j : ℕ)
      → Still (memory j) (send_all calls users str memory j)
  unfolding send_all send
  send_all-Still [] str memory j = (refl, refl, refl)
  send_all-Still (user ∷ users) str memory j =
      let after = put memory user ((send calls (memory user) str).1) in
      Still-trans (memory j) (after j) (send_all calls users str after j)
        (put-related Still (λ s. (refl, refl, refl)) memory user ((send calls (memory user) str).1)
          (refl, refl, refl) j)
        (send_all-Still users str after j)

  pub notify-Still :
      (s : Server K) (str : Bytes) (j : ℕ) → Still (s.memory j) ((notify calls s str).memory j)
  unfolding notify
  notify-Still s str j = send_all-Still s.users str s.memory j

module _ {K : Type 0} (calls : KcpCalls K) (inbox sent : K → List Bytes)
    (laws : RoomLaws calls inbox sent) where
  pub send_all-inbox :
      (users : List ℕ) (str : Bytes) (memory : Memory K) (j : ℕ)
      → inbox ((send_all calls users str memory j).kcp) ≡ inbox ((memory j).kcp)
  unfolding send_all send
  send_all-inbox [] str memory j = refl
  send_all-inbox (user ∷ users) str memory j =
      let after = put memory user ((send calls (memory user) str).1) in
      send_all-inbox users str after j
      ∙ put-related (λ s t. inbox t.kcp ≡ inbox s.kcp) (λ s. refl) memory user
          ((send calls (memory user) str).1) (laws.send_inbox (memory user).kcp str) j

  -- A session takes the line as often as it is listed.
  pub send_all-sent :
      (users : List ℕ) (str : Bytes) (memory : Memory K) (j : ℕ)
      → length str ≤ 8192
      → sent ((send_all calls users str memory j).kcp)
        ≡ sent ((memory j).kcp) ++ replicate (times users j) str
  unfolding send_all send
  send_all-sent [] str memory j h = sym (append-nil _)
  send_all-sent (user ∷ users) str memory j h =
      let after = put memory user ((send calls (memory user) str).1) in
      let rest = send_all-sent users str after j h in
      let got = laws.send_sent (memory user).kcp str h in
      elim (eq-cases user j) [
        | inl e ↦
            let hit : sent (after j).kcp ≡ sent (memory j).kcp ++ str ∷ [] =
              subst (λ i. sent (after i).kcp ≡ sent (memory i).kcp ++ str ∷ []) e
                (ap (λ (s : Session K). sent s.kcp)
                    (put-at memory user ((send calls (memory user) str).1))
                  ∙ got) in
            let more : times (user ∷ users) j ≡ suc (times users j) = ground arith in
            rest
            ∙ ap (λ (l : List Bytes). l ++ replicate (times users j) str) hit
            ∙ append_assoc (sent (memory j).kcp) (str ∷ []) (replicate (times users j) str)
            ∙ ap (λ n. sent (memory j).kcp ++ replicate n str) (sym more)
        | inr ne ↦
            let no_more : times (user ∷ users) j ≡ times users j = ground arith in
            rest
            ∙ ap (λ (s : Session K). sent s.kcp ++ replicate (times users j) str)
                (put-else memory user j ((send calls (memory user) str).1) ne)
            ∙ ap (λ n. sent (memory j).kcp ++ replicate n str) (sym no_more)
      ]
