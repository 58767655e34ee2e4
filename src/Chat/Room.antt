-- ===== src/Chat/Room.antt =====
-- That the users of the room are the sessions of the server.
use test_linux.Base.{ℕ, ◌≤◌, ◌≡◌, ap, ◌∙◌, List, [], ◌∷◌, times}
use test_linux.Chat.Session.{KcpOpt}
use test_linux.Chat.Server.{Memory, Server}

abbrev pub ids : List (ℕ × ℕ) → List ℕ
ids [] = []
ids ((conv, id) ∷ rest) = id ∷ ids rest

abbrev pub convs : List (ℕ × ℕ) → List ℕ
convs [] = []
convs ((conv, id) ∷ rest) = conv ∷ convs rest

-- Each session under a conv was made for it.
abbrev pub Keyed : {K : Type 0} → Memory K → List (ℕ × ℕ) → Type 0
Keyed memory [] = Unit
Keyed memory ((conv, id) ∷ rest) = ((memory id).kcp_opt.conv ≡ conv) × Keyed memory rest

-- The users are the sessions of the table; a session stands in it once, a conv once, and under the
-- conv of the session; no session has the number of one still to be made.
pub record IsRoom {K : Type 0} (s : Server K) : Type 0 where
  pub users_agree : (j : ℕ) → times s.users j ≡ times (ids s.sessions) j
  pub ids_once : (j : ℕ) → times (ids s.sessions) j ≤ 1
  pub convs_once : (c : ℕ) → times (convs s.sessions) c ≤ 1
  pub ids_below : (j : ℕ) → s.created ≤ j → times (ids s.sessions) j ≡ 0
  pub keyed : Keyed s.memory s.sessions

-- Keeps a session's options.
abbrev pub SameOpts : {K : Type 0} → Memory K → Memory K → Type 0
SameOpts memory after = (j : ℕ) → (after j).kcp_opt ≡ (memory j).kcp_opt

pub SameOpts-Keyed :
    {K : Type 0} (memory after : Memory K) (es : List (ℕ × ℕ))
    → SameOpts memory after
    → Keyed memory es
    → Keyed after es
SameOpts-Keyed memory after [] same keyed = tt
SameOpts-Keyed memory after ((conv, id) ∷ rest) same keyed =
    (ap (λ (o : KcpOpt). o.conv) (same id) ∙ keyed.0, SameOpts-Keyed memory after rest same keyed.1)
