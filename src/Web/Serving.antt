-- ===== src/Web/Serving.antt =====
-- Whole responses of test8/reactor.cpp, and what ends the server.
use test_linux.Base.{
  ℕ, suc, ◌+◌, ◌≤◌, ◌≡◌, ◌≢◌, refl, sym, ap, subst, ◌∙◌, Bool, true, false, Option, none, some,
  List, [], ◌∷◌, ◌++◌, append_assoc, length, length-append, All, arith, ℤ, Run, ok, ◌>>=◌, Bytes,
}
use test_linux.Web.Connection.{Connection, Interest, epollin, epollout, Peer}
use test_linux.Web.Response.{Cache}
use test_linux.Web.Reactor.{WriteAnswer, set_event, write_callback}
use test_linux.Web.Phases.{IsCache, Fresh, Phase, fresh, in_header, in_body, in_file}
use test_linux.Web.Writing.{message, Stalled, Turn, waits, hangs_up, moves, completes}
use test_linux.Web.Turns.{write_callback-Turn}

abbrev pub awaits : Option Interest → Bool
awaits (some epollout) = true
awaits (some epollin) = false
awaits none = false

-- The calls of `write_callback` on one connection, one each time that it is watched for output; not a
-- function of the source, whose `main` makes them through `reactor_loop`.
unfoldable pub write_while : (ℕ → Bytes) → List WriteAnswer → Cache → Peer → Run (Cache × Peer)
unfolding write_callback
write_while header_for [] k p = ok (k, p)
write_while header_for (a ∷ answers) k p = elim (awaits p.watched) [
  | false ↦ ok (k, p)
  | true ↦ do (_, k, p) ← write_callback header_for a k p; write_while header_for answers k p
]

-- `open` answers, and the file is as it was cached.
pub record Kept (k : Cache) (a : WriteAnswer) : Type 0 where
  pub opened : (filefd : ℕ) × (a.opens ≡ some filefd)
  pub same : a.on_disk ≡ k.content

-- The peer takes some bytes, too.
pub record Flowing (k : Cache) (a : WriteAnswer) : Type 0 where
  pub kept : Kept k a
  pub takes : (n : ℕ) × (a.takes ≡ some (suc n))

-- What is left of the response.
pub remains :
    {k : Cache} {c : Connection} {wire : Bytes}
    → IsCache k
    → Phase k c wire
    → (left : Bytes) × (left ≢ []) × (wire ++ left ≡ message k)
remains {k} is (fresh f) = (
  message k,
  (λ e. is.some_header (front k.header e)),
  ap (λ (l : Bytes). l ++ message k) f.wire_empty,
)
  where
    front : (h : Bytes) → h ++ k.content ≡ [] → h ≡ []
    front [] e = refl
    front (x ∷ h) e = cc
remains {k} {c} {wire} is (in_header h i) = (
  h ++ k.content,
  (λ e. is.some_content (back h e)),
  sym (append_assoc wire h k.content) ∙ ap (λ (l : Bytes). l ++ k.content) i.split,
)
  where
    back : (h : Bytes) → h ++ k.content ≡ [] → k.content ≡ []
    back [] e = e
    back (x ∷ h) e = cc
remains {k} is (in_body b left i) = (
  left,
  i.part.more,
  ap (λ (l : Bytes). l ++ left) i.part.front
      ∙ (append_assoc k.header b left ∙ ap (λ (l : Bytes). k.header ++ l) i.part.split),
)
remains {k} is (in_file b left i) = (
  left,
  i.part.more,
  ap (λ (l : Bytes). l ++ left) i.part.front
      ∙ (append_assoc k.header b left ∙ ap (λ (l : Bytes). k.header ++ l) i.part.split),
)

-- The end of a response.
pub record Answered (k : Cache) (q : Peer) : Type 0 where
  pub wire : q.wire ≡ message k
  pub watched : q.watched ≡ some epollin
  pub ready : Fresh k q.conn []

module _ {k : Cache} (is : IsCache k) (header_for : ℕ → Bytes) where
  write_while-idle :
      (answers : List WriteAnswer) (p : Peer)
      → p.watched ≡ some epollin
      → write_while header_for answers k p ≡ ok (k, p)
  unfolding write_while
  write_while-idle [] p e = refl
  write_while-idle (a ∷ answers) p e = rw e refl

  write_while-next :
      (a : WriteAnswer) (answers : List WriteAnswer) (p : Peer) {code : ℤ} {q : Peer}
      {r : Run (Cache × Peer)}
      → p.watched ≡ some epollout
      → write_callback header_for a k p ≡ ok (code, k, q)
      → write_while header_for answers k q ≡ r
      → write_while header_for (a ∷ answers) k p ≡ r
  unfolding write_while
  write_while-next a answers p e e' rest = ground (arith, e, e', rest)

  pub write_while-whole :
      (answers : List WriteAnswer) (p : Peer)
      → All (Flowing k) answers
      → Phase k p.conn p.wire
      → p.watched ≡ some epollout
      → length (message k) ≤ length p.wire + length answers
      → (q : Peer) × (write_while header_for answers k p ≡ ok (k, q)) × Answered k q
  unfolding set_event
  write_while-whole [] p flow phase out enough =
      let (left, more, e) = remains is phase in
      absurd
        (ends left more (ap length (sym e) ∙ length-append p.wire left) (omega (arith, enough)))
    where
      ends :
          (left : Bytes)
          → left ≢ []
          → length (message k) ≡ length p.wire + length left
          → length (message k) ≤ length p.wire
          → ⊥
      ends [] more e h = more refl
      ends (x ∷ left) more e h = omega arith
  write_while-whole (a ∷ answers) p (flow, flows) phase out enough =
      let (filefd, opened) = flow.kept.opened in
      let (n, taken) = flow.takes in
      let (code, q, e, turn) =
        write_callback-Turn is p header_for a filefd opened flow.kept.same phase in
      go code q n taken e turn
        λ q phase' out' enough'. write_while-whole answers q flows phase' out' enough'
    where
      grows :
          (sent : Bytes) → sent ≢ [] → length (message k) ≤ length (p.wire ++ sent) + length answers
      grows [] more = absurd (more refl)
      grows (x ∷ sent) more = omega (arith, enough, length-append p.wire (x ∷ sent))

      go :
          (code : ℤ) (q : Peer) (n : ℕ)
          → a.takes ≡ some (suc n)
          → write_callback header_for a k p ≡ ok (code, k, q)
          → Turn k p a.takes code q
          → ((q : Peer)
              → Phase k q.conn q.wire
              → q.watched ≡ some epollout
              → length (message k) ≤ length q.wire + length answers
              → (q' : Peer) × (write_while header_for answers k q ≡ ok (k, q')) × Answered k q')
          → (q : Peer) × (write_while header_for (a ∷ answers) k p ≡ ok (k, q)) × Answered k q
      go code q n taken e (waits c stalled phase) rest = absurd (subst Stalled taken stalled)
      go code q n taken e (hangs_up c stalled) rest = absurd (subst Stalled taken stalled)
      go code q n taken e (moves c sent more phase') rest =
          let (q', e', done) = rest q phase' out (grows sent more) in
          (q', write_while-next a answers p out e e', done)
      go code q n taken e (completes c sent more wire ready) rest =
          let watched : q.watched ≡ some epollin = rw out refl in
          (
            q,
            write_while-next a answers p out e (write_while-idle answers q watched),
            record { wire = wire; watched = watched; ready = ready },
          )
