-- ===== src/Chat/Examples.antt =====
-- The chat room over the small library.
use test_linux.Base.{
  ℕ, zero, suc, ◌+◌, ◌≡◌, refl, true, false, none, some, inr, List, [], ◌∷◌, ◌++◌, ◌==◌, replicate,
  times, ok, Bytes, pos, bytes_of, peek, if◌then◌else◌, arith,
}
use native.Mathlib.Decide.{dec_le}
use test_linux.Chat.Session.{Address, Session, default_opt, kcp_session, update}
use test_linux.Chat.Server.{
  Memory, Server, tick, arrived, body_size, run, with_session, take_datagram, update_sessions,
  left_line, join_line, get_conv, same_address,
}
use test_linux.Chat.Room.{IsRoom}
use test_linux.Chat.Ends.{IsSound, Ends}
use test_linux.Chat.Serve.{run-IsSound}
use test_linux.Chat.Lines.{Clear, lines_of, taken}
use test_linux.Chat.Datagram.{take_datagram-broadcast}
use test_linux.Chat.Oversized.{take_datagram-oversized}
use test_linux.Chat.Timeouts.{Serving}
use test_linux.Chat.Farewell.{update_sessions-farewells}
use test_linux.Chat.Join.{with_session-join, sent_before}
use test_linux.Chat.Client.{Client, kcp_client}
use test_linux.Chat.Client
use test_linux.Chat.Showing.{run-cuts}
use test_linux.Chat.Small.{
  Block, inbox, outbox, small, small-laws, one_digit, one_digit-dotted, one_digit-digits, large,
  large-laws,
}

abbrev here : Address
here = record { sin_port = 5; s_addr = 1 }

abbrev there : Address
there = record { sin_port = 6; s_addr = 2 }

-- A session that was last heard of at a time.
abbrev heard_at : (conv time : ℕ) → Address → Session Block
heard_at conv time addr = record {
  kcp_opt = record default_opt { conv = conv };
  addr = addr;
  kcp = record { waiting = []; few = omega arith; sent = [] };
  recv_latest_time = time;
  send_latest_time = 0;
}

abbrev two_sessions : Memory Block
two_sessions zero = heard_at 7 1000 here
two_sessions (suc n) = heard_at 8 9000 there

-- Two clients in the room, of which the first was heard of at 1000.
abbrev two : Server Block
two = record {
  kcp_opt = default_opt;
  sessions = (8, 1) ∷ (7, 0) ∷ [];
  buf = replicate body_size 0;
  users = 1 ∷ 0 ∷ [];
  memory = two_sessions;
  created = 2;
  wire = [];
}

two-IsRoom : IsRoom two
two-IsRoom = record {
  users_agree = λ j. refl;
  ids_once = λ j. ground arith;
  convs_once = λ c. ground arith;
  ids_below = λ j h. ground arith;
  keyed = (refl, (refl, tt));
}

abbrev header : Bytes
header = 7 ∷ replicate 23 0

-- Two messages, the second longer than the first.
abbrev hi_there : Bytes
hi_there = header ++ bytes_of "hi\nthere"

run-IsSound_example : Ends IsSound (
    run small one_digit one_digit 5
      (arrived (λ i. 3000) (some hi_there) here ∷ tick (λ i. 7000) ∷ [])
      two)
run-IsSound_example =
    run-IsSound small one_digit one_digit inbox outbox small-laws 4 (λ k. k.few) 5
      (arrived (λ i. 3000) (some hi_there) here ∷ tick (λ i. 7000) ∷ []) two (omega arith)
      (record { room = two-IsRoom; sized = refl })

abbrev two_messages : List Bytes
two_messages = bytes_of "hi" ∷ bytes_of "there" ∷ []

take_datagram-broadcast_example :
    (t : Server Block) × (take_datagram small one_digit one_digit 5
        (λ i. 3000)
        (some hi_there)
        there
        two
      ≡ ok (some t))
    × (t.users ≡ 1 ∷ 0 ∷ [])
    × (t.sessions ≡ (8, 1) ∷ (7, 0) ∷ [])
    × ((t.memory 0).recv_latest_time ≡ 1000)
    × ((j : ℕ)
        → outbox (t.memory j).kcp
          ≡ outbox (two_sessions j).kcp
            ++ taken (times (1 ∷ 0 ∷ []) j) (lines_of one_digit one_digit there two_messages))
unfolding get_conv peek dec_le
take_datagram-broadcast_example =
    take_datagram-broadcast small one_digit one_digit inbox outbox small-laws one_digit-dotted
      one_digit-digits 5 (λ i. 3000) hi_there there two 7 0 two_messages (omega arith) (omega arith)
      refl (λ j. ground arith) conv_of refl refl refl clear (omega arith)
  where
    conv_of : get_conv hi_there ≡ ok 7
    conv_of = refl

    clear : Clear two_messages
    clear = (omega arith, inr (refl, refl), (omega arith, inr (refl, refl), tt))

update_sessions-farewells_example :
    let t = update_sessions small one_digit one_digit (λ i. 7000) two in
    (t.sessions ≡ (8, 1) ∷ [])
    × ((j : ℕ) → times t.users j ≡ times (1 ∷ []) j)
    × ((j : ℕ)
        → times (1 ∷ []) j ≡ 1
        → outbox (t.memory j).kcp
          ≡ outbox (two_sessions j).kcp ++ left_line one_digit one_digit here ∷ [])
update_sessions-farewells_example =
    update_sessions-farewells small one_digit one_digit inbox outbox small-laws one_digit-dotted
      one_digit-digits (λ i. 7000) two two-IsRoom serving
  where
    serving : Serving two_sessions ((8, 1) ∷ (7, 0) ∷ [])
    serving zero h = refl
    serving (suc j) h = refl

with_session-join_example :
    let t = with_session small one_digit one_digit two 9 there in
    IsRoom t
    × (t.sessions ≡ (9, 2) ∷ (8, 1) ∷ (7, 0) ∷ [])
    × ((t.memory 2).kcp_opt.conv ≡ 9)
    × ((j : ℕ) → times t.users j ≡ times (1 ∷ 0 ∷ []) j + (if 2 == j then 1 else 0))
    × ((j : ℕ)
        → outbox (t.memory j).kcp
          ≡ sent_before small one_digit one_digit inbox outbox small-laws one_digit-dotted
              one_digit-digits two j
            ++ replicate (times t.users j) (join_line one_digit one_digit there))
with_session-join_example =
    with_session-join small one_digit one_digit inbox outbox small-laws one_digit-dotted
      one_digit-digits two 9 there two-IsRoom refl

abbrev visitor : Client Block
visitor =
    kcp_client small (record default_opt { is_server = false; keep_alive_timeout = 1000 }) here

-- The second message is cut to the two bytes of the first, with three zeros.
run-cuts_example :
    (t : Client Block) × (Client.run small 5 4000 (some hi_there) here visitor
      ≡ ok (some (true, t)))
    × (t.shown ≡ bytes_of "hi" ∷ (bytes_of "th" ++ 0 ∷ 0 ∷ 0 ∷ []) ∷ [])
unfolding dec_le kcp_client kcp_session same_address
run-cuts_example =
    run-cuts small inbox outbox small-laws 5 4000 hi_there here visitor two_messages refl refl
      (omega arith) (omega arith) fine refl (omega arith, (omega arith, tt)) (omega arith)
  where
    fine : (small.input ((update small visitor.session 4000).1.1).kcp hi_there).0 ≡ pos 0
    fine = refl

take_datagram-oversized_example :
    take_datagram large one_digit one_digit 5 (λ i. 3000) (some header) here two ≡ ok none
unfolding get_conv peek
take_datagram-oversized_example =
    take_datagram-oversized large one_digit one_digit inbox outbox large-laws 5 (λ i. 3000) header
      here two 7 0 (bytes_of "hi" ∷ []) (replicate 5000 97) [] (omega arith) (omega arith) refl refl
      refl refl refl (((λ e. cc), omega arith), tt) (omega arith) (omega arith)
