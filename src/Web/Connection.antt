-- ===== src/Web/Connection.antt =====
-- `connection` of test8/webserver.h, and what epoll and the peer see of it.
use test_linux.Base.{ℕ, Option, none, some, replicate, Bytes}

abbrev pub buffer_length : ℕ
buffer_length = 1024

abbrev pub max_conns : ℕ
max_conns = 1048576

pub data Callback : Type 0 where
  read_cb : Callback
  write_cb : Callback
  listen_cb : Callback

-- `w_file_fd` is none for -1.
pub record Connection : Type 0 where
  pub fd : ℕ
  pub rbuffer : Bytes
  pub rlength : ℕ
  pub wbuffer : Bytes
  pub wlength : ℕ
  pub wstatus : ℕ
  pub woffset : ℕ
  pub wtotallength : ℕ
  pub w_file_fd : Option ℕ
  pub wfile_offset : ℕ
  pub send_cb : Option Callback
  pub recv_cb : Option Callback

abbrev pub new_connection : Connection
new_connection = record {
  fd = 0;
  rbuffer = replicate buffer_length 0;
  rlength = 0;
  wbuffer = replicate buffer_length 0;
  wlength = 0;
  wstatus = 0;
  woffset = 0;
  wtotallength = 0;
  w_file_fd = none;
  wfile_offset = 0;
  send_cb = none;
  recv_cb = none;
}

-- The offset into the file is put back only where a file is open.
unfoldable pub reset_w : Connection → Connection
reset_w c = record c {
  wstatus = 0;
  woffset = 0;
  wlength = 0;
  wtotallength = 0;
  wfile_offset = elim c.w_file_fd [ none ↦ c.wfile_offset | some _ ↦ 0 ];
  w_file_fd = none;
}

pub data Interest : Type 0 where
  epollin : Interest
  epollout : Interest

-- A connection, what epoll watches of its descriptor, and the bytes that its peer has been sent since its
-- last request.
pub record Peer : Type 0 where
  pub conn : Connection
  pub watched : Option Interest
  pub wire : Bytes
