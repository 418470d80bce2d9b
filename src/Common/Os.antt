-- ===== src/Common/Os.antt =====
-- The calls of the operating system that the program makes, over a state `W` of the world outside
-- it. They are parameters of the model: an implementation of this record is an argument of every
-- definition that makes such a call. A call that fails returns -1 and leaves its reason in `errno`.
use eventplus.Prelude.{ℕ, ℤ, List, Option}
use eventplus.Common.Details.{Bytes, Ptr, SocketAddress}

abbrev pub eintr : ℕ
eintr = 4

-- EWOULDBLOCK and EAGAIN are one number on Linux.
abbrev pub eagain : ℕ
eagain = 11

pub record EpollEvent : Type 0 where
  pub events : ℕ
  pub ptr : Option Ptr

-- A member of the list that `getaddrinfo` makes; the address itself is left as its bytes.
pub record AddrInfo : Type 0 where
  pub family : ℕ
  pub socktype : ℕ
  pub protocol : ℕ
  pub addr : Bytes

pub record Os (W : Type 0) : Type 0 where
  pub errno : W → ℕ
  pub send : ℤ → Bytes → W → ℤ × W
  -- with the bytes stored at the start of the buffer
  pub read : ℤ → ℕ → W → ℤ × Bytes × W
  -- with the 32 bits stored at the address given
  pub ioctl_fionread : ℤ → W → ℤ × ℕ × W
  pub close : ℤ → W → ℤ × W
  pub accept : ℤ → W → ℤ × SocketAddress × W
  pub inet_ntop : ℕ → W → Option Bytes × W
  pub fcntl_getfd : ℤ → W → ℤ × W
  pub fcntl_getfl : ℤ → W → ℤ × W
  pub fcntl_setfl : ℤ → ℤ → W → ℤ × W
  pub epoll_create : ℕ → W → ℤ × W
  pub epoll_ctl_add : ℤ → ℤ → ℕ → Option Ptr → W → ℤ × W
  pub epoll_ctl_del : ℤ → ℤ → W → ℤ × W
  pub epoll_wait : ℤ → ℕ → ℕ → W → ℤ × List EpollEvent × W
  -- family, type and protocol
  pub socket : ℕ → ℕ → ℕ → W → ℤ × W
  pub bind : ℤ → SocketAddress → W → ℤ × W
  pub listen : ℤ → ℕ → W → ℤ × W
  pub connect : ℤ → Bytes → W → ℤ × W
  -- a status, and the addresses found
  pub getaddrinfo : Bytes → Bytes → W → ℤ × List AddrInfo × W
  pub inet_addr : Bytes → ℕ
