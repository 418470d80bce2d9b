-- ===== src/TcpHandler/Available.antt =====
-- `getAvailableDataInSocket` and `receiveData` of src/datatrasaction/server/TCPSocketHandler.cpp:
-- how much is asked for, and what happens when that is not known.
use eventplus.Prelude.{
  ℕ, ◌+◌, ◌*◌, ◌/◌, ◌%◌, ◌^◌, ◌<◌, ◌≡◌, ◌++◌, ◌≢◌, ℤ, pos, negsuc, minus_one, to_word, of_word,
  Returns, ◌-◌, suc, sym, length, lt→ltb, ne→==, suc-==-zero, ok, err, length_error, arith, ◌∙◌, ap,
}
use eventplus.Common.Details.{Bytes, EventStore}
use eventplus.Common.Os.{Os, eintr, eagain}
use eventplus.TcpHandler.{
  overwrite, failed, read_loop, finish_read, get_available_data_in_socket, int_of_size,
  receive_partial_data, receive_data,
}
use eventplus.TcpHandler.Receive.{ReadLaws, Received, receive_partial_data-Received}

-- The low half of an `ssize_t` survives its way through `size_t` to `int`.
narrowing :
    (u v : ℕ)
    → u < 2 ^ 64
    → v < 2 ^ 32
    → to_word (2 ^ 64) (of_word (2 ^ 63) (u / 2 ^ 32 * 2 ^ 32 + v)) % 2 ^ 32 ≡ v
narrowing u v hu hv = ground arith

module _ {W : Type 0} (os : Os W) (s : EventStore) (w : W) where
  -- The size that `receiveData` asks for is the `int` that the system stored, whatever the
  -- uninitialised half of the variable held.
  int_of_size-available :
      (uninit n : ℕ)
      → uninit < 2 ^ 64
      → (os.ioctl_fionread s.socket_id w).0 ≡ pos n
      → (os.ioctl_fionread s.socket_id w).1 < 2 ^ 32
      → int_of_size os (get_available_data_in_socket os uninit s w).0
        ≡ of_word (2 ^ 31) (os.ioctl_fionread s.socket_id w).1
  unfolding int_of_size get_available_data_in_socket
  int_of_size-available uninit n hu r hv = rw r (rw (narrowing uninit _ hu hv))

  pub int_of_size-told :
      (uninit n size : ℕ)
      → uninit < 2 ^ 64
      → (os.ioctl_fionread s.socket_id w).0 ≡ pos n
      → (os.ioctl_fionread s.socket_id w).1 ≡ size
      → size < 2 ^ 31
      → int_of_size os (get_available_data_in_socket os uninit s w).0 ≡ pos size
  int_of_size-told uninit n size hu r e hs =
      int_of_size-available uninit n hu r (omega arith) ∙ ground arith

  pub after-available :
      (uninit : ℕ)
      → (get_available_data_in_socket os uninit s w).1 ≡ (os.ioctl_fionread s.socket_id w).2
  unfolding get_available_data_in_socket
  after-available uninit = ground arith

  int_of_size-refused :
      (uninit : ℕ)
      → (os.ioctl_fionread s.socket_id w).0 ≡ minus_one
      → int_of_size os (get_available_data_in_socket os uninit s w).0 ≡ minus_one
  unfolding int_of_size get_available_data_in_socket
  int_of_size-refused uninit r = rw r

  receive_data_lem :
      (uninit fuel : ℕ) (text : Bytes) {asked : ℤ}
      → int_of_size os (get_available_data_in_socket os uninit s w).0 ≡ asked
      → receive_data os fuel uninit s text w
        ≡ receive_partial_data os fuel s asked text (os.ioctl_fionread s.socket_id w).2
  unfolding receive_data
  receive_data_lem uninit fuel text e = rw (e, after-available uninit)

-- On a system that keeps `ReadLaws`, with enough fuel: if the system tells that `size` bytes are
-- there, below 2 ^ 31, `receiveData` reads for that many bytes and ends as `Received` says,
-- whatever the uninitialised half of the variable held.
pub receive_data-Received :
    {W : Type 0} (os : Os W) (s : EventStore) (incoming : W → Bytes) (patience : W → ℕ)
    → ReadLaws os s.socket_id incoming patience
    → (w : W) (uninit n size fuel : ℕ) (text : Bytes) → uninit < 2 ^ 64
    → (os.ioctl_fionread s.socket_id w).0 ≡ pos n
    → (os.ioctl_fionread s.socket_id w).1 ≡ size
    → size < 2 ^ 31
    → size + patience (os.ioctl_fionread s.socket_id w).2 < fuel
    → Returns
        (Received os s incoming patience size text (os.ioctl_fionread s.socket_id w).2)
        (receive_data os fuel uninit s text w)
receive_data-Received os s incoming patience laws w uninit n size fuel text hu r e hs hf =
    let asked = int_of_size-told os s w uninit n size hu r e hs in
    rw (receive_data_lem os s w uninit fuel text asked)
      (receive_partial_data-Received os s incoming patience laws size text _ fuel hf)

-- If the system does not tell how much is there, `receiveData` returns nothing, not even its -1: it
-- asks for -1 bytes, and the buffer of that size throws.
pub receive_data_throws :
    {W : Type 0} (os : Os W) (s : EventStore) (w : W) (uninit fuel : ℕ) (text : Bytes)
    → (os.ioctl_fionread s.socket_id w).0 ≡ minus_one
    → receive_data os fuel uninit s text w ≡ err length_error
unfolding receive_partial_data
receive_data_throws os s w uninit fuel text r =
    rw (receive_data_lem os s w uninit fuel text (int_of_size-refused os s w uninit r))

-- One round of the loop that reads something, and one in which the read fails for good.
module _ {W : Type 0} (os : Os W) (s : EventStore) where
  read_loop-more :
      (fuel size total n k : ℕ) (b : Bytes) (w : W)
      → total < size
      → size - total ≡ n
      → let reply = os.read s.socket_id n w in
        reply.0 ≡ pos (suc k)
        → read_loop os (suc fuel) s size b total w
          ≡ read_loop os fuel s size (overwrite b total reply.1) (total + suc k) reply.2
  unfolding read_loop
  read_loop-more fuel size total n k b w h e r = rw (lt→ltb _ _ h, e, r, suc-==-zero k)

  read_loop-failed :
      (fuel size total n k : ℕ) (b : Bytes) (w : W)
      → total < size
      → size - total ≡ n
      → let reply = os.read s.socket_id n w in
        reply.0 ≡ negsuc k
        → os.errno reply.2 ≢ eintr
        → os.errno reply.2 ≢ eagain
        → read_loop os (suc fuel) s size b total w ≡ ok (failed, reply.2)
  unfolding read_loop
  read_loop-failed fuel size total n k b w h e r a c =
      rw (lt→ltb _ _ h, e, r, ne→== _ _ a, ne→== _ _ c)

-- A read that fails for good after another one has succeeded, on a system that keeps `ReadLaws`:
-- the bytes of the first are gone. `receivePartialData` returns -1, leaves the text alone, and they
-- are in the stream no more.
pub receive_partial_data_drops :
    {W : Type 0} (os : Os W) (s : EventStore) (incoming : W → Bytes) (patience : W → ℕ)
    → ReadLaws os s.socket_id incoming patience
    → (size k m fuel : ℕ) (text : Bytes) (w : W) → suc k < size
    → let first = os.read s.socket_id size w in
      let second = os.read s.socket_id (size - suc k) first.2 in
      first.0 ≡ pos (suc k)
      → second.0 ≡ negsuc m
      → os.errno second.2 ≢ eintr
      → os.errno second.2 ≢ eagain
      → (receive_partial_data os (suc (suc fuel)) s (pos size) text w
          ≡ ok (minus_one, text, second.2))
        × (incoming w ≡ first.1 ++ incoming second.2)
        × (length first.1 ≡ suc k)
unfolding receive_partial_data finish_read
receive_partial_data_drops os s incoming patience laws size k m fuel text w h f g a b =
    let (_, count, i) = laws.stored size w (suc k) f in
    (
      rw (
        read_loop-more os s (suc fuel) size 0 size k _ w (omega arith) (omega arith) f,
        read_loop-failed os s fuel size (0 + suc k) (size - suc k) m _ _ (omega arith) (omega arith)
            g a b,
      ),
      i ∙ ap (◌++◌ _) (sym (laws.refused _ _ m g).1),
      count,
    )
