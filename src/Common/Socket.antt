-- ===== src/Common/Socket.antt =====
-- common/tcp_socket.h, tcp_socket.cpp, mcast_socket.h and mcast_socket.cpp: the buffers between the
-- program and the kernel. A buffer is the list of the bytes that are valid in it. What the kernel
-- does is an argument: how many bytes of those that are pending it hands over, and its time stamp.
pub mod Framing
pub mod Delivery
use nano_trade.Base.{
  ℕ, ◌+◌, ◌-◌, ◌*◌, ◌^◌, Bool, true, false, not, ltb, leb, ◌==◌, if◌then◌else◌, min, List, [], ◌∷◌,
  ◌++◌,
}
use nano_trade.Base.Lists.{length}
use nano_trade.Base.Slices.{take, drop}
use nano_trade.Base.Outcome.{Outcome, ok, fault, fatal, overflow, and_then}

-- `TCPBufferSize` and `McastBufferSize`
abbrev pub buffer_size : ℕ
buffer_size = 64 * 2 ^ 20

-- `TCPSocket` and `McastSocket`: the counts are the lengths of the lists.
pub record Socket : Type 0 where
  pub outbound : List ℕ
  pub inbound : List ℕ

unfoldable pub init : Socket
init = record { outbound = []; inbound = [] }

-- `TCPSocket::send`: the copy is not checked against the buffer, and past its end it is undefined.
unfoldable pub tcp_send : Socket → List ℕ → Outcome Socket
tcp_send s bytes =
    if ltb buffer_size (length s.outbound + length bytes)
    then fault overflow
    else ok (record s { outbound = s.outbound ++ bytes })

-- `McastSocket::send`: the assertion comes after the copy, and does not allow a full buffer.
unfoldable pub mcast_send : Socket → List ℕ → Outcome Socket
mcast_send s bytes =
    if ltb buffer_size (length s.outbound + length bytes)
    then fault overflow
    else if leb buffer_size (length s.outbound + length bytes)
    then fault fatal
    else ok (record s { outbound = s.outbound ++ bytes })

-- `recvmsg` and `recv`: of the bytes that are pending the kernel hands over as many as it has at
-- hand, `arrived`, and as fit in the rest of the buffer.
abbrev pub read_size : Socket → ℕ → ℕ
read_size s arrived = min arrived (buffer_size - length s.inbound)

-- `recv_callback_`, with the state of its owner.
abbrev pub Callback : Type 0 → Type 0
Callback S = Socket → ℕ → S → Outcome (Socket × S)

-- The reading half of `sendAndRecv`: the socket, its owner, what the kernel still holds, and whether
-- anything was read.
unfoldable pub receive :
    {S : Type 0}
    → Callback S
    → (arrived rx_time : ℕ) → (pending : List ℕ) → Socket
    → S
    → Outcome (Socket × S × List ℕ × Bool)
receive callback arrived rx_time pending s x =
    let chunk = take (read_size s arrived) pending in
    if length chunk == 0
    then ok (s, x, pending, false)
    else (and_then (callback (record s { inbound = s.inbound ++ chunk }) rx_time x)
        λ (t, y). ok (t, y, drop (read_size s arrived) pending, true))

-- The writing half: the bytes given to `::send`, of which the kernel takes `accepted`. The count is
-- reset whatever has been taken.
unfoldable pub flush : (accepted : ℕ) → Socket → List ℕ × Socket
flush accepted s = (take accepted s.outbound, record s { outbound = [] })

-- `sendAndRecv`, with the bytes that have gone out.
unfoldable pub send_and_recv :
    {S : Type 0}
    → Callback S
    → (arrived rx_time accepted : ℕ) → (pending : List ℕ) → Socket
    → S
    → Outcome (Socket × S × List ℕ × Bool × List ℕ)
send_and_recv callback arrived rx_time accepted pending s x =
    and_then (receive callback arrived rx_time pending s x)
      λ (t, y, left, was_read). let (sent, u) = flush accepted t in ok (u, y, left, was_read, sent)

-- `sendAndRecv` of the multicast socket, whose callback is given no time.
unfoldable pub mcast_send_and_recv :
    {S : Type 0}
    → (Socket → S → Outcome (Socket × S))
    → (arrived accepted : ℕ) → (pending : List ℕ) → Socket
    → S
    → Outcome (Socket × S × List ℕ × Bool × List ℕ)
unfolding send_and_recv
mcast_send_and_recv callback arrived accepted =
    send_and_recv (λ s t x. callback s x) arrived 0 accepted
