-- ===== src/Common/TcpServer.antt =====
-- common/tcp_server.h and tcp_server.cpp: the sockets of a server. A socket is a number; the events of
-- `epoll_wait` and the connections that `accept` yields are arguments.
pub mod Sockets
mod Tests
use nano_trade.Base.{
  ℕ, Bool, true, false, ◌&&◌, ◌||◌, not, ◌==◌, if◌then◌else◌, List, [], ◌∷◌, ◌++◌,
}
use nano_trade.Base.Outcome.{Outcome, ok, fault, fatal, and_then}

pub record TcpServer : Type 0 where
  pub listener_socket : ℕ
  pub receive_sockets : List ℕ
  pub send_sockets : List ℕ

-- One `epoll_event`: the flags EPOLLIN, EPOLLOUT, and EPOLLERR or EPOLLHUP.
pub record Event : Type 0 where
  pub socket : ℕ
  pub has_in : Bool
  pub has_out : Bool
  pub has_error : Bool

-- What `accept` yields: the new socket, and whether its options can be set and it can be watched.
pub record Connection : Type 0 where
  pub socket : ℕ
  pub is_set_up : Bool
  pub is_watched : Bool

-- `std::find(...) == end()`
unfoldable pub is_in : ℕ → List ℕ → Bool
is_in s [] = false
is_in s (t ∷ ts) = t == s || is_in s ts

-- `if (std::find(...) == end()) sockets.push_back(socket)`
unfoldable pub add_socket : ℕ → List ℕ → List ℕ
add_socket s ts = if is_in s ts then ts else ts ++ s ∷ []

abbrev add_if : Bool → ℕ → List ℕ → List ℕ
add_if b s ts = if b then add_socket s ts else ts

-- The body of the loop over the events; a connection request goes on to the next event at once.
unfoldable pub on_event : TcpServer → Event → TcpServer
on_event v e = if e.has_in && (e.socket == v.listener_socket) then v else record v {
  receive_sockets = add_if e.has_error e.socket (add_if e.has_in e.socket v.receive_sockets);
  send_sockets = add_if e.has_out e.socket v.send_sockets;
}

unfoldable pub on_events : TcpServer → List Event → TcpServer
on_events v [] = v
on_events v (e ∷ es) = on_events (on_event v e) es

-- `have_new_connection`
unfoldable pub has_request : ℕ → List Event → Bool
has_request listener [] = false
has_request listener (e ∷ es) = (e.has_in && (e.socket == listener)) || has_request listener es

-- The loop of `accept`.
unfoldable pub accept_all : TcpServer → List Connection → Outcome TcpServer
accept_all v [] = ok v
accept_all v (c ∷ cs) =
    if not c.is_set_up
    then fault fatal
    else if not c.is_watched
    then fault fatal
    else accept_all (record v { receive_sockets = add_socket c.socket v.receive_sockets }) cs

-- The events are those that `epoll_wait` yields; that they fit into the array of 1024 is not modelled.
unfoldable pub poll : TcpServer → List Event → List Connection → Outcome TcpServer
poll v es cs =
    if has_request v.listener_socket es then accept_all (on_events v es) cs else ok (on_events v es)

module _ {W : Type 0} (send_and_recv : ℕ → W → Outcome (W × Bool)) where
  -- `std::for_each` over sockets, with whether any of them has read something.
  unfoldable pub for_each : List ℕ → W → Outcome (W × Bool)
  for_each [] w = ok (w, false)
  for_each (s ∷ ss) w =
      and_then (send_and_recv s w)
        λ (x, read). and_then (for_each ss x) λ (y, more). ok (y, read || more)

  -- `sendAndRecv` of the server; `finished` is `recv_finished_callback_`.
  unfoldable pub server_send_and_recv : (finished : W → W) → TcpServer → W → Outcome W
  server_send_and_recv finished v w = and_then (for_each v.receive_sockets w) λ (x, read).
      and_then (for_each v.send_sockets (if read then finished x else x)) λ (y, _). ok y
