-- ===== src/Common/TcpServer/Tests.antt =====
-- A server with one client, which another client asks for a connection.
use nano_trade.Base.{ℕ, ◌≡◌, refl, true, false, [], ◌∷◌}
use nano_trade.Base.Lists.{All}
use nano_trade.Base.Outcome.{ok}
use nano_trade.Common.TcpServer.{TcpServer, Event, has_request, poll}
use nano_trade.Common.TcpServer.Sockets.{Grown, IsHeard, IsAccepted, poll-Grown}

abbrev server : TcpServer
server = record { listener_socket = 3; receive_sockets = 5 ∷ []; send_sockets = [] }

abbrev readable : ℕ → Event
readable s = record { socket = s; has_in = true; has_out = false; has_error = false }

poll-Grown_example :
    (w : TcpServer) × (poll server
        (readable 5 ∷ readable 3 ∷ readable 6 ∷ [])
        (record { socket = 7; is_set_up = true; is_watched = true } ∷ [])
      ≡ ok w)
    × Grown server w
    × All (IsHeard w) (readable 5 ∷ readable 3 ∷ readable 6 ∷ [])
    × All (IsAccepted w) (record { socket = 7; is_set_up = true; is_watched = true } ∷ [])
unfolding has_request
poll-Grown_example =
    poll-Grown server (readable 5 ∷ readable 3 ∷ readable 6 ∷ [])
      (record { socket = 7; is_set_up = true; is_watched = true } ∷ [])
      (record { set_up = refl; watched = refl }, tt) refl
