-- ===== src/Trading/OrderGateway/Bytes.antt =====
-- The gateway and its socket: `recvCallback` (trading/order_gw/order_gateway.cpp) on the bytes of the
-- connection, and what `run` puts into the socket.
use nano_trade.Base.{ℕ, ◌≤◌, ◌<◌, ◌≡◌, refl, List, [], ◌∷◌, ◌++◌}
use nano_trade.Base.Lists.{length, All}
use nano_trade.Base.Outcome.{Outcome, ok}
use nano_trade.Common.Socket.{Socket, buffer_size}
use nano_trade.Common.Socket.Framing.{Layout, on_bytes, steps, encode_all}
use nano_trade.Common.Socket.Delivery.{reads, reads-Waits}
use nano_trade.Exchange.Messages.{OmClientResponse}
use nano_trade.Trading.OrderGateway.{OrderGateway, receive, recv_callback}

-- `recvCallback`
unfoldable pub on_read :
    Layout OmClientResponse → Socket → ℕ → OrderGateway → Outcome (Socket × OrderGateway)
on_read l s rx_time g = on_bytes l (λ h m. ok (receive h m)) s g

steps-recv_callback :
    (l : Layout OmClientResponse) (ms : List OmClientResponse) (g : OrderGateway)
    → steps l (λ h m. ok (receive h m)) g ms ≡ ok (recv_callback g ms)
unfolding recv_callback
steps-recv_callback l [] g = refl
steps-recv_callback l (m ∷ ms) g = steps-recv_callback l ms (receive g m)

-- x
pub reads-recv_callback :
    (l : Layout OmClientResponse) (ms : List OmClientResponse) (arrivals pending : List ℕ)
    (s : Socket) (g : OrderGateway) (rx_time : ℕ)
    → l.size ≤ buffer_size
    → length s.inbound < l.size
    → s.inbound ++ pending ≡ encode_all l ms
    → All l.IsValue ms
    → All (λ n. 1 ≤ n) arrivals
    → length pending ≤ length arrivals
    → reads (on_read l) rx_time arrivals pending s g
      ≡ ok (record s { inbound = [] }, recv_callback g ms, [])
unfolding on_read
reads-recv_callback l ms arrivals pending s g rx_time room short stream values some enough =
    reads-Waits l (λ h m. ok (receive h m)) (on_read l) rx_time (λ t h. refl) arrivals pending s g
      (recv_callback g ms)
      (record {
        todo = ms;
        stream = stream;
        values = values;
        short = short;
        leads = steps-recv_callback l ms g;
      })
      some enough room
