-- ===== src/Exchange/OrderServer/Link.antt =====
-- The sequence numbers of a connection, across both of its ends.
use nano_trade.Base.{
  ℕ, ◌+◌, ◌^◌, ◌≤◌, ◌<◌, ◌≡◌, ◌≢◌, ◌⊎◌, inl, inr, refl, sym, ◌∙◌, ap, arith, Bool, true, false, not,
  same_ptr, if◌then◌else◌, update, update_self, ltb-lt, leb-gt, ==-self, ==-ne, none, some, List,
  [], ◌∷◌, ◌++◌, map, append-nil, append_assoc, subst,
}
use nano_trade.Base.Lists.{length, All, length-append}
use nano_trade.Base.Outcome.{ok}
use nano_trade.Common.Types.{me_max_num_clients, to_u64}
use nano_trade.Exchange.Messages.{MeClientRequest, OmClientRequest}
use nano_trade.Exchange.Sequencer.{
  RecvTimeClientRequest, FifoSequencer, add_client_request, me_max_pending_requests,
}
use nano_trade.Exchange.OrderServer.{OrderServer, tie_socket, receive, recv_callback}
use nano_trade.Trading.OrderGateway.{OrderGateway, send_requests}

-- The server has heard the client `c` on no socket but this one.
abbrev pub IsFor : OrderServer → (c socket : ℕ) → Type 0
IsFor s c socket = (s.cid_tcp_socket c ≡ none) ⊎ (s.cid_tcp_socket c ≡ some socket)

abbrev pub stamped : ℕ → List MeClientRequest → List RecvTimeClientRequest
stamped rx_time = map λ r. record { recv_time = rx_time; request = r }

module _ (s : OrderServer) (c socket : ℕ) where
  tie_socket-tied : IsFor s c socket → (tie_socket s c socket).cid_tcp_socket c ≡ some socket
  unfolding tie_socket
  tie_socket-tied (inl e) = rw e (update_self s.cid_tcp_socket c (some socket))
  tie_socket-tied (inr e) = rw e e

  tie_socket-held :
      (k : ℕ) → s.cid_tcp_socket c ≡ some k → (tie_socket s c socket).cid_tcp_socket c ≡ some k
  unfolding tie_socket
  tie_socket-held k e = rw e e

  tie_socket-keeps :
      ((tie_socket s c socket).cid_next_exp_seq_num ≡ s.cid_next_exp_seq_num)
      × ((tie_socket s c socket).fifo_sequencer ≡ s.fifo_sequencer)
  unfolding tie_socket
  tie_socket-keeps = (ground arith, ground arith)

-- The request that the server waits for goes to the sequencer, and the next number is expected.
receive-accepts :
    (s : OrderServer) (socket rx_time : ℕ) (r : MeClientRequest)
    → r.client_id < me_max_num_clients
    → IsFor s r.client_id socket
    → s.cid_next_exp_seq_num r.client_id + 1 < 2 ^ 64
    → length s.fifo_sequencer.pending < me_max_pending_requests
    → (t : OrderServer) × (receive s socket rx_time
          (record { seq_num = s.cid_next_exp_seq_num r.client_id; me_client_request = r })
        ≡ ok t)
      × (t.cid_tcp_socket r.client_id ≡ some socket)
      × (t.cid_next_exp_seq_num r.client_id ≡ s.cid_next_exp_seq_num r.client_id + 1)
      × (t.fifo_sequencer.pending ≡ s.fifo_sequencer.pending ++ stamped rx_time (r ∷ []))
unfolding receive add_client_request
receive-accepts s socket rx_time r h f n p =
    let c = r.client_id in
    let t = tie_socket s c socket in
    let tied = tie_socket-tied s c socket f in
    let (seqs, fifo) = tie_socket-keeps s c socket in
    (
      record t {
        cid_next_exp_seq_num =
            update t.cid_next_exp_seq_num c (to_u64 (t.cid_next_exp_seq_num c + 1));
        fifo_sequencer = record t.fifo_sequencer {
          pending = t.fifo_sequencer.pending ++ stamped rx_time (r ∷ []);
        };
      },
      rw (
        ltb-lt c me_max_num_clients h,
        tied,
        ==-self,
        seqs,
        ==-self,
        fifo,
        leb-gt me_max_pending_requests (length s.fifo_sequencer.pending) p,
      ),
      tied,
      rw (==-self, seqs) (omega arith),
      ap (λ q. FifoSequencer.pending q ++ stamped rx_time (r ∷ [])) fifo,
    )

-- A gateway with a client number in range whose next number, below 2 ^ 64 throughout, is the one
-- that the server expects, and a server that has heard the client on no other socket and has room
-- in its sequencer: of a run of requests that all carry the client number of the gateway, which
-- `run` does not check, the server accepts each one, in the order in which the gateway sends them,
-- and the two agree afterwards.
pub send_requests-recv_callback :
    (rs : List MeClientRequest) (g : OrderGateway) (s : OrderServer) (socket rx_time : ℕ)
    → g.client_id < me_max_num_clients
    → All (λ r. MeClientRequest.client_id r ≡ g.client_id) rs
    → IsFor s g.client_id socket
    → g.next_outgoing_seq_num ≡ s.cid_next_exp_seq_num g.client_id
    → g.next_outgoing_seq_num + length rs < 2 ^ 64
    → length s.fifo_sequencer.pending + length rs ≤ me_max_pending_requests
    → let (ms, h) = send_requests g rs in
      (t : OrderServer) × (recv_callback s socket rx_time ms ≡ ok t)
      × (t.fifo_sequencer.pending ≡ s.fifo_sequencer.pending ++ stamped rx_time rs)
      × (h.next_outgoing_seq_num ≡ t.cid_next_exp_seq_num g.client_id)
      × IsFor t g.client_id socket
unfolding send_requests recv_callback
send_requests-recv_callback [] g s socket rx_time c own f e n p =
    (s, refl, sym (append-nil s.fifo_sequencer.pending), e, f)
send_requests-recv_callback (r ∷ rs) g s socket rx_time c own f e n p =
    let mine : r.client_id ≡ g.client_id = own.0 in
    let expected : s.cid_next_exp_seq_num r.client_id ≡ g.next_outgoing_seq_num =
      ap s.cid_next_exp_seq_num mine ∙ sym e in
    let (t, ran, tied, next, queued) =
      receive-accepts s socket rx_time r (rw mine c) (rw mine f) (omega (arith, expected))
        (omega arith) in
    let now : to_u64 (g.next_outgoing_seq_num + 1) ≡ t.cid_next_exp_seq_num g.client_id =
      omega (arith, next, expected, ap t.cid_next_exp_seq_num mine) in
    let (u, ran', queued', agree, f') =
      send_requests-recv_callback rs
        (record g { next_outgoing_seq_num = to_u64 (g.next_outgoing_seq_num + 1) }) t socket rx_time
        c own.1 (inr (ap t.cid_tcp_socket (sym mine) ∙ tied)) now (omega arith)
        (omega (
          arith,
          ap length queued,
          length-append s.fifo_sequencer.pending (stamped rx_time (r ∷ [])),
        )) in
    (
      u,
      rw
          (subst
            (λ k. receive s socket rx_time (record { seq_num = k; me_client_request = r }) ≡ ok t)
            expected ran)
          ran',
      queued'
          ∙ rw queued (
              append_assoc s.fifo_sequencer.pending (stamped rx_time (r ∷ []))
                (stamped rx_time rs)),
      agree,
      f',
    )

if-same : {A : Type 0} (b : Bool) (x : A) → (if b then x else x) ≡ x
if-same true x = refl
if-same false x = refl

-- A request of a client number in range that comes on another socket than its client's, or out of
-- sequence, changes neither the numbers that the server expects nor its sequencer.
pub receive-drops :
    (s : OrderServer) (socket rx_time : ℕ) (m : OmClientRequest)
    → m.me_client_request.client_id < me_max_num_clients
    → ((k : ℕ) × (s.cid_tcp_socket m.me_client_request.client_id ≡ some k) × (k ≢ socket))
      ⊎ (m.seq_num ≢ s.cid_next_exp_seq_num m.me_client_request.client_id)
    → (t : OrderServer) × (receive s socket rx_time m ≡ ok t)
      × (t.cid_next_exp_seq_num ≡ s.cid_next_exp_seq_num)
      × (t.fifo_sequencer ≡ s.fifo_sequencer)
unfolding receive tie_socket
receive-drops s socket rx_time m h (inl (k, tied, other)) =
    let c = m.me_client_request.client_id in
    let (seqs, fifo) = tie_socket-keeps s c socket in
    let still : (tie_socket s c socket).cid_tcp_socket c ≡ some k =
      tie_socket-held s c socket k tied in
    (
      tie_socket s c socket,
      rw (ltb-lt c me_max_num_clients h, still, ==-ne k socket other) refl,
      seqs,
      fifo,
    )
receive-drops s socket rx_time m h (inr early) =
    let c = m.me_client_request.client_id in
    let (seqs, fifo) = tie_socket-keeps s c socket in
    (
      tie_socket s c socket,
      rw (ltb-lt c me_max_num_clients h, seqs, ==-ne m.seq_num (s.cid_next_exp_seq_num c) early)
          (if-same (not (same_ptr ((tie_socket s c socket).cid_tcp_socket c) (some socket)))
            (ok (tie_socket s c socket))),
      seqs,
      fifo,
    )
