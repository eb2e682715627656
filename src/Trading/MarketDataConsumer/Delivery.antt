-- ===== src/Trading/MarketDataConsumer/Delivery.antt =====
-- Deliveries without a gap, and deliveries of a replay.
use nano_trade.Base.{ℕ, suc, ◌+◌, ◌^◌, ◌<◌, ◌≡◌, refl, ◌∙◌, ap, arith, false, List, [], ◌∷◌, map}
use nano_trade.Base.Lists.{length}
use nano_trade.Common.LfQueue.{push, pushes}
use nano_trade.Common.Types.{to_u64}
use nano_trade.Exchange.Messages.{MeMarketUpdate, MdpMarketUpdate}
use nano_trade.Trading.MarketDataConsumer.{
  MarketDataConsumer, receive, receive_all, recv_callback, replay_all,
}

-- The messages of a stream that carries the updates with numbers from `k` on.
abbrev pub numbered : ℕ → List MeMarketUpdate → List MdpMarketUpdate
numbered k [] = []
numbered k (u ∷ us) = record { seq_num = k; me_market_update = u } ∷ numbered (suc k) us

renumber :
    (c : MarketDataConsumer) (k l : ℕ)
    → k ≡ l
    → record c { next_exp_inc_seq_num = k } ≡ record c { next_exp_inc_seq_num = l }
renumber c k l e = ap (λ n. record c { next_exp_inc_seq_num = n }) e

-- The message with the expected number.
receive-next :
    (c : MarketDataConsumer) (u : MeMarketUpdate)
    → c.in_recovery ≡ false
    → c.next_exp_inc_seq_num + 1 < 2 ^ 64
    → receive false c (record { seq_num = c.next_exp_inc_seq_num; me_market_update = u })
      ≡ record c {
        next_exp_inc_seq_num = suc c.next_exp_inc_seq_num;
        incoming_md_updates = push c.incoming_md_updates u;
      }
unfolding receive
receive-next c u calm n =
    let counted : to_u64 (c.next_exp_inc_seq_num + 1) ≡ suc c.next_exp_inc_seq_num = omega arith in
    ground arith

receive_all-in_order :
    (us : List MeMarketUpdate) (c : MarketDataConsumer)
    → c.in_recovery ≡ false
    → c.next_exp_inc_seq_num + length us < 2 ^ 64
    → receive_all false c (numbered c.next_exp_inc_seq_num us) ≡ record c {
      next_exp_inc_seq_num = c.next_exp_inc_seq_num + length us;
      incoming_md_updates = pushes c.incoming_md_updates us;
    }
unfolding receive_all pushes
receive_all-in_order [] c calm n = renumber c _ _ (omega arith)
receive_all-in_order (u ∷ us) c calm n =
    let d = record c {
      next_exp_inc_seq_num = suc c.next_exp_inc_seq_num;
      incoming_md_updates = push c.incoming_md_updates u;
    } in
    ap (λ e. receive_all false e (numbered (suc c.next_exp_inc_seq_num) us))
      (receive-next c u calm (omega arith))
    ∙ receive_all-in_order us d calm (omega arith)
    ∙ renumber (record c { incoming_md_updates = pushes c.incoming_md_updates (u ∷ us) }) _ _
        (omega arith)

-- Outside a recovery, incremental messages in sequence, below 2 ^ 64, go to the trade engine in
-- order, none of them starts a recovery, and the number after them is expected next.
pub recv_callback-in_order :
    (us : List MeMarketUpdate) (c : MarketDataConsumer)
    → c.in_recovery ≡ false
    → c.next_exp_inc_seq_num + length us < 2 ^ 64
    → recv_callback false c (numbered c.next_exp_inc_seq_num us) ≡ record c {
      next_exp_inc_seq_num = c.next_exp_inc_seq_num + length us;
      incoming_md_updates = pushes c.incoming_md_updates us;
    }
unfolding recv_callback pushes
recv_callback-in_order us c calm n = receive_all-in_order us c calm n

-- A replay pushes every update to the queue of the trade engine, in the order of the messages,
-- whatever their numbers are.
pub replay_all-pushes :
    (rs : List MdpMarketUpdate) (c : MarketDataConsumer)
    → (replay_all c rs).incoming_md_updates
      ≡ pushes c.incoming_md_updates (map MdpMarketUpdate.me_market_update rs)
unfolding replay_all pushes
replay_all-pushes [] c = refl
replay_all-pushes (r ∷ rs) c = replay_all-pushes rs _
