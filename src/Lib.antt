-- ===== src/Lib.antt =====
-- NanoTrade: an exchange with a limit order book, and trading clients that connect to it.
--
-- A request of a client goes from its order manager (trading/strategy/order_manager.h), which asks
-- the risk manager (trading/strategy/risk_manager.h), through the order gateway
-- (trading/order_gw/order_gateway.cpp) over TCP to the order server
-- (exchange/order_server/order_server.h). The sequencer (exchange/order_server/fifo_sequencer.h)
-- arranges what the server has read and passes it to the matching engine
-- (exchange/matcher/matching_engine.h), which keeps an order book per instrument
-- (exchange/matcher/me_order_book.h). Responses go back through the order server and the gateway.
-- Market updates go to the publisher (exchange/market_data/market_data_publisher.cpp), which sends
-- them on the incremental stream and to the snapshot synthesizer
-- (exchange/market_data/snapshot_synthesizer.cpp); the market data consumer of a client
-- (trading/market_data/market_data_consumer.cpp) puts them in order again, with a snapshot when one
-- was lost. The trade engine of the client (trading/strategy/trade_engine.cpp) builds a book of each
-- instrument from them (trading/strategy/market_order_book.h), keeps positions and profits
-- (trading/strategy/position_keeper.h) and runs a market maker or a liquidity taker
-- (trading/strategy/market_maker.h, trading/strategy/liquidity_taker.h). All links between threads are
-- queues of common/lf_queue.h, and nodes and orders live in pools of common/mem_pool.h.
--
-- Files:
--   Base         helpers: tests, lists, integers, arrays, the outcomes of a call (Base/Outcome), circular
--                doubly linked lists over a store (Base/Ring, Base/Linked), lists of distinct
--                addresses (Base/Distinct), numbers as bytes (Base/Bytes) and the operations on
--                `double` (Base/Double)
--   Common       common/: Types (types.h), MemPool (mem_pool.h, opt_mem_pool.h), LfQueue (lf_queue.h),
--                Socket (tcp_socket.h and .cpp, mcast_socket.h and .cpp), TcpServer (tcp_server.h and
--                .cpp), Logger (logging.h, opt_logging.h)
--   Exchange     exchange/: Messages (client_request.h, client_response.h, market_update.h), Book
--                (me_order.h, me_order_book.h and .cpp), MatchingEngine, Sequencer
--                (fifo_sequencer.h), OrderServer, Snapshot (market_data_publisher.cpp,
--                snapshot_synthesizer.cpp)
--   Trading      trading/: OrderGateway, MarketDataConsumer, MarketOrder (market_order.h),
--                MarketOrderBook (market_order_book.h and .cpp), PositionKeeper, FeatureEngine,
--                Strategies (market_maker.h, liquidity_taker.h), OrderManager, RiskManager,
--                TradeEngine
--   Backtest     backtest/: FillSimulator (fill_simulator.h and .cpp), which stands in for the
--                exchange when a strategy is run on recorded data; LobsterReplay
--                (lobster_replay.cpp) and BinanceReplay (binance_aggtrades_replay.cpp), which turn
--                the data into market updates, with Csv, and Stream for what they share
--
-- Conventions. A C++ object is a record and a method a function that returns the new record; a method
-- that can fail returns an `Outcome`, whose faults are a failed ASSERT or FATAL, an index out of range
-- and a null pointer. A pointer into a pool is the index of its block, and the null pointer is `none`.
-- Unsigned numbers are natural numbers with `% 2 ^ w` where they can wrap; prices are integers. What a
-- book or an order manager sends is a list that grows at its end, in the order of the calls. Names
-- follow the source in another spelling: `MEOrderBook::addOrder` is `Book.Orders.add_order`.
--
-- Fuel. The search for a free block (`search_free`) takes one round for each block and one more, which
-- is enough for a build with its assertion; a build without it may search for ever. The walk over the
-- price levels and the matching loop are given one round more than there are blocks in the pool of
-- levels and in that of orders, and report `out_of_fuel` past them. So is the loop of `updateBBO` over
-- the orders of a level, and the loops of the trade engine are given one round more than its queues
-- hold. The loop over the messages in a socket's buffer, and that of the logger over its queue, are
-- given one round more than there are bytes and elements.
--
-- Parameters. `std::sort` is a record of a function and of what the standard promises of it;
-- `double` is a type with its operations (Base/Double), of which nothing is assumed;
-- `std::from_chars` is a record of functions on the text of a field, and the stream of a log file a
-- record of what it prints for a number. How a packed struct lies in memory is a record `Layout`,
-- which for the client responses is that of Trading/OrderGateway/Packed; the kernel behind a socket
-- is the number of bytes that it hands over or takes at each call.
--
-- Not modelled: time stamps and measurements, the threads themselves, memory order, the printing
-- functions, the variant of the order book for benchmarks, and the recorder and the main program of
-- the backtest. Apart from the order server and the gateway, a callback on a socket is given the
-- complete messages of its buffer. The overflow of a signed integer, which is undefined, in the risk
-- check, the profits, the features and the quotes is not modelled.
pub mod Backtest
pub mod Base
pub mod Common
pub mod Exchange
pub mod Trading
