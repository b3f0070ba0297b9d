-- ===== src/Lib.antt =====
-- A model of Criptotrade, a paper-trading system in which agents propose orders and humans or rules
-- approve them, with the theorems that make its trading core correct.
--
-- An order enters the order store, from the API or from the loop's approval handler. The guardrails
-- check it, then it is filled at once if it is small, or waits for a human. Every decision leaves
-- entries in the ledger.
--
-- In the loop, the squad runs one cycle per pair: it asks the circuit breaker, lets the strategy agent
-- make a signal, closes the open lots whose stop or target is reached, and sends the signal through its
-- gates to the risk agent and the approval handler, which is the order store's. An executed trade is
-- netted against the paper position book, every close feeds the breaker, and both survive a restart in
-- their tables.
--
-- Files:
-- - Base: types, lists, texts, dictionaries and numbers. Floating-point numbers are an interface
--   (Base/Float): a carrier F with the operations that the code uses and no law, so that each theorem
--   holds for any arithmetic unless it asks for IsOrdered, which every IEEE comparison satisfies, or
--   for what its own file states, as Risk/Sizing/Bounds does of rounding and Autonomy/Trust of a step.
--   The tests use a fixed-point instance.
-- - Ledger: src/core/ledger.py. A ledger is the list of its entries, an entry its event type and its
--   payload; log_signal, log_fill, log_position_closed and the others append one entry.
-- - Guardrails: src/safety/guardrails.py. One function per rule; validate_order runs the rules in
--   order and reports the violations and what the alert sink was sent.
-- - Orders: src/hitl/orders.py with the table of migrations/001_orders_and_cycles.sql. Orders/Table is
--   the SQL on a list of rows, Orders/Store the methods of OrderStore, Orders/Bridge the wait for a
--   decision and the handler that the loop calls. Each method is one step on the tables that all
--   processes share, and a run is any sequence of steps. Orders/Rows and Orders/Lifecycle hold what a
--   step may change, Orders/Fills and Orders/Booked the ledger against the table, Orders/Gate the
--   outcome of a submission, Orders/Waiting what the loop learns and Orders/Late what it does not. The
--   source reads and writes over separate connections; that a method is one step is an assumption.
-- - Squad: src/orchestration/squad_orchestrator.py and position_store.py. Squad holds the state of the
--   paper desk: the breaker, the book and their tables. Squad/Breaker is CircuitBreaker, Squad/Book the
--   book with first-in first-out matching (Fill), Squad/Throttle the throttled notices, Squad/Cycle the
--   squad's state, Squad/Analyze the gates of analyze_and_trade and Squad/Pipeline the steps after them.
--   Breaker/Streak, Breaker/Restart, Breaker/Frame, Book/Mirror, Book/Plan, Book/Sound, Book/Quantity,
--   Book/Reload, Throttle/Laws, Slots, Room, Invariant and Gates hold the theorems. The strategy, risk
--   and execution agents, the approval handler and the fill callback are functions that a cycle takes,
--   so that its theorems hold for all of them; the handler and the callback may change the ledger and a
--   state of their own.
-- - Risk: src/risk/capital_protections.py and, in Risk/Sizing, position_sizing.py. Risk/Limits says when
--   trading is blocked, Risk/Sizing/Bounds how large a size can be.
-- - Access: src/auth/rbac.py and the guards of src/api/authn.py, on a request whose principal the
--   middleware has resolved; Access/Perms has the theorems. Access/RateLimit is the in-memory limiter of
--   src/core/ratelimit.py against one that keeps the whole history.
-- - Autonomy: src/hitl/progressive_autonomy.py. Autonomy/Trust is about requests without a handler.
-- - Consensus: src/consensus/weighted_voting.py. Consensus/Winner is about the maker of the decision.
-- - Accounts: src/auth/store.py, security.py, src/api/routes/auth.py, users.py, account.py, security.py and
--   src/api/authn.py. Accounts holds the rows; Accounts/Security, Users, Invites and Sessions are the
--   stores, Accounts/Http, Login, Routes, Admin and SelfService the routes, Accounts/Principals the
--   resolution of a request. Accounts/Lifecycle and Kept say what any sequence of calls does to the
--   sessions; Accounts/Reuse, Lifetime, Single, Factors, Uniform, Admin/LastAdmin and Principals/Origin
--   hold the theorems. What the
--   cryptographic libraries do is the record Crypto; a theorem that needs fresh tokens says so. An
--   operation reads the clock once.
-- - Agents: src/agents/risk_agent.py, execution_agent.py and behavioral_guard.py. Agents/Decision composes
--   the risk agent with the guardrails and the squad's cycle.
-- - Backtest: src/backtest/engine.py. Backtest has the data, Backtest/Trades a trade, Backtest/Replay
--   the loop and Backtest/Result what run returns;
--   Backtest/Rounds carries a statement through the rounds for Booked and Managed, Backtest/Causal
--   compares two histories.
-- - Autonomy/Levels: src/hitl/config.py with src/api/routes/hitl.py, on the guards of Access;
--   Autonomy/Levels/Fills composes the level with the order store of the API.
-- - Loop: src/orchestration/orchestrator_loop.py, one cycle over the symbols; Loop/Complete composes it
--   with the squad. Loop/Registry is src/agents/registry.py, and Loop/Registry/Agree compares its table
--   with its memory.
-- - Pairs: src/core/pairs.py, src/core/pairs_store.py and the writes of src/api/routes/pairs.py.
--
-- Bounds: the wait polls a given number of rounds, which stands for how often the clock is before the
-- deadline; the theorems hold for every number. Nothing else has fuel.
--
-- Not modelled: time stamps of ledger entries, logging, the database's connections and locks (each
-- method is atomic and its writes succeed), metrics, the calls of exchanges and language models, and
-- the components that only present data. The text that the clock gives and new ids are arguments.
pub mod Base
pub mod Ledger
pub mod Guardrails
pub mod Orders
pub mod Squad
pub mod Risk
pub mod Access
pub mod Accounts
pub mod Autonomy
pub mod Consensus
pub mod Agents
pub mod Backtest
pub mod Loop
pub mod Pairs
