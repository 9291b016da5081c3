-- ===== src/Lib.antt =====
-- Verification library of ai-trader-api, a NestJS service for paper trading, trading signals and an
-- AI chat. Paths are from the repository's root.
--
-- The program. Clients place paper orders over HTTP (src/portfolio): an order is stored, a BUY passes
-- the risk gate, a MARKET order is executed at the price that the signals service quotes, and cash,
-- position, trade and order are written to four MongoDB collections. Clients follow symbols over a
-- WebSocket (src/signals/signals.gateway.ts): the gateway counts the watchers of a (symbol, exchange)
-- pair and asks the signals service to start and stop streaming it. The answer of the chat is
-- forwarded as server-sent events (src/common/http/sse.ts).
--
-- The files.
--   Base: what the others share. Base/Dict is a JavaScript map keyed by strings; Base/Action a call
--     with a state and an exception that keeps what was written before it; Base/Collection a MongoDB
--     collection; Base/Double JavaScript numbers; Base/Int whole numbers as an instance of them;
--     Base/Text strings as lists of UTF-16 code units.
--   Portfolio: the documents of src/portfolio/schemas and the shapes of paper-trading.types.ts, and
--     the services: Portfolio/Execution is order-execution.service.ts (`executeOrder`),
--     Portfolio/Accounts portfolio-accounts.service.ts, Portfolio/Risk risk-limits.service.ts, and
--     Portfolio/Trading paper-trading.service.ts (`placeOrder`, `squareOffAll`), which calls the
--     other three. Portfolio/Execution/Movement is the movement of the cash,
--     Portfolio/Execution/Accounting what a fill means for the documents, written down apart from the
--     service, and Portfolio/Execution/Races orders that are executed at the same time.
--     Portfolio/Queries is what is listed of an account, Portfolio/Context
--     portfolio-internal.controller.ts, which the chat agent reads, and Portfolio/Routes
--     portfolio.controller.ts, which calls the services for the signed-in user. Portfolio/Sample has small stores for the runs in the modules named Tests.
--   MarketSession: src/common/market-session.ts, which the risk gate uses.
--   Gateway: src/signals/signals.gateway.ts, its three maps as a record and its handlers as functions
--     on it. Gateway/History runs sequences of messages from many clients, Gateway/Messages is about
--     one message; Gateway/Connection is who a socket is, and whom the broadcasts reach.
--   Sse: src/common/http/sse.ts.
--   Chat: src/chat/chat-sessions.service.ts, the record of chat turns, with Chat/Runs for the
--     backtests and Chat/Routes for chat.controller.ts; Chat/Budget is chat-budget.service.ts.
--   Evaluation: src/signals/eval.ts, the aggregation of signal outcomes; Evaluation/Statistics is
--     `performanceStats`.
--   HttpClient: src/common/http/upstream-http.client.ts and src/signals/signals-upstream.client.ts, the
--     calls of the signals service.
--   ChatStream: src/signals/chat-stream.controller.ts. What happens to a stream after it has started is
--     a list of happenings in any order; it uses Sse for the frames, Chat for the record, Chat/Budget
--     and HttpClient for the start.
--   Signals: src/signals/signals.service.ts and signal.mapper.ts, with the statistics of Evaluation.
--   Layouts: src/chart-layouts, the saved charts. Layouts/Register is the abstract specification, a
--     register for each user and symbol, which Layouts/Refinement relates to the service.
--   Watchlist: src/watchlist/watchlist.service.ts, with the symbol test of src/common/symbol.ts.
--   Indicators: src/indicators/indicators.service.ts. Indicators/Defaults is the table of
--     default-indicators.seed.ts, Indicators/Seeding a boot, which writes it to the collection,
--     and Indicators/Puts what that does to a list of documents.
--   Admin: src/admin/admin.service.ts. Admin/Caps compares what the admin is shown with Chat/Budget;
--     Admin/Routes is admin.controller.ts behind the guard of Guards.
--   Guards: src/auth/roles.guard.ts and src/common/guards/internal-key.guard.ts.
--   Stores: src/news, src/brief, src/broker and src/alerts. Stores/Upserts is what a query finds after an
--     upsert.
--   Auth: src/auth/auth.service.ts, the strategies and the cookies of src/auth/auth.controller.ts.
--   Requests: the checks of src/signals/chat-request.ts and src/market/market.controller.ts, and the
--     calls of src/market/market.service.ts. Requests/Generation is the route of
--     src/signals/signals.controller.ts that generates a signal.
--   Pine: src/pine/pine.service.ts, the run of a script.
--
-- How code corresponds. A service method is a function of the same name in the spelling of this
-- library, from a state of the stores (`World`) to a result and a state; an exception is `err` with
-- the state as it is when it is thrown. Each query or update of the driver is one call of the
-- `Collection` record, in the order of the source. `findOneAndUpdate` is atomic, as MongoDB documents.
--
-- Parameters. MongoDB and Mongoose are the record `Collection` over a type of stores; the theorems
-- that speak of documents assume `IsLawful`, the documented meaning of each call, which
-- `list_collection` meets. JavaScript numbers are a type with the operations of `Double`, and a
-- theorem that needs a law of arithmetic names it. The price service, the clock, fresh ids, and
-- the driver calls that fail after the cash movement are fields of `Env`. `toUpperCase` is a function
-- on strings; JSON is a pair of functions; the chat's queries are the records `TurnStore` and
-- `BudgetReads`, with their documented meaning in `IsTurnStore` and `IsAggregation`; those of the saved
-- charts and of the signals are `LayoutStore` and `SignalStore`, with `IsLayoutStore` and
-- `IsSignalStore`. `fetch` is a function of a request on a state of the network.
--
-- Bounds and fuel. Loops are structural recursion over the list that the source iterates, or over the
-- attempts that are left (the retries of HttpClient), so no fuel is needed.
--
-- Not modelled: the HTTP and WebSocket transport, validation decorators, the routes of the other
-- controllers, which only pass a call on, the start of the program and its configuration, logging, and
-- the texts of messages. A driver failure at a read, or before the cash movement, is not modelled
-- either, nor the failure of a save of an order that another call has deleted in between. The times
-- that Mongoose adds to documents (`timestamps: true`) are modelled for chat turns, indicators and
-- positions, and elsewhere only where the program reads them.
pub mod Admin
pub mod Auth
pub mod Base
pub mod Chat
pub mod ChatStream
pub mod Evaluation
pub mod Gateway
pub mod Guards
pub mod HttpClient
pub mod Indicators
pub mod Layouts
pub mod MarketSession
pub mod Pine
pub mod Portfolio
pub mod Requests
pub mod Signals
pub mod Sse
pub mod Stores
pub mod Watchlist
