-- ===== src/Portfolio.antt =====
-- src/portfolio: the documents of the paper-trading collections (schemas), the shapes the services
-- return and their helpers (paper-trading.types.ts), and the store that the services share.
-- Object ids, instants (milliseconds) and counters are numbers; amounts and quantities are of the
-- type `N` of JavaScript numbers. A message text that a client is shown is the constructor of its
-- exception. The services are the child modules.
pub mod Execution
pub mod Accounts
pub mod Risk
pub mod Trading
pub mod Queries
pub mod Context
pub mod Routes
pub mod Sample
mod Tests
use ai_trader_api.Base.{
  ℕ, ◌+◌, ◌*◌, String, Bool, true, false, Option, none, some, List, [], ◌∷◌, ◌==◌, str_eq, ◌&&◌,
  ◌||◌, if◌then◌else◌,
}
use ai_trader_api.Base.Action.{Action}
use ai_trader_api.Base.Collection.{Collection}
use ai_trader_api.Base.Double.{Double}

-- `Exchange`.
pub data Exchange : Type 0 where
  nse bse nasdaq nyse forex : Exchange

-- `a === b`
abbrev pub same_exchange : Exchange → Exchange → Bool
same_exchange nse nse = true
same_exchange bse bse = true
same_exchange nasdaq nasdaq = true
same_exchange nyse nyse = true
same_exchange forex forex = true
same_exchange _ _ = false

-- `OrderSide`, `OrderType`, `OrderStatus`.
pub data Side : Type 0 where
  buy sell : Side

pub data OrderType : Type 0 where
  market limit : OrderType

pub data Status : Type 0 where
  pending executed cancelled rejected : Status

abbrev pub is_pending : Status → Bool
is_pending pending = true
is_pending _ = false

-- What the exceptions of the services say.
pub data Reason : Type 0 where
  order_not_found not_pending portfolio_not_found limit_not_reached : Reason
  insufficient_cash insufficient_position price_unavailable : Reason
  position_limit daily_loss_limit aggregate_risk_limit : Reason
  duplicate_key driver_failure upstream : Reason

module _ (N : Type 0) where
  -- `PaperPortfolio`.
  pub record Account : Type 0 where
    pub id : ℕ
    pub user_id : String
    pub exchange : Exchange
    pub initial_capital : N
    pub cash_balance : N
    pub total_position_value : N
    pub realised_pnl : N

  -- `PaperPosition`.
  pub record Position : Type 0 where
    pub id : ℕ
    pub portfolio_id : ℕ
    pub user_id : String
    pub symbol : String
    pub exchange : Exchange
    pub quantity : N
    pub average_cost : N
    pub current_price : N
    pub unrealised_pnl : N
    pub stop_loss : Option N
    pub updated_at : Option ℕ

  -- `PaperOrder`.
  pub record Order : Type 0 where
    pub id : ℕ
    pub portfolio_id : ℕ
    pub user_id : String
    pub symbol : String
    pub exchange : Exchange
    pub side : Side
    pub type : OrderType
    pub quantity : N
    pub limit_price : Option N
    pub stop_loss : Option N
    pub status : Status
    pub executed_price : Option N
    pub executed_at : Option ℕ
    pub rejection_reason : Option Reason
    pub client_order_id : Option String
    pub decision_turn_id : Option String

  -- `PaperTrade`.
  pub record Trade : Type 0 where
    pub portfolio_id : ℕ
    pub order_id : ℕ
    pub user_id : String
    pub symbol : String
    pub exchange : Exchange
    pub side : Side
    pub quantity : N
    pub price : N
    pub realised_pnl : N
    pub executed_at : ℕ

  -- What the services push to a user's room.
  pub data Event : Type 0 where
    order_update : String → Order → Event
    positions_update : String → List Position → Event

-- The four collections, over the types of their stores.
pub record Db (N P Q O T : Type 0) : Type 0 where
  pub num : Double N
  pub accounts : Collection P (Account N)
  pub positions : Collection Q (Position N)
  pub orders : Collection O (Order N)
  pub trades : Collection T (Trade N)

-- The state of the stores, and the events emitted, newest first.
pub record World (N P Q O T : Type 0) : Type 0 where
  pub accounts : P
  pub positions : Q
  pub orders : O
  pub trades : T
  pub events : List (Event N)

-- `PlaceOrderResult`; `order` and `trade` are the documents.
pub record PlaceOrderResult (N : Type 0) : Type 0 where
  pub order : Order N
  pub trade : Option (Trade N)
  pub status : Status
  pub executed_price : Option N
  pub requested_price : Option N
  pub quantity : N
  pub symbol : String
  pub side : Side

-- Two orders clash on the idempotency key if both have one and the keys are equal.
abbrev pub same_key : Option String → Option String → Bool
same_key (some a) (some b) = str_eq a b
same_key _ _ = false

module _ {N : Type 0} where
  -- `placementResult`.
  pub placement_result : Order N → Option (Trade N) → PlaceOrderResult N
  placement_result order trade = record {
    order = order;
    trade = trade;
    status = order.status;
    executed_price = order.executed_price;
    requested_price = order.limit_price;
    quantity = order.quantity;
    symbol = order.symbol;
    side = order.side;
  }

  -- `round2`.
  pub round2 : Double N → N → N
  round2 num n = num.div (num.round (num.mul n (num.of_ℕ 100))) (num.of_ℕ 100)

  -- Documents that the unique indexes keep apart.
  abbrev pub same_account : Account N → Account N → Bool
  same_account a b = str_eq a.user_id b.user_id && same_exchange a.exchange b.exchange

  abbrev pub same_position : Position N → Position N → Bool
  same_position p q = p.portfolio_id == q.portfolio_id && str_eq p.symbol q.symbol

  -- `uniq_user_client_order_id` is partial: it binds only orders with a key.
  abbrev pub same_order : Order N → Order N → Bool
  same_order a b =
      a.id == b.id || (str_eq a.user_id b.user_id && same_key a.client_order_id b.client_order_id)

  abbrev pub no_clash : Trade N → Trade N → Bool
  no_clash a b = false

-- `MARK_STALE_AFTER_MS`.
abbrev pub mark_stale_after_ms : ℕ
mark_stale_after_ms = 5 * 60 * 1000
