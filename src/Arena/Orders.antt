-- ===== src/Arena/Orders.antt =====
-- luv_arena.hpp: the active orders and the risk state of a symbol.
use luv_flicker.Base.{ℕ, ℤ, pos, List}

pub record ActiveOrder : Type 0 where
  pub order_id : ℕ
  pub price : ℤ
  pub qty : ℤ
  pub filled_qty : ℤ
  pub symbol_idx : ℕ
  pub side : ℕ
  pub state : ℕ
  pub time_in_force : ℕ

-- `ActiveOrder{}`
abbrev pub no_order : ActiveOrder
no_order = record {
  order_id = 0;
  price = pos 0;
  qty = pos 0;
  filled_qty = pos 0;
  symbol_idx = 0;
  side = 0;
  state = 0;
  time_in_force = 0;
}

pub record RiskState : Type 0 where
  pub net_position : ℤ
  pub gross_exposure : ℤ
  pub daily_pnl : ℤ
  pub max_drawdown : ℤ
  pub current_drawdown : ℤ
  pub order_count : ℕ
  pub reject_count : ℕ
  pub halted : ℕ

pub record SymbolExecState : Type 0 where
  pub orders : List ActiveOrder
  pub risk : RiskState

abbrev pub max_active_orders : ℕ
max_active_orders = 64
