-- ===== src/Live/Executor/Orders.antt =====
-- src/app/live/executor.py: the order that a decision leads to.
use web_enigma.Base.{if◌then◌else◌, Option, none, some, ◌++◌}
use web_enigma.Base.Texts.{Text, codes}
use web_enigma.Base.TextSet.{contains}
use web_enigma.Strategies.{
  DecisionAction, buy, close, trim, Bar, PositionState, StrategyDecision, ExecutionEvent,
  is_buy_action,
}
use web_enigma.Live.Executor.{
  Order, AlpacaOrderResponse, AlpacaStrategyExecutor, Environment, or_zero,
}

module _ {F J C : Type 0} (env : Environment F J C) where
  -- _client_order_id
  abbrev pub make_order_id : Text → Text → Bar F → Text
  make_order_id strategy_id action bar =
      env.run.run_id
      ++ codes "-"
      ++ strategy_id
      ++ codes "-"
      ++ action
      ++ codes "-"
      ++ env.strftime bar.timestamp

  -- The order that a decision asks for by its action, whether or not the order's id was seen.
  unfoldable pub wanted_order :
      Text → Bar F → PositionState F → StrategyDecision F J → DecisionAction → Option (Order F)
  wanted_order strategy_id latest position decision DecisionAction.hold = none
  wanted_order strategy_id latest position decision buy =
      if position.is_open
      then none
      else some (record {
        order_qty = or_zero env.floats decision.decision_size;
        order_side = codes "buy";
        client_order_id = make_order_id strategy_id (codes "buy") latest;
      })
  wanted_order strategy_id latest position decision close =
      if position.is_open
      then some (record {
        order_qty = env.floats.abs position.size;
        order_side = codes "sell";
        client_order_id = make_order_id strategy_id (codes "close") latest;
      })
      else none
  wanted_order strategy_id latest position decision trim =
      if position.is_open
      then some (record {
        order_qty =
            env.floats.mul (env.floats.abs position.size) (or_zero env.floats decision.portion);
        order_side = codes "sell";
        client_order_id = make_order_id strategy_id (codes "trim") latest;
      })
      else none

  -- The order of this call: none where its id was seen.
  unfoldable pub order_for :
      AlpacaStrategyExecutor F J C
      → Bar F
      → PositionState F
      → StrategyDecision F J
      → Option (Order F)
  order_for ex latest position decision =
      elim (wanted_order ex.strategy latest position decision decision.action) [
        | none ↦ none
        | some order ↦
            if contains order.client_order_id ex.seen_client_order_ids then none else some order
      ]

  -- The event of an order that is refused.
  abbrev pub order_rejected :
      Bar F → StrategyDecision F J → Order F → AlpacaOrderResponse → ExecutionEvent F
  order_rejected latest decision order response = record {
    event_type = codes "order_rejected";
    event_time = env.isoformat latest.timestamp;
    status = response.response_status;
    is_buy = is_buy_action decision.action;
    event_size = order.order_qty;
    price = latest.close_price;
    value = env.floats.mul order.order_qty latest.close_price;
    event_reason = decision.reason;
    order_id = response.response_client_order_id;
  }
