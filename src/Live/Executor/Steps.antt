-- ===== src/Live/Executor/Steps.antt =====
-- src/app/live/executor.py: the ways in which a call of `process_latest_bar` ends.
use web_enigma.Base.{◌≡◌, Bool, true, false, not, Option, none, some, List, [], ◌∷◌, ◌⊎◌}
use web_enigma.Base.Texts.{codes}
use web_enigma.Base.TextSet.{contains, add}
use web_enigma.Base.Result.{Exception, ok, raises}
use web_enigma.Strategies.{Bar, PositionState, ExecutionEvent}
use web_enigma.Live.Executor.{
  AlpacaPosition, Order, AlpacaOrderResponse, Tick, AlpacaStrategyExecutor, Outcome, Environment,
  complete_bars, is_refused,
}
use web_enigma.Live.Executor.Position.{sync_position_from_broker, position_for_history}
use web_enigma.Live.Executor.Process.{finish, stop, nothing, due_bar}

module _ {F J C : Type 0} (env : Environment F J C) where
  -- The broker holds a position.
  abbrev pub is_held : Option (AlpacaPosition F) → Bool
  is_held none = false
  is_held (some live) = not (env.floats.is_zero live.qty)

  -- What a call leaves alone until it ends well; the position is the old one or the synced one.
  abbrev pub IsKept : (ex ex' : AlpacaStrategyExecutor F J C) → Type 0
  IsKept ex ex' =
      (ex'.seen_client_order_ids ≡ ex.seen_client_order_ids)
      × (ex'.saved ≡ ex.saved)
      × (ex'.snapshot.last_processed_bar_time ≡ ex.snapshot.last_processed_bar_time)
      × ((ex'.snapshot.snapshot_position ≡ ex.snapshot.snapshot_position)
          ⊎ ((live : Option (AlpacaPosition F)) × (ex'.snapshot.snapshot_position
                ≡ (sync_position_from_broker env ex live).snapshot.snapshot_position)))

  -- An order that the call may submit: its id was not seen, and it buys where the broker holds no
  -- position and sells where it holds one.
  abbrev pub IsAllowed : AlpacaStrategyExecutor F J C → Tick F → Order F → Type 0
  IsAllowed ex tick order =
      (live : Option (AlpacaPosition F)) × (tick.live_position ≡ ok live)
      × (contains order.client_order_id ex.seen_client_order_ids ≡ false)
      × ((order.order_side ≡ codes "buy") × (is_held live ≡ false)
          ⊎ (order.order_side ≡ codes "sell") × (is_held live ≡ true))

  -- The position with which a call that processes a bar ends.
  abbrev pub IsSynced : AlpacaStrategyExecutor F J C → List (Bar F) → PositionState F → Type 0
  IsSynced ex bars position =
      (live : Option (AlpacaPosition F)) × (position
        ≡ position_for_history env
            (sync_position_from_broker env ex live).snapshot.snapshot_position (complete_bars bars))

  pub data Way (ex : AlpacaStrategyExecutor F J C) (tick : Tick F) : Outcome F J C → Type 0 where
    idle :
        (bars : List (Bar F))
        → tick.recent_bars ≡ ok bars
        → due_bar env ex bars ≡ none
        → Way ex tick (nothing env ex)
    failed :
        (ex' : AlpacaStrategyExecutor F J C) (e : Exception)
        → IsKept ex ex'
        → Way ex tick (stop env ex' [] e)
    unanswered :
        (ex' : AlpacaStrategyExecutor F J C) (order : Order F) (e : Exception)
        → IsKept ex ex'
        → IsAllowed ex tick order
        → tick.respond order ≡ raises e
        → Way ex tick (stop env ex' (order ∷ []) e)
    passed :
        (ex' : AlpacaStrategyExecutor F J C) (bars : List (Bar F)) (latest : Bar F)
        (position : PositionState F)
        → IsKept ex ex'
        → tick.recent_bars ≡ ok bars
        → due_bar env ex bars ≡ some latest
        → IsSynced ex bars position
        → Way ex tick (finish env ex' tick latest position [] [])
    refused :
        (ex' : AlpacaStrategyExecutor F J C) (bars : List (Bar F)) (latest : Bar F)
        (position : PositionState F) (order : Order F) (events : List (ExecutionEvent F))
        (response : AlpacaOrderResponse)
        → IsKept ex ex'
        → tick.recent_bars ≡ ok bars
        → due_bar env ex bars ≡ some latest
        → IsSynced ex bars position
        → IsAllowed ex tick order
        → tick.respond order ≡ ok response
        → is_refused response.response_status ≡ true
        → Way ex tick (finish env ex' tick latest position (order ∷ []) events)
    accepted :
        (ex' : AlpacaStrategyExecutor F J C) (bars : List (Bar F)) (latest : Bar F)
        (position : PositionState F) (order : Order F) (response : AlpacaOrderResponse)
        → IsKept ex ex'
        → tick.recent_bars ≡ ok bars
        → due_bar env ex bars ≡ some latest
        → IsSynced ex bars position
        → IsAllowed ex tick order
        → tick.respond order ≡ ok response
        → is_refused response.response_status ≡ false
        → Way ex tick (
            finish env
              (record ex' {
                seen_client_order_ids = add order.client_order_id ex'.seen_client_order_ids;
              })
              tick
              latest
              position
              (order ∷ [])
              [])
