-- ===== src/Live/Executor/Process.antt =====
-- src/app/live/executor.py: `process_latest_bar` and the start of an executor.
use web_enigma.Base.{◌==◌, Bool, false, if◌then◌else◌, Option, none, some, List, [], ◌∷◌}
use web_enigma.Base.Lists.{length}
use web_enigma.Base.Texts.{Text, codes, text_eq, is_empty, strip, upper}
use web_enigma.Base.TextSet.{add, of_list}
use web_enigma.Base.Result.{Exception, Result, ok, raises, value_error}
use web_enigma.Strategies.{
  Bar, PositionState, StrategyContext, StrategyDecision, ExecutionEvent, StrategyRuntimeSnapshot,
  record_candidate,
}
use web_enigma.Live.Executor.{
  AlpacaPosition, Order, Tick, AlpacaStrategyExecutor, Outcome, Environment, last_bar,
  complete_bars, benchmark_bars_as_of, is_refused, flat,
}
use web_enigma.Live.Executor.Position.{
  with_core_state, sync_position_from_broker, position_for_history,
}
use web_enigma.Live.Executor.Orders.{order_for, order_rejected}

module _ {F J C : Type 0} (env : Environment F J C) where
  -- The end of process_latest_bar, with _save_snapshot, where the save may raise.
  unfoldable pub finish :
      AlpacaStrategyExecutor F J C
      → Tick F
      → Bar F
      → PositionState F
      → List (Order F)
      → List (ExecutionEvent F)
      → Outcome F J C
  finish ex tick latest position orders events =
      let done = with_core_state env ex position (some (env.isoformat latest.timestamp)) in
      record {
        orders = orders;
        result = elim tick.save_error [ none ↦ ok events | some e ↦ raises e ];
        executor = record done {
          saved = elim tick.save_error [ none ↦ some done.snapshot | some e ↦ done.saved ];
        };
      }

  abbrev pub stop : AlpacaStrategyExecutor F J C → List (Order F) → Exception → Outcome F J C
  stop ex orders e = record { orders = orders; result = raises e; executor = ex }

  abbrev pub nothing : AlpacaStrategyExecutor F J C → Outcome F J C
  nothing ex = record { orders = []; result = ok []; executor = ex }

  -- The part of process_latest_bar that follows the decision.
  unfoldable pub trade :
      AlpacaStrategyExecutor F J C
      → Tick F
      → Bar F
      → PositionState F
      → StrategyDecision F J
      → Outcome F J C
  trade ex tick latest position decision = elim (order_for env ex latest position decision) [
    | none ↦ finish ex tick latest position [] []
    | some order ↦ elim (tick.respond order) [
      | raises e ↦ stop ex (order ∷ []) e
      | ok response ↦
          if is_refused response.response_status
          then finish ex tick latest position (order ∷ [])
              (order_rejected env latest decision order response ∷ [])
          else finish
              (record ex {
                seen_client_order_ids = add order.client_order_id ex.seen_client_order_ids;
              })
              tick latest position (order ∷ []) []
    ]
  ]

  -- The bars of the benchmark as of the latest bar, where the run names one.
  unfoldable pub benchmark_bars_for : Tick F → Bar F → Result (Option (List (Bar F)))
  benchmark_bars_for tick latest =
      if is_empty (upper (strip env.run.benchmark_symbol))
      then ok none
      else elim tick.recent_benchmark_bars [
        | raises e ↦ raises e
        | ok bars ↦
            let complete = complete_bars bars in
            if is_empty complete then ok none else ok (some (benchmark_bars_as_of latest complete))
      ]

  -- record_candidate(self.candidate_log, ...)
  abbrev pub log_candidate :
      AlpacaStrategyExecutor F J C → Bar F → StrategyDecision F J → AlpacaStrategyExecutor F J C
  log_candidate ex latest decision = record ex {
    candidate_log =
        record_candidate env.digest ex.candidate_log decision env.run.include_candidate_log
          ex.strategy env.run.symbol (env.isoformat latest.timestamp) (codes "MARKET");
  }

  -- _persist_candidate, where a candidate was recorded: what it raises.
  unfoldable pub persist_candidate :
      Tick F → AlpacaStrategyExecutor F J C → AlpacaStrategyExecutor F J C → Option Exception
  persist_candidate tick before logged =
      if length logged.candidate_log == length before.candidate_log then none else tick.log_error

  -- The part of process_latest_bar that follows the sync with the broker.
  unfoldable pub decide :
      AlpacaStrategyExecutor F J C → Tick F → List (Bar F) → Bar F → Outcome F J C
  decide ex tick bars latest =
      let position = position_for_history env ex.snapshot.snapshot_position bars in
      elim (benchmark_bars_for tick latest) [
        | raises e ↦ stop ex [] e
        | ok benchmark ↦
            let context : StrategyContext F = record {
              bar = latest;
              bars = bars;
              position = position;
              symbol = env.run.symbol;
              equity = none;
              benchmark_bars = benchmark;
            } in
            let (core, decided) = env.strategy_core.on_bar ex.core context in
            let after = record ex { core = core } in
            elim decided [
              | raises e ↦ stop after [] e
              | ok decision ↦
                  let logged = log_candidate after latest decision in
                  elim (persist_candidate tick after logged) [
                    | some e ↦ stop logged [] e
                    | none ↦ trade logged tick latest position decision
                  ]
            ]
      ]

  -- The part of process_latest_bar that follows the choice of the latest bar.
  unfoldable pub process_bar :
      AlpacaStrategyExecutor F J C → Tick F → List (Bar F) → Bar F → Outcome F J C
  process_bar ex tick bars latest = elim tick.live_position [
    | raises e ↦ stop ex [] e
    | ok live ↦ decide (sync_position_from_broker env ex live) tick bars latest
  ]

  -- self.snapshot.last_processed_bar_time == latest.iso_timestamp
  unfoldable pub is_processed : AlpacaStrategyExecutor F J C → Bar F → Bool
  is_processed ex latest = elim ex.snapshot.last_processed_bar_time [
    | none ↦ false
    | some time ↦ text_eq time (env.isoformat latest.timestamp)
  ]

  -- The bar that is to be processed: none where a guard returns early.
  unfoldable pub due_bar : AlpacaStrategyExecutor F J C → List (Bar F) → Option (Bar F)
  due_bar ex bars = elim (last_bar bars) [
    | none ↦ none
    | some newest ↦
        if newest.is_complete
        then elim (last_bar (complete_bars bars)) [
          | none ↦ none
          | some latest ↦ if is_processed ex latest then none else some latest
        ]
        else none
  ]

  -- process_latest_bar
  unfoldable pub process_latest_bar : AlpacaStrategyExecutor F J C → Tick F → Outcome F J C
  process_latest_bar ex tick = elim tick.recent_bars [
    | raises e ↦ stop ex [] e
    | ok bars ↦ elim (due_bar ex bars) [
      | none ↦ nothing ex
      | some latest ↦ process_bar ex tick (complete_bars bars) latest
    ]
  ]

  -- RuntimeStateStore.load, with the empty JSON object
  unfoldable pub load : J → Option (StrategyRuntimeSnapshot F J) → StrategyRuntimeSnapshot F J
  load empty none = record {
    last_processed_bar_time = none;
    snapshot_position = flat env.floats;
    core_state = empty;
  }
  load empty (some snapshot) = snapshot

  -- AlpacaStrategyExecutor.__init__, with the new core, the ids of the open orders and the position
  unfoldable pub start :
      J
      → C
      → Option (StrategyRuntimeSnapshot F J)
      → Result (List Text)
      → Result (Option (AlpacaPosition F))
      → Result (AlpacaStrategyExecutor F J C)
  start empty new_core saved open_orders live_position = elim env.run.selection [
    | none ↦ raises value_error
    | some strategy ↦ elim open_orders [
      | raises e ↦ raises e
      | ok ids ↦ elim live_position [
        | raises e ↦ raises e
        | ok live ↦ ok (
            sync_position_from_broker env
              (record {
                strategy = strategy;
                core = env.strategy_core.load_state new_core (load empty saved).core_state;
                snapshot = load empty saved;
                seen_client_order_ids = of_list ids;
                candidate_log = [];
                saved = saved;
              })
              live)
      ]
    ]
  ]
