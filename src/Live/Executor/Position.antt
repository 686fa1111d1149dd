-- ===== src/Live/Executor/Position.antt =====
-- src/app/live/executor.py: the position that the executor holds of the broker's.
use web_enigma.Base.{ℕ, ◌-◌, true, if◌then◌else◌, Option, none, some, List}
use web_enigma.Base.Lists.{length}
use web_enigma.Base.Texts.{Text, is_empty}
use web_enigma.Strategies.{Bar, PositionState}
use web_enigma.Live.Executor.{AlpacaPosition, AlpacaStrategyExecutor, Environment, flat, bar_index}

module _ {F J C : Type 0} (env : Environment F J C) where
  -- The snapshot with the state of the core that is dumped now.
  abbrev pub with_core_state :
      AlpacaStrategyExecutor F J C → PositionState F → Option Text → AlpacaStrategyExecutor F J C
  with_core_state ex position time = record ex {
    snapshot = record {
      last_processed_bar_time = time;
      snapshot_position = position;
      core_state = env.strategy_core.dump_state ex.core;
    };
  }

  -- _sync_position_from_broker
  unfoldable pub sync_position_from_broker :
      AlpacaStrategyExecutor F J C → Option (AlpacaPosition F) → AlpacaStrategyExecutor F J C
  sync_position_from_broker ex none =
      with_core_state ex (flat env.floats) ex.snapshot.last_processed_bar_time
  sync_position_from_broker ex (some live) =
      let current = ex.snapshot.snapshot_position in
      if env.floats.is_zero live.qty
      then with_core_state ex (flat env.floats) ex.snapshot.last_processed_bar_time
      else with_core_state ex
          (record {
            is_open = true;
            size = live.qty;
            entry_price = some live.avg_entry_price;
            entry_bar_index = current.entry_bar_index;
            entry_time = current.entry_time;
            bars_held = current.bars_held;
          })
          ex.snapshot.last_processed_bar_time

  -- The index of the entry that _position_for_history finds.
  unfoldable pub entry_index : PositionState F → List (Bar F) → Option ℕ
  entry_index position bars = elim position.entry_bar_index [
    | some index ↦ some index
    | none ↦ elim position.entry_time [
      | none ↦ none
      | some time ↦ if is_empty time then none else bar_index env.isoformat time bars
    ]
  ]

  -- _position_for_history
  unfoldable pub position_for_history : PositionState F → List (Bar F) → PositionState F
  position_for_history position bars =
      let index = entry_index position bars in
      if position.is_open
      then record position {
        entry_bar_index = index;
        bars_held = elim index [ none ↦ 0 | some n ↦ length bars - 1 - n ];
      }
      else flat env.floats
