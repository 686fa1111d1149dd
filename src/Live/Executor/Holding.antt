-- ===== src/Live/Executor/Holding.antt =====
-- src/app/live/executor.py: what the strategy is told of the age of its position.
use web_enigma.Base.{◌≡◌, refl, sym, ap, ◌∙◌, Option, none, some, List, [], inl, inr, Option-cases}
use web_enigma.Base.Texts.{Text}
use web_enigma.Base.Result.{Result, ok, raises, Result-cases}
use web_enigma.Strategies.{Bar, PositionState, StrategyContext, StrategyDecision}
use web_enigma.Live.Executor.{
  complete_bars, AlpacaPosition, Tick, AlpacaStrategyExecutor, Outcome, Environment,
}
use web_enigma.Live.Executor.Position.{sync_position_from_broker, entry_index, position_for_history}
use web_enigma.Live.Executor.Process.{
  finish, stop, log_candidate, persist_candidate, trade, benchmark_bars_for, decide, process_bar,
  is_processed, due_bar, process_latest_bar, start,
}
use web_enigma.Live.Executor.Orders.{order_for, wanted_order}
use web_enigma.Live.Executor.Undated.{
  IsUndated, sync-IsUndated, history-IsUndated, after_calls, calls-IsUndated, start-IsUndated,
}

module _ {F J C : Type 0} (env : Environment F J C) where
  -- The same with a strategy that is always told that its position is 0 bars old.
  abbrev pub told_zero : Environment F J C
  told_zero = record env {
    strategy_core = record env.strategy_core {
      on_bar = λ core context.
          env.strategy_core.on_bar core
            (record context { position = record context.position { bars_held = 0 } });
    };
  }

  zero_again :
      (position : PositionState F)
      → position.bars_held ≡ 0
      → record position { bars_held = 0 } ≡ position
  zero_again position h = ap (λ n. record position { bars_held = n }) (sym h)

  decide-told_zero :
      (ex : AlpacaStrategyExecutor F J C) (tick : Tick F) (bars : List (Bar F)) (latest : Bar F)
      → IsUndated ex.snapshot.snapshot_position
      → decide told_zero ex tick bars latest ≡ decide env ex tick bars latest
  unfolding decide persist_candidate trade finish benchmark_bars_for order_for wanted_order
      position_for_history entry_index
  decide-told_zero ex tick bars latest u =
      let position = position_for_history env ex.snapshot.snapshot_position bars in
      let undated = history-IsUndated env ex.snapshot.snapshot_position bars u in
      elim (Result-cases (benchmark_bars_for env tick latest)) [
        | inr (e, b) ↦ rw (b, decide) refl
        | inl (benchmark, b) ↦
            let context : StrategyContext F = record {
              bar = latest;
              bars = bars;
              position = position;
              symbol = env.run.symbol;
              equity = none;
              benchmark_bars = benchmark;
            } in
            let same : told_zero.strategy_core.on_bar ex.core context
                ≡ env.strategy_core.on_bar ex.core context =
              ap (λ p. env.strategy_core.on_bar ex.core (record context { position = p }))
                (zero_again position undated.2) in
            let rest : C × Result (StrategyDecision F J) → Outcome F J C = λ answer. elim answer.1 [
              | raises e ↦ stop env (record ex { core = answer.0 }) [] e
              | ok decision ↦
                  let after = record ex { core = answer.0 } in
                  let logged = log_candidate env after latest decision in
                  elim (persist_candidate env tick after logged) [
                    | some e ↦ stop env logged [] e
                    | none ↦ trade env logged tick latest position decision
                  ]
            ] in
            let told : decide told_zero ex tick bars latest
                ≡ rest (told_zero.strategy_core.on_bar ex.core context) =
              rw (b, decide) refl in
            let run : decide env ex tick bars latest
                ≡ rest (env.strategy_core.on_bar ex.core context) =
              rw (b, decide) refl in
            told ∙ ap rest same ∙ sym run
      ]

  pub process_latest_bar-told_zero :
      (ex : AlpacaStrategyExecutor F J C) (tick : Tick F)
      → IsUndated ex.snapshot.snapshot_position
      → process_latest_bar told_zero ex tick ≡ process_latest_bar env ex tick
  unfolding process_latest_bar process_bar due_bar is_processed sync_position_from_broker decide
      persist_candidate trade benchmark_bars_for finish
  process_latest_bar-told_zero ex tick u = elim (Result-cases tick.recent_bars) [
    | inr (e, r) ↦ rw (r, process_latest_bar) refl
    | inl (bars, known) ↦ elim (Option-cases (due_bar env ex bars)) [
      | inl n ↦ rw (known, n, process_latest_bar) refl
      | inr (latest, due) ↦ elim (Result-cases tick.live_position) [
        | inr (e, r) ↦ rw (known, due, r, process_latest_bar, process_bar) refl
        | inl (live, held) ↦
            let synced = sync_position_from_broker env ex live in
            let run : process_latest_bar env ex tick
                ≡ decide env synced tick (complete_bars bars) latest =
              rw (known, due, held, process_latest_bar, process_bar) refl in
            let told : process_latest_bar told_zero ex tick
                ≡ decide told_zero synced tick (complete_bars bars) latest =
              rw (known, due, held, process_latest_bar, process_bar) refl in
            told
            ∙ decide-told_zero synced tick (complete_bars bars) latest
                (sync-IsUndated env ex live u)
            ∙ sym run
      ]
    ]
  ]

  -- An executor that is started where nothing is saved never learns when its position was entered:
  -- after any calls the next one ends just as it would with a strategy that is told, whatever the
  -- executor means to tell it, that its position is 0 bars old.
  pub bars_held-eq_zero :
      (empty : J) (new_core : C) (ids : Result (List Text))
      (answer : Result (Option (AlpacaPosition F))) (ex : AlpacaStrategyExecutor F J C)
      (ticks : List (Tick F)) (tick : Tick F)
      → start env empty new_core none ids answer ≡ ok ex
      → process_latest_bar told_zero (after_calls env ex ticks) tick
        ≡ process_latest_bar env (after_calls env ex ticks) tick
  bars_held-eq_zero empty new_core ids answer ex ticks tick h =
      process_latest_bar-told_zero (after_calls env ex ticks) tick
        (calls-IsUndated env ex ticks (start-IsUndated env empty new_core ids answer ex h))
