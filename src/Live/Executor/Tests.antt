-- ===== src/Live/Executor/Tests.antt =====
-- src/app/live/executor.py: runs of an executor, and the laws at them. A float is a natural number.
use web_enigma.Base.{ℕ, suc, ◌*◌, ◌==◌, ◌≤◌, ◌≡◌, refl, true, false, Option, none, some, [], ◌∷◌}
use web_enigma.Base.Lists.{length, All}
use web_enigma.Base.Texts.{codes, upper, strip, text_eq}
use web_enigma.Base.TextSet.{contains, of_list}
use web_enigma.Base.Result.{Exception, Result, ok, raises, runtime_error}
use web_enigma.Strategies.{
  buy, close, Bar, StrategyRuntimeSnapshot, StrategyCore, record_candidate, finalize_candidate,
}
use web_enigma.Live.Executor.{
  AlpacaPosition, Order, AlpacaOrderResponse, Tick, AlpacaStrategyExecutor, Environment,
  complete_bars, is_refused, or_zero,
}
use web_enigma.Live.Executor.Position.{sync_position_from_broker, position_for_history}
use web_enigma.Live.Executor.Orders.{wanted_order, order_for}
use web_enigma.Live.Executor.Process.{
  finish, nothing, trade, decide, persist_candidate, benchmark_bars_for, process_bar, is_processed,
  due_bar, process_latest_bar, load, start,
}
use web_enigma.Live.Executor.Steps.{IsAllowed}
use web_enigma.Live.Executor.Accepted.{
  IsSettled, submissions, process_latest_bar-IsAllowed, submissions-IsSettled,
}
use web_enigma.Live.Executor.Repeat.{process_latest_bar_again, start-process_latest_bar}
use web_enigma.Live.Executor.Undated.{after_calls}
use web_enigma.Live.Executor.Holding.{told_zero, bars_held-eq_zero}

-- Buys three where it holds nothing and closes what it holds; its state counts the bars.
abbrev always_trade : StrategyCore ℕ ℕ ℕ
always_trade = record {
  load_state = λ core saved. saved;
  dump_state = λ core. core;
  on_bar = λ core context. (
    suc core,
    ok (record {
      action = elim context.position.is_open [ true ↦ close | false ↦ buy ];
      decision_size = some 3;
      portion = none;
      reason = none;
      auditor_rejection = false;
      entry_intent = none;
    }),
  );
}

abbrev env : Environment ℕ ℕ ℕ
env = record {
  floats = record { zero_float = 0; is_zero = λ f. f == 0; abs = λ f. f; mul = λ f g. f * g };
  strategy_core = always_trade;
  isoformat = λ t. t ∷ [];
  strftime = λ t. t ∷ [];
  digest = λ t. t;
  run = record {
    run_id = codes "r";
    symbol = codes "SPY";
    selection = some (codes "s");
    benchmark_symbol = [];
    include_candidate_log = true;
  };
}

abbrev bar_at : ℕ → Bar ℕ
bar_at t = record {
  timestamp = t;
  open_price = 1;
  high_price = 1;
  low_price = 1;
  close_price = 1;
  volume = 1;
  is_complete = true;
}

abbrev accept : Order ℕ → Result AlpacaOrderResponse
accept order = ok (record {
  response_client_order_id = order.client_order_id;
  response_status = codes "accepted";
})

abbrev reject : Order ℕ → Result AlpacaOrderResponse
reject order = ok (record {
  response_client_order_id = order.client_order_id;
  response_status = codes "rejected";
})

abbrev fail : Order ℕ → Result AlpacaOrderResponse
fail order = raises runtime_error

abbrev tick_saving :
    Option Exception
    → ℕ
    → Option (AlpacaPosition ℕ)
    → (Order ℕ → Result AlpacaOrderResponse)
    → Tick ℕ
tick_saving save_error t live respond = record {
  recent_bars = ok (bar_at 1 ∷ bar_at t ∷ []);
  live_position = ok live;
  recent_benchmark_bars = ok [];
  respond = respond;
  log_error = none;
  save_error = save_error;
}

abbrev tick : ℕ → Option (AlpacaPosition ℕ) → (Order ℕ → Result AlpacaOrderResponse) → Tick ℕ
tick t live respond = tick_saving none t live respond

abbrev held : Option (AlpacaPosition ℕ)
held = some (record { qty = 3; avg_entry_price = 1 })

abbrev fresh : AlpacaStrategyExecutor ℕ ℕ ℕ
fresh = record {
  strategy = codes "s";
  core = 0;
  snapshot = record {
    last_processed_bar_time = none;
    snapshot_position = record {
      is_open = false;
      size = 0;
      entry_price = none;
      entry_bar_index = none;
      entry_time = none;
      bars_held = 0;
    };
    core_state = 0;
  };
  seen_client_order_ids = [];
  candidate_log = [];
  saved = none;
}

fresh-start : start env 0 0 none (ok []) (ok none) ≡ ok fresh
unfolding start load sync_position_from_broker of_list
fresh-start = refl

buys : (process_latest_bar env fresh (tick 2 none accept)).result ≡ ok []
unfolding process_latest_bar process_bar decide persist_candidate trade finish due_bar is_processed
    complete_bars benchmark_bars_for order_for wanted_order sync_position_from_broker
    position_for_history is_refused contains or_zero record_candidate finalize_candidate upper strip
    text_eq
buys = refl

fails : (process_latest_bar env fresh (tick 2 none fail)).result ≡ raises runtime_error
unfolding process_latest_bar process_bar decide persist_candidate trade finish due_bar is_processed
    complete_bars benchmark_bars_for order_for wanted_order sync_position_from_broker
    position_for_history is_refused contains or_zero record_candidate finalize_candidate upper strip
    text_eq
fails = refl

process_latest_bar-IsAllowed_example :
    (length (process_latest_bar env fresh (tick 2 none accept)).orders ≤ 1)
    × All
        (IsAllowed env fresh (tick 2 none accept))
        (process_latest_bar env fresh (tick 2 none accept)).orders
process_latest_bar-IsAllowed_example = process_latest_bar-IsAllowed env fresh (tick 2 none accept)

submissions-IsSettled_example :
    All
      (λ s. contains s.0 [] ≡ false)
      (submissions env fresh (tick 2 none accept ∷ tick 3 held reject ∷ tick 3 held accept ∷ []))
    × IsSettled
        (submissions env fresh (tick 2 none accept ∷ tick 3 held reject ∷ tick 3 held accept ∷ []))
submissions-IsSettled_example =
    submissions-IsSettled env fresh
      (tick 2 none accept ∷ tick 3 held reject ∷ tick 3 held accept ∷ [])

process_latest_bar_again_example :
    process_latest_bar env
      (process_latest_bar env fresh (tick 2 none accept)).executor
      (tick 2 held accept)
    ≡ nothing env (process_latest_bar env fresh (tick 2 none accept)).executor
process_latest_bar_again_example =
    process_latest_bar_again env fresh (tick 2 none accept) (tick 2 held accept)
      (bar_at 1 ∷ bar_at 2 ∷ []) [] refl refl buys

bars_held-eq_zero_example :
    process_latest_bar
      (told_zero env)
      (after_calls env fresh (tick 2 none accept ∷ tick 3 held reject ∷ []))
      (tick 4 held accept)
    ≡ process_latest_bar env
        (after_calls env fresh (tick 2 none accept ∷ tick 3 held reject ∷ []))
        (tick 4 held accept)
bars_held-eq_zero_example =
    bars_held-eq_zero env 0 0 (ok []) (ok none) fresh (tick 2 none accept ∷ tick 3 held reject ∷ [])
      (tick 4 held accept) fresh-start

-- What is saved when the bar at 2 is processed.
abbrev saved_two : StrategyRuntimeSnapshot ℕ ℕ
saved_two = record {
  last_processed_bar_time = some (2 ∷ []);
  snapshot_position = fresh.snapshot.snapshot_position;
  core_state = 1;
}

abbrev restarted : AlpacaStrategyExecutor ℕ ℕ ℕ
restarted = record {
  strategy = codes "s";
  core = 1;
  snapshot = saved_two;
  seen_client_order_ids = [];
  candidate_log = [];
  saved = some saved_two;
}

restarts :
    start env 0 0
      (process_latest_bar env fresh (tick 2 none accept)).executor.saved
      (ok [])
      (ok none)
    ≡ ok restarted
unfolding process_latest_bar process_bar decide persist_candidate trade finish due_bar is_processed
    complete_bars benchmark_bars_for order_for wanted_order sync_position_from_broker
    position_for_history is_refused contains or_zero record_candidate finalize_candidate start load
    of_list upper strip text_eq
restarts = refl

due_two : due_bar env fresh (bar_at 1 ∷ bar_at 2 ∷ []) ≡ some (bar_at 2)
unfolding due_bar is_processed complete_bars
due_two = refl

start-process_latest_bar_example :
    process_latest_bar env restarted (tick 2 none accept) ≡ nothing env restarted
start-process_latest_bar_example =
    start-process_latest_bar env fresh restarted (tick 2 none accept) (tick 2 none accept)
      (bar_at 1 ∷ bar_at 2 ∷ []) (bar_at 2) [] 0 0 (ok []) (ok none) refl refl due_two buys restarts
