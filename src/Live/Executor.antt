-- ===== src/Live/Executor.antt =====
-- src/app/live/executor.py, `AlpacaStrategyExecutor` with its `RuntimeStateStore`. What the broker
-- and the bar source answer during a call is an argument of it (`Tick`), the orders that it submits
-- are part of what it returns. Floats, JSON objects, the printing of timestamps and the strategy are
-- parameters; the log file of the candidates has the lines of the list.
pub mod Position
pub mod Orders
pub mod Process
pub mod Steps
pub mod Ways
pub mod Accepted
pub mod Undated
pub mod Holding
pub mod Repeat
mod Tests
use web_enigma.Base.{
  ℕ, ◌+◌, ◌-◌, ◌==◌, leb, Bool, true, false, not, ◌&&◌, ◌||◌, if◌then◌else◌, Option, none, some,
  List, [], ◌∷◌, ◌++◌,
}
use web_enigma.Base.Lists.{length}
use web_enigma.Base.Texts.{Text, codes, text_eq, is_empty, strip, upper}
use web_enigma.Base.TextSet.{TextSet, contains, add, of_list}
use web_enigma.Base.Result.{Exception, Result, ok, raises, value_error}
use web_enigma.Strategies.{
  DecisionAction, buy, close, trim, Bar, PositionState, StrategyContext, StrategyDecision,
  ExecutionEvent, StrategyRuntimeSnapshot, StrategyCore, CandidateEvent, is_buy_action,
  record_candidate,
}

-- What the executor uses of floats.
pub record Floats (F : Type 0) : Type 0 where
  pub zero_float : F
  pub is_zero : F → Bool
  pub abs : F → F
  pub mul : F → F → F

pub record AlpacaPosition (F : Type 0) : Type 0 where
  pub qty : F
  pub avg_entry_price : F

pub record Order (F : Type 0) : Type 0 where
  pub order_qty : F
  pub order_side : Text
  pub client_order_id : Text

pub record AlpacaOrderResponse : Type 0 where
  pub response_client_order_id : Text
  pub response_status : Text

-- What is answered from outside during one call. `log_error` is what _persist_candidate
-- raises, where it is called, `save_error` what RuntimeStateStore.save raises;
-- it leaves the file as it was then, as a failing json.dumps or open does.
pub record Tick (F : Type 0) : Type 0 where
  pub recent_bars : Result (List (Bar F))
  pub live_position : Result (Option (AlpacaPosition F))
  pub recent_benchmark_bars : Result (List (Bar F))
  pub respond : Order F → Result AlpacaOrderResponse
  pub log_error : Option Exception
  pub save_error : Option Exception

-- The run's configuration; `selection` is the strategy's id, where trigger and exit rules are given.
pub record AlpacaTradingRunConfig : Type 0 where
  pub run_id : Text
  pub symbol : Text
  pub selection : Option Text
  pub benchmark_symbol : Text
  pub include_candidate_log : Bool

pub record AlpacaStrategyExecutor (F J C : Type 0) : Type 0 where
  pub strategy : Text
  pub core : C
  pub snapshot : StrategyRuntimeSnapshot F J
  pub seen_client_order_ids : TextSet
  pub candidate_log : List (CandidateEvent F J)
  pub saved : Option (StrategyRuntimeSnapshot F J)

-- The end of a call: the orders that were submitted, what is returned or raised, and the state.
pub record Outcome (F J C : Type 0) : Type 0 where
  pub orders : List (Order F)
  pub result : Result (List (ExecutionEvent F))
  pub executor : AlpacaStrategyExecutor F J C

abbrev pub last_bar {ℓ} : {A : Type ℓ} → List A → Option A
last_bar [] = none
last_bar (b ∷ []) = some b
last_bar (b ∷ c ∷ bars) = last_bar (c ∷ bars)

unfoldable pub complete_bars : {F : Type 0} → List (Bar F) → List (Bar F)
complete_bars [] = []
complete_bars (b ∷ bars) = let rest = complete_bars bars in if b.is_complete then b ∷ rest else rest

-- _benchmark_bars_as_of
unfoldable pub benchmark_bars_as_of : {F : Type 0} → Bar F → List (Bar F) → List (Bar F)
benchmark_bars_as_of current [] = []
benchmark_bars_as_of current (b ∷ bars) =
    let rest = benchmark_bars_as_of current bars in
    if leb b.timestamp current.timestamp then b ∷ rest else rest

-- response.status in {"rejected", "canceled", "expired"}
unfoldable pub is_refused : Text → Bool
is_refused status =
    text_eq status (codes "rejected")
    || text_eq status (codes "canceled")
    || text_eq status (codes "expired")

-- PositionState()
abbrev pub flat : {F : Type 0} → Floats F → PositionState F
flat floats = record {
  is_open = false;
  size = floats.zero_float;
  entry_price = none;
  entry_bar_index = none;
  entry_time = none;
  bars_held = 0;
}

-- value or 0.0
unfoldable pub or_zero : {F : Type 0} → Floats F → Option F → F
or_zero floats none = floats.zero_float
or_zero floats (some f) = if floats.is_zero f then floats.zero_float else f

-- The index of the first bar with the timestamp.
unfoldable pub bar_index : {F : Type 0} → (ℕ → Text) → Text → List (Bar F) → Option ℕ
bar_index iso time [] = none
bar_index iso time (b ∷ bars) =
    let rest = bar_index iso time bars in
    if text_eq (iso b.timestamp) time
    then some 0
    else elim rest [ none ↦ none | some n ↦ some (n + 1) ]

-- What the executor is given: the floats, the strategy, the printing of timestamps, the digest of
-- candidate ids and the run's configuration.
pub record Environment (F J C : Type 0) : Type 0 where
  pub floats : Floats F
  pub strategy_core : StrategyCore F J C
  pub isoformat : ℕ → Text
  pub strftime : ℕ → Text
  pub digest : Text → Text
  pub run : AlpacaTradingRunConfig

-- The broker answers that it takes the order. Of a submission that raises nothing is known.
unfoldable pub is_accepted : {F : Type 0} → Tick F → Order F → Bool
is_accepted tick order = elim (tick.respond order) [
  | raises e ↦ false
  | ok response ↦ not (is_refused response.response_status)
]
