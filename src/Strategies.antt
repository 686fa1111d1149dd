-- ===== src/Strategies.antt =====
-- src/app/strategies: the types that a strategy and its executor share (core.py) and the candidate
-- log (candidates.py). The type of floats and the type of JSON objects are parameters; a timestamp is
-- a number of microseconds, which `isoformat` prints.
use web_enigma.Base.{ℕ, Bool, true, false, Option, none, some, List, [], ◌∷◌, ◌++◌}
use web_enigma.Base.Texts.{Text, codes}
use web_enigma.Base.Result.{Result}

pub data DecisionAction : Type 0 where
  hold buy close trim : DecisionAction

pub record Bar (F : Type 0) : Type 0 where
  pub timestamp : ℕ
  pub open_price : F
  pub high_price : F
  pub low_price : F
  pub close_price : F
  pub volume : F
  pub is_complete : Bool

pub record PositionState (F : Type 0) : Type 0 where
  pub is_open : Bool
  pub size : F
  pub entry_price : Option F
  pub entry_bar_index : Option ℕ
  pub entry_time : Option Text
  pub bars_held : ℕ

pub record StrategyContext (F : Type 0) : Type 0 where
  pub bar : Bar F
  pub bars : List (Bar F)
  pub position : PositionState F
  pub symbol : Text
  pub equity : Option F
  pub benchmark_bars : Option (List (Bar F))

pub record EntryIntent (F J : Type 0) : Type 0 where
  pub planned_price : F
  pub stop_pct : F
  pub target_pct : Option F
  pub horizon_bars : ℕ
  pub score : Option F
  pub score_reason : Option Text
  pub data_json : J

pub record StrategyDecision (F J : Type 0) : Type 0 where
  pub action : DecisionAction
  pub decision_size : Option F
  pub portion : Option F
  pub reason : Option Text
  pub auditor_rejection : Bool
  pub entry_intent : Option (EntryIntent F J)

pub record ExecutionEvent (F : Type 0) : Type 0 where
  pub event_type : Text
  pub event_time : Text
  pub status : Text
  pub is_buy : Bool
  pub event_size : F
  pub price : F
  pub value : F
  pub event_reason : Option Text
  pub order_id : Text

pub record StrategyRuntimeSnapshot (F J : Type 0) : Type 0 where
  pub last_processed_bar_time : Option Text
  pub snapshot_position : PositionState F
  pub core_state : J

-- What the executor calls of a strategy; `on_bar` may raise, and its state is changed all the same.
pub record StrategyCore (F J C : Type 0) : Type 0 where
  pub load_state : C → J → C
  pub dump_state : C → J
  pub on_bar : C → StrategyContext F → C × Result (StrategyDecision F J)

pub record CandidateEvent (F J : Type 0) : Type 0 where
  pub candidate_id : Text
  pub strategy_id : Text
  pub candidate_symbol : Text
  pub candidate_time : Text
  pub side : Text
  pub candidate_price : F
  pub entry_type : Text
  pub planned_stop_pct : F
  pub planned_target_pct : Option F
  pub planned_horizon_bars : ℕ
  pub signal_score : Option F
  pub signal_reason : Option Text
  pub metadata : J
  pub was_traded : Bool
  pub reject_reason : Option Text

abbrev pub is_buy_action : DecisionAction → Bool
is_buy_action buy = true
is_buy_action _ = false

-- make_candidate_id; `digest` is the first 16 hexadecimal digits of the SHA-256.
abbrev make_candidate_id : (Text → Text) → Text → Text → Text → Text → Text
make_candidate_id digest strategy_id symbol timestamp side =
    digest (strategy_id ++ codes "|" ++ symbol ++ codes "|" ++ timestamp ++ codes "|" ++ side)

module _ {F J : Type 0} (digest : Text → Text) where
  -- finalize_candidate, with the side LONG
  unfoldable pub finalize_candidate :
      StrategyDecision F J → Text → Text → Text → Text → Option (CandidateEvent F J)
  finalize_candidate decision strategy_id symbol timestamp entry_type = elim decision.entry_intent [
    | none ↦ none
    | some intent ↦ some (record {
      candidate_id = make_candidate_id digest strategy_id symbol timestamp (codes "LONG");
      strategy_id = strategy_id;
      candidate_symbol = symbol;
      candidate_time = timestamp;
      side = codes "LONG";
      candidate_price = intent.planned_price;
      entry_type = entry_type;
      planned_stop_pct = intent.stop_pct;
      planned_target_pct = intent.target_pct;
      planned_horizon_bars = intent.horizon_bars;
      signal_score = intent.score;
      signal_reason = intent.score_reason;
      metadata = intent.data_json;
      was_traded = is_buy_action decision.action;
      reject_reason = elim decision.action [ buy ↦ none | _ ↦ decision.reason ];
    })
  ]

  -- record_candidate: the log with the event, where there is one
  unfoldable pub record_candidate :
      List (CandidateEvent F J)
      → StrategyDecision F J
      → Bool
      → Text
      → Text
      → Text
      → Text
      → List (CandidateEvent F J)
  record_candidate log decision false strategy_id symbol timestamp entry_type = log
  record_candidate log decision true strategy_id symbol timestamp entry_type =
      elim (finalize_candidate decision strategy_id symbol timestamp entry_type) [
        | none ↦ log
        | some event ↦ log ++ (event ∷ [])
      ]
