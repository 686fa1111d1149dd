-- ===== src/Live/Runs.antt =====
-- Concrete runs of the session calendar and the controller, with a market of 9:30 to 16:00, and of
-- the worker's drain and contracts.
use mathlib.Core.List.{Mem}
use web_enigma.Base.Lists.{All}
use web_enigma.Base.{ℕ, true, false, none, some, ◌∷◌, ◌+◌, ◌≤◌, ◌<◌, ◌≡◌, ◌≢◌, refl, [], arith}
use web_enigma.Base.Texts.{Text, codes}
use web_enigma.Base.TextSet.{contains}
use web_enigma.Base.Dict.{get, has_key, text_key}
use web_enigma.Base.Result.{ok}
use web_enigma.Live.Backend.{empty, get_value}
use web_enigma.Live.Session.{
  WallClockSessionCalendar, get_phase, next_transition, open_dt, close_dt, pre_open_dt, drain_end,
  at_time, minutes,
}
use web_enigma.Live.Session
use web_enigma.Live.Session.Transition.{IsDaily, next_transition_lem}
use web_enigma.Live.Assignments.{TradingContractSnapshot, get_assignment_version, version_of}
use web_enigma.Live.Controller.{Controller, ControllerSyncResult, sync_once}
use web_enigma.Live.Controller.Sync.{IsAnnounced, sync_once_lem}
use web_enigma.Live.Assignments.{heartbeat_key}
use web_enigma.Live.Leases.Exclusion.{Table, Refines}
use web_enigma.Live.Worker.{Worker, drain, sync_active_contracts}
use web_enigma.Live.Worker.Drain.{GivesUp, drain_lem}
use web_enigma.Live.Worker.Contracts.{IsTradable, sync_active_contracts_lem}
use web_enigma.Live.Tests.{
  first_code, two_contracts, prefix, aapl, worker, held_table, held_store, held_store-Refines,
}

abbrev market : WallClockSessionCalendar
market = record {
  open_hour = 9;
  open_minute = 30;
  close_hour = 16;
  close_minute = 0;
  pre_open_warmup_minutes = 15;
  drain_timeout_minutes = 15;
}

-- Noon of the third day, and its close.
abbrev noon : ℕ
noon = minutes 3600

noon-open : get_phase market noon ≡ Session.is_open
unfolding get_phase pre_open_dt open_dt close_dt drain_end at_time
noon-open = refl

noon-next : next_transition market noon ≡ minutes 3840
unfolding next_transition pre_open_dt open_dt close_dt drain_end at_time
noon-next = refl

market-IsDaily : IsDaily market
market-IsDaily = record {
  warms_up = omega arith;
  opens = omega arith;
  lingers = omega arith;
  drains = omega arith;
}

next_transition_lem_example :
    (noon < next_transition market noon)
    × ((t : ℕ)
        → noon ≤ t
        → t < next_transition market noon
        → get_phase market t ≡ get_phase market noon)
    × (get_phase market (next_transition market noon) ≢ get_phase market noon)
next_transition_lem_example = next_transition_lem market market-IsDaily noon

abbrev controller : Controller
controller = record {
  key_prefix = prefix;
  session_calendar = market;
  shard_count = 2;
  scale_up_replicas = 2;
  replicas = 0;
  store = empty;
  events = [];
}

sync_once_lem_example :
    (c' : Controller) × (result : ControllerSyncResult) × (sync_once first_code
        (λ t. t)
        controller
        noon
        two_contracts
      ≡ ok (c', result))
    × (result.session_phase ≡ get_phase market noon)
    × (result.session_phase ≡ Session.is_closed → c'.replicas ≡ 0)
    × (result.session_phase ≢ Session.is_closed → c'.replicas ≡ 2)
    × (result.assignment_version ≡ 0 + 1)
    × IsAnnounced first_code two_contracts c' result
unfolding get_assignment_version version_of get_value get
sync_once_lem_example =
    sync_once_lem first_code (λ t. t) controller noon 0 two_contracts (omega arith) refl

drain_lem_example :
    (w' : Worker) × (t' : Table) × (drain 15 worker ≡ ok w')
    × Refines w'.key_prefix w'.store t'
    × (w'.is_draining ≡ true)
    × ((k : Text) → contains k w'.owned_symbols ≡ false)
    × (w'.owned_contracts ≡ [])
    × GivesUp (codes "w1") held_table (aapl ∷ []) t'
    × (get_value w'.store (heartbeat_key prefix (codes "w1")) ≡ none)
drain_lem_example = drain_lem 15 worker held_table held_store-Refines

abbrev assigned_worker : Worker
assigned_worker = record worker { assigned_symbols = aapl ∷ [] }

sync_active_contracts_lem_example :
    ((id : Text) (c : TradingContractSnapshot)
      → get (sync_active_contracts assigned_worker (some two_contracts)).owned_contracts id ≡ some c
      → (c.contract_id ≡ id) × Mem c two_contracts × IsTradable assigned_worker c)
    × All
        (λ c.
          IsTradable assigned_worker c
          → has_key
              (sync_active_contracts assigned_worker (some two_contracts)).owned_contracts
              c.contract_id
            ≡ true)
        two_contracts
    × ((sync_active_contracts assigned_worker (some two_contracts)).owned_symbols ≡ aapl ∷ [])
    × ((sync_active_contracts assigned_worker (some two_contracts)).store ≡ held_store)
sync_active_contracts_lem_example = sync_active_contracts_lem assigned_worker two_contracts
