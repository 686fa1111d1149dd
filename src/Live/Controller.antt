-- ===== src/Live/Controller.antt =====
-- src/app/live/controller.py, `ContractsControllerService.sync_once`, with an event repository and
-- the scaler `NoopWorkerScaler`. The conversion to local time is a parameter, the contracts that
-- the API returns are an argument. The tuples of the result are sets, which are sorted lists.
pub mod Sync
use web_enigma.Base.{ℕ, Bool, true, false, if◌then◌else◌, List, [], ◌∷◌, ◌++◌}
use web_enigma.Base.Lists.{length}
use web_enigma.Base.Texts.{Text}
use web_enigma.Base.TextSet.{TextSet}
use web_enigma.Base.Dict.{Dict, keys}
use web_enigma.Base.Result.{Result, ok, ◌>>=◌}
use web_enigma.Live.Backend.{Backend}
use web_enigma.Live.Session.{SessionPhase, WallClockSessionCalendar, get_phase}
use web_enigma.Live.Session
use web_enigma.Live.Assignments.{
  TradingContractSnapshot, group_contracts_by_symbol, compute_assignments,
  publish_assignments_for_contracts,
}

pub record ControllerSyncResult : Type 0 where
  pub session_phase : SessionPhase
  pub assignment_version : ℕ
  pub active_contract_count : ℕ
  pub active_symbol_count : ℕ
  pub desired_replicas : ℕ
  pub assignments : Dict ℕ TextSet

-- The payload of an event of type controller_sync.
pub record ControllerSyncEvent : Type 0 where
  pub phase : SessionPhase
  pub version : ℕ
  pub contract_count : ℕ
  pub symbol_count : ℕ
  pub replica_count : ℕ

pub record Controller : Type 0 where
  pub key_prefix : Text
  pub session_calendar : WallClockSessionCalendar
  pub shard_count : ℕ
  pub scale_up_replicas : ℕ
  pub replicas : ℕ
  pub store : Backend
  pub events : List ControllerSyncEvent

-- 0 if phase is SessionPhase.CLOSED else self.scale_up_replicas
unfoldable pub replicas_for : SessionPhase → ℕ → ℕ
replicas_for Session.is_closed scale_up_replicas = 0
replicas_for _ scale_up_replicas = scale_up_replicas

-- NoopWorkerScaler.scale_to
unfoldable pub scale_to : Controller → ℕ → Controller
scale_to c replica_count = record c { replicas = replica_count }

-- _record_event
unfoldable pub record_sync : Controller → ControllerSyncEvent → Controller
record_sync c e = record c { events = c.events ++ e ∷ [] }

module _ (digest : Text → ℕ) (to_local : ℕ → ℕ) where
  -- sync_once
  unfoldable pub sync_once :
      Controller → ℕ → List TradingContractSnapshot → Result (Controller × ControllerSyncResult)
  sync_once c now contracts = do
    let phase = get_phase c.session_calendar (to_local now)
    let grouped = group_contracts_by_symbol contracts
    assignments ← compute_assignments digest (keys grouped) c.shard_count
    published ←
        publish_assignments_for_contracts digest c.key_prefix c.store contracts c.shard_count
    let (store, next_version) = published
    let desired_replicas = replicas_for phase c.scale_up_replicas
    let event : ControllerSyncEvent = record {
      phase = phase;
      version = next_version;
      contract_count = length contracts;
      symbol_count = length grouped;
      replica_count = desired_replicas;
    }
    let synced = record_sync (scale_to (record c { store = store }) desired_replicas) event
    ok (
      synced,
      record {
        session_phase = phase;
        assignment_version = next_version;
        active_contract_count = length contracts;
        active_symbol_count = length grouped;
        desired_replicas = desired_replicas;
        assignments = assignments;
      },
    )
