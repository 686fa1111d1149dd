-- ===== src/Live/Worker.antt =====
-- src/app/live/worker.py, `WorkerRuntimeCoordinator`, with an event repository. The store that it
-- shares with the other processes is a field, and so is the log of its events. Python's sets are
-- iterated in increasing order where the source does not sort them.
pub mod Stores
pub mod Turn
pub mod Release
pub mod Acquire
pub mod Iteration
pub mod Drain
pub mod Contracts
use web_enigma.Base.{
  ℕ, ◌+◌, ◌*◌, Bool, true, false, not, ◌&&◌, ◌||◌, if◌then◌else◌, ◌==◌, Option, none, some, List,
  [], ◌∷◌, ◌++◌,
}
use web_enigma.Base.Lists.{length}
use web_enigma.Base.Texts.{Text, text_eq}
use web_enigma.Base.TextSet.{TextSet, contains, add, discard, difference}
use web_enigma.Base.Dict.{Dict, put, has_key, text_key}
use web_enigma.Base.Result.{Result, ok, ◌>>=◌}
use web_enigma.Live.Backend.{Backend}
use web_enigma.Live.Leases.{
  LeaseAcquireRequest, LeaseAcquireResult, acquire_symbol_lease, release_symbol_lease,
}
use web_enigma.Live.Controls.{
  is_global_kill_switch_enabled, is_symbol_paused, is_contract_paused, is_contract_revoked,
}
use web_enigma.Live.Assignments.{
  TradingContractSnapshot, contract_symbol, RuntimeContractState, get_assignment_version,
  get_shard_assignments, set_worker_heartbeat, clear_worker_heartbeat,
}
use web_enigma.Live.Assignments

pub data WorkerEvent : Type 0 where
  assignments_refreshed : ℕ → TextSet → WorkerEvent
  symbol_released : Text → WorkerEvent
  assignments_shrunk : Text → List Text → WorkerEvent
  contract_revoked : Text → Text → WorkerEvent
  contract_no_longer_active : Text → Text → WorkerEvent
  lease_acquired : Text → WorkerEvent
  lease_skipped : Text → Option Text → WorkerEvent
  worker_iteration : TextSet → List Text → Bool → WorkerEvent
  worker_draining : TextSet → WorkerEvent

pub record Worker : Type 0 where
  pub key_prefix : Text
  pub worker_id : Text
  pub pod_name : Text
  pub shard_id : ℕ
  pub lease_ttl_seconds : ℕ
  pub assignment_version : ℕ
  pub assigned_symbols : TextSet
  pub owned_symbols : TextSet
  pub owned_contracts : Dict Text TradingContractSnapshot
  pub is_draining : Bool
  pub store : Backend
  pub events : List WorkerEvent

abbrev pub record_event : Worker → WorkerEvent → Worker
record_event w e = record w { events = w.events ++ e ∷ [] }

-- The worker when it has read a version of the assignments.
abbrev pub refreshed_worker : Worker → ℕ → TextSet → Worker
refreshed_worker w version assigned = record w {
  assignment_version = version;
  assigned_symbols = assigned;
  events =
      w.events
      ++ (if w.assignment_version == version
          then []
          else assignments_refreshed version assigned ∷ []);
}

-- refresh_assignments
unfoldable pub refresh_assignments : Worker → Result Worker
refresh_assignments w = do
  version ← get_assignment_version w.key_prefix w.store
  ok (refreshed_worker w version (get_shard_assignments w.key_prefix w.store w.shard_id))

-- The identifiers of the contracts of a symbol.
unfoldable pub contract_ids_of : Text → Dict Text TradingContractSnapshot → List Text
contract_ids_of k [] = []
contract_ids_of k ((id, c) ∷ d) =
    let rest = contract_ids_of k d in if text_eq (contract_symbol c) k then id ∷ rest else rest

-- The contracts that are left when those of a symbol are popped.
unfoldable pub pop_contracts_of :
    Text → Dict Text TradingContractSnapshot → Dict Text TradingContractSnapshot
pop_contracts_of k [] = []
pop_contracts_of k ((id, c) ∷ d) =
    let rest = pop_contracts_of k d in
    if text_eq (contract_symbol c) k then rest else (id, c) ∷ rest

abbrev shrunk_events : Text → List Text → List WorkerEvent
shrunk_events k [] = []
shrunk_events k (id ∷ ids) = assignments_shrunk k (id ∷ ids) ∷ []

-- The worker when the lease of a symbol is released.
abbrev pub released_worker : Worker → Text → Backend → Worker
released_worker w k store = record w {
  store = store;
  owned_symbols = discard k w.owned_symbols;
  owned_contracts = pop_contracts_of k w.owned_contracts;
  events = w.events ++ (symbol_released k ∷ shrunk_events k (contract_ids_of k w.owned_contracts));
}

-- The body of the loop of `_release_unassigned_symbols`.
unfoldable pub release_symbol : Worker → Text → Result Worker
release_symbol w k = do
  store ← release_symbol_lease w.key_prefix w.store k w.worker_id
  ok (released_worker w k store)

unfoldable pub release_symbols : Worker → List Text → Result Worker
release_symbols w [] = ok w
release_symbols w (k ∷ ks) = do w' ← release_symbol w k; release_symbols w' ks

-- _release_unassigned_symbols
unfoldable pub release_unassigned_symbols : Worker → Result Worker
release_unassigned_symbols w = release_symbols w (difference w.owned_symbols w.assigned_symbols)

-- What the loop of `_sync_active_contracts` does with an active contract.
pub data Verdict : Type 0 where
  skipped revoked kept : Verdict

unfoldable pub judge_contract : Worker → TradingContractSnapshot → Verdict
judge_contract w c =
    if not (contains (contract_symbol c) w.assigned_symbols)
    then skipped
    else if is_contract_revoked w.key_prefix w.store c.contract_id
    then revoked
    else if is_contract_paused w.key_prefix w.store c.contract_id
    then skipped
    else kept

-- The contracts of the loop: the next dictionary of owned contracts.
unfoldable pub next_owned_contracts :
    Worker
    → Dict Text TradingContractSnapshot
    → List TradingContractSnapshot
    → Dict Text TradingContractSnapshot
next_owned_contracts w next [] = next
next_owned_contracts w next (c ∷ cs) = elim (judge_contract w c) [
  | kept ↦ next_owned_contracts w (put next c.contract_id c) cs
  | _ ↦ next_owned_contracts w next cs
]

-- The events of the loop, for the owned contracts that were revoked.
unfoldable pub revoked_events : Worker → List TradingContractSnapshot → List WorkerEvent
revoked_events w [] = []
revoked_events w (c ∷ cs) =
    let rest = revoked_events w cs in
    elim (judge_contract w c) [
      | revoked ↦
          (if has_key w.owned_contracts c.contract_id
            then contract_revoked c.contract_id (contract_symbol c) ∷ rest
            else rest)
      | _ ↦ rest
    ]

-- The events of the owned contracts that are not in the next dictionary.
unfoldable pub dropped_events :
    Dict Text TradingContractSnapshot → Dict Text TradingContractSnapshot → List WorkerEvent
dropped_events next [] = []
dropped_events next ((id, c) ∷ d) =
    let rest = dropped_events next d in
    if has_key next id then rest else contract_no_longer_active id (contract_symbol c) ∷ rest

-- _sync_active_contracts, with what the contracts API returned, and `none` without an API client
unfoldable pub sync_active_contracts : Worker → Option (List TradingContractSnapshot) → Worker
sync_active_contracts w none = w
sync_active_contracts w (some active) = record w {
  owned_contracts = next_owned_contracts w [] active;
  events =
      w.events
      ++ (revoked_events w active
          ++ dropped_events (next_owned_contracts w [] active) w.owned_contracts);
}

abbrev pub lease_request : Worker → Text → ℕ → LeaseAcquireRequest
lease_request w k now = record {
  worker_id = w.worker_id;
  pod_name = w.pod_name;
  shard_id = w.shard_id;
  symbol_key = k;
  assignment_version = w.assignment_version;
  leased_at = now;
  expires_at = now + w.lease_ttl_seconds * 1000000;
}

abbrev pub own_or_skip : Worker → Text → Backend × LeaseAcquireResult → Worker
own_or_skip w k (store, result) = record w {
  store = store;
  owned_symbols = if result.acquired then add k w.owned_symbols else w.owned_symbols;
  events =
      w.events
      ++ (if result.acquired then lease_acquired k else lease_skipped k result.reason) ∷ [];
}

-- The guard on the kill switch and on the symbol's pause flag.
unfoldable pub is_blocked : Worker → Text → Bool
is_blocked w k =
    is_global_kill_switch_enabled w.key_prefix w.store || is_symbol_paused w.key_prefix w.store k

-- The body of the loop of `acquire_and_warm_symbols`.
unfoldable pub acquire_symbol : ℕ → Worker → Text → Result Worker
acquire_symbol now w k =
    if is_blocked w k then ok w else if contains k w.owned_symbols then ok w else do
      result ← acquire_symbol_lease w.key_prefix w.store (lease_request w k now)
      ok (own_or_skip w k result)

unfoldable pub acquire_symbols : ℕ → Worker → List Text → Result Worker
acquire_symbols now w [] = ok w
acquire_symbols now w (k ∷ ks) = do w' ← acquire_symbol now w k; acquire_symbols now w' ks

-- acquire_and_warm_symbols, at the instant `now`
unfoldable pub acquire_and_warm_symbols : ℕ → Worker → Result Worker
acquire_and_warm_symbols now w = acquire_symbols now w w.assigned_symbols

unfoldable pub contract_ids : Dict Text TradingContractSnapshot → List Text
contract_ids [] = []
contract_ids ((id, c) ∷ d) = add id (contract_ids d)

-- process_market_events
unfoldable pub process_market_events : Worker → Worker
process_market_events w =
    record_event w (worker_iteration w.owned_symbols (contract_ids w.owned_contracts) w.is_draining)

-- register_heartbeat
unfoldable pub register_heartbeat : ℕ → Worker → RuntimeContractState → Worker
register_heartbeat now w status = record w {
  store = set_worker_heartbeat w.key_prefix w.store (record {
    worker_id = w.worker_id;
    pod_name = w.pod_name;
    shard_id = w.shard_id;
    status = status;
    owned_symbol_count = length w.owned_symbols;
    updated_at = now;
  });
}

abbrev pub heartbeat_status : TextSet → RuntimeContractState
heartbeat_status [] = Assignments.assigned
heartbeat_status (k ∷ ks) = Assignments.tradable

-- One turn of the loop of `run_forever`, in which the leases are dated `now` and the heartbeat `later`.
unfoldable pub iterate : ℕ → ℕ → Option (List TradingContractSnapshot) → Worker → Result Worker
iterate now later active w = do
  refreshed ← refresh_assignments w
  released ← release_unassigned_symbols refreshed
  warmed ← acquire_and_warm_symbols now (sync_active_contracts released active)
  let processed = process_market_events warmed
  ok (register_heartbeat later processed (heartbeat_status processed.owned_symbols))

-- The loop of `drain`.
unfoldable pub drain_symbols : Worker → List Text → Result Worker
drain_symbols w [] = ok w
drain_symbols w (k ∷ ks) = do
  store ← release_symbol_lease w.key_prefix w.store k w.worker_id
  drain_symbols (record w { store = store; owned_symbols = discard k w.owned_symbols }) ks

-- drain
unfoldable pub drain : ℕ → Worker → Result Worker
drain now w = do
  let draining = register_heartbeat now (record w { is_draining = true }) Assignments.draining
  drained ←
      drain_symbols (record_event draining (worker_draining draining.owned_symbols))
        draining.owned_symbols
  ok (record drained {
    owned_contracts = [];
    store = clear_worker_heartbeat drained.key_prefix drained.store drained.worker_id;
  })
