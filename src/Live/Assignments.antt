-- ===== src/Live/Assignments.antt =====
-- src/app/live/assignments.py, `RedisAssignmentStore`, and src/app/live/assignment_publisher.py.
-- `digest` stands for the first 32 bits of `hashlib.sha256`.
pub mod Partition
pub mod Publish
use web_enigma.Base.{
  ℕ, zero, suc, ◌+◌, ◌%◌, ◌==◌, Bool, true, false, if◌then◌else◌, Option, none, some, List, [], ◌∷◌,
  ◌++◌,
}
use web_enigma.Base.Lists.{length}
use web_enigma.Base.Decimal.{decimal}
use web_enigma.Base.Texts.{Text, codes, upper}
use web_enigma.Base.TextSet.{TextSet, add, of_list}
use web_enigma.Base.Dict.{Dict, get, put, keys, text_key, nat_key}
use web_enigma.Base.Result.{
  Result, ok, raises, ◌>>=◌, or_raise, key_error, value_error, type_error, zero_division,
}
use web_enigma.Live.Backend.{
  Backend, Scalar, Json, Value, get_value, set_value, delete, set_members, get_members,
}
use web_enigma.Live.Backend

-- TradingContractSnapshot, with the fields that decide who trades it. Its UUID is a text.
pub record TradingContractSnapshot : Type 0 where
  pub contract_id : Text
  pub symbol : Text

-- TradingContractSnapshot.symbol_key
unfoldable pub contract_symbol : TradingContractSnapshot → Text
contract_symbol c = upper c.symbol

pub data RuntimeContractState : Type 0 where
  discovered assigned leasing warming tradable paused draining closed : RuntimeContractState
  reconciliation_needed : RuntimeContractState

pub record WorkerHeartbeat : Type 0 where
  pub worker_id : Text
  pub pod_name : Text
  pub shard_id : ℕ
  pub status : RuntimeContractState
  pub owned_symbol_count : ℕ
  pub updated_at : ℕ

abbrev pub version_key : Text → Text
version_key p = p ++ codes ":assignments:version"

abbrev pub shard_prefix : Text → Text
shard_prefix p = p ++ codes ":assignments:shard:"

-- RedisAssignmentStore._assignment_key
unfoldable pub assignment_key : Text → ℕ → Text
assignment_key p shard_id = shard_prefix p ++ decimal shard_id

-- RedisAssignmentStore._heartbeat_key
unfoldable pub heartbeat_key : Text → Text → Text
heartbeat_key p worker_id = p ++ (codes ":worker:" ++ (worker_id ++ codes ":heartbeat"))

-- int(raw), where a text of digits is the number that `json.loads` reads.
unfoldable pub version_of : Option Value → Result ℕ
version_of none = ok 0
version_of (some (Value.json (Backend.scalar (Scalar.number n)))) = ok n
version_of (some (Value.flag true)) = ok 1
version_of (some (Value.flag false)) = ok 0
version_of (some _) = raises value_error

-- RedisAssignmentStore.get_assignment_version
unfoldable pub get_assignment_version : Text → Backend → Result ℕ
get_assignment_version p b = version_of (get_value b (version_key p))

-- The loop of `publish_assignments`.
unfoldable pub publish_shards : Text → Backend → Dict ℕ TextSet → Backend
publish_shards p b [] = b
publish_shards p b ((shard_id, symbols) ∷ rest) =
    publish_shards p (set_members b (assignment_key p shard_id) symbols) rest

-- RedisAssignmentStore.publish_assignments
unfoldable pub publish_assignments : Text → Backend → ℕ → Dict ℕ TextSet → Backend
publish_assignments p b version assignments =
    publish_shards p
      (set_value b (version_key p) (Value.json (Backend.scalar (Scalar.number version))))
      assignments

-- RedisAssignmentStore.get_shard_assignments
unfoldable pub get_shard_assignments : Text → Backend → ℕ → TextSet
get_shard_assignments p b shard_id = get_members b (assignment_key p shard_id)

-- RuntimeContractState's values
unfoldable pub state_value : RuntimeContractState → Text
state_value discovered = codes "discovered"
state_value assigned = codes "assigned"
state_value leasing = codes "leasing"
state_value warming = codes "warming"
state_value tradable = codes "tradable"
state_value paused = codes "paused"
state_value draining = codes "draining"
state_value closed = codes "closed"
state_value reconciliation_needed = codes "reconciliation_needed"

-- RedisAssignmentStore.set_worker_heartbeat
unfoldable pub set_worker_heartbeat : Text → Backend → WorkerHeartbeat → Backend
set_worker_heartbeat p b h = set_value b (heartbeat_key p h.worker_id) (
    Value.json (
      Backend.object (
        (codes "worker_id", Scalar.string h.worker_id)
        ∷ (codes "pod_name", Scalar.string h.pod_name)
        ∷ (codes "shard_id", Scalar.number h.shard_id)
        ∷ (codes "status", Scalar.string (state_value h.status))
        ∷ (codes "owned_symbol_count", Scalar.number h.owned_symbol_count)
        ∷ (codes "updated_at", Scalar.instant h.updated_at)
        ∷ [])))

-- RedisAssignmentStore.clear_worker_heartbeat
unfoldable pub clear_worker_heartbeat : Text → Backend → Text → Backend
clear_worker_heartbeat p b worker_id = delete b (heartbeat_key p worker_id)

abbrev append_to :
    Option (List TradingContractSnapshot) → TradingContractSnapshot → List TradingContractSnapshot
append_to none c = c ∷ []
append_to (some cs) c = cs ++ c ∷ []

group_into :
    Dict Text (List TradingContractSnapshot)
    → List TradingContractSnapshot
    → Dict Text (List TradingContractSnapshot)
group_into d [] = d
group_into d (c ∷ cs) =
    group_into (put d (contract_symbol c) (append_to (get d (contract_symbol c)) c)) cs

-- group_contracts_by_symbol
unfoldable pub group_contracts_by_symbol :
    List TradingContractSnapshot → Dict Text (List TradingContractSnapshot)
unfolding group_into
group_contracts_by_symbol = group_into []

module _ (digest : Text → ℕ) where
  -- compute_shard_id
  unfoldable pub compute_shard_id : Text → ℕ → Result ℕ
  compute_shard_id symbol_key shard_count =
      if shard_count == 0 then raises zero_division else ok (digest symbol_key % shard_count)

  -- assignments[compute_shard_id(...)].add(...), for each symbol in turn
  unfoldable pub assign_all : ℕ → Dict ℕ TextSet → List Text → Result (Dict ℕ TextSet)
  unfolding compute_shard_id
  assign_all shard_count d [] = ok d
  assign_all shard_count d (k ∷ ks) = do
    shard ← compute_shard_id k shard_count
    symbols ← or_raise (get d shard) key_error
    assign_all shard_count (put d shard (add k symbols)) ks

-- {shard_id: set() for shard_id in range(shard_count)}, from shard `i` on
unfoldable pub empty_shards : ℕ → ℕ → Dict ℕ TextSet
empty_shards i zero = []
empty_shards i (suc n) = (i, []) ∷ empty_shards (suc i) n

module _ (digest : Text → ℕ) where
  -- compute_assignments
  unfoldable pub compute_assignments : List Text → ℕ → Result (Dict ℕ TextSet)
  compute_assignments symbol_keys shard_count =
      assign_all digest shard_count (empty_shards 0 shard_count) (of_list symbol_keys)

  -- publish_assignments_for_contracts
  unfoldable pub publish_assignments_for_contracts :
      Text → Backend → List TradingContractSnapshot → ℕ → Result (Backend × ℕ)
  publish_assignments_for_contracts p b contracts shard_count = do
    assignments ← compute_assignments (keys (group_contracts_by_symbol contracts)) shard_count
    version ← get_assignment_version p b
    ok (publish_assignments p b (version + 1) assignments, version + 1)
