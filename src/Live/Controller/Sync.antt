-- ===== src/Live/Controller/Sync.antt =====
-- src/app/live/controller.py, `sync_once`: what it reports is what the workers read.
use web_enigma.Base.{
  ℕ, ◌+◌, ◌%◌, ◌<◌, ◌==◌, ◌≡◌, ◌≢◌, refl, sym, ◌∙◌, ◌&&◌, some, List, [], ◌∷◌, ◌++◌,
}
use web_enigma.Base.Lists.{length}
use web_enigma.Base.Texts.{Text}
use web_enigma.Base.TextSet.{TextSet, contains}
use web_enigma.Base.Dict.{get, keys, nat_key}
use web_enigma.Base.Result.{ok}
use web_enigma.Live.Session.{SessionPhase, get_phase}
use web_enigma.Live.Session
use web_enigma.Live.Assignments.{
  TradingContractSnapshot, group_contracts_by_symbol, get_assignment_version, get_shard_assignments,
}
use web_enigma.Live.Assignments.Partition.{compute_assignments-Spread}
use web_enigma.Live.Assignments.Publish.{
  has_symbol, contains-groups, publish_assignments_for_contracts-reads,
}
use web_enigma.Live.Worker.{Worker, refresh_assignments, refreshed_worker}
use web_enigma.Live.Controller.{
  Controller, ControllerSyncResult, ControllerSyncEvent, replicas_for, scale_to, record_sync,
  sync_once,
}

replicas_for_closed :
    (phase : SessionPhase) (n : ℕ) → phase ≡ Session.is_closed → replicas_for phase n ≡ 0
unfolding replicas_for
replicas_for_closed phase n e = rw (e, replicas_for) refl

replicas_for_other :
    (phase : SessionPhase) (n : ℕ) → phase ≢ Session.is_closed → replicas_for phase n ≡ n
unfolding replicas_for
replicas_for_other Session.pre_open n h = refl
replicas_for_other Session.is_open n h = refl
replicas_for_other Session.draining n h = refl
replicas_for_other Session.is_closed n h = absurd (h refl)

-- A worker of a shard that refreshes its assignments from the store of the controller has the
-- version and, for its shard, the symbols of these contracts that the digest sends there.
abbrev pub IsAnnounced :
    (Text → ℕ) → List TradingContractSnapshot → Controller → ControllerSyncResult → Type 0
IsAnnounced digest contracts c result =
    (w : Worker)
    → w.key_prefix ≡ c.key_prefix
    → w.store ≡ c.store
    → w.shard_id < c.shard_count
    → (w' : Worker) × (s : TextSet) × (refresh_assignments w ≡ ok w')
      × (w'.assignment_version ≡ result.assignment_version)
      × (get result.assignments w.shard_id ≡ some s)
      × ((k : Text) → contains k w'.assigned_symbols ≡ contains k s)
      × ((k : Text)
          → contains k w'.assigned_symbols
            ≡ (has_symbol k contracts && digest k % c.shard_count == w.shard_id))

-- With at least one shard and a readable version, `sync_once` returns, with the phase of the local
-- time and the next version. The workers are scaled to none in the closed phase, and to the
-- configured number in every other. A
-- worker of any shard that refreshes its assignments afterwards has the version of the result,
-- and the symbols that the result has for its shard, which are those of the active contracts whose
-- digest modulo the number of shards is its shard.
pub sync_once_lem :
    (digest : Text → ℕ) (to_local : ℕ → ℕ) (c : Controller) (now v : ℕ)
    (contracts : List TradingContractSnapshot)
    → 0 < c.shard_count
    → get_assignment_version c.key_prefix c.store ≡ ok v
    → (c' : Controller) × (result : ControllerSyncResult) × (sync_once digest to_local c now
          contracts
        ≡ ok (c', result))
      × (result.session_phase ≡ get_phase c.session_calendar (to_local now))
      × (result.session_phase ≡ Session.is_closed → c'.replicas ≡ 0)
      × (result.session_phase ≢ Session.is_closed → c'.replicas ≡ c.scale_up_replicas)
      × (result.assignment_version ≡ v + 1)
      × IsAnnounced digest contracts c' result
unfolding sync_once scale_to record_sync refresh_assignments
sync_once_lem digest to_local c now v contracts pos e =
    let (d, ran, h, u) =
      compute_assignments-Spread digest c.shard_count (keys (group_contracts_by_symbol contracts))
        pos in
    let (b', published, version, members, others) =
      publish_assignments_for_contracts-reads digest c.key_prefix c.store contracts c.shard_count v
        pos e in
    let phase = get_phase c.session_calendar (to_local now) in
    let count = replicas_for phase c.scale_up_replicas in
    let event : ControllerSyncEvent = record {
      phase = phase;
      version = v + 1;
      contract_count = length contracts;
      symbol_count = length (group_contracts_by_symbol contracts);
      replica_count = count;
    } in
    (
      record c { store = b'; replicas = count; events = c.events ++ event ∷ [] },
      record {
        session_phase = phase;
        assignment_version = v + 1;
        active_contract_count = length contracts;
        active_symbol_count = length (group_contracts_by_symbol contracts);
        desired_replicas = count;
        assignments = d;
      },
      rw (ran, published) refl,
      refl,
      replicas_for_closed phase c.scale_up_replicas,
      replicas_for_other phase c.scale_up_replicas,
      refl,
      λ w same_prefix same_store below.
          let (s, found, spread) = (h w.shard_id).0 below in
          let assigned = get_shard_assignments w.key_prefix w.store w.shard_id in
          let reads : (k : Text)
              → contains k assigned
                ≡ (has_symbol k contracts && digest k % c.shard_count == w.shard_id) =
            λ k. rw (same_prefix, same_store) (members w.shard_id k below) in
          (
            refreshed_worker w (v + 1) assigned,
            s,
            rw (same_prefix, same_store, version) refl,
            refl,
            found,
            λ k. reads k ∙ sym (spread k ∙ rw contains-groups refl),
            reads,
          ),
    )
