-- ===== src/Live/Worker/Iteration.antt =====
-- src/app/live/worker.py, one turn of the loop of `run_forever`.
use web_enigma.Base.{
  ℕ, ◌<◌, ◌≡◌, ◌≢◌, refl, ap, ◌∙◌, true, false, not, ◌&&◌, ◌||◌, Option, none, some, List, arith,
  inl, inr, Bool-cases,
}
use web_enigma.Base.Texts.{Text}
use web_enigma.Base.TextSet.{contains}
use web_enigma.Base.Result.{ok}
use web_enigma.Live.Leases.Payload.{LeaseRecord}
use web_enigma.Live.Leases.{is_held}
use web_enigma.Live.Leases.Exclusion.{Table, Refines}
use web_enigma.Live.Controls.{is_global_kill_switch_enabled, is_symbol_paused}
use web_enigma.Live.Assignments.{
  TradingContractSnapshot, get_assignment_version, get_shard_assignments,
}
use web_enigma.Live.Worker.{
  Worker, is_blocked, iterate, refresh_assignments, sync_active_contracts, acquire_and_warm_symbols,
  process_market_events, register_heartbeat, refreshed_worker, heartbeat_status,
}
use web_enigma.Live.Worker.Stores.{set_worker_heartbeat-Refines}
use web_enigma.Live.Worker.Turn.{is_blocked_same, OwnsLeases, Turn, Turn-refl, Turn-trans}
use web_enigma.Live.Worker.Release.{release_unassigned_symbols-ReleasedAll}
use web_enigma.Live.Worker.Acquire.{acquire_symbols-Acquired}

-- The contract synchronisation leaves the leases and the symbols alone.
sync_active_contracts-Turn :
    (now : ℕ) (w : Worker) (t : Table) (active : Option (List TradingContractSnapshot))
    → Refines w.key_prefix w.store t
    → Turn now w t (sync_active_contracts w active) t
      × ((sync_active_contracts w active).owned_symbols ≡ w.owned_symbols)
unfolding sync_active_contracts
sync_active_contracts-Turn now w t none h = (Turn-refl now w t h, refl)
sync_active_contracts-Turn now w t (some active) h = (
  record {
    refines = h;
    same_prefix = refl;
    same_id = refl;
    same_assigned = refl;
    foreign = λ k l e other live. e;
    owns = λ o. o;
    same_blocks =
        is_blocked_same w (sync_active_contracts w (some active)) refl ((λ j. refl), refl);
  },
  refl,
)

-- From a store that holds a table of leases and a readable version, one turn of the loop returns.
-- Afterwards the worker's assigned symbols are those that the store had for its shard, and it owns
-- exactly those of them that it owned before, or for which the kill switch was off, no pause flag was
-- set and there was no live lease. No live lease of another worker was touched. If every owned symbol
-- was leased to the worker before, every owned symbol is leased to it now, and those that it gave up
-- have no lease. The lease of a symbol that it owned and that is still assigned is what it was: the
-- turn renews no lease.
pub iterate_lem :
    (now later v : ℕ) (active : Option (List TradingContractSnapshot)) (w : Worker) (t : Table)
    → Refines w.key_prefix w.store t
    → get_assignment_version w.key_prefix w.store ≡ ok v
    → (w' : Worker) × (t' : Table) × (iterate now later active w ≡ ok w')
      × Refines w'.key_prefix w'.store t'
      × (w'.assigned_symbols ≡ get_shard_assignments w.key_prefix w.store w.shard_id)
      × ((k : Text)
          → contains k w'.owned_symbols ≡ (
              contains k w'.assigned_symbols
              && (contains k w.owned_symbols
                  || not (is_global_kill_switch_enabled w.key_prefix w.store)
                    && not (is_symbol_paused w.key_prefix w.store k)
                    && not (is_held (t k) now))))
      × ((k : Text) (l : LeaseRecord)
          → t k ≡ some l
          → l.worker_id ≢ w.worker_id
          → now < l.expires_at
          → t' k ≡ some l)
      × (OwnsLeases w t → OwnsLeases w' t')
      × (OwnsLeases w t
          → (k : Text) → contains k w.owned_symbols ≡ true
          → contains k w'.assigned_symbols ≡ false
          → t' k ≡ none)
      × ((k : Text)
          → contains k w.owned_symbols ≡ true
          → contains k w'.assigned_symbols ≡ true
          → t' k ≡ t k)
unfolding iterate refresh_assignments acquire_and_warm_symbols process_market_events
    register_heartbeat is_blocked
iterate_lem now later v active w t h e =
    let u = refreshed_worker w v (get_shard_assignments w.key_prefix w.store w.shard_id) in
    let (r, t1, released, turn1, owned, freed, untouched) =
      release_unassigned_symbols-ReleasedAll now u t h in
    let (turn2, same) = sync_active_contracts-Turn now r t1 active turn1.refines in
    let s = sync_active_contracts r active in
    let (a, t2, acquired, (turn3, gained, stays, idle)) =
      acquire_symbols-Acquired now s t1 s.assigned_symbols turn2.refines in
    let turn = Turn-trans turn1 (Turn-trans turn2 turn3) in
    let before = Turn-trans turn1 turn2 in
    let unblocked : (k : Text) → is_blocked s k ≡ is_blocked w k =
      λ k. before.same_blocks k ∙ is_blocked_same w u refl ((λ j. refl), refl) k in
    let assigned : (k : Text) → contains k s.assigned_symbols ≡ contains k u.assigned_symbols =
      λ k. ap (contains k) before.same_assigned in
    let exact : (k : Text)
        → contains k a.owned_symbols ≡ (
            contains k u.assigned_symbols
            && (contains k w.owned_symbols || not (is_blocked w k) && not (is_held (t k) now))) =
      λ k. elim (Bool-cases (contains k u.assigned_symbols)) [
        | inl here ↦ ground (
          arith,
          gained k,
          owned k,
          ap (contains k) same,
          assigned k,
          unblocked k,
          untouched k here,
          here,
        )
        | inr there ↦ ground (arith, gained k, owned k, ap (contains k) same, assigned k, there)
      ] in
    (
      register_heartbeat later (process_market_events a) (heartbeat_status a.owned_symbols),
      t2,
      rw (e, released, acquired) refl,
      set_worker_heartbeat-Refines a.key_prefix a.store t2 turn3.refines _,
      turn.same_assigned,
      (λ k. exact k ∙ ground (arith, ap (contains k) turn.same_assigned)),
      turn.foreign,
      turn.owns,
      (λ o k c gone.
          let there : contains k u.assigned_symbols ≡ false =
            ground (arith, gone, ap (contains k) turn.same_assigned) in
          idle k (ground (arith, exact k, there)) ∙ freed o k c there),
      λ k c here.
          let listed : contains k u.assigned_symbols ≡ true =
            ground (arith, here, ap (contains k) turn.same_assigned) in
          stays k (ground (arith, owned k, c, listed, ap (contains k) same)) ∙ untouched k listed,
    )
