-- ===== src/Live/Executor/Undated.antt =====
-- src/app/live/executor.py: the position of an executor that is started where nothing is saved.
use web_enigma.Base.{
  arith, ◌≡◌, refl, sym, subst, Option, none, some, List, [], ◌∷◌, inl, inr, Bool-cases,
  Option-cases,
}
use web_enigma.Base.Texts.{Text}
use web_enigma.Base.TextSet.{of_list}
use web_enigma.Base.Result.{Result, ok, Result-cases}
use web_enigma.Strategies.{Bar, PositionState}
use web_enigma.Live.Executor.{
  complete_bars, AlpacaPosition, Tick, AlpacaStrategyExecutor, Outcome, Environment, flat,
}
use web_enigma.Live.Executor.Position.{sync_position_from_broker, entry_index, position_for_history}
use web_enigma.Live.Executor.Process.{finish, process_latest_bar, load, start}
use web_enigma.Live.Executor.Steps.{
  IsKept, IsSynced, Way, idle, failed, unanswered, passed, refused, accepted,
}
use web_enigma.Live.Executor.Ways.{process_latest_bar-Way}

-- The position has no entry, and its age is 0.
abbrev pub IsUndated : {F : Type 0} → PositionState F → Type 0
IsUndated position =
    (position.entry_bar_index ≡ none) × (position.entry_time ≡ none) × (position.bars_held ≡ 0)

module _ {F J C : Type 0} (env : Environment F J C) where
  pub sync-IsUndated :
      (ex : AlpacaStrategyExecutor F J C) (live : Option (AlpacaPosition F))
      → IsUndated ex.snapshot.snapshot_position
      → IsUndated (sync_position_from_broker env ex live).snapshot.snapshot_position
  unfolding sync_position_from_broker
  sync-IsUndated ex none u = (refl, refl, refl)
  sync-IsUndated ex (some live) u = elim (Bool-cases (env.floats.is_zero live.qty)) [
    | inl z ↦ (ground (arith, z), ground (arith, z), ground (arith, z))
    | inr z ↦ (ground (arith, z, u.0), ground (arith, z, u.1), ground (arith, z, u.2))
  ]

  pub history-IsUndated :
      (position : PositionState F) (bars : List (Bar F))
      → IsUndated position
      → IsUndated (position_for_history env position bars)
  unfolding position_for_history entry_index
  history-IsUndated position bars u = elim (Bool-cases position.is_open) [
    | inl o ↦
        let unknown : entry_index env position bars ≡ none = rw (u.0, u.1, entry_index) refl in
        (
          rw (o, unknown, position_for_history) refl,
          rw (o, position_for_history) u.1,
          rw (o, unknown, position_for_history) refl,
        )
    | inr o ↦ (ground (arith, o), ground (arith, o), ground (arith, o))
  ]

  kept-IsUndated :
      (ex ex' : AlpacaStrategyExecutor F J C)
      → IsKept env ex ex'
      → IsUndated ex.snapshot.snapshot_position
      → IsUndated ex'.snapshot.snapshot_position
  kept-IsUndated ex ex' kept u = elim kept.3 [
    | inl same ↦ subst IsUndated (sym same) u
    | inr (live, same) ↦ subst IsUndated (sym same) (sync-IsUndated ex live u)
  ]

  synced-IsUndated :
      (ex : AlpacaStrategyExecutor F J C) (bars : List (Bar F)) (position : PositionState F)
      → IsSynced env ex bars position
      → IsUndated ex.snapshot.snapshot_position
      → IsUndated position
  synced-IsUndated ex bars position (live, same) u = subst IsUndated (sym same) (
      history-IsUndated (sync_position_from_broker env ex live).snapshot.snapshot_position
        (complete_bars bars) (sync-IsUndated ex live u))

  Way-IsUndated :
      (ex : AlpacaStrategyExecutor F J C) (tick : Tick F) (out : Outcome F J C)
      → IsUndated ex.snapshot.snapshot_position
      → Way env ex tick out
      → IsUndated out.executor.snapshot.snapshot_position
  unfolding finish
  Way-IsUndated ex tick _ u (idle bars k d) = u
  Way-IsUndated ex tick _ u (failed ex' e kept) = kept-IsUndated ex ex' kept u
  Way-IsUndated ex tick _ u (unanswered ex' order e kept a s) = kept-IsUndated ex ex' kept u
  Way-IsUndated ex tick _ u (passed ex' bars latest position kept k d s) =
      synced-IsUndated ex bars position s u
  Way-IsUndated ex tick _ u (refused ex' bars latest position order evs response kept k d s a t b) =
      synced-IsUndated ex bars position s u
  Way-IsUndated ex tick _ u (accepted ex' bars latest position order response kept k d s a t b) =
      synced-IsUndated ex bars position s u

  -- The executor after calls one after the other.
  unfoldable pub after_calls :
      AlpacaStrategyExecutor F J C → List (Tick F) → AlpacaStrategyExecutor F J C
  after_calls ex [] = ex
  after_calls ex (tick ∷ ticks) = after_calls (process_latest_bar env ex tick).executor ticks

  pub calls-IsUndated :
      (ex : AlpacaStrategyExecutor F J C) (ticks : List (Tick F))
      → IsUndated ex.snapshot.snapshot_position
      → IsUndated (after_calls ex ticks).snapshot.snapshot_position
  unfolding after_calls
  calls-IsUndated ex [] u = u
  calls-IsUndated ex (tick ∷ ticks) u =
      calls-IsUndated (process_latest_bar env ex tick).executor ticks (
        Way-IsUndated ex tick (process_latest_bar env ex tick) u
          (process_latest_bar-Way env ex tick))

  pub start-IsUndated :
      (empty : J) (new_core : C) (ids : Result (List Text))
      (live : Result (Option (AlpacaPosition F))) (ex : AlpacaStrategyExecutor F J C)
      → start env empty new_core none ids live ≡ ok ex
      → IsUndated ex.snapshot.snapshot_position
  unfolding start load
  start-IsUndated empty new_core ids live ex h = elim (Option-cases env.run.selection) [
    | inl n ↦ absurd (ground (arith, rw (n, start) at h))
    | inr (strategy, n) ↦ elim (Result-cases ids) [
      | inr (e, o) ↦ absurd (ground (arith, rw (n, o, start) at h))
      | inl (seen, o) ↦ elim (Result-cases live) [
        | inr (e, l) ↦ absurd (ground (arith, rw (n, o, l, start) at h))
        | inl (position, l) ↦
            let loaded : AlpacaStrategyExecutor F J C = record {
              strategy = strategy;
              core = env.strategy_core.load_state new_core empty;
              snapshot = record {
                last_processed_bar_time = none;
                snapshot_position = flat env.floats;
                core_state = empty;
              };
              seen_client_order_ids = of_list seen;
              candidate_log = [];
              saved = none;
            } in
            let same : sync_position_from_broker env loaded position ≡ ex =
              ground (arith, rw (n, o, l, start, load) at h) in
            subst (λ x. IsUndated x.snapshot.snapshot_position) same
              (sync-IsUndated loaded position (refl, refl, refl))
      ]
    ]
  ]
