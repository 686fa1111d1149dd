-- ===== src/Live/Executor/Ways.antt =====
-- src/app/live/executor.py: every call of `process_latest_bar` ends in one of the ways of Steps.
use web_enigma.Base.{
  arith, ◌≡◌, refl, sym, subst, true, false, Option, none, some, List, [], ◌∷◌, ◌⊎◌, inl, inr,
  Bool-cases, Option-cases,
}
use web_enigma.Base.Texts.{Text, codes}
use web_enigma.Base.TextSet.{contains}
use web_enigma.Base.Result.{ok, Result-cases}
use web_enigma.Strategies.{
  DecisionAction, buy, close, trim, Bar, PositionState, StrategyDecision, StrategyContext,
}
use web_enigma.Live.Executor.{
  AlpacaPosition, Order, Tick, AlpacaStrategyExecutor, Environment, complete_bars, is_refused,
}
use web_enigma.Live.Executor.Position.{sync_position_from_broker, position_for_history}
use web_enigma.Live.Executor.Orders.{wanted_order, order_for, order_rejected}
use web_enigma.Live.Executor.Process.{
  finish, stop, nothing, trade, benchmark_bars_for, log_candidate, persist_candidate, decide,
  process_bar, due_bar, process_latest_bar,
}
use web_enigma.Live.Executor.Steps.{
  is_held, IsKept, IsAllowed, IsSynced, Way, idle, failed, unanswered, passed, refused, accepted,
}

module _ {F J C : Type 0} (env : Environment F J C) where
  wanted_order_lem :
      (strategy_id : Text) (latest : Bar F) (position : PositionState F)
      (decision : StrategyDecision F J) (action : DecisionAction) (order : Order F)
      → wanted_order env strategy_id latest position decision action ≡ some order
      → (order.order_side ≡ codes "buy") × (position.is_open ≡ false)
        ⊎ (order.order_side ≡ codes "sell") × (position.is_open ≡ true)
  unfolding wanted_order
  wanted_order_lem strategy_id latest position decision DecisionAction.hold order h =
      absurd (ground (arith, h))
  wanted_order_lem strategy_id latest position decision buy order h =
      elim (Bool-cases position.is_open) [
        | inl o ↦ absurd (ground (arith, h, o))
        | inr o ↦ let side : order.order_side ≡ codes "buy" = ground (arith, h, o) in inl (side, o)
      ]
  wanted_order_lem strategy_id latest position decision close order h =
      elim (Bool-cases position.is_open) [
        | inl o ↦ let side : order.order_side ≡ codes "sell" = ground (arith, h, o) in inr (side, o)
        | inr o ↦ absurd (ground (arith, h, o))
      ]
  wanted_order_lem strategy_id latest position decision trim order h =
      elim (Bool-cases position.is_open) [
        | inl o ↦ let side : order.order_side ≡ codes "sell" = ground (arith, h, o) in inr (side, o)
        | inr o ↦ absurd (ground (arith, h, o))
      ]

  order_for_lem :
      (ex : AlpacaStrategyExecutor F J C) (latest : Bar F) (position : PositionState F)
      (decision : StrategyDecision F J) (order : Order F)
      → order_for env ex latest position decision ≡ some order
      → (contains order.client_order_id ex.seen_client_order_ids ≡ false)
        × ((order.order_side ≡ codes "buy") × (position.is_open ≡ false)
            ⊎ (order.order_side ≡ codes "sell") × (position.is_open ≡ true))
  unfolding order_for
  order_for_lem ex latest position decision order h =
      elim (Option-cases (wanted_order env ex.strategy latest position decision decision.action)) [
        | inl n ↦ absurd (ground (arith, rw (n, order_for) at h))
        | inr (wanted, w) ↦
            elim (Bool-cases (contains wanted.client_order_id ex.seen_client_order_ids)) [
              | inl c ↦ absurd (ground (arith, rw (w, c, order_for) at h))
              | inr c ↦
                  let same : wanted ≡ order = ground (arith, rw (w, c, order_for) at h) in
                  subst
                    (λ o.
                      (contains o.client_order_id ex.seen_client_order_ids ≡ false)
                      × ((o.order_side ≡ codes "buy") × (position.is_open ≡ false)
                          ⊎ (o.order_side ≡ codes "sell") × (position.is_open ≡ true)))
                    same
                    (
                      c,
                      wanted_order_lem ex.strategy latest position decision decision.action wanted
                          w,
                    )
            ]
      ]

  is_open-position_for_history :
      (ex : AlpacaStrategyExecutor F J C) (live : Option (AlpacaPosition F)) (bars : List (Bar F))
      → (position_for_history env
          (sync_position_from_broker env ex live).snapshot.snapshot_position
          bars).is_open
        ≡ is_held env live
  unfolding position_for_history sync_position_from_broker
  is_open-position_for_history ex none bars = refl
  is_open-position_for_history ex (some live) bars = ground arith

  pub sync-IsKept :
      (ex : AlpacaStrategyExecutor F J C) (live : Option (AlpacaPosition F))
      → IsKept env ex (sync_position_from_broker env ex live)
  unfolding sync_position_from_broker
  sync-IsKept ex none = (refl, refl, refl, inr (none, refl))
  sync-IsKept ex (some p) = (ground arith, ground arith, ground arith, inr (some p, refl))

  module _ (ex : AlpacaStrategyExecutor F J C) (tick : Tick F) (bars : List (Bar F))
      (latest : Bar F) (live : Option (AlpacaPosition F)) (known : tick.recent_bars ≡ ok bars)
      (due : due_bar env ex bars ≡ some latest) (held : tick.live_position ≡ ok live) where
    trade-Way :
        (ex' : AlpacaStrategyExecutor F J C) (decision : StrategyDecision F J)
        → IsKept env ex ex'
        → Way env ex tick (
            trade env ex' tick latest
              (position_for_history env
                (sync_position_from_broker env ex live).snapshot.snapshot_position
                (complete_bars bars))
              decision)
    unfolding trade
    trade-Way ex' decision kept =
        let position =
          position_for_history env
            (sync_position_from_broker env ex live).snapshot.snapshot_position
            (complete_bars bars) in
        let synced : IsSynced env ex bars position = (live, refl) in
        elim (Option-cases (order_for env ex' latest position decision)) [
          | inl n ↦ rw (n, trade) (passed ex' bars latest position kept known due synced)
          | inr (order, o) ↦
              let (unseen, side) = order_for_lem ex' latest position decision order o in
              let allowed : IsAllowed env ex tick order = (
                live,
                held,
                subst (λ seen. contains order.client_order_id seen ≡ false) kept.0 unseen,
                subst
                    (λ b.
                      (order.order_side ≡ codes "buy") × (b ≡ false)
                      ⊎ (order.order_side ≡ codes "sell") × (b ≡ true))
                    (is_open-position_for_history ex live (complete_bars bars)) side,
              ) in
              elim (Result-cases (tick.respond order)) [
                | inr (e, r) ↦ rw (o, r, trade) (unanswered ex' order e kept allowed r)
                | inl (response, r) ↦ elim (Bool-cases (is_refused response.response_status)) [
                  | inl b ↦
                      rw (o, r, b, trade)
                        (refused ex' bars latest position order
                          (order_rejected env latest decision order response ∷ []) response kept
                          known due synced allowed r b)
                  | inr b ↦
                      rw (o, r, b, trade)
                        (accepted ex' bars latest position order response kept known due synced
                          allowed r b)
                ]
              ]
        ]

    decide-Way :
        Way env ex tick
          (decide env (sync_position_from_broker env ex live) tick (complete_bars bars) latest)
    unfolding decide
    decide-Way =
        let synced = sync_position_from_broker env ex live in
        let position =
          position_for_history env synced.snapshot.snapshot_position (complete_bars bars) in
        elim (Result-cases (benchmark_bars_for env tick latest)) [
          | inr (e, b) ↦ rw (b, decide) (failed synced e (sync-IsKept ex live))
          | inl (benchmark, b) ↦
              let context : StrategyContext F = record {
                bar = latest;
                bars = complete_bars bars;
                position = position;
                symbol = env.run.symbol;
                equity = none;
                benchmark_bars = benchmark;
              } in
              let core = (env.strategy_core.on_bar synced.core context).0 in
              elim (Result-cases (env.strategy_core.on_bar synced.core context).1) [
                | inr (e, d) ↦
                    rw (b, d, decide)
                      (failed (record synced { core = core }) e (sync-IsKept ex live))
                | inl (decision, d) ↦
                    let after = record synced { core = core } in
                    let logged = log_candidate env after latest decision in
                    elim (Option-cases (persist_candidate env tick after logged)) [
                      | inr (e, p) ↦ rw (b, d, p, decide) (failed logged e (sync-IsKept ex live))
                      | inl p ↦
                          rw (b, d, p, decide) (trade-Way logged decision (sync-IsKept ex live))
                    ]
              ]
        ]

  pub process_latest_bar-Way :
      (ex : AlpacaStrategyExecutor F J C) (tick : Tick F)
      → Way env ex tick (process_latest_bar env ex tick)
  unfolding process_latest_bar process_bar decide persist_candidate trade benchmark_bars_for finish
  process_latest_bar-Way ex tick =
      let unchanged : IsKept env ex ex = (refl, refl, refl, inl refl) in
      elim (Result-cases tick.recent_bars) [
        | inr (e, r) ↦
            let run : process_latest_bar env ex tick ≡ stop env ex [] e =
              rw (r, process_latest_bar) refl in
            subst (Way env ex tick) (sym run) (failed ex e unchanged)
        | inl (bars, known) ↦ elim (Option-cases (due_bar env ex bars)) [
          | inl n ↦
              let run : process_latest_bar env ex tick ≡ nothing env ex =
                rw (known, n, process_latest_bar) refl in
              subst (Way env ex tick) (sym run) (idle bars known n)
          | inr (latest, due) ↦ elim (Result-cases tick.live_position) [
            | inr (e, r) ↦
                let run : process_latest_bar env ex tick ≡ stop env ex [] e =
                  rw (known, due, r, process_latest_bar, process_bar) refl in
                subst (Way env ex tick) (sym run) (failed ex e unchanged)
            | inl (live, held) ↦
                let run : process_latest_bar env ex tick
                    ≡ decide env (sync_position_from_broker env ex live) tick (complete_bars bars)
                        latest =
                  rw (known, due, held, process_latest_bar, process_bar) refl in
                subst (Way env ex tick) (sym run)
                  (decide-Way ex tick bars latest live known due held)
          ]
        ]
      ]
