-- ===== src/Live/Executor/Repeat.antt =====
-- src/app/live/executor.py: the call after a call, on the same bars.
use web_enigma.Base.{
  arith, ◌≡◌, refl, sym, subst, ap, ◌∙◌, true, Option, none, some, List, [], ◌∷◌, ◌⊎◌, inl, inr,
  Bool-cases, Option-cases,
}
use web_enigma.Base.Texts.{Text, text_eq_refl}
use web_enigma.Base.TextSet.{add, of_list}
use web_enigma.Base.Result.{Exception, Result, ok, Result-cases}
use web_enigma.Strategies.{Bar, PositionState, StrategyRuntimeSnapshot, ExecutionEvent}
use web_enigma.Live.Executor.{
  AlpacaPosition, Order, Tick, AlpacaStrategyExecutor, Outcome, Environment, last_bar,
  complete_bars,
}
use web_enigma.Live.Executor.Position.{sync_position_from_broker}
use web_enigma.Live.Executor.Process.{
  finish, nothing, is_processed, due_bar, process_latest_bar, load, start,
}
use web_enigma.Live.Executor.Steps.{
  IsKept, Way, idle, failed, unanswered, passed, refused, accepted,
}
use web_enigma.Live.Executor.Ways.{sync-IsKept, process_latest_bar-Way}

module _ {F J C : Type 0} (env : Environment F J C) where
  due_bar_done :
      (ex ex' : AlpacaStrategyExecutor F J C) (bars : List (Bar F)) (latest : Bar F)
      → due_bar env ex bars ≡ some latest
      → ex'.snapshot.last_processed_bar_time ≡ some (env.isoformat latest.timestamp)
      → due_bar env ex' bars ≡ none
  unfolding due_bar is_processed
  due_bar_done ex ex' bars latest due h = elim (Option-cases (last_bar bars)) [
    | inl n ↦ rw (n, due_bar) refl
    | inr (newest, n) ↦ elim (Bool-cases newest.is_complete) [
      | inr c ↦ rw (n, c, due_bar) refl
      | inl c ↦ elim (Option-cases (last_bar (complete_bars bars))) [
        | inl m ↦ rw (n, c, m, due_bar) refl
        | inr (b, m) ↦ elim (Bool-cases (is_processed env ex b)) [
          | inl p ↦ absurd (ground (arith, rw (n, c, m, p, due_bar) at due))
          | inr p ↦
              let same : b ≡ latest = ground (arith, rw (n, c, m, p, due_bar) at due) in
              let done : is_processed env ex' b ≡ true =
                rw (h, is_processed) (rw same (text_eq_refl (env.isoformat latest.timestamp))) in
              rw (n, c, m, done, due_bar) refl
        ]
      ]
    ]
  ]

  nothing_due :
      (ex : AlpacaStrategyExecutor F J C) (tick : Tick F) (bars : List (Bar F))
      → tick.recent_bars ≡ ok bars
      → due_bar env ex bars ≡ none
      → process_latest_bar env ex tick ≡ nothing env ex
  unfolding process_latest_bar
  nothing_due ex tick bars known due = rw (known, due, process_latest_bar) refl

  -- What is left of a call that returns: no bar of it is due, and the processed time is saved.
  abbrev IsDone : AlpacaStrategyExecutor F J C → List (Bar F) → Outcome F J C → Type 0
  IsDone ex bars out =
      (out.executor ≡ ex) × (due_bar env ex bars ≡ none)
      ⊎ ((latest : Bar F) × (due_bar env ex bars ≡ some latest)
          × (out.executor.snapshot.last_processed_bar_time ≡ some (env.isoformat latest.timestamp))
          × (out.executor.saved ≡ some out.executor.snapshot))

  -- An end that returns has saved the snapshot.
  finished :
      (ex ex' : AlpacaStrategyExecutor F J C) (tick : Tick F) (bars others : List (Bar F))
      (latest : Bar F) (position : PositionState F) (orders : List (Order F))
      (evs events : List (ExecutionEvent F))
      → tick.recent_bars ≡ ok bars
      → (finish env ex' tick latest position orders evs).result ≡ ok events
      → tick.recent_bars ≡ ok others
      → due_bar env ex others ≡ some latest
      → IsDone ex bars (finish env ex' tick latest position orders evs)
  unfolding finish
  finished ex ex' tick bars others latest position orders evs events known r k d =
      let same : others ≡ bars = ground (arith, known, k) in
      elim (Option-cases tick.save_error) [
        | inl n ↦ inr (latest, subst (λ l. due_bar env ex l ≡ some latest) same d, refl, rw n refl)
        | inr (e, n) ↦ absurd (ground (arith, rw n at r))
      ]

  done :
      (ex : AlpacaStrategyExecutor F J C) (tick : Tick F) (bars : List (Bar F))
      (out : Outcome F J C) (events : List (ExecutionEvent F))
      → tick.recent_bars ≡ ok bars
      → out.result ≡ ok events
      → Way env ex tick out
      → IsDone ex bars out
  unfolding finish
  done ex tick bars _ events known r (idle others k d) =
      let same : others ≡ bars = ground (arith, known, k) in
      inl (refl, subst (λ l. due_bar env ex l ≡ none) same d)
  done ex tick bars _ events known r (failed ex' e kept) = absurd (ground (arith, r))
  done ex tick bars _ events known r (unanswered ex' order e kept a s) = absurd (ground (arith, r))
  done ex tick bars _ events known r (passed ex' others latest position kept k d s) =
      finished ex ex' tick bars others latest position [] [] events known r k d
  done ex tick bars _ events known r
        (refused ex' others latest position order evs response kept k d s a t b) =
      finished ex ex' tick bars others latest position (order ∷ []) evs events known r k d
  done ex tick bars _ events known r
        (accepted ex' others latest position order response kept k d s a t b) =
      finished ex
        (record ex' { seen_client_order_ids = add order.client_order_id ex'.seen_client_order_ids })
        tick bars others latest position (order ∷ []) [] events known r k d

  -- After a call that returned, a call that is given the same bars does nothing, whatever the broker
  -- answers: no order, no event, the same state.
  pub process_latest_bar_again :
      (ex : AlpacaStrategyExecutor F J C) (tick next : Tick F) (bars : List (Bar F))
      (events : List (ExecutionEvent F))
      → tick.recent_bars ≡ ok bars
      → next.recent_bars ≡ ok bars
      → (process_latest_bar env ex tick).result ≡ ok events
      → process_latest_bar env (process_latest_bar env ex tick).executor next
        ≡ nothing env (process_latest_bar env ex tick).executor
  process_latest_bar_again ex tick next bars events known again r =
      let out = process_latest_bar env ex tick in
      elim (done ex tick bars out events known r (process_latest_bar-Way env ex tick)) [
        | inl (same, due) ↦
            nothing_due out.executor next bars again
              (subst (λ x. due_bar env x bars ≡ none) (sym same) due)
        | inr (latest, due, time, saved) ↦
            nothing_due out.executor next bars again
              (due_bar_done ex out.executor bars latest due time)
      ]

  started :
      (empty : J) (new_core : C) (snapshot : StrategyRuntimeSnapshot F J) (ids : Result (List Text))
      (live : Result (Option (AlpacaPosition F))) (ex : AlpacaStrategyExecutor F J C)
      → start env empty new_core (some snapshot) ids live ≡ ok ex
      → ex.snapshot.last_processed_bar_time ≡ snapshot.last_processed_bar_time
  unfolding start load
  started empty new_core snapshot ids live ex h = elim (Option-cases env.run.selection) [
    | inl n ↦ absurd (ground (arith, rw (n, start) at h))
    | inr (strategy, n) ↦ elim (Result-cases ids) [
      | inr (e, o) ↦ absurd (ground (arith, rw (n, o, start) at h))
      | inl (seen, o) ↦ elim (Result-cases live) [
        | inr (e, l) ↦ absurd (ground (arith, rw (n, o, l, start) at h))
        | inl (position, l) ↦
            let loaded : AlpacaStrategyExecutor F J C = record {
              strategy = strategy;
              core = env.strategy_core.load_state new_core snapshot.core_state;
              snapshot = snapshot;
              seen_client_order_ids = of_list seen;
              candidate_log = [];
              saved = some snapshot;
            } in
            let same : sync_position_from_broker env loaded position ≡ ex =
              ground (arith, rw (n, o, l, start, load) at h) in
            ap (λ x. x.snapshot.last_processed_bar_time) (sym same)
            ∙ (sync-IsKept env loaded position).2
      ]
    ]
  ]

  -- After a call that processed a bar and returned, an executor that is started from what was saved,
  -- as the command `live` does each time, does nothing in a call that is given the same bars.
  pub start-process_latest_bar :
      (ex again : AlpacaStrategyExecutor F J C) (tick next : Tick F) (bars : List (Bar F))
      (latest : Bar F) (events : List (ExecutionEvent F)) (empty : J) (new_core : C)
      (ids : Result (List Text)) (live : Result (Option (AlpacaPosition F)))
      → tick.recent_bars ≡ ok bars
      → next.recent_bars ≡ ok bars
      → due_bar env ex bars ≡ some latest
      → (process_latest_bar env ex tick).result ≡ ok events
      → start env empty new_core (process_latest_bar env ex tick).executor.saved ids live ≡ ok again
      → process_latest_bar env again next ≡ nothing env again
  start-process_latest_bar ex again tick next bars latest events j c ids live known same due r h =
      let out = process_latest_bar env ex tick in
      elim (done ex tick bars out events known r (process_latest_bar-Way env ex tick)) [
        | inl (kept, idle_bars) ↦ absurd (ground (arith, sym due ∙ idle_bars))
        | inr (processed, chosen, time, saved) ↦
            let begun : start env j c (some out.executor.snapshot) ids live ≡ ok again =
              subst (λ s. start env j c s ids live ≡ ok again) saved h in
            nothing_due again next bars same (
              due_bar_done ex again bars processed chosen
                (started j c out.executor.snapshot ids live again begun ∙ time))
      ]

  -- What a call leaves that raises.
  abbrev IsRaised : AlpacaStrategyExecutor F J C → Tick F → Exception → Outcome F J C → Type 0
  IsRaised ex tick e out =
      IsKept env ex out.executor
      ⊎ (tick.save_error ≡ some e)
        × (out.executor.saved ≡ ex.saved)
        × ((bars : List (Bar F)) × (tick.recent_bars ≡ ok bars)
            × (due_bar env out.executor bars ≡ none))
