-- ===== src/Live/Executor/Accepted.antt =====
-- src/app/live/executor.py: the orders that the calls of `process_latest_bar` submit.
use web_enigma.Base.{
  arith, ◌≤◌, ◌≡◌, refl, sym, subst, ◌∙◌, Bool, true, false, ◌||◌, List, [], ◌∷◌, ◌++◌, ◌⊎◌, inl,
  inr,
}
use web_enigma.Base.Lists.{length, All}
use web_enigma.Base.Texts.{Text, text_eq}
use web_enigma.Base.TextSet.{TextSet, contains, add, contains-add}
use web_enigma.Live.Executor.{
  Order, Tick, AlpacaStrategyExecutor, Outcome, Environment, is_accepted,
}
use web_enigma.Live.Executor.Process.{finish, process_latest_bar}
use web_enigma.Live.Executor.Steps.{
  IsAllowed, Way, idle, failed, unanswered, passed, refused, accepted,
}
use web_enigma.Live.Executor.Ways.{process_latest_bar-Way}

-- The ids of the orders, each with whether the broker answers that it takes it.
unfoldable pub answers : {F : Type 0} → Tick F → List (Order F) → List (Text × Bool)
answers tick [] = []
answers tick (order ∷ orders) =
    (order.client_order_id, is_accepted tick order) ∷ answers tick orders

-- No id is submitted again after the broker answered that it takes an order of this id.
abbrev pub IsSettled : List (Text × Bool) → Type 0
IsSettled [] = Unit {0}
IsSettled ((id, taken) ∷ rest) =
    (taken ≡ true → All (λ s. text_eq s.0 id ≡ false) rest) × IsSettled rest

fresh-add :
    (id : Text) (seen : TextSet) (later : List (Text × Bool))
    → All (λ s. contains s.0 (add id seen) ≡ false) later
    → All (λ s. text_eq s.0 id ≡ false) later × All (λ s. contains s.0 seen ≡ false) later
fresh-add id seen [] a = (tt, tt)
fresh-add id seen (s ∷ later) a =
    let rest = fresh-add id seen later a.1 in
    let apart : (text_eq s.0 id || contains s.0 seen) ≡ false =
      sym (contains-add s.0 id seen) ∙ a.0 in
    ((ground (arith, apart), rest.0), (ground (arith, apart), rest.1))

module _ {F J C : Type 0} (env : Environment F J C) where
  -- What is submitted in calls one after the other; an exception ends only its call.
  unfoldable pub submissions : AlpacaStrategyExecutor F J C → List (Tick F) → List (Text × Bool)
  submissions ex [] = []
  submissions ex (tick ∷ ticks) =
      let out = process_latest_bar env ex tick in
      answers tick out.orders ++ submissions out.executor ticks

  -- A call submits nothing, or one id that was not seen, and that is seen afterwards where it is
  -- taken.
  abbrev IsMarked : AlpacaStrategyExecutor F J C → Tick F → Outcome F J C → Type 0
  IsMarked ex tick out =
      (answers tick out.orders ≡ [])
        × (out.executor.seen_client_order_ids ≡ ex.seen_client_order_ids)
      ⊎ ((id : Text) × (taken : Bool) × (answers tick out.orders ≡ (id, taken) ∷ [])
          × (contains id ex.seen_client_order_ids ≡ false)
          × ((taken ≡ false) × (out.executor.seen_client_order_ids ≡ ex.seen_client_order_ids)
              ⊎ (taken ≡ true)
                × (out.executor.seen_client_order_ids ≡ add id ex.seen_client_order_ids)))

  marked :
      (ex : AlpacaStrategyExecutor F J C) (tick : Tick F) (out : Outcome F J C)
      → Way env ex tick out
      → IsMarked ex tick out
  unfolding answers is_accepted finish
  marked ex tick _ (idle bars k d) = inl (refl, refl)
  marked ex tick _ (failed ex' e kept) = inl (refl, kept.0)
  marked ex tick _ (unanswered ex' order e kept allowed r) = inr (
    order.client_order_id,
    false,
    rw (r, answers, is_accepted) refl,
    allowed.2,
    inl (refl, kept.0),
  )
  marked ex tick _ (passed ex' bars latest position kept k d s) = inl (refl, kept.0)
  marked ex tick _ (refused ex' bars latest position order events response kept k d s allowed r b) =
      inr (
        order.client_order_id,
        false,
        rw (r, b, answers, is_accepted) refl,
        allowed.2,
        inl (refl, kept.0),
      )
  marked ex tick _ (accepted ex' bars latest position order response kept k d s allowed r b) = inr (
    order.client_order_id,
    true,
    rw (r, b, answers, is_accepted) refl,
    allowed.2,
    inr (refl, rw kept.0 refl),
  )

  allowed :
      (ex : AlpacaStrategyExecutor F J C) (tick : Tick F) (out : Outcome F J C)
      → Way env ex tick out
      → (length out.orders ≤ 1) × All (IsAllowed env ex tick) out.orders
  unfolding finish
  allowed ex tick _ (idle bars k d) = (omega arith, tt)
  allowed ex tick _ (failed ex' e kept) = (omega arith, tt)
  allowed ex tick _ (unanswered ex' order e kept a r) = (omega arith, (a, tt))
  allowed ex tick _ (passed ex' bars latest position kept k d s) = (omega arith, tt)
  allowed ex tick _ (refused ex' bars latest position order events response kept k d s a r b) =
      (omega arith, (a, tt))
  allowed ex tick _ (accepted ex' bars latest position order response kept k d s a r b) =
      (omega arith, (a, tt))

  -- A call submits one order at most, and only one that it may: its id was not seen before, and it
  -- buys where the broker answered that it holds no position, and sells where it holds one.
  pub process_latest_bar-IsAllowed :
      (ex : AlpacaStrategyExecutor F J C) (tick : Tick F)
      → (length (process_latest_bar env ex tick).orders ≤ 1)
        × All (IsAllowed env ex tick) (process_latest_bar env ex tick).orders
  process_latest_bar-IsAllowed ex tick =
      allowed ex tick (process_latest_bar env ex tick) (process_latest_bar-Way env ex tick)

  -- Over any calls one after the other, whatever is answered and however they end: once the broker
  -- answered that it takes an order, no order of its id is submitted again, and none is ever submitted
  -- of an id that was seen before the first of the calls. A submission that raises is no such answer.
  pub submissions-IsSettled :
      (ex : AlpacaStrategyExecutor F J C) (ticks : List (Tick F))
      → All (λ s. contains s.0 ex.seen_client_order_ids ≡ false) (submissions ex ticks)
        × IsSettled (submissions ex ticks)
  unfolding submissions
  submissions-IsSettled ex [] = (tt, tt)
  submissions-IsSettled ex (tick ∷ ticks) =
      let out = process_latest_bar env ex tick in
      let later = submissions out.executor ticks in
      let rest = submissions-IsSettled out.executor ticks in
      elim (marked ex tick out (process_latest_bar-Way env ex tick)) [
        | inl (none_sent, same) ↦
            rw none_sent
              (subst (λ seen. All (λ s. contains s.0 seen ≡ false) later) same rest.0, rest.1)
        | inr (id, taken, sent, unseen, inl (unsent, same)) ↦ rw sent (
          (unseen, subst (λ seen. All (λ s. contains s.0 seen ≡ false) later) same rest.0),
          ((λ h. absurd (ground (arith, h, unsent))), rest.1),
        )
        | inr (id, taken, sent, unseen, inr (took, grown)) ↦
            let fresh = subst (λ seen. All (λ s. contains s.0 seen ≡ false) later) grown rest.0 in
            let (other, kept) = fresh-add id ex.seen_client_order_ids later fresh in
            rw sent ((unseen, kept), ((λ h. other), rest.1))
      ]
