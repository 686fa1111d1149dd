-- ===== src/Live/Contracts.antt =====
-- src/app/contracts.py, the table of contracts and its queries, and src/app/contract_mutations.py,
-- which tells the workers of a change. The time is an argument. The types of the parameters of a
-- strategy and of amounts are parameters; so are the registry's tests of strategies.
pub mod Invalidate
mod Tests
use web_enigma.Base.{
  ℕ, ◌+◌, ◌==◌, leb, ltb, Bool, true, false, not, ◌&&◌, ◌||◌, if◌then◌else◌, Option, none, some,
  List, [], ◌∷◌,
}
use web_enigma.Base.Texts.{Text, text_eq}
use web_enigma.Base.Result.{Result, ok, raises, ◌>>=◌, value_error}
use web_enigma.Live.Backend.{Backend}
use web_enigma.Live.Controls.{revoke_contract}
use web_enigma.Live.Assignments.{TradingContractSnapshot, publish_assignments_for_contracts}

pub record TradingContract (P A : Type 0) : Type 0 where
  pub id : Text
  pub symbol : Text
  pub strategy : Text
  pub strategy_params : P
  pub start_datetime : ℕ
  pub end_datetime : ℕ
  pub maximum_trade_size : A
  pub total_invested : A
  pub revision : ℕ
  pub deleted_at : Option ℕ

pub record TradingContractUpdate (P A : Type 0) : Type 0 where
  pub new_symbol : Option Text
  pub new_strategy : Option Text
  pub new_params : Option P
  pub new_start : Option ℕ
  pub new_end : Option ℕ
  pub new_trade_size : Option A
  pub new_invested : Option A

abbrev pub given {ℓ} : {X : Type ℓ} → Option X → X → X
given none old = old
given (some new) old = new

module _ {P A : Type 0} where
  -- The row is not deleted.
  abbrev pub is_kept : TradingContract P A → Bool
  is_kept c = elim c.deleted_at [ none ↦ true | some t ↦ false ]

  -- The conditions of active_contracts_query, without a symbol or a strategy
  unfoldable pub is_active_at : ℕ → TradingContract P A → Bool
  is_active_at now c = is_kept c && leb c.start_datetime now && ltb now c.end_datetime

  -- order_by(start_datetime), for one more row
  unfoldable pub insert_by_start :
      TradingContract P A → List (TradingContract P A) → List (TradingContract P A)
  insert_by_start c [] = c ∷ []
  insert_by_start c (d ∷ cs) =
      let rest = insert_by_start c cs in
      if leb c.start_datetime d.start_datetime then c ∷ d ∷ cs else d ∷ rest

  -- load_active_contracts
  unfoldable pub load_active_contracts : List (TradingContract P A) → ℕ → List (TradingContract P A)
  load_active_contracts [] now = []
  load_active_contracts (c ∷ cs) now =
      let rest = load_active_contracts cs now in
      if is_active_at now c then insert_by_start c rest else rest

  -- get_live_contract_or_none
  unfoldable pub get_live_contract_or_none :
      List (TradingContract P A) → Text → Option (TradingContract P A)
  get_live_contract_or_none [] contract_id = none
  get_live_contract_or_none (c ∷ cs) contract_id =
      if text_eq c.id contract_id && is_kept c
      then some c
      else get_live_contract_or_none cs contract_id

  -- contracts_to_snapshots
  unfoldable pub contracts_to_snapshots : List (TradingContract P A) → List TradingContractSnapshot
  contracts_to_snapshots [] = []
  contracts_to_snapshots (c ∷ cs) =
      record { contract_id = c.id; symbol = c.symbol } ∷ contracts_to_snapshots cs

  -- The fields that apply_contract_update sets before it checks them.
  abbrev pub updated_fields : TradingContract P A → TradingContractUpdate P A → TradingContract P A
  updated_fields c u = record c {
    symbol = given u.new_symbol c.symbol;
    strategy = given u.new_strategy c.strategy;
    strategy_params = given u.new_params c.strategy_params;
    start_datetime = given u.new_start c.start_datetime;
    end_datetime = given u.new_end c.end_datetime;
    maximum_trade_size = given u.new_trade_size c.maximum_trade_size;
    total_invested = given u.new_invested c.total_invested;
  }

  -- apply_contract_update, with the test of the registry and `validate_strategy_params`
  unfoldable pub apply_contract_update :
      (Text → Bool)
      → (Text → P → Result P)
      → TradingContract P A
      → TradingContractUpdate P A
      → Result (TradingContract P A)
  apply_contract_update is_known validate c u =
      let new = updated_fields c u in
      if leb new.end_datetime new.start_datetime
      then raises value_error
      else if not (is_known new.strategy)
      then raises value_error
      else validate new.strategy new.strategy_params
        >>= (λ params. ok (record new { strategy_params = params; revision = c.revision + 1 }))

  -- ContractMutationService.invalidate_contract. Without a store there is no Redis at all, and the
  -- revocation store does nothing.
  unfoldable pub invalidate_contract :
      (Text → ℕ)
      → Option Text
      → Backend
      → List (TradingContract P A)
      → Text
      → ℕ
      → ℕ
      → ℕ
      → Result (Backend × Option ℕ)
  invalidate_contract digest none b contracts contract_id revision now shard_count = ok (b, none)
  invalidate_contract digest (some p) b contracts contract_id revision now shard_count =
      publish_assignments_for_contracts digest p (revoke_contract p b contract_id revision now)
        (contracts_to_snapshots (load_active_contracts contracts now)) shard_count
      >>= (λ (b', version). ok (b', some version))
