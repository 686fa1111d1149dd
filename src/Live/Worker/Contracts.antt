-- ===== src/Live/Worker/Contracts.antt =====
-- src/app/live/worker.py, `_sync_active_contracts`.
use mathlib.Core.List.{Mem, mem-cons_self, mem-cons_of_mem}
use web_enigma.Base.{
  ◌≡◌, ◌≢◌, refl, sym, subst, true, false, some, List, [], ◌∷◌, arith, ◌⊎◌, inl, inr, Bool-cases,
  ◌↔◌,
}
use web_enigma.Base.Lists.{All, All-map}
use web_enigma.Base.Texts.{Text, text_eq, text_eq_iff, text_eq_refl}
use web_enigma.Base.TextSet.{contains}
use web_enigma.Base.Dict.{Dict, get, put, get-put, has_key, has_key-put, text_key}
use web_enigma.Live.Controls.{is_contract_revoked, is_contract_paused}
use web_enigma.Live.Assignments.{TradingContractSnapshot, contract_symbol}
use web_enigma.Live.Worker.{
  Worker, Verdict, skipped, revoked, kept, judge_contract, next_owned_contracts,
  sync_active_contracts,
}

-- The worker may trade the contract: its symbol is assigned to it, and the contract is neither
-- revoked nor paused.
abbrev pub IsTradable : Worker → TradingContractSnapshot → Type 0
IsTradable w c =
    (contains (contract_symbol c) w.assigned_symbols ≡ true)
    × (is_contract_revoked w.key_prefix w.store c.contract_id ≡ false)
    × (is_contract_paused w.key_prefix w.store c.contract_id ≡ false)

judge_contract_iff :
    (w : Worker) (c : TradingContractSnapshot) → (judge_contract w c ≡ kept) ↔ IsTradable w c
unfolding judge_contract
judge_contract_iff w c = ground arith

Verdict-cases : (v : Verdict) → (v ≡ kept) ⊎ (v ≢ kept)
Verdict-cases skipped = inr (λ e. cc)
Verdict-cases revoked = inr (λ e. cc)
Verdict-cases kept = inl refl

module _ (w : Worker) where
  next-kept :
      (next : Dict Text TradingContractSnapshot) (c : TradingContractSnapshot)
      (cs : List TradingContractSnapshot)
      → judge_contract w c ≡ kept
      → next_owned_contracts w next (c ∷ cs) ≡ next_owned_contracts w (put next c.contract_id c) cs
  unfolding next_owned_contracts
  next-kept next c cs e = rw (e, next_owned_contracts) refl

  next-dropped :
      (next : Dict Text TradingContractSnapshot) (c : TradingContractSnapshot)
      (cs : List TradingContractSnapshot)
      → judge_contract w c ≢ kept
      → next_owned_contracts w next (c ∷ cs) ≡ next_owned_contracts w next cs
  unfolding next_owned_contracts
  next-dropped next c cs h = go (judge_contract w c) refl
    where
      go :
          (v : Verdict)
          → judge_contract w c ≡ v
          → next_owned_contracts w next (c ∷ cs) ≡ next_owned_contracts w next cs
      go skipped e = rw (e, next_owned_contracts) refl
      go revoked e = rw (e, next_owned_contracts) refl
      go kept e = absurd (h e)

  -- Whatever holds of the contracts so far, and of each tradable contract of the list, holds of
  -- the contracts in the end.
  next-sound :
      (Q : Text → TradingContractSnapshot → Type 0) (next : Dict Text TradingContractSnapshot)
      (cs : List TradingContractSnapshot)
      → ((id : Text) (c : TradingContractSnapshot) → get next id ≡ some c → Q id c)
      → All (λ c. IsTradable w c → Q c.contract_id c) cs
      → (id : Text) (c : TradingContractSnapshot) → get (next_owned_contracts w next cs) id ≡ some c
      → Q id c
  unfolding next_owned_contracts
  next-sound Q next [] q a id c e = q id c e
  next-sound Q next (d ∷ cs) q (first, a) id c e = elim (Verdict-cases (judge_contract w d)) [
    | inl keeps ↦
        next-sound Q (put next d.contract_id d) cs
          (λ j x found. elim (Bool-cases (text_eq d.contract_id j)) [
            | inl same ↦
                let latest : d ≡ x = ground (arith, get-put next d.contract_id j d) in
                subst (λ y. Q j y) latest
                  (subst (λ k. Q k d) ((text_eq_iff d.contract_id j).0 same)
                    (first ((judge_contract_iff w d).0 keeps)))
            | inr other ↦ q j x (ground (arith, get-put next d.contract_id j d))
          ])
          a id c (subst (λ t. get t id ≡ some c) (next-kept next d cs keeps) e)
    | inr drops ↦
        next-sound Q next cs q a id c
          (subst (λ t. get t id ≡ some c) (next-dropped next d cs drops) e)
  ]

  next-keeps_keys :
      (next : Dict Text TradingContractSnapshot) (cs : List TradingContractSnapshot) (id : Text)
      → has_key next id ≡ true
      → has_key (next_owned_contracts w next cs) id ≡ true
  unfolding next_owned_contracts
  next-keeps_keys next [] id h = h
  next-keeps_keys next (d ∷ cs) id h = elim (Verdict-cases (judge_contract w d)) [
    | inl keeps ↦
        subst (λ t. has_key t id ≡ true) (sym (next-kept next d cs keeps))
          (next-keeps_keys (put next d.contract_id d) cs id
            (ground (arith, has_key-put next d.contract_id id d)))
    | inr drops ↦
        subst (λ t. has_key t id ≡ true) (sym (next-dropped next d cs drops))
          (next-keeps_keys next cs id h)
  ]

  next-covers :
      (next : Dict Text TradingContractSnapshot) (cs : List TradingContractSnapshot)
      → All (λ c. IsTradable w c → has_key (next_owned_contracts w next cs) c.contract_id ≡ true) cs
  unfolding next_owned_contracts
  next-covers next [] = tt
  next-covers next (d ∷ cs) = elim (Verdict-cases (judge_contract w d)) [
    | inl keeps ↦
        subst (λ t. All (λ c. IsTradable w c → has_key t c.contract_id ≡ true) (d ∷ cs))
          (sym (next-kept next d cs keeps))
          (
            (λ tradable. next-keeps_keys (put next d.contract_id d) cs d.contract_id (
                ground (
                  arith,
                  has_key-put next d.contract_id d.contract_id d,
                  text_eq_refl d.contract_id,
                ))),
            next-covers (put next d.contract_id d) cs,
          )
    | inr drops ↦
        subst (λ t. All (λ c. IsTradable w c → has_key t c.contract_id ≡ true) (d ∷ cs))
          (sym (next-dropped next d cs drops))
          ((λ tradable. absurd (drops ((judge_contract_iff w d).1 tradable))), next-covers next cs)
  ]

-- Each element of a list is a member.
All-Mem : (xs : List TradingContractSnapshot) → All (λ x. Mem x xs) xs
All-Mem [] = tt
All-Mem (x ∷ xs) = (mem-cons_self, All-map (λ y m. mem-cons_of_mem x m) xs (All-Mem xs))

-- After a synchronisation with the active contracts, each owned contract is kept under its
-- identifier, is one of the active contracts, has an assigned symbol, and is neither revoked nor
-- paused; and each active contract with these properties is owned, itself or another active one of
-- the same identifier. The symbols and the store are as they were.
pub sync_active_contracts_lem :
    (w : Worker) (active : List TradingContractSnapshot)
    → ((id : Text) (c : TradingContractSnapshot)
        → get (sync_active_contracts w (some active)).owned_contracts id ≡ some c
        → (c.contract_id ≡ id) × Mem c active × IsTradable w c)
      × All
          (λ c.
            IsTradable w c
            → has_key (sync_active_contracts w (some active)).owned_contracts c.contract_id ≡ true)
          active
      × ((sync_active_contracts w (some active)).owned_symbols ≡ w.owned_symbols)
      × ((sync_active_contracts w (some active)).store ≡ w.store)
unfolding sync_active_contracts get
sync_active_contracts_lem w active = (
  next-sound w (λ id c. (c.contract_id ≡ id) × Mem c active × IsTradable w c) [] active
      (λ id c e. cc) (All-map (λ c m tradable. (refl, m, tradable)) active (All-Mem active)),
  next-covers w [] active,
  refl,
  refl,
)
