-- ===== src/Live/Contracts/Invalidate.antt =====
-- src/app/contract_mutations.py: what the workers see after `invalidate_contract`.
use web_enigma.Base.{
  arith, ℕ, ◌+◌, ◌%◌, ◌<◌, ◌==◌, ◌≡◌, refl, ◌∙◌, Bool, false, ◌&&◌, ◌||◌, some, List, [], ◌∷◌, ◌++◌,
}
use web_enigma.Base.Texts.{Text, codes, text_eq, text_eq-append, upper}
use web_enigma.Base.TextSet.{contains}
use web_enigma.Base.Result.{ok}
use web_enigma.Live.Backend.{Backend}
use web_enigma.Live.Backend.Laws.{get_value-set_value}
use web_enigma.Live.Controls.{revocation_key, revoke_contract, is_contract_revoked}
use web_enigma.Live.Assignments.{
  TradingContractSnapshot, contract_symbol, version_key, get_assignment_version,
  get_shard_assignments, publish_assignments_for_contracts,
}
use web_enigma.Live.Assignments.Publish.{
  has_symbol, publish_assignments_for_contracts-reads, get_value-publish_assignments_for_contracts,
}
use web_enigma.Live.Contracts.{
  TradingContract, is_active_at, insert_by_start, load_active_contracts, contracts_to_snapshots,
  invalidate_contract,
}

-- Some contract that is active now trades the symbol.
abbrev pub is_traded : {P A : Type 0} → Text → ℕ → List (TradingContract P A) → Bool
is_traded key now [] = false
is_traded key now (c ∷ cs) =
    is_active_at now c && text_eq key (upper c.symbol) || is_traded key now cs

module _ {P A : Type 0} where
  has_symbol-insert :
      (key : Text) (c : TradingContract P A) (cs : List (TradingContract P A))
      → has_symbol key (contracts_to_snapshots (insert_by_start c cs))
        ≡ (text_eq key (upper c.symbol) || has_symbol key (contracts_to_snapshots cs))
  unfolding contracts_to_snapshots insert_by_start contract_symbol
  has_symbol-insert key c [] = refl
  has_symbol-insert key c (d ∷ cs) = ground (arith, has_symbol-insert key c cs)

  has_symbol-load :
      (key : Text) (now : ℕ) (cs : List (TradingContract P A))
      → has_symbol key (contracts_to_snapshots (load_active_contracts cs now))
        ≡ is_traded key now cs
  unfolding contracts_to_snapshots load_active_contracts
  has_symbol-load key now [] = refl
  has_symbol-load key now (c ∷ cs) =
      ground
        (arith, has_symbol-load key now cs, has_symbol-insert key c (load_active_contracts cs now))

-- The keys of the version and of a revocation differ.
revocation_key-apart :
    (p id : Text)
    → (text_eq (version_key p) (revocation_key p id) ≡ false)
      × (text_eq (revocation_key p id) (version_key p) ≡ false)
unfolding text_eq
revocation_key-apart p id = (
  text_eq-append p (codes ":assignments:version") (codes ":control:revoked:contract:" ++ id),
  text_eq-append p (codes ":control:revoked:contract:" ++ id) (codes ":assignments:version"),
)

version-revoke :
    (p : Text) (b : Backend) (id : Text) (revision now : ℕ)
    → get_assignment_version p (revoke_contract p b id revision now) ≡ get_assignment_version p b
unfolding get_assignment_version revoke_contract
version-revoke p b id revision now = rw (get_value-set_value, (revocation_key-apart p id).1) refl

revoked-revoke :
    (p : Text) (b : Backend) (id other : Text) (revision now : ℕ)
    → is_contract_revoked p (revoke_contract p b id revision now) other
      ≡ (text_eq id other || is_contract_revoked p b other)
unfolding is_contract_revoked revoke_contract
revoked-revoke p b id other revision now =
    let same : text_eq (revocation_key p id) (revocation_key p other) ≡ text_eq id other =
      text_eq-append p (codes ":control:revoked:contract:" ++ id)
        (codes ":control:revoked:contract:" ++ other)
      ∙ text_eq-append (codes ":control:revoked:contract:") id other in
    rw (get_value-set_value, same) (ground arith)

revoked-publish :
    (digest : Text → ℕ) (p : Text) (b b' : Backend) (cs : List TradingContractSnapshot) (n v : ℕ)
    (id : Text)
    → publish_assignments_for_contracts digest p b cs n ≡ ok (b', v)
    → is_contract_revoked p b' id ≡ is_contract_revoked p b id
unfolding is_contract_revoked
revoked-publish digest p b b' cs n v id run =
    rw
      (get_value-publish_assignments_for_contracts digest p b b' cs n v (revocation_key p id) run
        (revocation_key-apart p id).0)
      refl

-- With at least one shard and a readable version, invalidating a contract returns the next version and
-- a store in which exactly the contract and those that were revoked before are revoked. Each shard
-- below the number of shards then reads exactly the symbols of the contracts that are active now whose
-- digest modulo that number is the shard's.
pub invalidate_contract_lem :
    {P A : Type 0} (digest : Text → ℕ) (p : Text) (b : Backend)
    (contracts : List (TradingContract P A)) (id : Text) (revision now n v : ℕ)
    → 0 < n
    → get_assignment_version p b ≡ ok v
    → (b' : Backend) × (invalidate_contract digest (some p) b contracts id revision now n
        ≡ ok (b', some (v + 1)))
      × (get_assignment_version p b' ≡ ok (v + 1))
      × ((other : Text)
          → is_contract_revoked p b' other ≡ (text_eq id other || is_contract_revoked p b other))
      × ((shard : ℕ) (key : Text)
          → shard < n
          → contains key (get_shard_assignments p b' shard)
            ≡ (is_traded key now contracts && digest key % n == shard))
unfolding invalidate_contract
invalidate_contract_lem digest p b contracts id revision now n v pos version =
    let revoked = revoke_contract p b id revision now in
    let active = contracts_to_snapshots (load_active_contracts contracts now) in
    let (b', run, next, reads, above) =
      publish_assignments_for_contracts-reads digest p revoked active n v pos
        (version-revoke p b id revision now ∙ version) in
    (
      b',
      rw (run, invalidate_contract) refl,
      next,
      λ other.
          revoked-publish digest p revoked b' active n (v + 1) other run
          ∙ revoked-revoke p b id other revision now,
      λ shard key below. reads shard key below ∙ rw (has_symbol-load key now contracts) refl,
    )
