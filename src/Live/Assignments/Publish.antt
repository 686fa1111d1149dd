-- ===== src/Live/Assignments/Publish.antt =====
-- src/app/live/assignment_publisher.py, `publish_assignments_for_contracts`: what the workers of
-- the shards read after a publication.
use web_enigma.Base.{
  ℕ, ◌+◌, ◌%◌, ◌≤◌, ◌<◌, ◌==◌, ◌≡◌, refl, subst, ◌∙◌, inl, inr, Bool, false, ◌&&◌, ◌||◌,
  if◌then◌else◌, Option, none, some, List, [], ◌∷◌, arith,
}
use web_enigma.Base.Decimal.{decimal, decimal_injective}
use web_enigma.Base.Texts.{Text, text_eq-append, text_eq, text_eq_iff, text_eq_refl}
use web_enigma.Base.TextSet.{TextSet, contains, of_list, contains-of_list}
use web_enigma.Base.Dict.{Dict, get, put, keys, get-eq-none, IsUnique, text_key, nat_key}
use web_enigma.Base.Result.{ok, Result-cases}
use web_enigma.Live.Backend.{
  Backend, Scalar, Json, Value, get_value, set_value, set_members, get_members,
}
use web_enigma.Live.Backend
use web_enigma.Live.Backend.Laws.{
  get_value-set_value, get_value-set_members, get_members-set_value, get_members-set_members,
}
use web_enigma.Live.Assignments.{
  TradingContractSnapshot, contract_symbol, group_contracts_by_symbol, group_into, append_to,
  version_key, shard_prefix, assignment_key, version_of, get_assignment_version, publish_shards,
  publish_assignments, get_shard_assignments, publish_assignments_for_contracts,
  compute_assignments,
}
use web_enigma.Live.Assignments.Partition.{compute_assignments-Spread}

text_eq-decimal : (m n : ℕ) → text_eq (decimal m) (decimal n) ≡ (m == n)
text_eq-decimal m n = ground (arith, text_eq_iff (decimal m) (decimal n), decimal_injective m n)

text_eq-assignment_key :
    (p : Text) (m n : ℕ) → text_eq (assignment_key p m) (assignment_key p n) ≡ (m == n)
unfolding assignment_key
text_eq-assignment_key p m n =
    text_eq-append (shard_prefix p) (decimal m) (decimal n) ∙ text_eq-decimal m n

-- Some contract trades the symbol.
abbrev pub has_symbol : Text → List TradingContractSnapshot → Bool
has_symbol k [] = false
has_symbol k (c ∷ cs) = text_eq k (contract_symbol c) || has_symbol k cs

contains-keys-put :
    {V : Type 0} (d : Dict Text V) (j k : Text) (v : V)
    → contains k (keys (put d j v)) ≡ (text_eq k j || contains k (keys d))
unfolding contains keys put
contains-keys-put [] j k v = refl
contains-keys-put ((i, w) ∷ d) j k v =
    ground (arith, contains-keys-put d j k v, text_eq_iff i j, text_eq_iff k j, text_eq_iff k i)

contains-group_into :
    (d : Dict Text (List TradingContractSnapshot)) (cs : List TradingContractSnapshot) (k : Text)
    → contains k (keys (group_into d cs)) ≡ (contains k (keys d) || has_symbol k cs)
unfolding group_into
contains-group_into d [] k = ground arith
contains-group_into d (c ∷ cs) k =
    contains-group_into (put d (contract_symbol c) (append_to (get d (contract_symbol c)) c)) cs k
    ∙ ground
        (arith, contains-keys-put d (contract_symbol c) k (append_to (get d (contract_symbol c)) c))

pub contains-groups :
    (cs : List TradingContractSnapshot) (k : Text)
    → contains k (keys (group_contracts_by_symbol cs)) ≡ has_symbol k cs
unfolding group_contracts_by_symbol contains keys
contains-groups cs k = contains-group_into [] cs k

abbrev published : Option TextSet → TextSet → TextSet
published none old = old
published (some s) old = of_list s

get_shard_assignments-set_members :
    (p : Text) (b : Backend) (i j : ℕ) (s : List Text)
    → get_shard_assignments p (set_members b (assignment_key p i) s) j
      ≡ (if i == j then of_list s else get_shard_assignments p b j)
unfolding get_shard_assignments
get_shard_assignments-set_members p b i j s =
    get_members-set_members b (assignment_key p i) (assignment_key p j) s
    ∙ rw (text_eq-assignment_key p i j) refl

get_shard_assignments-publish_shards :
    (p : Text) (d : Dict ℕ TextSet) (b : Backend) (j : ℕ)
    → IsUnique d
    → get_shard_assignments p (publish_shards p b d) j
      ≡ published (get d j) (get_shard_assignments p b j)
unfolding publish_shards get
get_shard_assignments-publish_shards p [] b j h = refl
get_shard_assignments-publish_shards p ((i, s) ∷ d) b j h =
    get_shard_assignments-publish_shards p d (set_members b (assignment_key p i) s) j h.1
    ∙ ground
        (arith, get_shard_assignments-set_members p b i j s, get-eq-none d i h.0, get-eq-none d j)

get_value-publish_shards :
    (p : Text) (d : Dict ℕ TextSet) (b : Backend) (key : Text)
    → get_value (publish_shards p b d) key ≡ get_value b key
unfolding publish_shards
get_value-publish_shards p [] b key = refl
get_value-publish_shards p ((i, s) ∷ d) b key =
    get_value-publish_shards p d (set_members b (assignment_key p i) s) key
    ∙ get_value-set_members b (assignment_key p i) key s

get_shard_assignments-publish_assignments :
    (p : Text) (b : Backend) (version shard : ℕ) (d : Dict ℕ TextSet)
    → IsUnique d
    → get_shard_assignments p (publish_assignments p b version d) shard
      ≡ published (get d shard) (get_shard_assignments p b shard)
unfolding publish_assignments get_shard_assignments
get_shard_assignments-publish_assignments p b version shard d u =
    get_shard_assignments-publish_shards p d
      (set_value b (version_key p) (Value.json (Backend.scalar (Scalar.number version)))) shard u
    ∙ rw get_members-set_value

get_assignment_version-publish_assignments :
    (p : Text) (b : Backend) (version : ℕ) (d : Dict ℕ TextSet)
    → get_assignment_version p (publish_assignments p b version d) ≡ ok version
unfolding publish_assignments get_assignment_version version_of
get_assignment_version-publish_assignments p b version d =
    rw (get_value-publish_shards, get_value-set_value, text_eq_refl)

-- With at least one shard and a readable version, the publication returns the next version and a
-- store that holds it. The set of each shard below the number of shards is then exactly the
-- contracts' symbols whose digest modulo that number is the shard's, and the set of every other
-- shard is as it was.
pub publish_assignments_for_contracts-reads :
    (digest : Text → ℕ) (p : Text) (b : Backend) (cs : List TradingContractSnapshot) (n v : ℕ)
    → 0 < n
    → get_assignment_version p b ≡ ok v
    → (b' : Backend) × (publish_assignments_for_contracts digest p b cs n ≡ ok (b', v + 1))
      × (get_assignment_version p b' ≡ ok (v + 1))
      × ((shard : ℕ) (k : Text)
          → shard < n
          → contains k (get_shard_assignments p b' shard)
            ≡ (has_symbol k cs && digest k % n == shard))
      × ((shard : ℕ)
          → n ≤ shard
          → get_shard_assignments p b' shard ≡ get_shard_assignments p b shard)
unfolding publish_assignments_for_contracts
publish_assignments_for_contracts-reads digest p b cs n v pos e =
    let (d, ran, h, u) =
      compute_assignments-Spread digest n (keys (group_contracts_by_symbol cs)) pos in
    (
      publish_assignments p b (v + 1) d,
      rw (ran, e),
      get_assignment_version-publish_assignments p b (v + 1) d,
      λ shard k below.
          let (s, found, members) = (h shard).0 below in
          rw (
            get_shard_assignments-publish_assignments p b (v + 1) shard d u,
            found,
            contains-of_list,
            members k,
            contains-groups,
          ),
      λ shard above.
          rw (get_shard_assignments-publish_assignments p b (v + 1) shard d u, (h shard).1 above),
    )

-- A publication changes no value but the version.
pub get_value-publish_assignments_for_contracts :
    (digest : Text → ℕ) (p : Text) (b b' : Backend) (cs : List TradingContractSnapshot) (n v : ℕ)
    (key : Text)
    → publish_assignments_for_contracts digest p b cs n ≡ ok (b', v)
    → text_eq (version_key p) key ≡ false
    → get_value b' key ≡ get_value b key
unfolding publish_assignments_for_contracts publish_assignments
get_value-publish_assignments_for_contracts digest p b b' cs n v key run apart =
    elim (Result-cases (compute_assignments digest (keys (group_contracts_by_symbol cs)) n)) [
      | inr (e, c) ↦ absurd (ground (arith, rw (c, publish_assignments_for_contracts) at run))
      | inl (d, c) ↦ elim (Result-cases (get_assignment_version p b)) [
        | inr (e, g) ↦ absurd (ground (arith, rw (c, g, publish_assignments_for_contracts) at run))
        | inl (w, g) ↦
            let same : publish_assignments p b (w + 1) d ≡ b' =
              ground (arith, rw (c, g, publish_assignments_for_contracts) at run) in
            subst (λ x. get_value x key ≡ get_value b key) same
              (get_value-publish_shards p d
                  (set_value b (version_key p)
                    (Value.json (Backend.scalar (Scalar.number (w + 1)))))
                  key
                ∙ get_value-set_value b (version_key p) key
                    (Value.json (Backend.scalar (Scalar.number (w + 1))))
                ∙ rw apart refl)
      ]
    ]
