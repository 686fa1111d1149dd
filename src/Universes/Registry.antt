-- ===== src/Universes/Registry.antt =====
-- src/app/universes/service.py and registry.py: the registry of universes and its synchronisation
-- with the database. The registry is an argument, the list of its specs; so is the id of a new row.
pub mod Lookup
pub mod Synced
use web_enigma.Base.{
  ℕ, suc, ◌+◌, ◌==◌, Bool, true, false, not, ◌&&◌, ◌||◌, if◌then◌else◌, Option, none, some, List,
  [], ◌∷◌, ◌++◌,
}
use web_enigma.Base.Lists.{length}
use web_enigma.Base.Texts.{Text, codes, text_eq, is_empty, strip, lower}
use web_enigma.Base.TextSet.{TextSet, contains}
use web_enigma.Base.Dict.{Dict, get, put, text_key}
use web_enigma.Universes.{
  RefValue, word, words, other, SymbolUniverse, Database, normalize_symbol_list,
}

pub record UniverseSpec : Type 0 where
  pub spec_key : Text
  pub spec_name : Text
  pub spec_description : Option Text
  pub spec_provider : Text
  pub symbols : List Text

pub record SyncResult : Type 0 where
  pub rows : List SymbolUniverse
  pub created : ℕ
  pub updated : ℕ

-- value.strip().lower()
abbrev pub normalize_key : Text → Text
normalize_key value = lower (strip value)

abbrev pub text_or_empty : Option Text → Text
text_or_empty none = []
text_or_empty (some t) = t

abbrev pub all_some : List Text → List (Option Text)
all_some [] = []
all_some (t ∷ ts) = some t ∷ all_some ts

-- _registry_provider_ref
unfoldable pub registry_provider_ref : UniverseSpec → Dict Text RefValue
registry_provider_ref spec =
    let provider = normalize_key spec.spec_provider in
    if text_eq provider (codes "wikipedia")
    then (codes "kind", word spec.spec_key) ∷ []
    else if text_eq provider (codes "static")
        || text_eq provider (codes "static_list")
        || text_eq provider (codes "static-list")
    then (codes "symbols", words (all_some (normalize_symbol_list spec.symbols))) ∷ []
    else []

unfoldable pub options_eq : List (Option Text) → List (Option Text) → Bool
options_eq [] [] = true
options_eq (none ∷ xs) (none ∷ ys) = options_eq xs ys
options_eq (some x ∷ xs) (some y ∷ ys) = text_eq x y && options_eq xs ys
options_eq _ _ = false

-- Equality of the values and of the objects in `provider_ref`.
unfoldable pub value_eq : RefValue → RefValue → Bool
value_eq (word a) (word b) = text_eq a b
value_eq (words a) (words b) = options_eq a b
value_eq (other a) (other b) = a == b
value_eq _ _ = false

unfoldable pub covers : Dict Text RefValue → Dict Text RefValue → Bool
covers [] b = true
covers ((k, v) ∷ a) b = elim (get b k) [ none ↦ false | some w ↦ value_eq v w ] && covers a b

unfoldable pub ref_eq : Dict Text RefValue → Dict Text RefValue → Bool
ref_eq a b = length a == length b && covers a b

abbrev pub option_eq : Option Text → Option Text → Bool
option_eq none none = true
option_eq (some a) (some b) = text_eq a b
option_eq _ _ = false

-- {**provider_ref, "kind": key}, unless there is a kind that is not blank
unfoldable pub with_kind : Dict Text RefValue → Text → Dict Text RefValue
with_kind ref key = elim (get ref (codes "kind")) [
  | some (word kind) ↦ if is_empty (strip kind) then put ref (codes "kind") (word key) else ref
  | _ ↦ put ref (codes "kind") (word key)
]

abbrev pub is_registry : SymbolUniverse → Bool
is_registry record_ = text_eq record_.kind (codes "registry")

-- The record of the universe whose key is the one given.
unfoldable pub find_universe : Text → List SymbolUniverse → Option SymbolUniverse
find_universe key [] = none
find_universe key (u ∷ us) = if text_eq u.key key then some u else find_universe key us

-- _get_universe_record
abbrev pub get_universe_record : List SymbolUniverse → Text → Option SymbolUniverse
get_universe_record us key = find_universe (normalize_key key) us

-- The change of a record in place.
unfoldable pub set_universe : Text → SymbolUniverse → List SymbolUniverse → List SymbolUniverse
set_universe key changed [] = []
set_universe key changed (u ∷ us) =
    if text_eq u.key key then changed ∷ us else u ∷ set_universe key changed us

-- SymbolUniverse(...) of a spec
abbrev pub new_universe : ℕ → UniverseSpec → SymbolUniverse
new_universe id spec = record {
  id = id;
  key = spec.spec_key;
  kind = codes "registry";
  name = spec.spec_name;
  description = spec.spec_description;
  provider = some spec.spec_provider;
  provider_ref = registry_provider_ref spec;
  is_active = true;
}

-- `provider_ref` as desired; where it is equal, it is as it was.
abbrev pub desired_ref : SymbolUniverse → UniverseSpec → Dict Text RefValue
desired_ref u spec =
    if ref_eq u.provider_ref (registry_provider_ref spec)
    then u.provider_ref
    else registry_provider_ref spec

-- The legacy provider is replaced.
unfoldable pub migrate_fmp : SymbolUniverse → Text → SymbolUniverse
migrate_fmp u key =
    if text_eq (normalize_key (text_or_empty u.provider)) (codes "fmp")
    then record u {
      provider = some (codes "wikipedia");
      provider_ref = with_kind u.provider_ref key;
    }
    else u

-- The record that sync_registry leaves of a record and its spec.
unfoldable pub sync_record : SymbolUniverse → UniverseSpec → SymbolUniverse
sync_record u spec =
    migrate_fmp
      (record u {
        kind = codes "registry";
        is_active = true;
        name = spec.spec_name;
        description = spec.spec_description;
        provider = some spec.spec_provider;
        provider_ref = desired_ref u spec;
      })
      spec.spec_key

-- `changed` in sync_registry
unfoldable pub is_changed : SymbolUniverse → UniverseSpec → Bool
is_changed u spec =
    not (
      is_registry u
      && u.is_active
      && text_eq u.name spec.spec_name
      && option_eq u.description spec.spec_description
      && option_eq u.provider (some spec.spec_provider)
      && ref_eq u.provider_ref (registry_provider_ref spec))
    || text_eq (normalize_key spec.spec_provider) (codes "fmp")

-- The loop of sync_registry.
unfoldable pub sync_specs : (Text → ℕ) → List UniverseSpec → List SymbolUniverse → SyncResult
sync_specs new_id [] us = record { rows = us; created = 0; updated = 0 }
sync_specs new_id (spec ∷ specs) us = elim (get_universe_record us spec.spec_key) [
  | none ↦
      let rest = sync_specs new_id specs (us ++ (new_universe (new_id spec.spec_key) spec ∷ [])) in
      record rest { created = suc rest.created }
  | some u ↦
      let rest = sync_specs new_id specs (set_universe u.key (sync_record u spec) us) in
      record rest { updated = (if is_changed u spec then suc rest.updated else rest.updated) }
]

unfoldable pub spec_keys : List UniverseSpec → List Text
spec_keys [] = []
spec_keys (spec ∷ specs) = spec.spec_key ∷ spec_keys specs

-- The row that the deactivation finds.
abbrev pub is_stale : List Text → SymbolUniverse → Bool
is_stale desired u = not (contains u.key desired) && is_registry u && u.is_active

unfoldable pub deactivate : List Text → List SymbolUniverse → List SymbolUniverse
deactivate desired [] = []
deactivate desired (u ∷ us) =
    (if is_stale desired u then record u { is_active = false } else u) ∷ deactivate desired us

unfoldable pub count_stale : List Text → List SymbolUniverse → ℕ
count_stale desired [] = 0
count_stale desired (u ∷ us) =
    let rest = count_stale desired us in if is_stale desired u then suc rest else rest

-- sync_registry: the database, and how many records are created, updated and disabled
unfoldable pub sync_registry : (Text → ℕ) → List UniverseSpec → Database → Database × ℕ × ℕ × ℕ
sync_registry new_id registry db =
    let synced = sync_specs new_id registry db.universes in
    let desired = spec_keys registry in
    if is_empty desired
    then (record db { universes = synced.rows }, synced.created, synced.updated, 0)
    else (
      record db { universes = deactivate desired synced.rows },
      synced.created,
      synced.updated,
      count_stale desired synced.rows,
    )
