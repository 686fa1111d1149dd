-- ===== src/Universes/Records.antt =====
-- src/app/universes/service.py: the records of universes and of refresh runs, and the universes that
-- a user keeps. Ids and the hexadecimal tokens of `secrets` are arguments.
pub mod Deleted
pub mod Created
use web_enigma.Base.{
  ℕ, zero, suc, ◌==◌, leb, Bool, true, false, not, ◌&&◌, ◌||◌, if◌then◌else◌, Option, none, some,
  List, [], ◌∷◌, ◌++◌,
}
use web_enigma.Base.Lists.{length}
use web_enigma.Base.Texts.{Text, codes, text_eq, is_empty, strip, lower}
use web_enigma.Base.Dict.{Dict}
use web_enigma.Base.Result.{Result, ok, raises, ◌>>=◌, runtime_error, data_error}
use web_enigma.Universes.{
  RefValue, SymbolUniverse, Constituent, RefreshStats, RefreshRun, Database, as_of_start,
  normalize_symbol_list, replace_user_universe_symbols,
}
use web_enigma.Universes.Keys.{generate_user_key}
use web_enigma.Universes.Registry.{
  UniverseSpec, normalize_key, all_some, registry_provider_ref, text_or_empty, option_eq, ref_eq,
  is_registry, find_universe, get_universe_record, set_universe, new_universe, migrate_fmp,
  desired_ref, spec_keys,
}

-- The record that _reconcile_registry_record leaves of a record and its spec.
unfoldable pub reconcile_registry_record : SymbolUniverse → UniverseSpec → SymbolUniverse
reconcile_registry_record u spec =
    let migrated = migrate_fmp u spec.spec_key in
    if not (is_registry u)
    then u
    else if not (
        text_eq (normalize_key (text_or_empty migrated.provider))
          (normalize_key spec.spec_provider))
    then migrated
    else record migrated {
      name = spec.spec_name;
      description = spec.spec_description;
      provider_ref = desired_ref migrated spec;
    }

-- _seed_registry_universes
unfoldable pub seed_registry_universes :
    (Text → ℕ) → List UniverseSpec → List SymbolUniverse → List SymbolUniverse
seed_registry_universes new_id [] us = us
seed_registry_universes new_id (spec ∷ specs) us = elim (get_universe_record us spec.spec_key) [
  | none ↦
      seed_registry_universes new_id specs (us ++ (new_universe (new_id spec.spec_key) spec ∷ []))
  | some u ↦
      seed_registry_universes new_id specs
        (set_universe u.key (reconcile_registry_record u spec) us)
]

-- normalized in UNIVERSE_REGISTRY
unfoldable pub is_spec_key : Text → List UniverseSpec → Bool
is_spec_key key [] = false
is_spec_key key (spec ∷ specs) = text_eq spec.spec_key key || is_spec_key key specs

-- get_universe: the record, and the database, in which the registry may have been seeded
unfoldable pub get_universe :
    (Text → ℕ) → List UniverseSpec → Database → Text → Option SymbolUniverse × Database
get_universe new_id registry db key = elim (get_universe_record db.universes (normalize_key key)) [
  | some u ↦ (some u, db)
  | none ↦
      let seeded = record db { universes = seed_registry_universes new_id registry db.universes } in
      if is_spec_key (normalize_key key) registry
      then (get_universe_record seeded.universes (normalize_key key), seeded)
      else (none, db)
]

-- The text fits into a column of String(n).
abbrev pub fits : ℕ → Text → Bool
fits n text = leb (length text) n

-- Every symbol fits into SymbolUniverseConstituent.symbol.
abbrev pub all_fit : List Text → Bool
all_fit [] = true
all_fit (x ∷ symbols) = fits 32 x && all_fit symbols

-- create_user_universe, with the id and the tokens; the columns of the key and the name are
-- String(64) and String(128), and the database refuses a longer text. Where a symbol is too long the
-- record is committed before the call raises.
unfoldable pub create_user_universe :
    Database
    → ℕ
    → List Text
    → Text
    → List Text
    → Option Text
    → Bool
    → ℕ
    → Result (SymbolUniverse × Database)
create_user_universe db id tokens name symbols description is_active created_on =
    generate_user_key db.universes name tokens >>= (λ key.
      let u : SymbolUniverse = record {
        id = id;
        key = key;
        kind = codes "user";
        name = strip name;
        description = description;
        provider = none;
        provider_ref = [];
        is_active = is_active;
      } in
      if not (fits 64 u.key && fits 128 u.name && all_fit (normalize_symbol_list symbols))
      then raises data_error
      else replace_user_universe_symbols (record db { universes = db.universes ++ (u ∷ []) }) u
          symbols created_on
        >>= (λ (db', stats). ok (u, db')))

-- The record of a user universe, or InvalidUniverseError.
unfoldable pub user_record : Option SymbolUniverse → Result SymbolUniverse
user_record none = raises runtime_error
user_record (some u) = if text_eq u.kind (codes "user") then ok u else raises runtime_error

-- patch_user_universe: an argument that is none leaves its field
unfoldable pub patch_user_universe :
    (Text → ℕ)
    → List UniverseSpec
    → Database
    → Text
    → Option Text
    → Option Text
    → Option Bool
    → Result (SymbolUniverse × Database)
patch_user_universe new_id registry db key name description is_active =
    let (found, db') = get_universe new_id registry db key in
    user_record found >>= (λ u.
      let patched : SymbolUniverse = record u {
        name = elim name [ none ↦ u.name | some n ↦ strip n ];
        description = elim description [ none ↦ u.description | some d ↦ some d ];
        is_active = elim is_active [ none ↦ u.is_active | some b ↦ b ];
      } in
      ok (patched, record db' { universes = set_universe u.key patched db'.universes }))

-- update(SymbolUniverseRefreshRun).where(universe_id == id).values(universe_id=None)
unfoldable pub detach_runs : ℕ → List RefreshRun → List RefreshRun
detach_runs id [] = []
detach_runs id (run ∷ runs) =
    (elim run.run_universe_id [
      | none ↦ run
      | some n ↦ if n == id then record run { run_universe_id = none } else run
    ])
    ∷ detach_runs id runs

unfoldable pub delete_constituents : ℕ → List Constituent → List Constituent
delete_constituents id [] = []
delete_constituents id (row ∷ rows) =
    let rest = delete_constituents id rows in if row.universe_id == id then rest else row ∷ rest

unfoldable pub delete_universes : ℕ → List SymbolUniverse → List SymbolUniverse
delete_universes id [] = []
delete_universes id (u ∷ us) =
    let rest = delete_universes id us in if u.id == id then rest else u ∷ rest

-- delete_user_universe
unfoldable pub delete_user_universe :
    (Text → ℕ) → List UniverseSpec → Database → Text → Result Database
delete_user_universe new_id registry db key =
    let (found, db') = get_universe new_id registry db key in
    user_record found >>= (λ u. ok (record {
      universes = delete_universes u.id db'.universes;
      constituents = delete_constituents u.id db'.constituents;
      refresh_runs = detach_runs u.id db'.refresh_runs;
    }))

-- create_refresh_run, with the id and the time at which it starts
unfoldable pub create_refresh_run : Database → ℕ → Option ℕ → ℕ → Text → ℕ → Database
create_refresh_run db run_id universe_id as_of status started_at = record db {
  refresh_runs =
      db.refresh_runs
      ++ (record {
        run_id = run_id;
        run_universe_id = universe_id;
        as_of = as_of_start as_of;
        status = status;
        started_at = started_at;
        finished_at = none;
        stats = none;
        error = none;
      }
          ∷ []);
}

unfoldable pub finish_run :
    ℕ → Text → Option RefreshStats → Option Text → ℕ → List RefreshRun → List RefreshRun
finish_run run_id status stats error finished_at [] = []
finish_run run_id status stats error finished_at (run ∷ runs) =
    (if run.run_id == run_id
      then record run {
        status = status;
        finished_at = some finished_at;
        stats = stats;
        error = error;
      }
      else run)
    ∷ finish_run run_id status stats error finished_at runs

-- finish_refresh_run, with the time
unfoldable pub finish_refresh_run :
    Database → ℕ → Text → Option RefreshStats → Option Text → ℕ → Database
finish_refresh_run db run_id status stats error finished_at = record db {
  refresh_runs = finish_run run_id status stats error finished_at db.refresh_runs;
}
