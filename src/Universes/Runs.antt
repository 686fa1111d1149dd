-- ===== src/Universes/Runs.antt =====
-- src/app/universes/service.py: the laws of the records and of the registry at a small database.
use web_enigma.Base.{ℕ, ◌≤◌, ◌==◌, ◌≡◌, ◌≢◌, refl, true, false, none, some, [], ◌∷◌, ◌⊎◌, arith}
use web_enigma.Base.Lists.{All}
use web_enigma.Base.Texts.{Text, codes, text_eq, strip, lower}
use web_enigma.Base.TextSet.{contains}
use web_enigma.Base.Result.{ok, raises, runtime_error, data_error}
use web_enigma.Universes.{
  SymbolUniverse, RefreshRun, Database, as_of_start, query_symbols, normalize_symbol_list,
}
use web_enigma.Universes.Tests.{tech, database}
use web_enigma.Universes.Registry.{
  UniverseSpec, spec_keys, find_universe, get_universe_record, sync_registry,
}
use web_enigma.Universes.Registry.Synced.{IsCurrent, HasSynced, retired, sync_registry_lem}
use web_enigma.Universes.Keys.{generate_user_key}
use web_enigma.Universes.Records.{delete_user_universe, create_user_universe}
use web_enigma.Universes.Records.Deleted.{
  is_detached, record_of, runs_of, run_ids, delete_user_universe_lem,
}
use web_enigma.Universes.Records.Created.{IsTaken, IsTooLong, create_user_universe_lem}

abbrev new_id : Text → ℕ
new_id key = 7

abbrev sp500 : UniverseSpec
sp500 = record {
  spec_key = codes "sp500";
  spec_name = codes "S&P 500";
  spec_description = none;
  spec_provider = codes "wikipedia";
  symbols = [];
}

abbrev bluechip : UniverseSpec
bluechip = record {
  spec_key = codes "bluechip_etfs";
  spec_name = codes "Blue-chip ETFs";
  spec_description = none;
  spec_provider = codes "static";
  symbols = codes "SPY" ∷ codes "DIA" ∷ [];
}

sp500-IsCurrent : IsCurrent sp500
unfolding strip lower text_eq
sp500-IsCurrent = (refl, refl)

bluechip-IsCurrent : IsCurrent bluechip
unfolding strip lower text_eq
bluechip-IsCurrent = (refl, refl)

apart : contains sp500.spec_key (spec_keys (bluechip ∷ [])) ≡ false
unfolding contains text_eq spec_keys
apart = refl

sync_registry_lem_example :
    All
      (HasSynced (sync_registry new_id (sp500 ∷ bluechip ∷ []) database).0.universes)
      (sp500 ∷ bluechip ∷ [])
    × ((key : Text)
        → contains key (spec_keys (sp500 ∷ bluechip ∷ [])) ≡ false
        → find_universe key (sync_registry new_id (sp500 ∷ bluechip ∷ []) database).0.universes
          ≡ elim (find_universe key database.universes) [
            | none ↦ none
            | some u ↦ some (retired (spec_keys (sp500 ∷ bluechip ∷ [])) u)
          ])
unfolding spec_keys contains
sync_registry_lem_example =
    sync_registry_lem new_id sp500 (bluechip ∷ []) database
      (sp500-IsCurrent, (bluechip-IsCurrent, tt)) (apart, (refl, tt))

abbrev run_of : ℕ → ℕ → RefreshRun
run_of run_id universe_id = record {
  run_id = run_id;
  run_universe_id = some universe_id;
  as_of = 0;
  status = codes "succeeded";
  started_at = 0;
  finished_at = none;
  stats = none;
  error = none;
}

-- Two user universes with a refresh run each.
abbrev two_lists : Database
two_lists = record database {
  universes = tech ∷ record tech { id = 2; key = codes "user-rest-0" } ∷ [];
  refresh_runs = run_of 8 1 ∷ run_of 9 2 ∷ [];
}

tech_found :
    get_universe_record two_lists.universes (lower (strip (codes " User-Tech-0"))) ≡ some tech
unfolding strip lower text_eq find_universe
tech_found = refl

tech_user : text_eq tech.kind (codes "user") ≡ true
unfolding text_eq
tech_user = refl

delete_user_universe_lem_example :
    (db' : Database) × (delete_user_universe new_id (sp500 ∷ []) two_lists (codes " User-Tech-0")
      ≡ ok db')
    × All (λ v. (v.id == 1) ≡ false) db'.universes
    × ((at : ℕ) → query_symbols db' 1 at ≡ [])
    × All (λ run. is_detached 1 run ≡ true) db'.refresh_runs
    × (run_ids db'.refresh_runs ≡ run_ids two_lists.refresh_runs)
    × ((other at : ℕ) → 1 ≢ other → query_symbols db' other at ≡ query_symbols two_lists other at)
    × ((other : ℕ)
        → 1 ≢ other
        → (record_of other db'.universes ≡ record_of other two_lists.universes)
          × (runs_of other db'.refresh_runs ≡ runs_of other two_lists.refresh_runs))
delete_user_universe_lem_example =
    delete_user_universe_lem new_id (sp500 ∷ []) two_lists (codes " User-Tech-0") tech tech_found
      tech_user

create_user_universe_lem_example :
    ((u : SymbolUniverse) × (db' : Database) × (create_user_universe database 2
          (codes "a1b2c3" ∷ [])
          (codes "My list")
          (codes "spy" ∷ [])
          none
          true
          4
        ≡ ok (u, db'))
      × (u.id ≡ 2)
      × (u.name ≡ strip (codes "My list"))
      × (find_universe u.key database.universes ≡ none)
      × (find_universe u.key db'.universes ≡ some u)
      × ((at : ℕ) (x : Text)
          → as_of_start 4 ≤ at
          → contains x (query_symbols db' 2 at)
            ≡ contains x (normalize_symbol_list (codes "spy" ∷ [])))
      × ((other at : ℕ) → 2 ≢ other → query_symbols db' other at ≡ query_symbols database other at))
    ⊎ ((create_user_universe database 2
            (codes "a1b2c3" ∷ [])
            (codes "My list")
            (codes "spy" ∷ [])
            none
            true
            4
          ≡ raises runtime_error)
        × All (IsTaken database.universes (codes "My list")) (codes "a1b2c3" ∷ []))
    ⊎ ((create_user_universe database 2
            (codes "a1b2c3" ∷ [])
            (codes "My list")
            (codes "spy" ∷ [])
            none
            true
            4
          ≡ raises data_error)
        × ((key : Text) × (generate_user_key database.universes
                (codes "My list")
                (codes "a1b2c3" ∷ [])
              ≡ ok key)
            × IsTooLong key (codes "My list") (codes "spy" ∷ [])))
create_user_universe_lem_example =
    create_user_universe_lem database 2 (codes "a1b2c3" ∷ []) (codes "My list") (codes "spy" ∷ [])
      none true 4 (refl, (refl, tt)) (omega arith)
