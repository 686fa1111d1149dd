-- ===== src/Universes/Tests.antt =====
-- src/app/universes/service.py: runs on a small database, and the laws at them.
use web_enigma.Base.{ℕ, ◌-◌, ◌≤◌, ◌<◌, ◌≡◌, ◌≢◌, refl, true, ◌||◌, none, [], ◌∷◌, arith}
use web_enigma.Base.Texts.{Text, codes, text_eq, text_le}
use web_enigma.Base.TextSet.{contains}
use web_enigma.Base.Sorted.{sorted, insert_sorted}
use web_enigma.Base.Result.{ok}
use web_enigma.Universes.{
  SymbolUniverse, Constituent, RefreshStats, Database, as_of_start, normalize_symbol_list,
  is_effective, effective_symbols, query_symbols, fallback_symbols, constituents_as_of,
  replace_user_universe_symbols, refresh_universe_in_db,
}
use web_enigma.Universes.Snapshots.{ends_by, EndBy}
use web_enigma.Universes.Replace.{replace_user_universe_symbols_lem}
use web_enigma.Universes.Refresh.{starts_by, refresh_universe_in_db_lem}

abbrev pub tech : SymbolUniverse
tech = record {
  id = 1;
  key = codes "user-tech-0";
  kind = codes "user";
  name = codes "Tech";
  description = none;
  provider = none;
  provider_ref = [];
  is_active = true;
}

abbrev row : Text → ℕ → Constituent
row symbol day = record {
  universe_id = 1;
  symbol = symbol;
  effective_from = as_of_start day;
  effective_to = none;
}

abbrev pub database : Database
database = record {
  universes = tech ∷ [];
  constituents = row (codes "AAPL") 3 ∷ row (codes "MSFT") 3 ∷ [];
  refresh_runs = [];
}

replace_user_universe_symbols_lem_example :
    (db' : Database) × (stats : RefreshStats) × (replace_user_universe_symbols database tech
        (codes " nvda" ∷ codes "AAPL" ∷ [])
        5
      ≡ ok (db', stats))
    × ((at : ℕ) (x : Text)
        → as_of_start 5 ≤ at
        → contains x (query_symbols db' 1 at)
          ≡ contains x (normalize_symbol_list (codes " nvda" ∷ codes "AAPL" ∷ [])))
    × ((at : ℕ) → at < as_of_start 5 → query_symbols db' 1 at ≡ query_symbols database 1 at)
    × ((other at : ℕ) → 1 ≢ other → query_symbols db' other at ≡ query_symbols database other at)
    × EndBy 1 (as_of_start 5 - 1) db'.constituents
    × (db'.universes ≡ database.universes)
unfolding ends_by text_eq
replace_user_universe_symbols_lem_example =
    replace_user_universe_symbols_lem database tech (codes " nvda" ∷ codes "AAPL" ∷ []) 5 refl
      (omega arith) (refl, (refl, tt))

direct : constituents_as_of database tech 5 ≡ query_symbols database 1 (as_of_start 5)
unfolding constituents_as_of query_symbols effective_symbols is_effective sorted insert_sorted
    text_le fallback_symbols
direct = refl

refresh_universe_in_db_lem_example :
    (db' : Database) × (stats : RefreshStats) × (refresh_universe_in_db database tech 5
        (ok (codes "NVDA" ∷ codes "AAPL" ∷ []))
      ≡ ok (db', stats))
    × ((at : ℕ) (x : Text)
        → as_of_start 5 < at
        → contains x (query_symbols db' 1 at)
          ≡ contains x (normalize_symbol_list (codes "NVDA" ∷ codes "AAPL" ∷ [])))
    × ((x : Text)
        → contains x (query_symbols db' 1 (as_of_start 5)) ≡ (
            contains x (normalize_symbol_list (codes "NVDA" ∷ codes "AAPL" ∷ []))
            || contains x (query_symbols database 1 (as_of_start 5))))
    × ((at : ℕ) → at < as_of_start 5 → query_symbols db' 1 at ≡ query_symbols database 1 at)
    × ((other at : ℕ) → 1 ≢ other → query_symbols db' other at ≡ query_symbols database other at)
unfolding starts_by ends_by
refresh_universe_in_db_lem_example =
    refresh_universe_in_db_lem database tech 5 0 (codes "NVDA" ∷ codes "AAPL" ∷ []) (omega arith)
      (refl, (refl, tt)) (refl, (refl, tt)) direct
