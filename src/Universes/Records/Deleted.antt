-- ===== src/Universes/Records/Deleted.antt =====
-- src/app/universes/service.py: the creation and the removal of a user universe.
use web_enigma.Base.{
  arith, ℕ, ◌==◌, ◌≡◌, ◌≢◌, refl, ap, Bool, true, false, not, if◌then◌else◌, Option, none, some,
  List, [], ◌∷◌, inl, inr, Bool-cases,
}
use web_enigma.Base.Lists.{All}
use web_enigma.Base.Texts.{Text, codes, text_eq}
use web_enigma.Base.Sorted.{sorted}
use web_enigma.Base.Result.{ok}
use web_enigma.Universes.{
  SymbolUniverse, Constituent, RefreshRun, Database, effective_symbols, query_symbols,
}
use web_enigma.Universes.Registry.{UniverseSpec, normalize_key, get_universe_record}
use web_enigma.Universes.Records.{
  get_universe, user_record, detach_runs, delete_constituents, delete_universes,
  delete_user_universe,
}

-- The run is of another universe, or of none.
abbrev pub is_detached : ℕ → RefreshRun → Bool
is_detached id run = elim run.run_universe_id [ none ↦ true | some n ↦ not (n == id) ]

-- The first record with the id.
abbrev pub record_of : ℕ → List SymbolUniverse → Option SymbolUniverse
record_of id [] = none
record_of id (u ∷ us) = if u.id == id then some u else record_of id us

-- The runs of a universe.
abbrev pub runs_of : ℕ → List RefreshRun → List RefreshRun
runs_of id [] = []
runs_of id (run ∷ runs) = if is_detached id run then runs_of id runs else run ∷ runs_of id runs

abbrev pub run_ids : List RefreshRun → List ℕ
run_ids [] = []
run_ids (run ∷ runs) = run.run_id ∷ run_ids runs

module _ (id : ℕ) where
  delete_universes_lem :
      (us : List SymbolUniverse) → All (λ u. (u.id == id) ≡ false) (delete_universes id us)
  unfolding delete_universes
  delete_universes_lem [] = tt
  delete_universes_lem (u ∷ us) = elim (Bool-cases (u.id == id)) [
    | inl e ↦ rw (e, delete_universes) (delete_universes_lem us)
    | inr e ↦ rw (e, delete_universes) (e, delete_universes_lem us)
  ]

  detach_runs_lem :
      (runs : List RefreshRun) → All (λ run. is_detached id run ≡ true) (detach_runs id runs)
  unfolding detach_runs
  detach_runs_lem [] = tt
  detach_runs_lem (run ∷ runs) = (ground arith, detach_runs_lem runs)

  effective_symbols-delete :
      (at : ℕ) (rows : List Constituent)
      → effective_symbols id at (delete_constituents id rows) ≡ []
  unfolding effective_symbols delete_constituents
  effective_symbols-delete at [] = refl
  effective_symbols-delete at (row ∷ rows) = ground (arith, effective_symbols-delete at rows)

  effective_symbols-delete_other :
      (other at : ℕ) (rows : List Constituent)
      → id ≢ other
      → effective_symbols other at (delete_constituents id rows) ≡ effective_symbols other at rows
  unfolding effective_symbols delete_constituents
  effective_symbols-delete_other other at [] h = refl
  effective_symbols-delete_other other at (row ∷ rows) h =
      ground (arith, effective_symbols-delete_other other at rows h)

  record_of-delete_universes :
      (other : ℕ) (us : List SymbolUniverse)
      → id ≢ other
      → record_of other (delete_universes id us) ≡ record_of other us
  unfolding delete_universes
  record_of-delete_universes other [] h = refl
  record_of-delete_universes other (u ∷ us) h =
      ground (arith, record_of-delete_universes other us h)

  runs_of-detach_runs :
      (other : ℕ) (runs : List RefreshRun)
      → id ≢ other
      → runs_of other (detach_runs id runs) ≡ runs_of other runs
  unfolding detach_runs
  runs_of-detach_runs other [] h = refl
  runs_of-detach_runs other (run ∷ runs) h = ground (arith, runs_of-detach_runs other runs h)

  run_ids-detach_runs : (runs : List RefreshRun) → run_ids (detach_runs id runs) ≡ run_ids runs
  unfolding detach_runs
  run_ids-detach_runs [] = refl
  run_ids-detach_runs (run ∷ runs) = ground (arith, run_ids-detach_runs runs)

-- Removing a user universe that is found by the key returns. Afterwards no record has its id, a query
-- finds no symbol of it at any instant, and no refresh run is of it, though every run is still listed.
-- For every other id the record, the refresh runs and what a query finds are what they were before.
pub delete_user_universe_lem :
    (new_id : Text → ℕ) (registry : List UniverseSpec) (db : Database) (key : Text)
    (u : SymbolUniverse)
    → get_universe_record db.universes (normalize_key key) ≡ some u
    → text_eq u.kind (codes "user") ≡ true
    → (db' : Database) × (delete_user_universe new_id registry db key ≡ ok db')
      × All (λ v. (v.id == u.id) ≡ false) db'.universes
      × ((at : ℕ) → query_symbols db' u.id at ≡ [])
      × All (λ run. is_detached u.id run ≡ true) db'.refresh_runs
      × (run_ids db'.refresh_runs ≡ run_ids db.refresh_runs)
      × ((other at : ℕ) → u.id ≢ other → query_symbols db' other at ≡ query_symbols db other at)
      × ((other : ℕ)
          → u.id ≢ other
          → (record_of other db'.universes ≡ record_of other db.universes)
            × (runs_of other db'.refresh_runs ≡ runs_of other db.refresh_runs))
unfolding delete_user_universe get_universe user_record query_symbols sorted
delete_user_universe_lem new_id registry db key u found user = (
  record {
    universes = delete_universes u.id db.universes;
    constituents = delete_constituents u.id db.constituents;
    refresh_runs = detach_runs u.id db.refresh_runs;
  },
  rw (found, user, delete_user_universe, get_universe, user_record) refl,
  delete_universes_lem u.id db.universes,
  (λ at. ap sorted (effective_symbols-delete u.id at db.constituents)),
  detach_runs_lem u.id db.refresh_runs,
  run_ids-detach_runs u.id db.refresh_runs,
  (λ other at h. ap sorted (effective_symbols-delete_other u.id other at db.constituents h)),
  (λ other h. (
    record_of-delete_universes u.id other db.universes h,
    runs_of-detach_runs u.id other db.refresh_runs h,
  )),
)
