-- ===== src/Backtests/Sharding/Groups.antt =====
-- src/app/backtests/sharding.py, `_collect_runs_by_split`: what the groups hold.
use mathlib.Core.List.{append-nil, append_assoc}
use web_enigma.Base.{
  ◌≡◌, refl, sym, ap, ◌∙◌, Bool, false, if◌then◌else◌, Option, none, some, List, [], ◌∷◌, ◌++◌, inl,
  inr, Bool-cases,
}
use web_enigma.Base.Lists.{All}
use web_enigma.Base.Texts.{Text, codes, text_eq, text_eq_iff}
use web_enigma.Base.Dict.{Dict, get, get-put, IsUnique, put-IsUnique, text_key}
use web_enigma.Base.Result.{Result, ok, raises}
use web_enigma.Backtests.Sharding.{
  BacktestRunConfig, group_key_for_run, add_run, group_runs, collect_runs_by_split, runs_or_none,
}

abbrev is_key : Result Text → Text → Bool
is_key (ok k) key = text_eq k key
is_key (raises e) key = false

-- The runs of a list whose group key is the given one, in order.
abbrev pub runs_of_key : Text → Text → List BacktestRunConfig → List BacktestRunConfig
runs_of_key split_by key [] = []
runs_of_key split_by key (run ∷ runs) =
    if is_key (group_key_for_run run split_by) key
    then run ∷ runs_of_key split_by key runs
    else runs_of_key split_by key runs

-- A group that is in a dictionary, and none where it would be empty.
abbrev pub some_runs : List BacktestRunConfig → Option (List BacktestRunConfig)
some_runs [] = none
some_runs (run ∷ runs) = some (run ∷ runs)

some_runs-append_one :
    (runs : List BacktestRunConfig) (run : BacktestRunConfig)
    → some_runs (runs ++ run ∷ []) ≡ some (runs ++ run ∷ [])
some_runs-append_one [] run = refl
some_runs-append_one (r ∷ runs) run = refl

runs_or_none-some_runs : (runs : List BacktestRunConfig) → runs_or_none (some_runs runs) ≡ runs
runs_or_none-some_runs [] = refl
runs_or_none-some_runs (r ∷ runs) = refl

-- A key for each run: the run has a trigger wherever the split needs one.
abbrev pub HasKey : Text → BacktestRunConfig → Type 0
HasKey split_by run = (key : Text) × (group_key_for_run run split_by ≡ ok key)

abbrev Grouped : Dict Text (List BacktestRunConfig) → (Text → List BacktestRunConfig) → Type 0
Grouped d f = ((key : Text) → get d key ≡ some_runs (f key)) × IsUnique d

module _ (split_by : Text) where
  abbrev with_run :
      (Text → List BacktestRunConfig) → Text → BacktestRunConfig → Text → List BacktestRunConfig
  with_run f k run key = if text_eq k key then f key ++ run ∷ [] else f key

  add_run-Grouped :
      (d : Dict Text (List BacktestRunConfig)) (f : Text → List BacktestRunConfig) (k : Text)
      (run : BacktestRunConfig)
      → Grouped d f
      → Grouped (add_run d k run) (with_run f k run)
  add_run-Grouped d f k run (found, unique) = (
    (λ key.
        get-put d k key (runs_or_none (get d k) ++ run ∷ []) ∙ elim (Bool-cases (text_eq k key)) [
          | inl same ↦
              rw
                (
                  same,
                  found k,
                  runs_or_none-some_runs,
                  (text_eq_iff k key).0 same,
                  some_runs-append_one,
                )
                refl
          | inr other ↦ rw other (found key)
        ]),
    put-IsUnique d k (runs_or_none (get d k) ++ run ∷ []) unique,
  )

  with_run-runs_of_key :
      (f : Text → List BacktestRunConfig) (k : Text) (run : BacktestRunConfig)
      (runs : List BacktestRunConfig) (key : Text)
      → group_key_for_run run split_by ≡ ok k
      → with_run f k run key ++ runs_of_key split_by key runs
        ≡ f key ++ runs_of_key split_by key (run ∷ runs)
  with_run-runs_of_key f k run runs key e = elim (Bool-cases (text_eq k key)) [
    | inl same ↦ rw (e, same) (append_assoc (f key) (run ∷ []) (runs_of_key split_by key runs))
    | inr other ↦ rw (e, other) refl
  ]

  group_runs-Grouped :
      (d : Dict Text (List BacktestRunConfig)) (f : Text → List BacktestRunConfig)
      (runs : List BacktestRunConfig)
      → All (HasKey split_by) runs
      → Grouped d f
      → (d' : Dict Text (List BacktestRunConfig)) × (group_runs split_by d runs ≡ ok d')
        × Grouped d' (λ key. f key ++ runs_of_key split_by key runs)
  unfolding group_runs
  group_runs-Grouped d f [] a g =
      (d, refl, ((λ key. g.0 key ∙ ap some_runs (sym (append-nil (f key)))), g.1))
  group_runs-Grouped d f (run ∷ runs) ((k, e), a) g =
      let (d', ran, (found, unique)) =
        group_runs-Grouped (add_run d k run) (with_run f k run) runs a
          (add_run-Grouped d f k run g) in
      (
        d',
        rw e ran,
        ((λ key. found key ∙ ap some_runs (with_run-runs_of_key f k run runs key e)), unique),
      )

-- Where the split is not by run, and each run has a key for it, the runs are grouped: the group of
-- a key has exactly the runs with that key, in the order of the configuration; no group is empty,
-- and no key comes twice.
pub collect_runs_by_split-groups :
    (split_by : Text) (runs : List BacktestRunConfig)
    → text_eq split_by (codes "run") ≡ false
    → All (HasKey split_by) runs
    → (d : Dict Text (List BacktestRunConfig)) × (collect_runs_by_split runs split_by ≡ ok d)
      × ((key : Text) → get d key ≡ some_runs (runs_of_key split_by key runs))
      × IsUnique d
unfolding collect_runs_by_split get
collect_runs_by_split-groups split_by runs other a =
    let (d, ran, (found, unique)) =
      group_runs-Grouped split_by [] (λ key. []) runs a ((λ key. refl), tt) in
    (d, rw other ran, found, unique)
