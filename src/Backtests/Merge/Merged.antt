-- ===== src/Backtests/Merge/Merged.antt =====
-- src/app/backtests/merge.py: the counts, the status and the exit code of a merged report.
use web_enigma.Base.{
  ℕ, suc, ◌≡◌, Bool, not, if◌then◌else◌, Option, none, some, List, [], ◌∷◌, ◌++◌, ◌⊎◌,
}
use web_enigma.Base.Lists.{All}
use web_enigma.Base.Texts.{Text, codes, text_eq}
use web_enigma.Base.Result.{Exception, Result, ok, raises, file_not_found}
use web_enigma.Backtests.Merge.{RunResult}

-- A run that did not succeed.
abbrev pub is_failed : RunResult → Bool
is_failed r = not (text_eq r.status (codes "success"))

abbrev pub count_failed : List RunResult → ℕ
count_failed [] = 0
count_failed (r ∷ results) =
    if is_failed r then suc (count_failed results) else count_failed results

-- What the files hold: a shard's results, where its report is there and can be read.
abbrev pub Files : Type 0
Files = Text → Option (Result (List RunResult))

-- The results of the shards one after the other, where all can be read.
abbrev pub all_results : Files → List Text → List RunResult
all_results files [] = []
all_results files (path ∷ paths) =
    elim (files path) [ none ↦ [] | some (raises e) ↦ [] | some (ok results) ↦ results ]
    ++ all_results files paths

abbrev pub IsPresent : Files → Text → Type 0
IsPresent files path = (results : List RunResult) × (files path ≡ some (ok results))

-- The first path whose report is missing or cannot be read, after others that can: what it raises.
abbrev pub IsBroken : Files → List Text → Exception → Type 0
IsBroken files paths e =
    (before : List Text) × (path : Text) × (after : List Text) × (paths ≡ before ++ path ∷ after)
    × All (IsPresent files) before
    × ((files path ≡ none) × (e ≡ file_not_found) ⊎ (files path ≡ some (raises e)))
