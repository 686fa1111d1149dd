-- ===== src/Universes.antt =====
-- src/app/universes/service.py, `SymbolUniverseService`, with the tables of src/app/db/models.py
-- that it uses: a table is the list of its rows, a commit is the returned database, and a UUID is a
-- number that the caller gives. Dates are day numbers, instants are numbers of microseconds since
-- the first of them. The columns created_at and updated_at are left out.
pub mod Snapshots
pub mod Replace
pub mod Refresh
pub mod Registry
pub mod Keys
pub mod Records
mod Tests
mod Runs
use web_enigma.Base.{
  ℕ, ◌+◌, ◌-◌, ◌*◌, ◌==◌, leb, ltb, max, min, Bool, true, false, not, ◌&&◌, ◌||◌, if◌then◌else◌,
  Option, none, some, List, [], ◌∷◌, ◌++◌,
}
use web_enigma.Base.Lists.{length}
use web_enigma.Base.Texts.{Text, codes, text_eq, is_empty, strip, upper}
use web_enigma.Base.TextSet.{TextSet, contains, of_list, difference, intersection}
use web_enigma.Base.Sorted.{sorted}
use web_enigma.Base.Dict.{Dict, get, text_key}
use web_enigma.Base.Result.{Result, ok, raises, ◌>>=◌, runtime_error}

-- A value of the JSON object `provider_ref`. An element of an array that is no string is `none`.
pub data RefValue : Type 0 where
  word : Text → RefValue
  words : List (Option Text) → RefValue
  other : ℕ → RefValue

pub record SymbolUniverse : Type 0 where
  pub id : ℕ
  pub key : Text
  pub kind : Text
  pub name : Text
  pub description : Option Text
  pub provider : Option Text
  pub provider_ref : Dict Text RefValue
  pub is_active : Bool

pub record Constituent : Type 0 where
  pub universe_id : ℕ
  pub symbol : Text
  pub effective_from : ℕ
  pub effective_to : Option ℕ

pub record RefreshStats : Type 0 where
  pub added : ℕ
  pub closed : ℕ
  pub unchanged : ℕ

pub record RefreshRun : Type 0 where
  pub run_id : ℕ
  pub run_universe_id : Option ℕ
  pub as_of : ℕ
  pub status : Text
  pub started_at : ℕ
  pub finished_at : Option ℕ
  pub stats : Option RefreshStats
  pub error : Option Text

pub record Database : Type 0 where
  pub universes : List SymbolUniverse
  pub constituents : List Constituent
  pub refresh_runs : List RefreshRun

-- _as_of_start
abbrev pub as_of_start : ℕ → ℕ
as_of_start date = date * 86400000000

-- _normalize_symbol
abbrev pub normalize_symbol : Text → Text
normalize_symbol value = upper (strip value)

-- The normalized values that are not empty.
unfoldable pub normalized_symbols : List Text → List Text
normalized_symbols [] = []
normalized_symbols (v ∷ vs) =
    let rest = normalized_symbols vs in
    if is_empty (normalize_symbol v) then rest else normalize_symbol v ∷ rest

-- _normalize_symbol_list: the set of the symbols that were seen is the set of those in the list, and
-- the sorted list of distinct symbols is the set.
unfoldable pub normalize_symbol_list : List Text → TextSet
normalize_symbol_list values = of_list (normalized_symbols values)

-- The row is effective at an instant.
unfoldable pub is_effective : ℕ → Constituent → Bool
is_effective at row =
    leb row.effective_from at && elim row.effective_to [ none ↦ true | some end ↦ leb at end ]

unfoldable pub effective_symbols : ℕ → ℕ → List Constituent → List Text
effective_symbols universe_id at [] = []
effective_symbols universe_id at (row ∷ rows) =
    let rest = effective_symbols universe_id at rows in
    if row.universe_id == universe_id && is_effective at row then row.symbol ∷ rest else rest

-- constituents_as_of._query_symbols
unfoldable pub query_symbols : Database → ℕ → ℕ → List Text
query_symbols db universe_id at = sorted (effective_symbols universe_id at db.constituents)

-- [symbol for symbol in static_symbols if isinstance(symbol, str)]
unfoldable pub only_texts : List (Option Text) → List Text
only_texts [] = []
only_texts (none ∷ vs) = only_texts vs
only_texts (some v ∷ vs) = v ∷ only_texts vs

-- The list under `symbols`, and the empty one where there is none.
abbrev static_list : Option RefValue → List (Option Text)
static_list (some (words vs)) = vs
static_list _ = []

abbrev pub latest : Option ℕ → ℕ → Option ℕ
latest none n = some n
latest (some m) n = some (max m n)

abbrev pub earliest : Option ℕ → ℕ → Option ℕ
earliest none n = some n
earliest (some m) n = some (min m n)

-- func.max(effective_from) of the rows that begin by `at`
unfoldable pub last_start : ℕ → ℕ → List Constituent → Option ℕ
last_start universe_id at [] = none
last_start universe_id at (row ∷ rows) =
    let rest = last_start universe_id at rows in
    if row.universe_id == universe_id && leb row.effective_from at
    then latest rest row.effective_from
    else rest

-- func.min(effective_from) of the rows that begin after `at`
unfoldable pub first_start : ℕ → ℕ → List Constituent → Option ℕ
first_start universe_id at [] = none
first_start universe_id at (row ∷ rows) =
    let rest = first_start universe_id at rows in
    if row.universe_id == universe_id && ltb at row.effective_from
    then earliest rest row.effective_from
    else rest

abbrev nearest_start : Option ℕ → Option ℕ → Option ℕ
nearest_start (some n) after = some n
nearest_start none after = after

abbrev query_at : Database → ℕ → Option ℕ → List Text
query_at db universe_id none = []
query_at db universe_id (some at) = query_symbols db universe_id at

-- What `constituents_as_of` answers where no row is effective.
unfoldable pub fallback_symbols : Database → SymbolUniverse → ℕ → List Text
fallback_symbols db universe at =
    let static_symbols = static_list (get universe.provider_ref (codes "symbols")) in
    if is_empty static_symbols
    then query_at db universe.id (
        nearest_start (last_start universe.id at db.constituents)
          (first_start universe.id at db.constituents))
    else normalize_symbol_list (only_texts static_symbols)

-- constituents_as_of
unfoldable pub constituents_as_of : Database → SymbolUniverse → ℕ → List Text
constituents_as_of db universe as_of =
    let symbols = query_symbols db universe.id (as_of_start as_of) in
    if is_empty symbols then fallback_symbols db universe (as_of_start as_of) else symbols

-- The rows of a universe that are open have no end.
abbrev pub is_open_row : ℕ → Constituent → Bool
is_open_row universe_id row =
    row.universe_id == universe_id && elim row.effective_to [ none ↦ true | some end ↦ false ]

-- The symbols of the open rows.
unfoldable pub open_symbols : ℕ → List Constituent → List Text
open_symbols universe_id [] = []
open_symbols universe_id (row ∷ rows) =
    let rest = open_symbols universe_id rows in
    if is_open_row universe_id row then row.symbol ∷ rest else rest

-- update(...).where(symbol.in_(symbols)).where(effective_to.is_(None)).values(effective_to=end)
unfoldable pub close_symbols : ℕ → List Text → ℕ → List Constituent → List Constituent
close_symbols universe_id symbols end [] = []
close_symbols universe_id symbols end (row ∷ rows) =
    (if is_open_row universe_id row && contains row.symbol symbols
      then record row { effective_to = some end }
      else row)
    ∷ close_symbols universe_id symbols end rows

-- update(...).where(effective_to.is_(None)).values(effective_to=end)
unfoldable pub close_all : ℕ → ℕ → List Constituent → List Constituent
close_all universe_id end [] = []
close_all universe_id end (row ∷ rows) =
    (if is_open_row universe_id row then record row { effective_to = some end } else row)
    ∷ close_all universe_id end rows

-- session.add(SymbolUniverseConstituent(...)), for each symbol
unfoldable pub new_rows : ℕ → ℕ → List Text → List Constituent
new_rows universe_id start [] = []
new_rows universe_id start (s ∷ ss) =
    record { universe_id = universe_id; symbol = s; effective_from = start; effective_to = none }
    ∷ new_rows universe_id start ss

-- replace_user_universe_symbols. No date is the first one, so the instant before the start is there.
unfoldable pub replace_user_universe_symbols :
    Database → SymbolUniverse → List Text → ℕ → Result (Database × RefreshStats)
replace_user_universe_symbols db universe symbols effective_on =
    let start = as_of_start effective_on in
    let end = start - 1 in
    let next_set = normalize_symbol_list symbols in
    let current_set = of_list (open_symbols universe.id db.constituents) in
    let to_add = difference next_set current_set in
    let to_close = difference current_set next_set in
    let kept = close_all universe.id end (close_symbols universe.id to_close end db.constituents) in
    if text_eq universe.kind (codes "user")
    then ok (
      record db { constituents = kept ++ new_rows universe.id start next_set },
      record {
        added = length to_add;
        closed = length to_close;
        unchanged = length (intersection next_set current_set);
      },
    )
    else raises runtime_error

-- refresh_universe_in_db, with what the provider returns; an exception of the provider is turned
-- into a `SymbolUniverseProviderError`
unfoldable pub refresh_universe_in_db :
    Database → SymbolUniverse → ℕ → Result (List Text) → Result (Database × RefreshStats)
refresh_universe_in_db db universe as_of (raises e) = raises runtime_error
refresh_universe_in_db db universe as_of (ok fetched) =
    let start = as_of_start as_of in
    let target_membership = normalize_symbol_list fetched in
    let current_symbols = of_list (constituents_as_of db universe as_of) in
    let added = difference target_membership current_symbols in
    let removed = difference current_symbols target_membership in
    ok (
      record db {
        constituents =
            close_symbols universe.id removed start
              (db.constituents ++ new_rows universe.id start added);
      },
      record {
        added = length added;
        closed = length removed;
        unchanged = length (intersection target_membership current_symbols);
      },
    )
