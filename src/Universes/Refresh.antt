-- ===== src/Universes/Refresh.antt =====
-- src/app/universes/service.py, `refresh_universe_in_db`.
use mathlib.Core.List.{append-nil}
use web_enigma.Base.{
  ℕ, ◌≤◌, ◌<◌, ◌==◌, leb, ◌≡◌, ◌≢◌, refl, ap, ◌∙◌, Bool, true, false, not, ◌&&◌, ◌||◌,
  if◌then◌else◌, List, [], ◌∷◌, ◌++◌, arith, inl, inr, Bool-cases,
}
use web_enigma.Base.Lists.{All, All-append, length}
use web_enigma.Base.Texts.{Text, text_eq, text_eq_iff}
use web_enigma.Base.TextSet.{
  contains, of_list, difference, intersection, contains-difference, contains-of_list,
}
use web_enigma.Base.Sorted.{sorted, contains-sorted}
use web_enigma.Base.Result.{ok}
use web_enigma.Universes.{
  SymbolUniverse, Constituent, RefreshStats, Database, as_of_start, normalize_symbol_list,
  is_effective, query_symbols, effective_symbols, close_symbols, new_rows, constituents_as_of,
  refresh_universe_in_db,
}
use web_enigma.Universes.Snapshots.{
  ends_by, EndBy, effective_symbols-append, effective_symbols-new_rows,
  effective_symbols-new_rows_other, effective_symbols-close_symbols_before,
  effective_symbols-close_symbols_other, new_rows-EndBy,
}

-- A row of the universe begins by `start`.
unfoldable pub starts_by : ℕ → ℕ → Constituent → Bool
starts_by universe_id start row =
    not (row.universe_id == universe_id) || leb row.effective_from start

abbrev pub StartBy : ℕ → ℕ → List Constituent → Type 0
StartBy universe_id start = All (λ row. starts_by universe_id start row ≡ true)

contains-append :
    (x : Text) (xs ys : List Text) → contains x (xs ++ ys) ≡ (contains x xs || contains x ys)
unfolding contains
contains-append x [] ys = refl
contains-append x (y ∷ xs) ys = ground (arith, contains-append x xs ys)

module _ (id : ℕ) where
  -- Where every row has begun and every end is past, the open rows are the effective ones.
  effective_symbols-later :
      (end start at : ℕ) (rows : List Constituent)
      → end < start
      → start ≤ at
      → StartBy id start rows
      → EndBy id end rows
      → effective_symbols id at rows ≡ effective_symbols id start rows
  unfolding effective_symbols is_effective starts_by ends_by
  effective_symbols-later end start at [] h k s e = refl
  effective_symbols-later end start at (row ∷ rows) h k s e =
      ground (arith, effective_symbols-later end start at rows h k s.1 e.1)

  -- After the instant at which symbols are closed they are effective no more, and the others are.
  contains-effective_symbols-close_symbols :
      (end start at : ℕ) (x : Text) (symbols : List Text) (rows : List Constituent)
      → end < at
      → start < at
      → EndBy id end rows
      → contains x (effective_symbols id at (close_symbols id symbols start rows))
        ≡ (contains x (effective_symbols id at rows) && not (contains x symbols))
  unfolding effective_symbols close_symbols is_effective ends_by contains
  contains-effective_symbols-close_symbols end start at x symbols [] h k e = refl
  contains-effective_symbols-close_symbols end start at x symbols (row ∷ rows) h k e =
      elim (Bool-cases (text_eq x row.symbol)) [
        | inl q ↦ ground (
          arith,
          contains-effective_symbols-close_symbols end start at x symbols rows h k e.1,
          ap (λ y. contains y symbols) ((text_eq_iff x row.symbol).0 q),
        )
        | inr q ↦
            ground
              (arith, contains-effective_symbols-close_symbols end start at x symbols rows h k e.1)
      ]

-- The rows after a refresh at the instant `start`.
abbrev refreshed_rows : ℕ → List Text → List Text → ℕ → List Constituent → List Constituent
refreshed_rows id removed added start rows =
    close_symbols id removed start (rows ++ new_rows id start added)

module _ (id start : ℕ) (removed added : List Text) (rows : List Constituent) where
  refreshed_until :
      (at : ℕ)
      → at ≤ start
      → effective_symbols id at (refreshed_rows id removed added start rows)
        ≡ effective_symbols id at rows ++ (if leb start at then added else [])
  refreshed_until at h =
      effective_symbols-close_symbols_before id at removed start (rows ++ new_rows id start added) h
      ∙ effective_symbols-append id at rows (new_rows id start added)
      ∙ ap (λ l. effective_symbols id at rows ++ l) (effective_symbols-new_rows id at start added)

  refreshed_after :
      (end at : ℕ) (x : Text)
      → end < start
      → start < at
      → StartBy id start rows
      → EndBy id end rows
      → contains x (effective_symbols id at (refreshed_rows id removed added start rows)) ≡ (
          (contains x (effective_symbols id start rows) || contains x added)
          && not (contains x removed))
  refreshed_after end at x h k s e =
      let begun : leb start at ≡ true = ground arith in
      contains-effective_symbols-close_symbols id end start at x removed
        (rows ++ new_rows id start added) (omega arith) k
        (All-append (λ row. ends_by id end row ≡ true) rows (new_rows id start added) e
          (new_rows-EndBy id end start added))
      ∙ rw
          (
            effective_symbols-append id at rows (new_rows id start added),
            effective_symbols-new_rows id at start added,
            begun,
            effective_symbols-later id end start at rows h (omega arith) s e,
            contains-append x (effective_symbols id start rows) added,
          )
          refl

  refreshed_other :
      (other at : ℕ)
      → id ≢ other
      → effective_symbols other at (refreshed_rows id removed added start rows)
        ≡ effective_symbols other at rows
  refreshed_other other at h =
      effective_symbols-close_symbols_other other at id removed start
        (rows ++ new_rows id start added) h
      ∙ effective_symbols-append other at rows (new_rows id start added)
      ∙ rw (effective_symbols-new_rows_other other at id start added h)
          (append-nil (effective_symbols other at rows))

-- A refresh with what the provider returned, where every row of the universe has begun by the start
-- of that day and has no end on it or later, and where `constituents_as_of` answers with the rows
-- that are effective at the start of the day, returns. At every later instant a query finds exactly
-- the normalized symbols of the provider; at the start of the day itself it finds those and all that
-- it found before; at every earlier instant, and for another universe, it finds what it found.
pub refresh_universe_in_db_lem :
    (db : Database) (universe : SymbolUniverse) (as_of end : ℕ) (fetched : List Text)
    → end < as_of_start as_of
    → StartBy universe.id (as_of_start as_of) db.constituents
    → EndBy universe.id end db.constituents
    → constituents_as_of db universe as_of ≡ query_symbols db universe.id (as_of_start as_of)
    → (db' : Database) × (stats : RefreshStats) × (refresh_universe_in_db db universe as_of
          (ok fetched)
        ≡ ok (db', stats))
      × ((at : ℕ) (x : Text)
          → as_of_start as_of < at
          → contains x (query_symbols db' universe.id at)
            ≡ contains x (normalize_symbol_list fetched))
      × ((x : Text)
          → contains x (query_symbols db' universe.id (as_of_start as_of)) ≡ (
              contains x (normalize_symbol_list fetched)
              || contains x (query_symbols db universe.id (as_of_start as_of))))
      × ((at : ℕ)
          → at < as_of_start as_of
          → query_symbols db' universe.id at ≡ query_symbols db universe.id at)
      × ((other at : ℕ)
          → universe.id ≢ other
          → query_symbols db' other at ≡ query_symbols db other at)
unfolding refresh_universe_in_db query_symbols
refresh_universe_in_db_lem db universe as_of end fetched h s e direct =
    let id = universe.id in
    let start = as_of_start as_of in
    let target = normalize_symbol_list fetched in
    let rows = db.constituents in
    let current = of_list (constituents_as_of db universe as_of) in
    let added = difference target current in
    let removed = difference current target in
    let known : ((x : Text) → contains x current ≡ contains x (effective_symbols id start rows)) =
      λ x.
        contains-of_list x (constituents_as_of db universe as_of)
        ∙ ap (contains x) direct
        ∙ contains-sorted x (effective_symbols id start rows) in
    (
      record db { constituents = refreshed_rows id removed added start rows },
      record {
        added = length added;
        closed = length removed;
        unchanged = length (intersection target current);
      },
      refl,
      (λ at x k.
          contains-sorted x (effective_symbols id at (refreshed_rows id removed added start rows))
          ∙ refreshed_after id start removed added rows end at x h k s e
          ∙ rw (contains-difference x target current, contains-difference x current target, known x)
              (ground arith)),
      (λ x.
          let begun : leb start start ≡ true = ground arith in
          contains-sorted x
            (effective_symbols id start (refreshed_rows id removed added start rows))
          ∙ rw
              (
                refreshed_until id start removed added rows start (omega arith),
                begun,
                contains-sorted x (effective_symbols id start rows),
                contains-append x (effective_symbols id start rows) added,
                contains-difference x target current,
                known x,
              )
              (ground arith)),
      (λ at k.
          let early : leb start at ≡ false = ground arith in
          ap sorted (
            refreshed_until id start removed added rows at (omega arith)
            ∙ rw early (append-nil (effective_symbols id at rows)))),
      (λ other at k. ap sorted (refreshed_other id start removed added rows other at k)),
    )
