-- ===== src/Universes/Replace.antt =====
-- src/app/universes/service.py, `replace_user_universe_symbols`.
use mathlib.Core.List.{append-nil}
use web_enigma.Base.{ℕ, ◌-◌, ◌≤◌, ◌<◌, leb, ◌≡◌, ◌≢◌, refl, ap, ◌∙◌, true, false, List, ◌++◌, arith}
use web_enigma.Base.Lists.{All-append, length}
use web_enigma.Base.Texts.{Text, codes, text_eq}
use web_enigma.Base.TextSet.{contains, of_list, difference, intersection}
use web_enigma.Base.Sorted.{sorted, contains-sorted}
use web_enigma.Base.Result.{ok}
use web_enigma.Universes.{
  SymbolUniverse, Constituent, RefreshStats, Database, as_of_start, normalize_symbol_list,
  query_symbols, effective_symbols, open_symbols, close_symbols, close_all, new_rows,
  replace_user_universe_symbols,
}
use web_enigma.Universes.Snapshots.{
  ends_by, EndBy, effective_symbols-append, effective_symbols-new_rows,
  effective_symbols-new_rows_other, effective_symbols-close_all_before,
  effective_symbols-close_symbols_before, effective_symbols-close_all_after,
  effective_symbols-close_all_other, effective_symbols-close_symbols_other, close_symbols-EndBy,
  close_all-EndBy, new_rows-EndBy,
}

-- The rows after a replacement at the instant `start`.
abbrev replaced_rows : ℕ → List Text → List Text → ℕ → ℕ → List Constituent → List Constituent
replaced_rows id to_close next start end rows =
    close_all id end (close_symbols id to_close end rows) ++ new_rows id start next

module _ (id start end : ℕ) (to_close next : List Text) (rows : List Constituent) where
  replaced_after :
      (at : ℕ)
      → start ≤ at
      → end < at
      → EndBy id end rows
      → effective_symbols id at (replaced_rows id to_close next start end rows) ≡ next
  replaced_after at h k e =
      effective_symbols-append id at (close_all id end (close_symbols id to_close end rows))
        (new_rows id start next)
      ∙ rw
          (
            effective_symbols-close_all_after id at end (close_symbols id to_close end rows) k
                (close_symbols-EndBy id end to_close rows e),
            effective_symbols-new_rows id at start next,
          )
          (ground arith)

  replaced_before :
      (at : ℕ)
      → at < start
      → at ≤ end
      → effective_symbols id at (replaced_rows id to_close next start end rows)
        ≡ effective_symbols id at rows
  replaced_before at h k =
      let late : leb start at ≡ false = ground arith in
      effective_symbols-append id at (close_all id end (close_symbols id to_close end rows))
        (new_rows id start next)
      ∙ rw (effective_symbols-new_rows id at start next, late)
          (append-nil
              (effective_symbols id at (close_all id end (close_symbols id to_close end rows)))
            ∙ effective_symbols-close_all_before id at end (close_symbols id to_close end rows) k
            ∙ effective_symbols-close_symbols_before id at to_close end rows k)

  replaced_other :
      (other at : ℕ)
      → id ≢ other
      → effective_symbols other at (replaced_rows id to_close next start end rows)
        ≡ effective_symbols other at rows
  replaced_other other at h =
      effective_symbols-append other at (close_all id end (close_symbols id to_close end rows))
        (new_rows id start next)
      ∙ rw (effective_symbols-new_rows_other other at id start next h) (
          append-nil
            (effective_symbols other at (close_all id end (close_symbols id to_close end rows)))
          ∙ effective_symbols-close_all_other other at id end (close_symbols id to_close end rows) h
          ∙ effective_symbols-close_symbols_other other at id to_close end rows h)

-- A replacement of the symbols of a user universe, on a day that is not the first, where no row of
-- it ends on that day or later, returns. From the start of that day on a query finds exactly the
-- normalized symbols; at every earlier instant it finds what it found before; so it does at every
-- instant for another universe; still no row ends on that day or later, and no record changes.
pub replace_user_universe_symbols_lem :
    (db : Database) (universe : SymbolUniverse) (symbols : List Text) (effective_on : ℕ)
    → text_eq universe.kind (codes "user") ≡ true
    → 0 < effective_on
    → EndBy universe.id (as_of_start effective_on - 1) db.constituents
    → (db' : Database) × (stats : RefreshStats) × (replace_user_universe_symbols db universe symbols
          effective_on
        ≡ ok (db', stats))
      × ((at : ℕ) (x : Text)
          → as_of_start effective_on ≤ at
          → contains x (query_symbols db' universe.id at)
            ≡ contains x (normalize_symbol_list symbols))
      × ((at : ℕ)
          → at < as_of_start effective_on
          → query_symbols db' universe.id at ≡ query_symbols db universe.id at)
      × ((other at : ℕ)
          → universe.id ≢ other
          → query_symbols db' other at ≡ query_symbols db other at)
      × EndBy universe.id (as_of_start effective_on - 1) db'.constituents
      × (db'.universes ≡ db.universes)
unfolding replace_user_universe_symbols query_symbols
replace_user_universe_symbols_lem db universe symbols effective_on user later ended =
    let id = universe.id in
    let start = as_of_start effective_on in
    let next = normalize_symbol_list symbols in
    let rows = db.constituents in
    let to_close = difference (of_list (open_symbols id rows)) next in
    (
      record db { constituents = replaced_rows id to_close next start (start - 1) rows },
      record {
        added = length (difference next (of_list (open_symbols id rows)));
        closed = length to_close;
        unchanged = length (intersection next (of_list (open_symbols id rows)));
      },
      rw user refl,
      (λ at x h.
          ap (λ l. contains x (sorted l))
            (replaced_after id start (start - 1) to_close next rows at h (omega arith) ended)
          ∙ contains-sorted x next),
      (λ at h.
          ap sorted (replaced_before id start (start - 1) to_close next rows at h (omega arith))),
      (λ other at h. ap sorted (replaced_other id start (start - 1) to_close next rows other at h)),
      All-append (λ row. ends_by id (start - 1) row ≡ true)
          (close_all id (start - 1) (close_symbols id to_close (start - 1) rows))
          (new_rows id start next)
          (close_all-EndBy id (start - 1) (close_symbols id to_close (start - 1) rows)
            (close_symbols-EndBy id (start - 1) to_close rows ended))
          (new_rows-EndBy id (start - 1) start next),
      refl,
    )
