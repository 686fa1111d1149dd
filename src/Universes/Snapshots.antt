-- ===== src/Universes/Snapshots.antt =====
-- src/app/universes/service.py: the symbols that a query finds when rows are closed or added.
use web_enigma.Base.{
  ℕ, ◌≤◌, ◌<◌, ◌==◌, leb, ◌≡◌, ◌≢◌, refl, Bool, true, not, ◌||◌, if◌then◌else◌, none, some, List,
  [], ◌∷◌, ◌++◌, arith,
}
use web_enigma.Base.Lists.{All}
use web_enigma.Base.Texts.{Text}
use web_enigma.Universes.{
  Constituent, is_effective, effective_symbols, close_symbols, close_all, new_rows,
}

-- A row of the universe that has an end has it by `end`.
unfoldable pub ends_by : ℕ → ℕ → Constituent → Bool
ends_by universe_id end row =
    not (row.universe_id == universe_id)
    || elim row.effective_to [ none ↦ true | some e ↦ leb e end ]

abbrev pub EndBy : ℕ → ℕ → List Constituent → Type 0
EndBy universe_id end = All (λ row. ends_by universe_id end row ≡ true)

pub effective_symbols-append :
    (id at : ℕ) (rows more : List Constituent)
    → effective_symbols id at (rows ++ more)
      ≡ effective_symbols id at rows ++ effective_symbols id at more
unfolding effective_symbols
effective_symbols-append id at [] more = refl
effective_symbols-append id at (row ∷ rows) more =
    ground (arith, effective_symbols-append id at rows more)

module _ (id at : ℕ) where
  pub effective_symbols-new_rows :
      (start : ℕ) (symbols : List Text)
      → effective_symbols id at (new_rows id start symbols) ≡ (if leb start at then symbols else [])
  unfolding effective_symbols new_rows is_effective
  effective_symbols-new_rows start [] = ground arith
  effective_symbols-new_rows start (s ∷ ss) = ground (arith, effective_symbols-new_rows start ss)

  pub effective_symbols-new_rows_other :
      (other start : ℕ) (symbols : List Text)
      → other ≢ id
      → effective_symbols id at (new_rows other start symbols) ≡ []
  unfolding effective_symbols new_rows is_effective
  effective_symbols-new_rows_other other start [] h = refl
  effective_symbols-new_rows_other other start (s ∷ ss) h =
      ground (arith, effective_symbols-new_rows_other other start ss h)

  -- A row that is closed later is as effective as before.
  pub effective_symbols-close_all_before :
      (end : ℕ) (rows : List Constituent)
      → at ≤ end
      → effective_symbols id at (close_all id end rows) ≡ effective_symbols id at rows
  unfolding effective_symbols close_all is_effective
  effective_symbols-close_all_before end [] h = refl
  effective_symbols-close_all_before end (row ∷ rows) h =
      ground (arith, effective_symbols-close_all_before end rows h)

  pub effective_symbols-close_symbols_before :
      (symbols : List Text) (end : ℕ) (rows : List Constituent)
      → at ≤ end
      → effective_symbols id at (close_symbols id symbols end rows) ≡ effective_symbols id at rows
  unfolding effective_symbols close_symbols is_effective
  effective_symbols-close_symbols_before symbols end [] h = refl
  effective_symbols-close_symbols_before symbols end (row ∷ rows) h =
      ground (arith, effective_symbols-close_symbols_before symbols end rows h)

  pub effective_symbols-close_all_after :
      (end : ℕ) (rows : List Constituent)
      → end < at
      → EndBy id end rows
      → effective_symbols id at (close_all id end rows) ≡ []
  unfolding effective_symbols close_all is_effective ends_by
  effective_symbols-close_all_after end [] h e = refl
  effective_symbols-close_all_after end (row ∷ rows) h e =
      ground (arith, effective_symbols-close_all_after end rows h e.1)

  pub effective_symbols-close_all_other :
      (other end : ℕ) (rows : List Constituent)
      → other ≢ id
      → effective_symbols id at (close_all other end rows) ≡ effective_symbols id at rows
  unfolding effective_symbols close_all is_effective
  effective_symbols-close_all_other other end [] h = refl
  effective_symbols-close_all_other other end (row ∷ rows) h =
      ground (arith, effective_symbols-close_all_other other end rows h)

  pub effective_symbols-close_symbols_other :
      (other : ℕ) (symbols : List Text) (end : ℕ) (rows : List Constituent)
      → other ≢ id
      → effective_symbols id at (close_symbols other symbols end rows)
        ≡ effective_symbols id at rows
  unfolding effective_symbols close_symbols is_effective
  effective_symbols-close_symbols_other other symbols end [] h = refl
  effective_symbols-close_symbols_other other symbols end (row ∷ rows) h =
      ground (arith, effective_symbols-close_symbols_other other symbols end rows h)

module _ (id end : ℕ) where
  pub close_symbols-EndBy :
      (symbols : List Text) (rows : List Constituent)
      → EndBy id end rows
      → EndBy id end (close_symbols id symbols end rows)
  unfolding close_symbols ends_by
  close_symbols-EndBy symbols [] e = tt
  close_symbols-EndBy symbols (row ∷ rows) e = (ground arith, close_symbols-EndBy symbols rows e.1)

  pub close_all-EndBy :
      (rows : List Constituent) → EndBy id end rows → EndBy id end (close_all id end rows)
  unfolding close_all ends_by
  close_all-EndBy [] e = tt
  close_all-EndBy (row ∷ rows) e = (ground arith, close_all-EndBy rows e.1)

  pub new_rows-EndBy : (start : ℕ) (symbols : List Text) → EndBy id end (new_rows id start symbols)
  unfolding new_rows ends_by
  new_rows-EndBy start [] = tt
  new_rows-EndBy start (s ∷ ss) = (ground arith, new_rows-EndBy start ss)
