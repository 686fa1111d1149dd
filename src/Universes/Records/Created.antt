-- ===== src/Universes/Records/Created.antt =====
-- src/app/universes/service.py: the creation of a user universe.
use web_enigma.Base.{
  arith, ℕ, ◌-◌, ◌≤◌, ◌<◌, ◌==◌, ◌≡◌, ◌≢◌, refl, ap, ◌∙◌, Bool, true, false, ◌&&◌, Option, none,
  some, List, [], ◌∷◌, ◌++◌, ◌⊎◌, inl, inr, Option-cases, Bool-cases,
}
use web_enigma.Base.Lists.{All}
use web_enigma.Base.Texts.{Text, codes, text_eq_refl, strip}
use web_enigma.Base.TextSet.{contains}
use web_enigma.Base.Result.{ok, raises, runtime_error, data_error}
use web_enigma.Universes.{
  SymbolUniverse, Constituent, Database, as_of_start, query_symbols, normalize_symbol_list,
}
use web_enigma.Universes.Snapshots.{ends_by, EndBy}
use web_enigma.Universes.Replace.{replace_user_universe_symbols_lem}
use web_enigma.Universes.Registry.{find_universe}
use web_enigma.Universes.Registry.Lookup.{find_universe-append}
use web_enigma.Universes.Keys.{user_key, first_free, generate_user_key, key_base}
use web_enigma.Universes.Records.{fits, all_fit, create_user_universe}

-- The key that a token makes is that of a record.
abbrev pub IsTaken : List SymbolUniverse → Text → Text → Type 0
IsTaken us name token =
    (u : SymbolUniverse) × (find_universe (user_key (key_base name) token) us ≡ some u)

generate_user_key_lem :
    (us : List SymbolUniverse) (name : Text) (tokens : List Text)
    → ((key : Text) × (generate_user_key us name tokens ≡ ok key) × (find_universe key us ≡ none))
      ⊎ ((generate_user_key us name tokens ≡ raises runtime_error) × All (IsTaken us name) tokens)
unfolding generate_user_key first_free
generate_user_key_lem us name [] = inr (refl, tt)
generate_user_key_lem us name (token ∷ tokens) =
    elim (Option-cases (find_universe (user_key (key_base name) token) us)) [
      | inl n ↦ inl (user_key (key_base name) token, rw (n, generate_user_key, first_free) refl, n)
      | inr (u, f) ↦ elim (generate_user_key_lem us name tokens) [
        | inl (key, run, free) ↦ inl (key, rw (f, generate_user_key, first_free) run, free)
        | inr (run, taken) ↦ inr (rw (f, generate_user_key, first_free) run, ((u, f), taken))
      ]
    ]

-- No row is of the universe.
abbrev pub IsFresh : ℕ → List Constituent → Type 0
IsFresh id = All (λ row. (row.universe_id == id) ≡ false)

fresh-EndBy : (id end : ℕ) (rows : List Constituent) → IsFresh id rows → EndBy id end rows
unfolding ends_by
fresh-EndBy id end [] f = tt
fresh-EndBy id end (row ∷ rows) f = (ground (arith, f.0), fresh-EndBy id end rows f.1)

unfit_symbol :
    (symbols : List Text)
    → all_fit symbols ≡ false
    → (x : Text) × (contains x symbols ≡ true) × (fits 32 x ≡ false)
unfolding contains
unfit_symbol [] h = absurd (ground (arith, h))
unfit_symbol (x ∷ symbols) h = elim (Bool-cases (fits 32 x)) [
  | inr long ↦ (x, rw (text_eq_refl x, contains) refl, long)
  | inl short ↦
      let (y, inside, long) = unfit_symbol symbols (ground (arith, h, short)) in
      (y, ground (arith, inside), long)
]

-- The text of some column is longer than the column.
abbrev pub IsTooLong : Text → Text → List Text → Type 0
IsTooLong key name symbols =
    (fits 64 key ≡ false)
    ⊎ (fits 128 (strip name) ≡ false)
    ⊎ ((x : Text) × (contains x (normalize_symbol_list symbols) ≡ true) × (fits 32 x ≡ false))

too_long_lem :
    (key name : Text) (symbols : List Text)
    → (fits 64 key && fits 128 (strip name) && all_fit (normalize_symbol_list symbols)) ≡ false
    → IsTooLong key name symbols
too_long_lem key name symbols h = elim (Bool-cases (fits 64 key)) [
  | inr k ↦ inl k
  | inl k ↦ elim (Bool-cases (fits 128 (strip name))) [
    | inr n ↦ inr (inl n)
    | inl n ↦
        inr (inr (unfit_symbol (normalize_symbol_list symbols) (ground (arith, rw (k, n) at h))))
  ]
]

-- The creation of a user universe with a new id, not on the first day, fails only where the keys of
-- all tokens are taken, or where the key that is made, the stripped name or a normalized symbol is
-- longer than its column. Else its key was free, the record has the stripped name and is found by the
-- key, and from the start of that day on a query finds exactly the normalized symbols; a query of
-- another universe finds what it found before.
pub create_user_universe_lem :
    (db : Database) (id : ℕ) (tokens : List Text) (name : Text) (symbols : List Text)
    (description : Option Text) (is_active : Bool) (created_on : ℕ)
    → IsFresh id db.constituents
    → 0 < created_on
    → ((u : SymbolUniverse) × (db' : Database) × (create_user_universe db id tokens name symbols
            description is_active created_on
          ≡ ok (u, db'))
        × (u.id ≡ id)
        × (u.name ≡ strip name)
        × (find_universe u.key db.universes ≡ none)
        × (find_universe u.key db'.universes ≡ some u)
        × ((at : ℕ) (x : Text)
            → as_of_start created_on ≤ at
            → contains x (query_symbols db' id at) ≡ contains x (normalize_symbol_list symbols))
        × ((other at : ℕ) → id ≢ other → query_symbols db' other at ≡ query_symbols db other at))
      ⊎ ((create_user_universe db id tokens name symbols description is_active created_on
            ≡ raises runtime_error)
          × All (IsTaken db.universes name) tokens)
      ⊎ ((create_user_universe db id tokens name symbols description is_active created_on
            ≡ raises data_error)
          × ((key : Text) × (generate_user_key db.universes name tokens ≡ ok key)
              × IsTooLong key name symbols))
unfolding create_user_universe query_symbols
create_user_universe_lem db id tokens name symbols description is_active created_on fresh later =
    elim (generate_user_key_lem db.universes name tokens) [
      | inr (run, taken) ↦ inr (inl (rw (run, create_user_universe) refl, taken))
      | inl (key, run, free) ↦
          let u : SymbolUniverse = record {
            id = id;
            key = key;
            kind = codes "user";
            name = strip name;
            description = description;
            provider = none;
            provider_ref = [];
            is_active = is_active;
          } in
          let fitting : Bool =
            fits 64 key && fits 128 (strip name) && all_fit (normalize_symbol_list symbols) in
          let before = record db { universes = db.universes ++ (u ∷ []) } in
          let (db', stats, replaced, from, past, others, ends, kept) =
            replace_user_universe_symbols_lem before u symbols created_on
              (text_eq_refl (codes "user")) later
              (fresh-EndBy id (as_of_start created_on - 1) db.constituents fresh) in
          let found =
            ap (find_universe key) kept
            ∙ find_universe-append key db.universes u
            ∙ rw (free, text_eq_refl key) refl in
          elim (Bool-cases fitting) [
            | inr long ↦ inr (
                inr (
                  rw (run, long, create_user_universe) refl,
                  (key, run, too_long_lem key name symbols long),
                ))
            | inl short ↦ inl (
              u,
              db',
              rw (run, short, replaced, create_user_universe) refl,
              refl,
              refl,
              free,
              found,
              from,
              others,
            )
          ]
    ]
