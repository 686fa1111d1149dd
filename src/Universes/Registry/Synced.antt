-- ===== src/Universes/Registry/Synced.antt =====
-- src/app/universes/service.py: what `sync_registry` leaves in the database.
use web_enigma.Base.{
  arith, ℕ, ◌≡◌, refl, sym, subst, ◌∙◌, true, false, if◌then◌else◌, none, some, List, [], ◌∷◌, ◌++◌,
  inl, inr, Option-cases,
}
use web_enigma.Base.Lists.{All, All-map, All-both}
use web_enigma.Base.Texts.{Text, codes, text_eq, text_eq_iff, text_eq_refl}
use web_enigma.Base.TextSet.{contains, IsDistinct}
use web_enigma.Base.Dict.{get, text_key}
use web_enigma.Universes.{SymbolUniverse, Database, normalize_symbol_list}
use web_enigma.Universes.Registry.{
  UniverseSpec, normalize_key, all_some, registry_provider_ref, options_eq, value_eq, covers,
  ref_eq, find_universe, set_universe, new_universe, migrate_fmp, sync_record, sync_specs,
  spec_keys, is_stale, sync_registry,
}
use web_enigma.Universes.Registry.Lookup.{
  find_universe-append, find_universe-key, find_universe-set_same, find_universe-set_other,
  find_universe-deactivate,
}

-- The record has what the spec says, and is active.
abbrev pub IsSynced : UniverseSpec → SymbolUniverse → Type 0
IsSynced spec u =
    (u.key ≡ spec.spec_key)
    × (u.kind ≡ codes "registry")
    × (u.is_active ≡ true)
    × (u.name ≡ spec.spec_name)
    × (u.description ≡ spec.spec_description)
    × (u.provider ≡ some spec.spec_provider)
    × (ref_eq u.provider_ref (registry_provider_ref spec) ≡ true)

-- The key of a spec is normalized, and its provider is not the legacy one.
abbrev pub IsCurrent : UniverseSpec → Type 0
IsCurrent spec =
    (normalize_key spec.spec_key ≡ spec.spec_key)
    × (text_eq (normalize_key spec.spec_provider) (codes "fmp") ≡ false)

options_eq_refl : (ts : List Text) → options_eq (all_some ts) (all_some ts) ≡ true
unfolding options_eq
options_eq_refl [] = refl
options_eq_refl (t ∷ ts) = ground (arith, text_eq_refl t, options_eq_refl ts)

ref_eq-registry_provider_ref :
    (spec : UniverseSpec) → ref_eq (registry_provider_ref spec) (registry_provider_ref spec) ≡ true
unfolding ref_eq covers value_eq get registry_provider_ref
ref_eq-registry_provider_ref spec = ground (
  arith,
  text_eq_refl spec.spec_key,
  options_eq_refl (normalize_symbol_list spec.symbols),
  text_eq_refl (codes "kind"),
  text_eq_refl (codes "symbols"),
)

sync_record-IsSynced :
    (u : SymbolUniverse) (spec : UniverseSpec)
    → IsCurrent spec
    → u.key ≡ spec.spec_key
    → IsSynced spec (sync_record u spec)
unfolding sync_record migrate_fmp
sync_record-IsSynced u spec current same =
    rw current.1
      (same, refl, refl, refl, refl, refl, ground (arith, ref_eq-registry_provider_ref spec))

new_universe-IsSynced : (id : ℕ) (spec : UniverseSpec) → IsSynced spec (new_universe id spec)
new_universe-IsSynced id spec =
    (refl, refl, refl, refl, refl, refl, ref_eq-registry_provider_ref spec)

-- The rows have a synced record for the spec.
abbrev pub HasSynced : List SymbolUniverse → UniverseSpec → Type 0
HasSynced rows spec =
    (u : SymbolUniverse) × (find_universe spec.spec_key rows ≡ some u) × IsSynced spec u

module _ (new_id : Text → ℕ) where
  sync_specs-other :
      (specs : List UniverseSpec) (us : List SymbolUniverse) (key : Text)
      → All IsCurrent specs
      → contains key (spec_keys specs) ≡ false
      → find_universe key (sync_specs new_id specs us).rows ≡ find_universe key us
  unfolding sync_specs spec_keys contains
  sync_specs-other [] us key a h = refl
  sync_specs-other (spec ∷ specs) us key a h =
      let apart : text_eq spec.spec_key key ≡ false =
        ground (arith, h, text_eq_iff key spec.spec_key, text_eq_iff spec.spec_key key) in
      let later : contains key (spec_keys specs) ≡ false = ground (arith, h) in
      elim (Option-cases (find_universe spec.spec_key us)) [
        | inl n ↦
            let added = us ++ (new_universe (new_id spec.spec_key) spec ∷ []) in
            rw (a.0.0, n, sync_specs)
              (sync_specs-other specs added key a.1 later
                ∙ find_universe-append key us (new_universe (new_id spec.spec_key) spec)
                ∙ ground (arith, apart))
        | inr (u, f) ↦
            let named = find_universe-key spec.spec_key us u f in
            let changed = set_universe u.key (sync_record u spec) us in
            let parted : text_eq u.key key ≡ false = rw named apart in
            rw (a.0.0, f, sync_specs)
              (sync_specs-other specs changed key a.1 later
                ∙ find_universe-set_other u.key key us (sync_record u spec)
                    ((sync_record-IsSynced u spec a.0 named).0 ∙ sym named) parted)
      ]

  sync_specs-IsSynced :
      (specs : List UniverseSpec) (us : List SymbolUniverse)
      → All IsCurrent specs
      → IsDistinct (spec_keys specs)
      → All (HasSynced (sync_specs new_id specs us).rows) specs
  unfolding sync_specs spec_keys
  sync_specs-IsSynced [] us a d = tt
  sync_specs-IsSynced (spec ∷ specs) us a d = elim (Option-cases (find_universe spec.spec_key us)) [
    | inl n ↦
        let v = new_universe (new_id spec.spec_key) spec in
        let run : (sync_specs new_id (spec ∷ specs) us).rows
            ≡ (sync_specs new_id specs (us ++ (v ∷ []))).rows =
          rw (a.0.0, n, sync_specs) refl in
        subst (λ rows. All (HasSynced rows) (spec ∷ specs)) (sym run)
          (
            (
              v,
              sync_specs-other specs (us ++ (v ∷ [])) spec.spec_key a.1 d.0
                  ∙ find_universe-append spec.spec_key us v
                  ∙ rw (n, text_eq_refl spec.spec_key) refl,
              new_universe-IsSynced (new_id spec.spec_key) spec,
            ),
            sync_specs-IsSynced specs (us ++ (v ∷ [])) a.1 d.1,
          )
    | inr (u, f) ↦
        let named = find_universe-key spec.spec_key us u f in
        let v = sync_record u spec in
        let synced = sync_record-IsSynced u spec a.0 named in
        let changed = set_universe u.key v us in
        let run : (sync_specs new_id (spec ∷ specs) us).rows
            ≡ (sync_specs new_id specs changed).rows =
          rw (a.0.0, f, sync_specs) refl in
        subst (λ rows. All (HasSynced rows) (spec ∷ specs)) (sym run)
          (
            (
              v,
              sync_specs-other specs changed spec.spec_key a.1 d.0
                  ∙ subst (λ k. find_universe spec.spec_key (set_universe k v us) ≡ some v)
                      (sym named) (find_universe-set_same spec.spec_key us u v synced.0 f),
              synced,
            ),
            sync_specs-IsSynced specs changed a.1 d.1,
          )
  ]

-- A spec that is listed has its key among the desired ones.
spec_keys-contains :
    (specs : List UniverseSpec)
    → All (λ spec. contains spec.spec_key (spec_keys specs) ≡ true) specs
unfolding spec_keys contains
spec_keys-contains [] = tt
spec_keys-contains (spec ∷ specs) = (
  ground (arith, text_eq_refl spec.spec_key),
  All-map (λ s h. ground (arith, h)) specs (spec_keys-contains specs),
)

-- What the deactivation leaves of a record.
abbrev pub retired : List Text → SymbolUniverse → SymbolUniverse
retired desired u = if is_stale desired u then record u { is_active = false } else u

-- Where the keys of the registry are normalized and distinct and no spec has the legacy provider, a
-- synchronisation leaves for each spec an active record of kind registry with the fields of the spec.
-- A record of any other key is as it was, but that one of kind registry is inactive.
pub sync_registry_lem :
    (new_id : Text → ℕ) (spec : UniverseSpec) (specs : List UniverseSpec) (db : Database)
    → All IsCurrent (spec ∷ specs)
    → IsDistinct (spec_keys (spec ∷ specs))
    → All (HasSynced (sync_registry new_id (spec ∷ specs) db).0.universes) (spec ∷ specs)
      × ((key : Text)
          → contains key (spec_keys (spec ∷ specs)) ≡ false
          → find_universe key (sync_registry new_id (spec ∷ specs) db).0.universes
            ≡ elim (find_universe key db.universes) [
              | none ↦ none
              | some u ↦ some (retired (spec_keys (spec ∷ specs)) u)
            ])
unfolding sync_registry spec_keys
sync_registry_lem new_id spec specs db a d =
    let all = spec ∷ specs in
    let desired = spec_keys all in
    let rows = (sync_specs new_id all db.universes).rows in
    (
      All-map
          (λ s (h, (u, found, synced)).
            let listed : contains u.key desired ≡ true =
              subst (λ k. contains k desired ≡ true) (sym synced.0) h in
            let kept : is_stale desired u ≡ false = rw listed refl in
            (u, find_universe-deactivate s.spec_key desired rows ∙ rw (found, kept) refl, synced))
          all
          (All-both (λ s. contains s.spec_key desired ≡ true) (HasSynced rows) all
            (spec_keys-contains all) (sync_specs-IsSynced new_id all db.universes a d)),
      λ key h.
          find_universe-deactivate key desired rows
          ∙ rw (sync_specs-other new_id all db.universes key a h) refl,
    )
