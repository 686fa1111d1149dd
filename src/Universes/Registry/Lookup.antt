-- ===== src/Universes/Registry/Lookup.antt =====
-- src/app/universes/service.py: the record of a key when records are added, changed or deactivated.
use web_enigma.Base.{
  arith, ◌≡◌, refl, subst, false, if◌then◌else◌, none, some, List, [], ◌∷◌, ◌++◌, inl, inr,
  Bool-cases,
}
use web_enigma.Base.Texts.{Text, text_eq, text_eq_iff, text_eq_refl}
use web_enigma.Base.Dict.{text_key}
use web_enigma.Universes.{SymbolUniverse}
use web_enigma.Universes.Registry.{find_universe, set_universe, is_stale, deactivate}

pub find_universe-append :
    (key : Text) (us : List SymbolUniverse) (v : SymbolUniverse)
    → find_universe key (us ++ (v ∷ [])) ≡ elim (find_universe key us) [
      | none ↦ if text_eq v.key key then some v else none
      | some u ↦ some u
    ]
unfolding find_universe
find_universe-append key [] v = refl
find_universe-append key (u ∷ us) v = ground (arith, find_universe-append key us v)

pub find_universe-key :
    (key : Text) (us : List SymbolUniverse) (u : SymbolUniverse)
    → find_universe key us ≡ some u
    → u.key ≡ key
unfolding find_universe
find_universe-key key [] u h = absurd (ground (arith, h))
find_universe-key key (v ∷ us) u h = elim (Bool-cases (text_eq v.key key)) [
  | inl e ↦
      let same : v ≡ u = ground (arith, e, rw (e, find_universe) at h) in
      subst (λ w. w.key ≡ key) same ((text_eq_iff v.key key).0 e)
  | inr e ↦ find_universe-key key us u (rw (e, find_universe) at h)
]

pub find_universe-set_same :
    (key : Text) (us : List SymbolUniverse) (u v : SymbolUniverse)
    → v.key ≡ key
    → find_universe key us ≡ some u
    → find_universe key (set_universe key v us) ≡ some v
unfolding find_universe set_universe
find_universe-set_same key [] u v h f = absurd (ground (arith, f))
find_universe-set_same key (w ∷ us) u v h f = elim (Bool-cases (text_eq w.key key)) [
  | inl e ↦ rw (e, set_universe, find_universe, h, text_eq_refl key) refl
  | inr e ↦
      rw (e, set_universe, find_universe)
        (rw e (find_universe-set_same key us u v h (rw (e, find_universe) at f)))
]

pub find_universe-set_other :
    (key j : Text) (us : List SymbolUniverse) (v : SymbolUniverse)
    → v.key ≡ key
    → text_eq key j ≡ false
    → find_universe j (set_universe key v us) ≡ find_universe j us
unfolding find_universe set_universe
find_universe-set_other key j [] v h n = refl
find_universe-set_other key j (w ∷ us) v h n =
    ground (arith, find_universe-set_other key j us v h n, text_eq_iff w.key key, h, n)

pub find_universe-deactivate :
    (key : Text) (desired : List Text) (us : List SymbolUniverse)
    → find_universe key (deactivate desired us) ≡ elim (find_universe key us) [
      | none ↦ none
      | some u ↦ some (if is_stale desired u then record u { is_active = false } else u)
    ]
unfolding find_universe deactivate
find_universe-deactivate key desired [] = refl
find_universe-deactivate key desired (u ∷ us) =
    ground (arith, find_universe-deactivate key desired us)
