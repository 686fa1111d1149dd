-- ===== src/Live/Worker/Acquire.antt =====
-- src/app/live/worker.py, `acquire_and_warm_symbols`.
use web_enigma.Base.{
  ℕ, ◌<◌, ◌≡◌, refl, ◌∙◌, Bool, true, false, not, ◌||◌, ◌&&◌, if◌then◌else◌, some, List, [], ◌∷◌,
  arith, inl, inr, Bool-cases,
}
use web_enigma.Base.Texts.{Text, text_eq, text_eq_iff, text_eq_refl}
use web_enigma.Base.TextSet.{contains, add, contains-add}
use web_enigma.Base.Result.{ok, ◌>>=◌}
use web_enigma.Live.Leases.Payload.{LeaseRecord}
use web_enigma.Live.Leases.{is_held, acquire_symbol_lease, requested_lease}
use web_enigma.Live.Leases.Exclusion.{Table, Refines, update}
use web_enigma.Live.Worker.{
  Worker, is_blocked, lease_request, own_or_skip, acquire_symbol, acquire_symbols,
}
use web_enigma.Live.Worker.Stores.{acquire_symbol_lease_lem}
use web_enigma.Live.Worker.Turn.{is_blocked_same, IsMine, Turn, Turn-refl, Turn-trans}

-- The table after an acquisition by the worker.
abbrev pub granted : ℕ → Worker → Table → Text → Table
granted now w t k =
    if is_held (t k) now then t else update t k (some (requested_lease (lease_request w k now)))

granted-foreign :
    (now : ℕ) (w : Worker) (t : Table) (k j : Text) (l : LeaseRecord)
    → t j ≡ some l
    → now < l.expires_at
    → granted now w t k j ≡ some l
unfolding is_held
granted-foreign now w t k j l e live = ground (arith, text_eq_iff k j)

granted-IsMine :
    (now : ℕ) (w : Worker) (t : Table) (k j : Text)
    → IsMine w.worker_id (t j)
    → IsMine w.worker_id (granted now w t k j)
granted-IsMine now w t k j m = elim (Bool-cases (is_held (t k) now)) [
  | inl held ↦ rw held m
  | inr free ↦ elim (Bool-cases (text_eq k j)) [
    | inl here ↦ rw (free, here) ((requested_lease (lease_request w k now), refl, refl))
    | inr there ↦ rw (free, there) m
  ]
]

granted_other :
    (now : ℕ) (w : Worker) (t : Table) (k j : Text)
    → text_eq k j ≡ false
    → granted now w t k j ≡ t j
granted_other now w t k j there = ground arith

granted_self :
    (now : ℕ) (w : Worker) (t : Table) (k : Text)
    → is_held (t k) now ≡ false
    → IsMine w.worker_id (granted now w t k k)
granted_self now w t k free =
    rw (free, text_eq_refl) ((requested_lease (lease_request w k now), refl, refl))

-- The symbols that are owned afterwards: those that were, and those of the list that are neither
-- blocked nor held by anyone.
abbrev IsGained : ℕ → Worker → Table → List Text → Worker → Type 0
IsGained now w t ks w' =
    (j : Text)
    → contains j w'.owned_symbols ≡ (
        contains j w.owned_symbols
        || contains j ks && not (is_blocked w j) && not (is_held (t j) now))

-- What the acquisition of the symbols of a list does: the leases of the symbols that were owned, or are
-- not owned afterwards, stay.
abbrev pub Acquired : ℕ → Worker → Table → List Text → Worker → Table → Type 0
Acquired now w t ks w' t' =
    Turn now w t w' t'
    × IsGained now w t ks w'
    × ((j : Text) → contains j w.owned_symbols ≡ true → t' j ≡ t j)
    × ((j : Text) → contains j w'.owned_symbols ≡ false → t' j ≡ t j)

owned-IsMine :
    (now : ℕ) (w : Worker) (t : Table) (k j : Text) (acquired : Bool)
    → acquired ≡ not (is_held (t k) now)
    → (contains j w.owned_symbols ≡ true → IsMine w.worker_id (t j))
    → contains j (if acquired then add k w.owned_symbols else w.owned_symbols) ≡ true
    → IsMine w.worker_id (granted now w t k j)
owned-IsMine now w t k j acquired answer o c = elim (Bool-cases (contains j w.owned_symbols)) [
  | inl old ↦ granted-IsMine now w t k j (o old)
  | inr new ↦
      let at : text_eq j k ≡ true = ground (arith, contains-add j k w.owned_symbols) in
      let free : is_held (t k) now ≡ false = ground (arith, contains-add j k w.owned_symbols) in
      rw ((text_eq_iff j k).0 at) (granted_self now w t k free)
]

acquire_lease-Acquired :
    (now : ℕ) (w : Worker) (t : Table) (k : Text)
    → Refines w.key_prefix w.store t
    → is_blocked w k ≡ false
    → contains k w.owned_symbols ≡ false
    → (w' : Worker) × ((acquire_symbol_lease w.key_prefix w.store (lease_request w k now)
          >>= λ result. ok (own_or_skip w k result))
        ≡ ok w')
      × Acquired now w t (k ∷ []) w' (granted now w t k)
unfolding contains
acquire_lease-Acquired now w t k h free missing =
    let (b', result, ran, answer, h', controls) =
      acquire_symbol_lease_lem w.key_prefix w.store t h (lease_request w k now) in
    let w' : Worker = own_or_skip w k (b', result) in
    (
      w',
      rw ran,
      (
        record {
          refines = h';
          same_prefix = refl;
          same_id = refl;
          same_assigned = refl;
          foreign = λ j l e other live. granted-foreign now w t k j l e live;
          owns = λ o j c. owned-IsMine now w t k j result.acquired answer (o j) c;
          same_blocks = is_blocked_same w w' refl controls;
        },
        (λ j. elim (Bool-cases (text_eq j k)) [
          | inl here ↦
              let same : j ≡ k = (text_eq_iff j k).0 here in
              rw same (
                ground
                  (arith, answer, free, missing, contains-add k k w.owned_symbols, text_eq_refl k))
          | inr there ↦ ground (arith, there, contains-add j k w.owned_symbols)
        ]),
        (λ j c. granted_other now w t k j (ground (arith, text_eq_iff k j))),
        (λ j c. elim (Bool-cases (is_held (t k) now)) [
          | inl held ↦ rw held refl
          | inr taken ↦ granted_other now w t k j (
              ground (
                arith,
                answer,
                taken,
                text_eq_iff k j,
                text_eq_iff j k,
                contains-add j k w.owned_symbols,
              ))
        ]),
      ),
    )

acquire_symbol-Acquired :
    (now : ℕ) (w : Worker) (t : Table) (k : Text)
    → Refines w.key_prefix w.store t
    → (w' : Worker) × (t' : Table) × (acquire_symbol now w k ≡ ok w')
      × Acquired now w t (k ∷ []) w' t'
unfolding acquire_symbol contains
acquire_symbol-Acquired now w t k h = elim (Bool-cases (is_blocked w k)) [
  | inl blocked ↦ (
    w,
    t,
    rw (blocked, acquire_symbol),
    (
      Turn-refl now w t h,
      (λ j. elim (Bool-cases (text_eq j k)) [
        | inl here ↦
            let same : j ≡ k = (text_eq_iff j k).0 here in rw same (ground (arith, blocked))
        | inr there ↦ ground (arith, there)
      ]),
      (λ j c. refl),
      λ j c. refl,
    ),
  )
  | inr free ↦ elim (Bool-cases (contains k w.owned_symbols)) [
    | inl owned ↦ (
      w,
      t,
      rw (free, owned, acquire_symbol),
      (
        Turn-refl now w t h,
        (λ j. elim (Bool-cases (text_eq j k)) [
          | inl here ↦
              let same : j ≡ k = (text_eq_iff j k).0 here in rw same (ground (arith, owned))
          | inr there ↦ ground (arith, there)
        ]),
        (λ j c. refl),
        λ j c. refl,
      ),
    )
    | inr missing ↦
        let (w', ran, done) = acquire_lease-Acquired now w t k h free missing in
        (w', granted now w t k, rw (free, missing, acquire_symbol) ran, done)
  ]
]

-- The loop over the symbols `ks` returns, and acquires them.
pub acquire_symbols-Acquired :
    (now : ℕ) (w : Worker) (t : Table) (ks : List Text)
    → Refines w.key_prefix w.store t
    → (w' : Worker) × (t' : Table) × (acquire_symbols now w ks ≡ ok w') × Acquired now w t ks w' t'
unfolding acquire_symbols contains
acquire_symbols-Acquired now w t [] h =
    (w, t, refl, (Turn-refl now w t h, (λ j. ground arith), (λ j c. refl), λ j c. refl))
acquire_symbols-Acquired now w t (k ∷ ks) h =
    let (u, t1, ran, (first, gained, stays, idle)) = acquire_symbol-Acquired now w t k h in
    let (w', t', ran', (later, gained', stays', idle')) =
      acquire_symbols-Acquired now u t1 ks first.refines in
    let still : (j : Text)
        → contains j u.owned_symbols ≡ true
        → contains j w'.owned_symbols ≡ true =
      λ j c. ground (arith, gained' j, c) in
    (
      w',
      t',
      rw (ran, ran'),
      (
        Turn-trans first later,
        (λ j. elim (Bool-cases (contains j u.owned_symbols)) [
          | inl c ↦ ground (arith, gained j, still j c, c)
          | inr c ↦ ground (arith, gained j, gained' j, c, idle j c, first.same_blocks j)
        ]),
        (λ j c. stays' j (ground (arith, gained j, c)) ∙ stays j c),
        λ j c. elim (Bool-cases (contains j u.owned_symbols)) [
          | inl owned ↦ absurd (ground (arith, still j owned, c))
          | inr missing ↦ idle' j c ∙ idle j missing
        ],
      ),
    )
