-- ===== src/Live/Worker/Release.antt =====
-- src/app/live/worker.py, `_release_unassigned_symbols` and `drain`.
use web_enigma.Base.{
  ℕ, ◌≡◌, ◌≢◌, refl, ap, subst, sym, ◌∙◌, true, false, not, ◌&&◌, none, some, List, [], ◌∷◌, arith,
  inl, inr, Bool-cases,
}
use web_enigma.Base.Texts.{Text, text_eq, text_eq_iff, text_eq_refl}
use web_enigma.Base.TextSet.{contains, discard, contains-discard, difference, contains-difference}
use web_enigma.Base.Result.{ok}
use web_enigma.Live.Leases.Payload.{LeaseRecord}
use web_enigma.Live.Leases.Exclusion.{Table, Refines, release_entry}
use web_enigma.Live.Worker.{
  Worker, release_symbol, release_symbols, release_unassigned_symbols, released_worker,
}
use web_enigma.Live.Worker.Stores.{release_symbol_lease_lem}
use web_enigma.Live.Worker.Turn.{is_blocked_same, IsMine, OwnsLeases, Turn, Turn-refl, Turn-trans}

-- A release by another worker leaves an entry as it is.
pub release_entry-foreign :
    (t : Table) (k id j : Text) (l : LeaseRecord)
    → t j ≡ some l
    → l.worker_id ≢ id
    → release_entry t k id (t k) j ≡ some l
release_entry-foreign t k id j l e other =
    ground (arith, text_eq_iff k j, text_eq_iff l.worker_id id)

pub release_entry_other :
    (t : Table) (k id j : Text) → text_eq k j ≡ false → release_entry t k id (t k) j ≡ t j
release_entry_other t k id j ne = ground arith

pub release_entry_self :
    (t : Table) (k id : Text) → IsMine id (t k) → release_entry t k id (t k) k ≡ none
release_entry_self t k id (l, e, own) = ground (arith, text_eq_iff l.worker_id id, text_eq_refl k)

pub release_entry_gone :
    (t : Table) (k id j : Text) → t j ≡ none → release_entry t k id (t k) j ≡ none
release_entry_gone t k id j e = ground (arith, text_eq_iff k j)

-- What one release does to the worker `w` with the table `t`.
abbrev Released : ℕ → Worker → Table → Text → Worker → Table → Type 0
Released now w t k w' t' =
    Turn now w t w' t'
    × (w'.owned_symbols ≡ discard k w.owned_symbols)
    × (OwnsLeases w t → contains k w.owned_symbols ≡ true → t' k ≡ none)
    × ((j : Text) → t j ≡ none → t' j ≡ none)
    × ((j : Text) → text_eq k j ≡ false → t' j ≡ t j)

owned_after_discard :
    (w : Worker) (k j : Text)
    → contains j (discard k w.owned_symbols) ≡ true
    → (text_eq k j ≡ false) × (contains j w.owned_symbols ≡ true)
owned_after_discard w k j c =
    ground (arith, contains-discard j k w.owned_symbols, text_eq_iff k j, text_eq_iff j k)

release_symbol-Released :
    (now : ℕ) (w : Worker) (t : Table) (k : Text)
    → Refines w.key_prefix w.store t
    → (w' : Worker) × (release_symbol w k ≡ ok w')
      × Released now w t k w' (release_entry t k w.worker_id (t k))
unfolding release_symbol
release_symbol-Released now w t k h =
    let (b', ran, h', controls) = release_symbol_lease_lem w.key_prefix w.store t h k w.worker_id in
    (
      released_worker w k b',
      rw ran,
      (
        record {
          refines = h';
          same_prefix = refl;
          same_id = refl;
          same_assigned = refl;
          foreign = λ j l e other live. release_entry-foreign t k w.worker_id j l e other;
          owns = λ o j c.
              let (ne, m) = owned_after_discard w k j c in
              subst (IsMine w.worker_id) (sym (release_entry_other t k w.worker_id j ne)) (o j m);
          same_blocks = is_blocked_same w (released_worker w k b') refl controls;
        },
        refl,
        (λ o c. release_entry_self t k w.worker_id (o k c)),
        release_entry_gone t k w.worker_id,
        release_entry_other t k w.worker_id,
      ),
    )

-- The loop over the symbols `ks`: exactly these are given up, and the leases of those that were
-- owned are gone.
abbrev pub ReleasedAll : ℕ → Worker → Table → List Text → Worker → Table → Type 0
ReleasedAll now w t ks w' t' =
    Turn now w t w' t'
    × ((k : Text)
        → contains k w'.owned_symbols ≡ (contains k w.owned_symbols && not (contains k ks)))
    × (OwnsLeases w t
        → (k : Text) → contains k ks ≡ true
        → contains k w.owned_symbols ≡ true
        → t' k ≡ none)
    × ((k : Text) → t k ≡ none → t' k ≡ none)
    × ((k : Text) → contains k ks ≡ false → t' k ≡ t k)

pub release_symbols-ReleasedAll :
    (now : ℕ) (w : Worker) (t : Table) (ks : List Text)
    → Refines w.key_prefix w.store t
    → (w' : Worker) × (t' : Table) × (release_symbols w ks ≡ ok w') × ReleasedAll now w t ks w' t'
unfolding release_symbols contains
release_symbols-ReleasedAll now w t [] h =
    (w, t, refl, (Turn-refl now w t h, (λ k. ground arith), (λ o k c. cc), (λ k e. e), λ k c. refl))
release_symbols-ReleasedAll now w t (k ∷ ks) h =
    let (u, ran, (first, owned, freed, gone, kept)) = release_symbol-Released now w t k h in
    let t1 : Table = release_entry t k w.worker_id (t k) in
    let (w', t', ran', (later, owned', freed', gone', kept')) =
      release_symbols-ReleasedAll now u t1 ks first.refines in
    (
      w',
      t',
      rw (ran, ran'),
      (
        Turn-trans first later,
        (λ j.
            owned' j ∙ ground (arith, ap (contains j) owned, contains-discard j k w.owned_symbols)),
        (λ o j listed c. elim (Bool-cases (text_eq j k)) [
          | inl same ↦
              let e : k ≡ j = sym ((text_eq_iff j k).0 same) in
              gone' j (
                subst (λ x. t1 x ≡ none) e
                  (freed o (subst (λ x. contains x w.owned_symbols ≡ true) (sym e) c)))
          | inr other ↦
              freed' (first.owns o) j (ground arith)
                (ground (arith, ap (contains j) owned, contains-discard j k w.owned_symbols))
        ]),
        (λ j e. gone' j (gone j e)),
        λ j c. kept' j (ground arith) ∙ kept j (ground (arith, text_eq_iff k j, text_eq_refl j)),
      ),
    )

-- From a store that holds a table of leases, giving up the symbols that are no longer assigned
-- returns. The worker then owns exactly the symbols that it owned and that are assigned; if every owned
-- symbol was leased to it, those given up have no lease, and the kept ones are still leased to it; no live
-- lease of another worker is touched, nor the entry of an assigned symbol.
pub release_unassigned_symbols-ReleasedAll :
    (now : ℕ) (w : Worker) (t : Table)
    → Refines w.key_prefix w.store t
    → (w' : Worker) × (t' : Table) × (release_unassigned_symbols w ≡ ok w')
      × Turn now w t w' t'
      × ((k : Text)
          → contains k w'.owned_symbols
            ≡ (contains k w.owned_symbols && contains k w.assigned_symbols))
      × (OwnsLeases w t
          → (k : Text) → contains k w.owned_symbols ≡ true
          → contains k w.assigned_symbols ≡ false
          → t' k ≡ none)
      × ((k : Text) → contains k w.assigned_symbols ≡ true → t' k ≡ t k)
unfolding release_unassigned_symbols
release_unassigned_symbols-ReleasedAll now w t h =
    let given_up = difference w.owned_symbols w.assigned_symbols in
    let (w', t', ran, (turn, owned, freed, _, kept)) =
      release_symbols-ReleasedAll now w t given_up h in
    (
      w',
      t',
      ran,
      turn,
      (λ k. owned k ∙ ground (arith, contains-difference k w.owned_symbols w.assigned_symbols)),
      (λ o k c a.
          freed o k (ground (arith, contains-difference k w.owned_symbols w.assigned_symbols)) c),
      λ k a. kept k (ground (arith, contains-difference k w.owned_symbols w.assigned_symbols)),
    )
