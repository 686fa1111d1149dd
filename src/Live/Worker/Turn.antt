-- ===== src/Live/Worker/Turn.antt =====
-- src/app/live/worker.py: what every method of the worker keeps, whatever it does to the leases.
use web_enigma.Base.{ℕ, ◌<◌, ◌≡◌, ◌≢◌, refl, ◌∙◌, true, Option, some}
use web_enigma.Base.Texts.{Text}
use web_enigma.Base.TextSet.{contains}
use web_enigma.Live.Leases.Payload.{LeaseRecord}
use web_enigma.Live.Leases.Exclusion.{Table, Refines}
use web_enigma.Live.Worker.Stores.{SameControls}
use web_enigma.Live.Worker.{Worker, is_blocked}

-- The entry is a lease of the worker.
abbrev pub IsMine : Text → Option LeaseRecord → Type 0
IsMine id entry = (l : LeaseRecord) × (entry ≡ some l) × (l.worker_id ≡ id)

-- Every symbol that the worker owns is leased to it.
abbrev pub OwnsLeases : Worker → Table → Type 0
OwnsLeases w t = (k : Text) → contains k w.owned_symbols ≡ true → IsMine w.worker_id (t k)

pub is_blocked_same :
    (w w' : Worker)
    → w'.key_prefix ≡ w.key_prefix
    → SameControls w.key_prefix w.store w'.store
    → (k : Text) → is_blocked w' k ≡ is_blocked w k
unfolding is_blocked
is_blocked_same w w' same (paused, kill) k = rw (same, paused k, kill) refl

-- A part of an iteration, at the instant `now`, from the worker `w` with the table `t` of leases
-- to `w'` with `t'`: no live lease of another worker is touched, and if the worker owned leases for its
-- symbols it still does; no symbol is paused or resumed.
pub record Turn (now : ℕ) (w : Worker) (t : Table) (w' : Worker) (t' : Table) : Type 0 where
  pub refines : Refines w'.key_prefix w'.store t'
  pub same_prefix : w'.key_prefix ≡ w.key_prefix
  pub same_id : w'.worker_id ≡ w.worker_id
  pub same_assigned : w'.assigned_symbols ≡ w.assigned_symbols
  pub foreign :
      (k : Text) (l : LeaseRecord)
      → t k ≡ some l
      → l.worker_id ≢ w.worker_id
      → now < l.expires_at
      → t' k ≡ some l
  pub owns : OwnsLeases w t → OwnsLeases w' t'
  pub same_blocks : (k : Text) → is_blocked w' k ≡ is_blocked w k

pub Turn-refl :
    (now : ℕ) (w : Worker) (t : Table) → Refines w.key_prefix w.store t → Turn now w t w t
Turn-refl now w t h = record {
  refines = h;
  same_prefix = refl;
  same_id = refl;
  same_assigned = refl;
  foreign = λ k l e other live. e;
  owns = λ o. o;
  same_blocks = λ k. refl;
}

pub Turn-trans :
    {now : ℕ} {u v w : Worker} {t t' t'' : Table}
    → Turn now u t v t'
    → Turn now v t' w t''
    → Turn now u t w t''
Turn-trans a b = record {
  refines = b.refines;
  same_prefix = b.same_prefix ∙ a.same_prefix;
  same_id = b.same_id ∙ a.same_id;
  same_assigned = b.same_assigned ∙ a.same_assigned;
  foreign = λ k l e other live.
      b.foreign k l (a.foreign k l e other live) (λ same. other (same ∙ a.same_id)) live;
  owns = λ o. b.owns (a.owns o);
  same_blocks = λ k. b.same_blocks k ∙ a.same_blocks k;
}
