-- ===== src/Live/Assignments/Partition.antt =====
-- src/app/live/assignment_publisher.py, `compute_assignments`: every symbol goes to one shard.
use mathlib.Core.Path.{fun_ext}
use native.Mathlib.Nat.{mod-lt}
use web_enigma.Base.{
  ℕ, zero, suc, ◌+◌, ◌%◌, ◌≤◌, ◌<◌, ◌==◌, leb, ltb, ◌≡◌, refl, subst, ◌∙◌, Bool, false, ◌&&◌, ◌||◌,
  if◌then◌else◌, none, some, List, [], ◌∷◌, arith, inl, inr, Bool-cases,
}
use web_enigma.Base.Texts.{Text, text_eq, text_eq_iff}
use web_enigma.Base.TextSet.{TextSet, contains, add, contains-add, of_list, contains-of_list}
use web_enigma.Base.Dict.{Dict, get, put, get-put, has_key, IsUnique, put-IsUnique, nat_key}
use web_enigma.Base.Result.{ok}
use web_enigma.Live.Assignments.{assign_all, empty_shards, compute_assignments, compute_shard_id}

-- Each of the `n` shards holds the symbols that satisfy `f` and whose digest points at it, and
-- there is no other shard.
abbrev pub Spread : (Text → ℕ) → ℕ → Dict ℕ TextSet → (Text → Bool) → Type 0
Spread digest n d f =
    (shard : ℕ)
    → (shard < n
        → (s : TextSet) × (get d shard ≡ some s)
          × ((k : Text) → contains k s ≡ (f k && digest k % n == shard)))
      × (n ≤ shard → get d shard ≡ none)

get-empty_shards :
    (i n shard : ℕ)
    → get (empty_shards i n) shard ≡ (if leb i shard && ltb shard (i + n) then some [] else none)
unfolding empty_shards get
get-empty_shards i zero shard = ground arith
get-empty_shards i (suc n) shard = ground (arith, get-empty_shards (suc i) n shard)

empty_shards-Spread : (digest : Text → ℕ) (n : ℕ) → Spread digest n (empty_shards 0 n) (λ k. false)
unfolding contains
empty_shards-Spread digest n shard = (
  λ h. ([], get-empty_shards 0 n shard ∙ ground arith, λ k. refl),
  λ h. get-empty_shards 0 n shard ∙ ground arith,
)

compute_shard_id_lem :
    (digest : Text → ℕ) (k : Text) (n : ℕ) → 0 < n → compute_shard_id digest k n ≡ ok (digest k % n)
unfolding compute_shard_id
compute_shard_id_lem digest k n h = ground arith

contains-of_list_or :
    (ks : List Text) (x : Text) → (contains x (of_list ks) || false) ≡ contains x ks
contains-of_list_or ks x = ground (arith, contains-of_list x ks)

has_key-empty_shards : (j i n : ℕ) → j < i → has_key (empty_shards i n) j ≡ false
unfolding empty_shards has_key
has_key-empty_shards j i zero h = refl
has_key-empty_shards j i (suc n) h = ground (arith, has_key-empty_shards j (suc i) n)

empty_shards-IsUnique : (i n : ℕ) → IsUnique (empty_shards i n)
unfolding empty_shards
empty_shards-IsUnique i zero = tt
empty_shards-IsUnique i (suc n) =
    (has_key-empty_shards i (suc i) n (omega arith), empty_shards-IsUnique (suc i) n)

module _ (digest : Text → ℕ) (n : ℕ) where
  put-Spread :
      (d : Dict ℕ TextSet) (f : Text → Bool) (k : Text) (s : TextSet)
      → digest k % n < n
      → get d (digest k % n) ≡ some s
      → ((x : Text) → contains x s ≡ (f x && digest x % n == digest k % n))
      → Spread digest n d f
      → Spread digest n (put d (digest k % n) (add k s)) (λ x. text_eq x k || f x)
  put-Spread d f k s small e members h shard = (
    λ below. elim (Bool-cases (digest k % n == shard)) [
      | inl here ↦ (
        add k s,
        get-put d (digest k % n) shard (add k s) ∙ rw here,
        λ x. contains-add x k s ∙ ground (arith, members x, text_eq_iff x k),
      )
      | inr there ↦
          let (s', e', members') = (h shard).0 below in
          (
            s',
            get-put d (digest k % n) shard (add k s) ∙ rw there e',
            λ x. members' x ∙ ground (arith, text_eq_iff x k),
          )
    ],
    λ above. get-put d (digest k % n) shard (add k s) ∙ ground (arith, (h shard).1 above),
  )

  -- From a spread dictionary the loop returns, and has put every symbol into its shard.
  assign_all-Spread :
      (d : Dict ℕ TextSet) (f : Text → Bool) (ks : List Text)
      → 0 < n
      → Spread digest n d f
      → IsUnique d
      → (d' : Dict ℕ TextSet) × (assign_all digest n d ks ≡ ok d')
        × Spread digest n d' (λ x. contains x ks || f x)
        × IsUnique d'
  unfolding assign_all contains
  assign_all-Spread d f [] pos h u = (d, refl, h, u)
  assign_all-Spread d f (k ∷ ks) pos h u =
      let small : digest k % n < n = mod-lt (digest k) pos in
      let (s, e, members) = (h (digest k % n)).0 small in
      let (d', ran, h', u') =
        assign_all-Spread (put d (digest k % n) (add k s)) (λ x. text_eq x k || f x) ks pos
          (put-Spread d f k s small e members h) (put-IsUnique d (digest k % n) (add k s) u) in
      (
        d',
        rw (compute_shard_id_lem digest k n pos, e) ran,
        subst (Spread digest n d') (fun_ext (λ x. ground arith)) h',
        u',
      )

  -- With at least one shard, `compute_assignments` returns; each of its shards holds exactly the
  -- given symbols whose digest modulo the number of shards is the shard's number; and it has no
  -- other shard, and none twice.
  pub compute_assignments-Spread :
      (ks : List Text)
      → 0 < n
      → (d : Dict ℕ TextSet) × (compute_assignments digest ks n ≡ ok d)
        × Spread digest n d (λ k. contains k ks)
        × IsUnique d
  unfolding compute_assignments
  compute_assignments-Spread ks pos =
      let (d, ran, h, u) =
        assign_all-Spread (empty_shards 0 n) (λ k. false) (of_list ks) pos
          (empty_shards-Spread digest n) (empty_shards-IsUnique 0 n) in
      (d, ran, subst (Spread digest n d) (fun_ext (λ x. contains-of_list_or ks x)) h, u)
