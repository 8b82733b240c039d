-- ===== src/Base/Maps.antt =====
-- Go maps as association lists: a lookup, an assignment and `delete`, with their laws. A key is
-- held at most once; `delete` drops every entry of the key, so its law needs no such hypothesis.
use mathlib.Core.Path.{subst, sym, ◌≡◌, refl}
use mathlib.Core.Logic.{if_pos, if_neg, ite}
use mathlib.Core.List.{List, [], ◌∷◌, map}
use mathlib.Core.List.{Mem, Nodup, Nodup-nil, Nodup-cons, not-mem-nil, eq-or-mem_of_mem-cons}
use mathlib.Core.Logic.Or
use mathlib.Core.HLevel.{⊥_prop}
use mathlib.Core.Option.{Option, none, some}
use peekd.Base.Lists.{All}
use native.Mathlib.Omega.{arith}

module _ {ℓ} {K V : Type ℓ} where
  abbrev pub keys : List (K × V) → List K
  keys = map (λ e. e.0)

  abbrev pub values : List (K × V) → List V
  values = map (λ e. e.1)

module _ {ℓ} {K V : Type ℓ} (dec : Discrete K) where
  -- `v, ok := m[k]`
  unfoldable pub get : K → List (K × V) → Option V
  get k [] = none
  get k ((j, v) ∷ m) = ite (dec j k) (some v) (get k m)

  -- `m[k] = v`
  unfoldable pub put : K → V → List (K × V) → List (K × V)
  put k v [] = (k, v) ∷ []
  put k v ((j, w) ∷ m) = ite (dec j k) ((j, v) ∷ m) ((j, w) ∷ put k v m)

  -- `delete(m, k)`
  unfoldable pub delete : K → List (K × V) → List (K × V)
  delete k [] = []
  delete k ((j, w) ∷ m) = ite (dec j k) (delete k m) ((j, w) ∷ delete k m)

  -- No key is held twice.
  abbrev pub HasUniqueKeys : List (K × V) → Type ℓ
  HasUniqueKeys [] = Unit
  HasUniqueKeys ((k, v) ∷ m) = (get k m ≡ none) × HasUniqueKeys m

  pub get-put :
      (k j : K) (v : V) (m : List (K × V)) → get j (put k v m) ≡ ite (dec k j) (some v) (get j m)
  unfolding get put
  get-put k j v [] = refl
  get-put k j v ((i, w) ∷ m) = ground (arith, get-put k j v m)

  pub get-put_self : (k : K) (v : V) (m : List (K × V)) → get k (put k v m) ≡ some v
  get-put_self k v m = ground (arith, get-put k k v m)

  pub get-delete : (k j : K) (m : List (K × V)) → get j (delete k m) ≡ ite (dec k j) none (get j m)
  unfolding get delete
  get-delete k j [] = ground arith
  get-delete k j ((i, w) ∷ m) = ground (arith, get-delete k j m)

  pub put-HasUniqueKeys :
      (k : K) (v : V) (m : List (K × V)) → HasUniqueKeys m → HasUniqueKeys (put k v m)
  unfolding get put
  put-HasUniqueKeys k v [] h = (refl, tt)
  put-HasUniqueKeys k v ((i, w) ∷ m) h =
      ground (arith, get-put k i v m, put-HasUniqueKeys k v m h.1)

  pub delete-HasUniqueKeys :
      (k : K) (m : List (K × V)) → HasUniqueKeys m → HasUniqueKeys (delete k m)
  unfolding get delete
  delete-HasUniqueKeys k [] h = tt
  delete-HasUniqueKeys k ((i, w) ∷ m) h =
      ground (arith, get-delete k i m, delete-HasUniqueKeys k m h.1)

  -- Deleting an absent key changes nothing.
  pub delete_absent : (k : K) (m : List (K × V)) → get k m ≡ none → delete k m ≡ m
  unfolding get delete
  delete_absent k [] h = refl
  delete_absent k ((i, w) ∷ m) h = ground (arith, delete_absent k m)

  pub delete-put : (k : K) (v : V) (m : List (K × V)) → delete k (put k v m) ≡ delete k m
  unfolding put delete
  delete-put k v [] = ground arith
  delete-put k v ((i, w) ∷ m) = ground (arith, delete-put k v m)

  not-mem-keys : (k : K) (m : List (K × V)) → get k m ≡ none → ¬ Mem k (keys m)
  unfolding get
  not-mem-keys k [] h = not-mem-nil
  not-mem-keys k ((i, w) ∷ m) h = λ member.
      Or.elim ⊥_prop (eq-or-mem_of_mem-cons member) (λ here. ground arith)
        (not-mem-keys k m (ground arith))

  pub keys-Nodup : (m : List (K × V)) → HasUniqueKeys m → Nodup (keys m)
  keys-Nodup [] u = Nodup-nil
  keys-Nodup ((k, v) ∷ m) u = Nodup-cons.1 (not-mem-keys k m u.0, keys-Nodup m u.1)

-- A predicate of the entries, under the operations.
module _ {ℓ} {K V : Type ℓ} (dec : Discrete K) (P : K × V → Type ℓ) where
  pub All-put : (k : K) (v : V) (m : List (K × V)) → P (k, v) → All P m → All P (put dec k v m)
  unfolding put
  All-put k v [] p h = (p, tt)
  All-put k v ((i, w) ∷ m) p h = elim (dec i k) [
    | yes e ↦ rw (if_pos _ e) (subst (λ x. P (x, v)) (sym e) p, h.1)
    | no e ↦ rw (if_neg _ e) (h.0, All-put k v m p h.1)
  ]

  pub All-delete : (k : K) (m : List (K × V)) → All P m → All P (delete dec k m)
  unfolding delete
  All-delete k [] h = tt
  All-delete k ((i, w) ∷ m) h = elim (dec i k) [
    | yes e ↦ rw (if_pos _ e) (All-delete k m h.1)
    | no e ↦ rw (if_neg _ e) (h.0, All-delete k m h.1)
  ]

  pub All-get : (k : K) (v : V) (m : List (K × V)) → get dec k m ≡ some v → All P m → P (k, v)
  unfolding get
  All-get k v [] e h = absurd (ground arith)
  All-get k v ((i, w) ∷ m) e h = elim (dec i k) [
    | yes q ↦
        let w-eq : w ≡ v = ground arith in subst (λ x. P (x, v)) q (subst (λ x. P (i, x)) w-eq h.0)
    | no q ↦ All-get k v m (ground arith) h.1
  ]
