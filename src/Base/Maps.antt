-- ===== src/Base/Maps.antt =====
-- `std::map<std::string, V>`: the entries in the order of their keys.
use Prim.Native.Nat.{◌≤◌, suc}
use mathlib.Core.Path.{◌≡◌, refl, ap}
use mathlib.Core.Logic.{inl, inr}
use mathlib.Core.Bool.{Bool, true, false}
use mathlib.Core.Option.{Option, none, some}
use mathlib.Core.List.{List, [], ◌∷◌}
use native.Mathlib.Omega.{arith}
use nsb_beta.Base.Tests.{if◌then◌else◌, Bool-cases, Option-cases}
use nsb_beta.Base.Lists.{length}
use nsb_beta.Base.Strings.{Bytes, str_eq, str_lt, str_eq_iff}

abbrev pub Map {ℓ} : Type ℓ → Type ℓ
Map V = List (Bytes × V)

module _ {ℓ} {V : Type ℓ} where
  -- `find`, `at` and `operator[]` on a key that is there.
  unfoldable pub find : Bytes → Map V → Option V
  find k [] = none
  find k ((j, v) ∷ m) = if str_eq j k then some v else find k m

  unfoldable pub contains : Bytes → Map V → Bool
  contains k [] = false
  contains k ((j, v) ∷ m) = if str_eq j k then true else contains k m

  -- The first entry, by the order of the keys.
  abbrev pub begin : Map V → Option V
  begin [] = none
  begin ((k, v) ∷ m) = some v

  insert_at : Bytes → V → Map V → Map V
  insert_at k v [] = (k, v) ∷ []
  insert_at k v ((j, w) ∷ m) = if str_lt k j then (k, v) ∷ (j, w) ∷ m else (j, w) ∷ insert_at k v m

  -- `emplace`: a key that is there keeps its value.
  unfoldable pub emplace : Bytes → V → Map V → Map V
  unfolding contains insert_at str_eq str_lt
  emplace k v m = if contains k m then m else insert_at k v m

  contains-find : (k : Bytes) (m : Map V) → find k m ≡ none → contains k m ≡ false
  unfolding find contains
  contains-find k [] e = refl
  contains-find k ((j, v) ∷ m) e = ground (arith, contains-find k m)

  contains_when_found : (k : Bytes) (v : V) (m : Map V) → find k m ≡ some v → contains k m ≡ true
  unfolding find contains
  contains_when_found k v [] e = cc
  contains_when_found k v ((j, w) ∷ m) e = ground (arith, contains_when_found k v m)

  find-insert_at :
      (k j : Bytes) (v : V) (m : Map V)
      → contains k m ≡ false
      → find j (insert_at k v m) ≡ (if str_eq k j then some v else find j m)
  unfolding find contains insert_at
  find-insert_at k j v [] h = refl
  find-insert_at k j v ((i, w) ∷ m) h =
      ground (arith, str_eq_iff i k, str_eq_iff k j, str_eq_iff i j, find-insert_at k j v m)

  -- A key that is there keeps its entry, and every other key too.
  pub emplace_present : (k : Bytes) (v w : V) (m : Map V) → find k m ≡ some w → emplace k v m ≡ m
  unfolding emplace
  emplace_present k v w m e = rw (contains_when_found k w m e)

  -- A fresh key is bound; the others keep their values.
  pub find-emplace_fresh :
      (k j : Bytes) (v : V) (m : Map V)
      → find k m ≡ none
      → find j (emplace k v m) ≡ (if str_eq k j then some v else find j m)
  unfolding emplace
  find-emplace_fresh k j v m e =
      rw (contains-find k m e) (find-insert_at k j v m (contains-find k m e))

  pub find-emplace_other :
      (k j : Bytes) (v : V) (m : Map V) → str_eq k j ≡ false → find j (emplace k v m) ≡ find j m
  unfolding emplace
  find-emplace_other k j v m h = elim (Bool-cases (contains k m)) [
    | inl c ↦ rw c
    | inr c ↦ rw c (ground (arith, find-insert_at k j v m c))
  ]

  -- An entry stays, whatever key is added.
  pub find-emplace_keeps :
      (k j : Bytes) (v w : V) (m : Map V) → find j m ≡ some w → find j (emplace k v m) ≡ some w
  unfolding emplace find
  find-emplace_keeps k j v w m h = elim (Option-cases (find k m)) [
    | inl e ↦
        rw (find-emplace_fresh k j v m e)
          (ground (arith, str_eq_iff k j, ap (λ (o : Option V). o) e, h))
    | inr (u, e) ↦ rw (emplace_present k v u m e) h
  ]

  length-insert_at : (k : Bytes) (v : V) (m : Map V) → length (insert_at k v m) ≡ suc (length m)
  unfolding insert_at
  length-insert_at k v [] = refl
  length-insert_at k v ((j, w) ∷ m) = ground (arith, length-insert_at k v m)

  pub length-emplace-le : (k : Bytes) (v : V) (m : Map V) → length (emplace k v m) ≤ suc (length m)
  unfolding emplace
  length-emplace-le k v m = ground (arith, length-insert_at k v m)
