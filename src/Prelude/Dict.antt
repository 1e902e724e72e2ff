-- ===== src/Prelude/Dict.antt =====
-- Go maps with string keys, as association lists without repeated keys.
use mathlib.Core.Path.{◌≡◌, refl, ap, ◌∙◌}
use mathlib.Core.Logic.{inl, inr}
use mathlib.Core.Bool.{Bool, false, ◌||◌}
use mathlib.Core.List.{List, [], ◌∷◌}
use mathlib.Core.Option.{Option, none, some}
use native.Mathlib.Omega.{arith}
use gotify_vps_agent.Prelude.Tests.{if◌then◌else◌, Bool-cases}
use gotify_vps_agent.Prelude.Text.{Text, text_eq, text_eq_iff, text_lt}

abbrev pub Dict {ℓ} : Type ℓ → Type ℓ
Dict V = List (Text × V)

module _ {ℓ} {V : Type ℓ} where
  unfoldable pub lookup : Text → Dict V → Option V
  lookup k [] = none
  lookup k ((j, v) ∷ m) = if text_eq j k then some v else lookup k m

  -- `m[k] = v`
  unfoldable pub insert : Text → V → Dict V → Dict V
  insert k v [] = (k, v) ∷ []
  insert k v ((j, w) ∷ m) = if text_eq j k then (j, v) ∷ m else (j, w) ∷ insert k v m

  -- `delete` of every key that fails the test
  unfoldable pub restrict : (Text → Bool) → Dict V → Dict V
  restrict p [] = []
  restrict p ((j, w) ∷ m) = if p j then (j, w) ∷ restrict p m else restrict p m

  -- sort.Strings of the keys of a map, each with its value.
  unfoldable pub insert_key : Text → V → Dict V → Dict V
  insert_key id v [] = (id, v) ∷ []
  insert_key id v ((j, w) ∷ rest) =
      let later = insert_key id v rest in
      if text_lt id j then (id, v) ∷ (j, w) ∷ rest else (j, w) ∷ later

  unfoldable pub sort_keys : Dict V → Dict V
  sort_keys [] = []
  sort_keys ((id, v) ∷ rest) = insert_key id v (sort_keys rest)

  pub lookup-insert :
      (k j : Text) (v : V) (m : Dict V)
      → lookup j (insert k v m) ≡ (if text_eq k j then some v else lookup j m)
  unfolding lookup insert
  lookup-insert k j v [] = refl
  lookup-insert k j v ((i, w) ∷ m) =
      ground (arith, text_eq_iff k j, text_eq_iff i k, text_eq_iff i j, lookup-insert k j v m)

  pub lookup-restrict :
      (p : Text → Bool) (j : Text) (m : Dict V)
      → lookup j (restrict p m) ≡ (if p j then lookup j m else none)
  unfolding lookup restrict
  lookup-restrict p j [] = ground arith
  lookup-restrict p j ((i, w) ∷ m) = ground (arith, text_eq_iff i j, lookup-restrict p j m)

-- The keys of a map, all different.
abbrev pub has_key : {V : Type 0} → Text → Dict V → Bool
has_key id [] = false
has_key id ((j, v) ∷ rest) = text_eq j id || has_key id rest

abbrev pub DistinctKeys : {V : Type 0} → Dict V → Type 0
DistinctKeys [] = Unit
DistinctKeys ((id, v) ∷ rest) = (has_key id rest ≡ false) × DistinctKeys rest

has_key-insert_key :
    {V : Type 0} (k id : Text) (v : V) (m : Dict V)
    → has_key k (insert_key id v m) ≡ (text_eq id k || has_key k m)
unfolding insert_key
has_key-insert_key k id v [] = refl
has_key-insert_key k id v ((j, w) ∷ rest) = ground (arith, has_key-insert_key k id v rest)

insert_key-DistinctKeys :
    {V : Type 0} (id : Text) (v : V) (m : Dict V)
    → has_key id m ≡ false
    → DistinctKeys m
    → DistinctKeys (insert_key id v m)
unfolding insert_key
insert_key-DistinctKeys id v [] h d = (refl, tt)
insert_key-DistinctKeys id v ((j, w) ∷ rest) h d = elim (Bool-cases (text_lt id j)) [
  | inl less ↦ rw (less) (h, d)
  | inr more ↦ rw (more) (
    ground (arith, has_key-insert_key j id v rest, text_eq_iff id j, text_eq_iff j id),
    insert_key-DistinctKeys id v rest (ground arith) d.1,
  )
]

pub has_key-sort_keys : {V : Type 0} (k : Text) (m : Dict V) → has_key k (sort_keys m) ≡ has_key k m
unfolding sort_keys
has_key-sort_keys k [] = refl
has_key-sort_keys k ((id, v) ∷ rest) =
    has_key-insert_key k id v (sort_keys rest) ∙ ap (◌||◌ (text_eq id k)) (has_key-sort_keys k rest)

pub sort_keys-DistinctKeys : {V : Type 0} (m : Dict V) → DistinctKeys m → DistinctKeys (sort_keys m)
unfolding sort_keys
sort_keys-DistinctKeys [] d = tt
sort_keys-DistinctKeys ((id, v) ∷ rest) d =
    insert_key-DistinctKeys id v (sort_keys rest) (has_key-sort_keys id rest ∙ d.0)
      (sort_keys-DistinctKeys rest d.1)

has_key-insert :
    {V : Type 0} (k id : Text) (v : V) (m : Dict V)
    → has_key k (insert id v m) ≡ (text_eq id k || has_key k m)
unfolding insert
has_key-insert k id v [] = refl
has_key-insert k id v ((j, w) ∷ rest) =
    ground (arith, has_key-insert k id v rest, text_eq_iff j id, text_eq_iff j k, text_eq_iff id k)

pub insert-DistinctKeys :
    {V : Type 0} (id : Text) (v : V) (m : Dict V) → DistinctKeys m → DistinctKeys (insert id v m)
unfolding insert
insert-DistinctKeys id v [] d = (refl, tt)
insert-DistinctKeys id v ((j, w) ∷ rest) d = elim (Bool-cases (text_eq j id)) [
  | inl same ↦ rw (same) d
  | inr apart ↦ rw (apart) (
    ground (arith, apart, d.0, has_key-insert j id v rest, text_eq_iff j id, text_eq_iff id j),
    insert-DistinctKeys id v rest d.1,
  )
]
