-- ===== src/Base/Dict.antt =====
-- A Go map keyed by strings, as an association list.
use mathlib.Core.Path.{◌≡◌, refl}
use mathlib.Core.Option.{Option, none, some}
use mathlib.Core.List.{List, [], ◌∷◌}
use native.Mathlib.Omega.{arith}
use factom.Base.Tests.{Bytes, bytes_eq, bytes_eq_sound, bytes_eq_refl, if◌then◌else◌}

abbrev pub Dict {ℓ} : Type ℓ → Type ℓ
Dict V = List (Bytes × V)

module _ {ℓ} {V : Type ℓ} where
  unfoldable pub lookup : Bytes → Dict V → Option V
  lookup k [] = none
  lookup k ((j, v) ∷ d) = if bytes_eq j k then some v else lookup k d

  unfoldable pub insert : Bytes → V → Dict V → Dict V
  insert k v [] = (k, v) ∷ []
  insert k v ((j, w) ∷ d) = if bytes_eq j k then (k, v) ∷ d else (j, w) ∷ insert k v d

  -- `delete(m, k)`: every pair with the key goes, of which there is one at most.
  unfoldable pub erase : Bytes → Dict V → Dict V
  erase k [] = []
  erase k ((j, w) ∷ d) = let rest = erase k d in if bytes_eq j k then rest else (j, w) ∷ rest

  -- A look-up after a write, and after a deletion.
  pub lookup-insert :
      (k j : Bytes) (v : V) (d : Dict V)
      → lookup j (insert k v d) ≡ (if bytes_eq k j then some v else lookup j d)
  unfolding lookup insert
  lookup-insert k j v [] = refl
  lookup-insert k j v ((i, w) ∷ d) = ground (
    arith,
    bytes_eq_sound k j,
    bytes_eq_sound i k,
    bytes_eq_sound i j,
    bytes_eq_refl j,
    bytes_eq_refl k,
    lookup-insert k j v d,
  )

  pub lookup-erase :
      (k j : Bytes) (d : Dict V)
      → lookup j (erase k d) ≡ (if bytes_eq k j then none else lookup j d)
  unfolding lookup erase
  lookup-erase k j [] = ground arith
  lookup-erase k j ((i, w) ∷ d) = ground (
    arith,
    bytes_eq_sound k j,
    bytes_eq_sound i k,
    bytes_eq_sound i j,
    bytes_eq_refl j,
    bytes_eq_refl k,
    lookup-erase k j d,
  )
