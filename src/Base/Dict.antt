-- ===== src/Base/Dict.antt =====
-- Go maps with string keys, as lists of entries.
use wallet_service.Base.{
  List, [], ◌∷◌, Option, none, some, String, ◌=ₛ◌, eq_iff, if◌then◌else◌, arith, refl, ◌≡◌,
}

abbrev pub Dict {ℓ} : (V : Type ℓ) → Type ℓ
Dict V = List (String × V)

module _ {ℓ} {V : Type ℓ} where
  unfoldable pub lookup : (key : String) → Dict V → Option V
  lookup key [] = none
  lookup key (entry ∷ rest) = if entry.0 =ₛ key then some entry.1 else lookup key rest

  -- `m[key] = value`
  unfoldable pub insert : (key : String) (value : V) → Dict V → Dict V
  insert key value [] = (key, value) ∷ []
  insert key value (entry ∷ rest) =
      if entry.0 =ₛ key then (key, value) ∷ rest else entry ∷ insert key value rest

  pub lookup-insert :
      (key other : String) (value : V) (entries : Dict V)
      → lookup other (insert key value entries)
        ≡ (if key =ₛ other then some value else lookup other entries)
  unfolding insert lookup
  lookup-insert key other value [] = refl
  lookup-insert key other value (entry ∷ rest) = ground (
    arith,
    lookup-insert key other value rest,
    eq_iff entry.0 key,
    eq_iff entry.0 other,
    eq_iff key other,
  )
