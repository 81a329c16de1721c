-- ===== src/Prelude/Keyed.antt =====
-- Dictionaries with texts for keys, in insertion order.
use mathlib.Core.Path.{◌≡◌, refl, sym, ap, ◌∙◌}
use mathlib.Core.Logic.{inl, inr}
use mathlib.Core.Bool.{true, false}
use mathlib.Core.Option.{Option, none, some}
use mathlib.Core.List.{List, [], ◌∷◌}
use container_hackathon.Prelude.Tests.{if◌then◌else◌, Bool-cases}
use container_hackathon.Prelude.Text.{Text, text_eq, text_eq_iff}

abbrev pub Keyed {ℓ} : (Value : Type ℓ) → Type ℓ
Keyed Value = List (Text × Value)

module _ {ℓ} {Value : Type ℓ} where
  -- `items.get(key)`
  unfoldable pub get_key : (key : Text) → Keyed Value → Option Value
  get_key key [] = none
  get_key key ((other, held) ∷ items) = if text_eq key other then some held else get_key key items

  -- `items[key] = value`
  unfoldable pub set_key : (key : Text) (value : Value) → Keyed Value → Keyed Value
  set_key key value [] = (key, value) ∷ []
  set_key key value ((other, held) ∷ items) =
      let rest = set_key key value items in
      if text_eq key other then (other, value) ∷ items else (other, held) ∷ rest

  -- `dict(list(items.items()) + list(later.items()))`
  unfoldable pub merge : (items later : Keyed Value) → Keyed Value
  merge items [] = items
  merge items ((key, value) ∷ later) = merge (set_key key value items) later

  pub get_key-set_key :
      (asked key : Text) (value : Value) (items : Keyed Value)
      → get_key asked (set_key key value items)
        ≡ (if text_eq asked key then some value else get_key asked items)
  unfolding get_key set_key
  get_key-set_key j k v [] = refl
  get_key-set_key j k v ((i, w) ∷ ps) = elim (Bool-cases (text_eq k i)) [
    | inl e ↦
        let same : k ≡ i = (text_eq_iff k i).0 e in
        elim (Bool-cases (text_eq j i)) [
          | inl f ↦
              let other : text_eq j k ≡ true = ap (text_eq j) same ∙ f in rw (e, f, other) refl
          | inr f ↦
              let other : text_eq j k ≡ false = ap (text_eq j) same ∙ f in rw (e, f, other) refl
        ]
    | inr e ↦ elim (Bool-cases (text_eq j i)) [
      | inl f ↦
          let same : j ≡ i = (text_eq_iff j i).0 f in
          elim (Bool-cases (text_eq j k)) [
            | inl g ↦
                let other : k ≡ i = sym ((text_eq_iff j k).0 g) ∙ same in
                let holds : text_eq k i ≡ true = (text_eq_iff k i).1 other in absurd cc
            | inr g ↦ rw (e, f, g) refl
          ]
      | inr f ↦ rw (e, f) (get_key-set_key j k v ps)
    ]
  ]
