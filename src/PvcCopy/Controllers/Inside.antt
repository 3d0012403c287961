-- ===== src/PvcCopy/Controllers/Inside.antt =====
-- internal/pvccopy/controllers.go: consumes looks at every value inside a specification.
use runner.Prelude.{Bool, true, false, ◌≡◌, ◌↔◌, Bool-cases, inl, inr, arith}
use runner.Prelude.Bytes.{Bytes}
use runner.PvcCopy.Controllers.{
  Json, null, boolean, number, text, array, object, Items, no_items, item, Fields, no_fields, field,
  consumes, consumes_items, consumes_fields, names_claim,
}

-- The value w stands somewhere inside a value.
mutual
  pub data Inside (w : Json) : Json → Type 0 where
    whole : Inside w w
    in_array : {xs : Items} → InsideItems w xs → Inside w (array xs)
    in_object : {fs : Fields} → InsideFields w fs → Inside w (object fs)

  pub data InsideItems (w : Json) : Items → Type 0 where
    this_item : {v : Json} {xs : Items} → Inside w v → InsideItems w (item v xs)
    later_item : {v : Json} {xs : Items} → InsideItems w xs → InsideItems w (item v xs)

  pub data InsideFields (w : Json) : Fields → Type 0 where
    this_field : {k : Bytes} {v : Json} {fs : Fields} → Inside w v → InsideFields w (field k v fs)
    later_field :
        {k : Bytes} {v : Json} {fs : Fields} → InsideFields w fs → InsideFields w (field k v fs)

-- The value is an object that names the claim itself.
unfoldable pub names_value : Bytes → Json → Bool
names_value claim (object fs) = names_claim claim fs
names_value claim _ = false

names_value-consumes :
    (claim : Bytes) (w : Json) → names_value claim w ≡ true → consumes claim w ≡ true
unfolding names_value consumes
names_value-consumes claim (object fs) h = ground (arith, h)
names_value-consumes claim null h = cc h
names_value-consumes claim (boolean b) h = cc h
names_value-consumes claim (number z) h = cc h
names_value-consumes claim (text s) h = cc h
names_value-consumes claim (array xs) h = cc h

mutual
  unfolding consumes

  pub Inside-consumes :
      (claim : Bytes) (w : Json) (v : Json)
      → Inside w v
      → names_value claim w ≡ true
      → consumes claim v ≡ true
  Inside-consumes claim w _ whole h = names_value-consumes claim w h
  Inside-consumes claim w _ (in_array {xs} i) h = InsideItems-consumes claim w xs i h
  Inside-consumes claim w _ (in_object {fs = gs} i) h =
      let below = InsideFields-consumes claim w gs i h in ground (arith, below)

  InsideItems-consumes :
      (claim : Bytes) (w : Json) (xs : Items)
      → InsideItems w xs
      → names_value claim w ≡ true
      → consumes_items claim xs ≡ true
  InsideItems-consumes claim w _ (this_item {v} {xs} i) h =
      let below = Inside-consumes claim w v i h in ground (arith, below)
  InsideItems-consumes claim w _ (later_item {v} {xs} i) h =
      let below = InsideItems-consumes claim w xs i h in ground (arith, below)

  InsideFields-consumes :
      (claim : Bytes) (w : Json) (gs : Fields)
      → InsideFields w gs
      → names_value claim w ≡ true
      → consumes_fields claim gs ≡ true
  InsideFields-consumes claim w _ (this_field {v = v} {fs = gs} i) h =
      let below = Inside-consumes claim w v i h in ground (arith, below)
  InsideFields-consumes claim w _ (later_field {v = v} {fs = gs} i) h =
      let below = InsideFields-consumes claim w gs i h in ground (arith, below)

-- A claim is named by an object inside a value.
abbrev pub IsNamedIn : Bytes → Json → Type 0
IsNamedIn claim v = (w : Json) × Inside w v × (names_value claim w ≡ true)

mutual
  unfolding consumes names_value

  consumes-IsNamedIn : (claim : Bytes) (v : Json) → consumes claim v ≡ true → IsNamedIn claim v
  consumes-IsNamedIn claim null h = cc h
  consumes-IsNamedIn claim (boolean b) h = cc h
  consumes-IsNamedIn claim (number z) h = cc h
  consumes-IsNamedIn claim (text s) h = cc h
  consumes-IsNamedIn claim (array xs) h =
      let (w, i, k) = items-IsNamedIn claim xs h in (w, in_array i, k)
  consumes-IsNamedIn claim (object gs) h = elim (Bool-cases (names_claim claim gs)) [
    | inl k ↦ (object gs, whole, k)
    | inr k ↦
        let (w, i, l) = fields-IsNamedIn claim gs (ground (arith, h, k)) in (w, in_object i, l)
  ]

  items-IsNamedIn :
      (claim : Bytes) (xs : Items)
      → consumes_items claim xs ≡ true
      → (w : Json) × InsideItems w xs × (names_value claim w ≡ true)
  items-IsNamedIn claim no_items h = cc h
  items-IsNamedIn claim (item v xs) h = elim (Bool-cases (consumes claim v)) [
    | inl k ↦ let (w, i, l) = consumes-IsNamedIn claim v k in (w, this_item i, l)
    | inr k ↦
        let (w, i, l) = items-IsNamedIn claim xs (ground (arith, h, k)) in (w, later_item i, l)
  ]

  fields-IsNamedIn :
      (claim : Bytes) (gs : Fields)
      → consumes_fields claim gs ≡ true
      → (w : Json) × InsideFields w gs × (names_value claim w ≡ true)
  fields-IsNamedIn claim no_fields h = cc h
  fields-IsNamedIn claim (field k v gs) h = elim (Bool-cases (consumes claim v)) [
    | inl l ↦ let (w, i, m) = consumes-IsNamedIn claim v l in (w, this_field i, m)
    | inr l ↦
        let (w, i, m) = fields-IsNamedIn claim gs (ground (arith, h, l)) in (w, later_field i, m)
  ]

-- consumes finds a claim exactly where some object inside the value, at any depth, names it.
pub consumes_iff : (claim : Bytes) (v : Json) → (consumes claim v ≡ true) ↔ IsNamedIn claim v
consumes_iff claim v = (consumes-IsNamedIn claim v, λ n. Inside-consumes claim n.0 v n.1 n.2)
