-- ===== src/Persistence/Metadata.antt =====
-- The values that the metadata of a state can hold, `Record<string, any>` in src/shared/types.ts, and
-- what `JSON.parse(JSON.stringify(...))` makes of them in src/core/persistence.ts. A value on which
-- JSON throws (a cycle, a `BigInt`) and one with its own `toJSON`, but a `Date`, are left out.
use cam_protocol.Base.{ℕ, ◌≡◌, refl, ap, arith, String, Bool, true, false, ◌&&◌, Option, none, some}

mutual
  pub data JsValue : Type 0 where
    text : String → JsValue
    -- A finite number but -0, by its decimal text.
    number : String → JsValue
    flag : Bool → JsValue
    null minus_zero not_finite : JsValue
    -- `undefined`, a function or a symbol.
    undefined_ : JsValue
    -- A `Date`, and the ISO text that JSON makes of one, by its time in milliseconds.
    date iso_text : ℕ → JsValue
    invalid_date : JsValue
    -- A `Map` or a `Set`, which has no enumerable fields.
    collection : JsValue
    array : Items → JsValue
    object : Fields → JsValue

  pub data Items : Type 0 where
    no_item : Items
    item : JsValue → Items → Items

  pub data Fields : Type 0 where
    no_field : Fields
    field : String → JsValue → Fields → Fields

-- An element that JSON leaves out is `null` in an array.
abbrev pub item_of : Option JsValue → Items → Items
item_of none xs = item null xs
item_of (some v) xs = item v xs

-- A field that JSON leaves out is gone.
abbrev pub field_of : String → Option JsValue → Fields → Fields
field_of k none fs = fs
field_of k (some v) fs = field k v fs

-- `none` is a value that JSON leaves out.
unfoldable mutual
  pub json_value : JsValue → Option JsValue
  json_value (text t) = some (text t)
  json_value (number n) = some (number n)
  json_value (flag b) = some (flag b)
  json_value null = some null
  json_value minus_zero = some (number "0")
  json_value not_finite = some null
  json_value undefined_ = none
  json_value (date t) = some (iso_text t)
  json_value (iso_text t) = some (iso_text t)
  json_value invalid_date = some null
  json_value collection = some (object no_field)
  json_value (array xs) = some (array (json_items xs))
  json_value (object fs) = some (object (json_fields fs))

  pub json_items : Items → Items
  json_items no_item = no_item
  json_items (item v xs) = item_of (json_value v) (json_items xs)

  pub json_fields : Fields → Fields
  json_fields no_field = no_field
  json_fields (field k v fs) = field_of k (json_value v) (json_fields fs)

-- Only texts, finite numbers, Booleans, `null`, and arrays and objects of such.
unfoldable mutual
  pub is_plain : JsValue → Bool
  is_plain (text t) = true
  is_plain (number n) = true
  is_plain (flag b) = true
  is_plain null = true
  is_plain minus_zero = false
  is_plain not_finite = false
  is_plain undefined_ = false
  is_plain (date t) = false
  is_plain (iso_text t) = true
  is_plain invalid_date = false
  is_plain collection = false
  is_plain (array xs) = are_plain_items xs
  is_plain (object fs) = are_plain_fields fs

  pub are_plain_items : Items → Bool
  are_plain_items no_item = true
  are_plain_items (item v xs) = is_plain v && are_plain_items xs

  pub are_plain_fields : Fields → Bool
  are_plain_fields no_field = true
  are_plain_fields (field k v fs) = is_plain v && are_plain_fields fs

pub both_true : (a b : Bool) → a && b ≡ true → (a ≡ true) × (b ≡ true)
both_true a b h = ground arith

-- JSON keeps plain values.
mutual
  unfolding json_value is_plain

  value_keeps : (v : JsValue) → is_plain v ≡ true → json_value v ≡ some v
  value_keeps (text t) h = refl
  value_keeps (number n) h = refl
  value_keeps (flag b) h = refl
  value_keeps null h = refl
  value_keeps minus_zero h = absurd (cc)
  value_keeps not_finite h = absurd (cc)
  value_keeps undefined_ h = absurd (cc)
  value_keeps (date t) h = absurd (cc)
  value_keeps (iso_text t) h = refl
  value_keeps invalid_date h = absurd (cc)
  value_keeps collection h = absurd (cc)
  value_keeps (array xs) h = ap (λ ys. some (array ys)) (items_keep xs h)
  value_keeps (object fs) h = ap (λ gs. some (object gs)) (fields_keep fs h)

  items_keep : (xs : Items) → are_plain_items xs ≡ true → json_items xs ≡ xs
  items_keep no_item h = refl
  items_keep (item v xs) h =
      let (p, q) = both_true (is_plain v) (are_plain_items xs) h in
      rw (value_keeps v p, items_keep xs q) refl

  fields_keep : (fs : Fields) → are_plain_fields fs ≡ true → json_fields fs ≡ fs
  fields_keep no_field h = refl
  fields_keep (field k v fs) h =
      let (p, q) = both_true (is_plain v) (are_plain_fields fs) h in
      rw (value_keeps v p, fields_keep fs q) refl

pub json_fields-plain : (fs : Fields) → are_plain_fields fs ≡ true → json_fields fs ≡ fs
json_fields-plain fs h = fields_keep fs h

pub json_value-plain : (v : JsValue) → is_plain v ≡ true → json_value v ≡ some v
json_value-plain v h = value_keeps v h
