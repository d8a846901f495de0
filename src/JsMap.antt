-- ===== src/JsMap.antt =====
-- JavaScript's `Map` with text keys, as the program uses it: a list of entries in insertion order.
-- `set` on a key that is there keeps its place. A loop that deletes while it iterates, as the
-- program writes it, visits each entry once, so it is `reject`.
use cam_protocol.Base.{
  ℕ, suc, ◌≤◌, ◌≡◌, refl, subst, String, Bool, true, false, Option, none, some, List, [], ◌∷◌, map,
  arith, str_eq, if◌then◌else◌, length, eq_iff, Bool-cases, inl, inr, All, sym, not, ◌&&◌, ◌||◌,
  some-injective,
}

abbrev pub JsMap {ℓ} : Type ℓ → Type ℓ
JsMap V = List (String × V)

module _ {ℓ} {V : Type ℓ} where
  unfoldable pub get : String → JsMap V → Option V
  get k [] = none
  get k ((j, v) ∷ m) = if str_eq j k then some v else get k m

  unfoldable pub has : String → JsMap V → Bool
  has k [] = false
  has k ((j, v) ∷ m) = if str_eq j k then true else has k m

  unfoldable pub set : String → V → JsMap V → JsMap V
  set k v [] = (k, v) ∷ []
  set k v ((j, w) ∷ m) = if str_eq j k then (j, v) ∷ m else (j, w) ∷ set k v m

  unfoldable pub delete : String → JsMap V → JsMap V
  delete k [] = []
  delete k ((j, w) ∷ m) = if str_eq j k then delete k m else (j, w) ∷ delete k m

  abbrev pub size : JsMap V → ℕ
  size m = length m

  abbrev pub values : JsMap V → List V
  values = map (λ e. e.1)

  -- `for (const [k, v] of m) if (test(v)) m.delete(k)`.
  unfoldable pub reject : (V → Bool) → JsMap V → JsMap V
  reject test [] = []
  reject test ((j, w) ∷ m) = if test w then reject test m else (j, w) ∷ reject test m

  -- No key stands twice.
  abbrev pub IsUnique : JsMap V → Type ℓ
  IsUnique [] = Unit
  IsUnique ((j, w) ∷ m) = (get j m ≡ none) × IsUnique m

  pub get-set :
      (k j : String) (v : V) (m : JsMap V)
      → get j (set k v m) ≡ (if str_eq k j then some v else get j m)
  unfolding get set
  get-set k j v [] = refl
  get-set k j v ((i, w) ∷ m) = ground (arith, eq_iff k j, eq_iff i k, eq_iff i j, get-set k j v m)

  pub get-delete :
      (k j : String) (m : JsMap V) → get j (delete k m) ≡ (if str_eq k j then none else get j m)
  unfolding get delete
  get-delete k j [] = ground arith
  get-delete k j ((i, w) ∷ m) = ground (arith, eq_iff k j, eq_iff i k, eq_iff i j, get-delete k j m)

  pub has-get : (k : String) (m : JsMap V) → has k m ≡ false → get k m ≡ none
  unfolding get has
  has-get k [] h = refl
  has-get k ((i, w) ∷ m) h = ground (arith, has-get k m)

  pub get-has : (k : String) (m : JsMap V) → get k m ≡ none → has k m ≡ false
  unfolding get has
  get-has k [] h = refl
  get-has k ((i, w) ∷ m) h = ground (arith, get-has k m)

  pub set-IsUnique : (k : String) (v : V) (m : JsMap V) → IsUnique m → IsUnique (set k v m)
  unfolding get set
  set-IsUnique k v [] h = (refl, tt)
  set-IsUnique k v ((i, w) ∷ m) h = elim (Bool-cases (str_eq i k)) [
    | inl e ↦ ground arith
    | inr e ↦ ground (arith, get-set k i v m, eq_iff i k, eq_iff k i, set-IsUnique k v m h.1)
  ]

  pub delete-IsUnique : (k : String) (m : JsMap V) → IsUnique m → IsUnique (delete k m)
  unfolding get delete
  delete-IsUnique k [] h = tt
  delete-IsUnique k ((i, w) ∷ m) h =
      ground (arith, get-delete k i m, eq_iff i k, eq_iff k i, delete-IsUnique k m h.1)

  pub get-reject-none :
      (test : V → Bool) (k : String) (m : JsMap V) → get k m ≡ none → get k (reject test m) ≡ none
  unfolding get reject
  get-reject-none test k [] h = refl
  get-reject-none test k ((i, w) ∷ m) h = ground (arith, get-reject-none test k m)

  pub reject-IsUnique : (test : V → Bool) (m : JsMap V) → IsUnique m → IsUnique (reject test m)
  unfolding reject
  reject-IsUnique test [] h = tt
  reject-IsUnique test ((i, w) ∷ m) h =
      ground (arith, get-reject-none test i m h.0, reject-IsUnique test m h.1)

  -- An entry survives exactly when it fails the test.
  pub get-reject :
      (test : V → Bool) (k : String) (m : JsMap V)
      → IsUnique m
      → get k (reject test m)
        ≡ elim (get k m) [ none ↦ none | some v ↦ if test v then none else some v ]
  unfolding get reject
  get-reject test k [] h = refl
  get-reject test k ((i, w) ∷ m) h = elim (Bool-cases (str_eq i k)) [
    | inl e ↦
        let absent : get k m ≡ none = subst (λ j. get j m ≡ none) ((eq_iff i k).0 e) h.0 in
        ground (arith, get-reject-none test k m absent)
    | inr e ↦ ground (arith, get-reject test k m h.1)
  ]

  pub size-set-le : (k : String) (v : V) (m : JsMap V) → size (set k v m) ≤ suc (size m)
  unfolding set
  size-set-le k v [] = omega arith
  size-set-le k v ((i, w) ∷ m) = ground (arith, size-set-le k v m)

  pub size-set-has : (k : String) (v : V) (m : JsMap V) → has k m ≡ true → size (set k v m) ≡ size m
  unfolding set has
  size-set-has k v [] h = cc
  size-set-has k v ((i, w) ∷ m) h = ground (arith, size-set-has k v m)

  pub size-delete-le : (k : String) (m : JsMap V) → size (delete k m) ≤ size m
  unfolding delete
  size-delete-le k [] = omega arith
  size-delete-le k ((i, w) ∷ m) = ground (arith, size-delete-le k m)

  pub size-delete-lt :
      (k : String) (m : JsMap V) → has k m ≡ true → suc (size (delete k m)) ≤ size m
  unfolding delete has
  size-delete-lt k [] h = cc
  size-delete-lt k ((i, w) ∷ m) h = ground (arith, size-delete-le k m, size-delete-lt k m)

  pub size-reject-le : (test : V → Bool) (m : JsMap V) → size (reject test m) ≤ size m
  unfolding reject
  size-reject-le test [] = omega arith
  size-reject-le test ((i, w) ∷ m) = ground (arith, size-reject-le test m)

module _ {V : Type 0} (P : String × V → Type 0) where
  pub set-All : (k : String) (v : V) (m : JsMap V) → P (k, v) → All P m → All P (set k v m)
  unfolding set
  set-All k v [] p h = (p, tt)
  set-All k v ((i, w) ∷ m) p (q, h) = elim (Bool-cases (str_eq i k)) [
    | inl e ↦ rw (e, set) (subst (λ j. P (j, v)) (sym ((eq_iff i k).0 e)) p, h)
    | inr e ↦ rw (e, set) (q, set-All k v m p h)
  ]

  pub delete-All : (k : String) (m : JsMap V) → All P m → All P (delete k m)
  unfolding delete
  delete-All k [] h = tt
  delete-All k ((i, w) ∷ m) (q, h) = elim (Bool-cases (str_eq i k)) [
    | inl e ↦ rw (e, delete) (delete-All k m h)
    | inr e ↦ rw (e, delete) (q, delete-All k m h)
  ]

  pub reject-All :
      (test : V → Bool) (m : JsMap V)
      → All P m
      → All (λ e. P e × (test e.1 ≡ false)) (reject test m)
  unfolding reject
  reject-All test [] h = tt
  reject-All test ((i, w) ∷ m) (q, h) = elim (Bool-cases (test w)) [
    | inl e ↦ rw (e, reject) (reject-All test m h)
    | inr e ↦ rw (e, reject) ((q, e), reject-All test m h)
  ]

  pub get-All : (k : String) (v : V) (m : JsMap V) → All P m → get k m ≡ some v → P (k, v)
  unfolding get
  get-All k v [] h e = absurd (cc)
  get-All k v ((i, w) ∷ m) (q, h) e = found (str_eq i k) refl (get-All k v m h) e
    where
      found :
          (test : Bool)
          → str_eq i k ≡ test
          → (get k m ≡ some v → P (k, v))
          → (if test then some w else get k m) ≡ some v
          → P (k, v)
      found true same rest f =
          subst (λ u. P (k, u)) (some-injective w v f)
            (subst (λ j. P (j, w)) ((eq_iff i k).0 same) q)
      found false other rest f = rest f

  pub All-map :
      (Q : String × V → Type 0) → ((x : String × V) → P x → Q x) → (m : JsMap V) → All P m → All Q m
  All-map Q f [] h = tt
  All-map Q f (x ∷ m) (p, h) = (f x p, All-map Q f m h)

pub has-set :
    {V : Type 0} (k j : String) (v : V) (m : JsMap V) → has j (set k v m) ≡ (str_eq k j || has j m)
unfolding has set
has-set k j v [] = ground arith
has-set k j v ((i, w) ∷ m) = ground (arith, has-set k j v m, eq_iff i k, eq_iff k j, eq_iff i j)

pub has-delete :
    {V : Type 0} (k j : String) (m : JsMap V) → has j (delete k m) ≡ (not (str_eq k j) && has j m)
unfolding has delete
has-delete k j [] = ground arith
has-delete k j ((i, w) ∷ m) = ground (arith, has-delete k j m, eq_iff i k, eq_iff k j, eq_iff i j)
