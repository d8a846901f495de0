-- ===== src/Base/Sort.antt =====
-- `Array.sort` with a comparison, which is stable, and what its first element is. `before a b` says
-- that `a`, which stands earlier, may stay before `b`.
use Prim.Native.Nat.{ℕ, suc}
use mathlib.Core.Path.{◌≡◌, refl, subst}
use mathlib.Core.Bool.{Bool, true, false, not}
use mathlib.Core.List.{List, [], ◌∷◌}
use mathlib.Core.Option.{some}
use mathlib.Core.Logic.{inl, inr}
use native.Mathlib.Omega.{arith}
use cam_protocol.Base.Tests.{if◌then◌else◌, Bool-cases}
use cam_protocol.Base.Lists.{All, any, first_of, is_nil, filter, get_elem?}

pub some-injective {ℓ} : {A : Type ℓ} (x y : A) → some x ≡ some y → x ≡ y
some-injective x y e = cc

module _ {A : Type 0} where
  -- The element stands in the list.
  abbrev pub IsListed : List A → A → Type 0
  IsListed xs x = (i : ℕ) × (get_elem? xs i ≡ some x)

  IsListed-cons : (y : A) (ys xs : List A) → All (IsListed ys) xs → All (IsListed (y ∷ ys)) xs
  IsListed-cons y ys [] h = tt
  IsListed-cons y ys (x ∷ xs) ((i, e), h) = ((suc i, e), IsListed-cons y ys xs h)

  pub All-IsListed : (xs : List A) → All (IsListed xs) xs
  All-IsListed [] = tt
  All-IsListed (x ∷ xs) = ((0, refl), IsListed-cons x xs xs (All-IsListed xs))

module _ {A : Type 0} (P : A → Type 0) where
  pub first_of-All : (xs : List A) (c : A) → All P xs → first_of xs ≡ some c → P c
  first_of-All [] c ps e = absurd (cc)
  first_of-All (x ∷ xs) c (p, ps) e = subst P (some-injective x c e) p

  pub filter-All :
      (test : A → Bool) (xs : List A) → All P xs → All (λ x. P x × (test x ≡ true)) (filter test xs)
  filter-All test [] ps = tt
  filter-All test (x ∷ xs) (p, ps) = elim (Bool-cases (test x)) [
    | inl e ↦ rw e ((p, e), filter-All test xs ps)
    | inr e ↦ rw e (filter-All test xs ps)
  ]

pub filter-holds :
    {A : Type 0} (test : A → Bool) (xs : List A) → All (λ x. test x ≡ true) (filter test xs)
filter-holds test [] = tt
filter-holds test (x ∷ xs) = elim (Bool-cases (test x)) [
  | inl e ↦ rw e (e, filter-holds test xs)
  | inr e ↦ rw e (filter-holds test xs)
]

pub is_nil-first_of :
    {A : Type 0} (xs : List A) → is_nil xs ≡ false → (c : A) × (first_of xs ≡ some c)
is_nil-first_of [] e = absurd (cc)
is_nil-first_of (x ∷ xs) e = (x, refl)

module _ {A : Type 0} (before : A → A → Bool) where
  unfoldable pub insert_by : A → List A → List A
  insert_by x [] = x ∷ []
  insert_by x (y ∷ ys) = if before x y then x ∷ y ∷ ys else y ∷ insert_by x ys

  unfoldable pub sort_by : List A → List A
  unfolding insert_by
  sort_by [] = []
  sort_by (x ∷ xs) = insert_by x (sort_by xs)

  module _ (P : A → Type 0) where
    insert_by-All : (x : A) (xs : List A) → P x → All P xs → All P (insert_by x xs)
    unfolding insert_by
    insert_by-All x [] p ps = (p, tt)
    insert_by-All x (y ∷ ys) p (q, qs) = elim (Bool-cases (before x y)) [
      | inl e ↦ rw (e, insert_by) (p, (q, qs))
      | inr e ↦ rw (e, insert_by) (q, insert_by-All x ys p qs)
    ]

    pub sort_by-All : (xs : List A) → All P xs → All P (sort_by xs)
    unfolding sort_by
    sort_by-All [] ps = tt
    sort_by-All (x ∷ xs) (p, ps) = insert_by-All x (sort_by xs) p (sort_by-All xs ps)

    All-insert_by : (x : A) (xs : List A) → All P (insert_by x xs) → P x × All P xs
    unfolding insert_by
    All-insert_by x [] ps = ps
    All-insert_by x (y ∷ ys) ps = from_branch (before x y) (All-insert_by x ys) ps
      where
        from_branch :
            (test : Bool)
            → (All P (insert_by x ys) → P x × All P ys)
            → All P (if test then x ∷ y ∷ ys else y ∷ insert_by x ys)
            → P x × All P (y ∷ ys)
        from_branch true back qs = qs
        from_branch false back (q, qs) = let (p, rs) = back qs in (p, (q, rs))

    pub All-sort_by : (xs : List A) → All P (sort_by xs) → All P xs
    unfolding sort_by
    All-sort_by [] ps = tt
    All-sort_by (x ∷ xs) ps =
        let (p, qs) = All-insert_by x (sort_by xs) ps in (p, All-sort_by xs qs)

  any-insert_by : (p : A → Bool) (x : A) (xs : List A) → any p (insert_by x xs) ≡ any p (x ∷ xs)
  unfolding insert_by
  any-insert_by p x [] = refl
  any-insert_by p x (y ∷ ys) = ground (arith, any-insert_by p x ys)

  -- Sorting changes nothing that some element has.
  pub any-sort_by : (p : A → Bool) (xs : List A) → any p (sort_by xs) ≡ any p xs
  unfolding sort_by
  any-sort_by p [] = refl
  any-sort_by p (x ∷ xs) = ground (arith, any-insert_by p x (sort_by xs), any-sort_by p xs)

  is_nil-insert_by : (x : A) (xs : List A) → is_nil (insert_by x xs) ≡ false
  unfolding insert_by
  is_nil-insert_by x [] = refl
  is_nil-insert_by x (y ∷ ys) = ground arith

  pub is_nil-sort_by : (xs : List A) → is_nil (sort_by xs) ≡ is_nil xs
  unfolding sort_by
  is_nil-sort_by [] = refl
  is_nil-sort_by (x ∷ xs) = is_nil-insert_by x (sort_by xs)

  -- `before` is a total preorder.
  module _ (total : (x y : A) → before x y ≡ false → before y x ≡ true)
      (trans : (x y z : A) → before x y ≡ true → before y z ≡ true → before x z ≡ true) where
    abbrev pub IsFirst : A → List A → Type 0
    IsFirst x = All (λ y. before x y ≡ true)

    abbrev pub IsSortedBy : List A → Type 0
    IsSortedBy [] = Unit
    IsSortedBy (x ∷ xs) = IsFirst x xs × IsSortedBy xs

    IsFirst-trans : (x y : A) (xs : List A) → before x y ≡ true → IsFirst y xs → IsFirst x xs
    IsFirst-trans x y [] le ps = tt
    IsFirst-trans x y (z ∷ zs) le (p, ps) = (trans x y z le p, IsFirst-trans x y zs le ps)

    insert_by-IsSortedBy : (x : A) (xs : List A) → IsSortedBy xs → IsSortedBy (insert_by x xs)
    unfolding insert_by
    insert_by-IsSortedBy x [] s = (tt, tt)
    insert_by-IsSortedBy x (y ∷ ys) (p, s) = elim (Bool-cases (before x y)) [
      | inl e ↦ rw (e, insert_by) ((e, IsFirst-trans x y ys e p), (p, s))
      | inr e ↦
          rw (e, insert_by)
            (
              insert_by-All (λ z. before y z ≡ true) x ys (total x y e) p,
              insert_by-IsSortedBy x ys s,
            )
    ]

    pub sort_by-IsSortedBy : (xs : List A) → IsSortedBy (sort_by xs)
    unfolding sort_by
    sort_by-IsSortedBy [] = tt
    sort_by-IsSortedBy (x ∷ xs) = insert_by-IsSortedBy x (sort_by xs) (sort_by-IsSortedBy xs)

    before_self : (x : A) → before x x ≡ true
    before_self x = elim (Bool-cases (before x x)) [ inl e ↦ e | inr e ↦ total x x e ]

    first_of-IsFirst : (xs : List A) (c : A) → first_of xs ≡ some c → IsSortedBy xs → IsFirst c xs
    first_of-IsFirst [] c e s = tt
    first_of-IsFirst (x ∷ xs) c e (ps, s) =
        subst (λ y. IsFirst y (x ∷ xs)) (some-injective x c e) (before_self x, ps)

    -- The first of the sorted list may stand before every element.
    pub sort_by-IsFirst : (xs : List A) (c : A) → first_of (sort_by xs) ≡ some c → IsFirst c xs
    sort_by-IsFirst xs c e =
        All-sort_by (λ y. before c y ≡ true) xs
          (first_of-IsFirst (sort_by xs) c e (sort_by-IsSortedBy xs))

pub is_nil-filter :
    {A : Type 0} (test : A → Bool) (xs : List A) → is_nil (filter test xs) ≡ not (any test xs)
is_nil-filter test [] = refl
is_nil-filter test (x ∷ xs) = ground (arith, is_nil-filter test xs)
