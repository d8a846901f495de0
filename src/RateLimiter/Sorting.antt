-- ===== src/RateLimiter/Sorting.antt =====
-- The sort of the numbers: what it keeps, and how many entries stand before and behind one.
use cam_protocol.Base.{
  ℕ, zero, suc, ◌+◌, ◌≤◌, ◌<◌, ◌≡◌, refl, Bool, true, false, some, List, [], ◌∷◌, arith, length,
  filter, length-filter-le, get_elem?, All,
}
use cam_protocol.RateLimiter.Window.{insert_sorted, sort}

abbrev pub IsSorted : List ℕ → Type 0
IsSorted [] = Unit
IsSorted (x ∷ xs) = All (λ y. x ≤ y) xs × IsSorted xs

All-mono : (x y : ℕ) (xs : List ℕ) → x ≤ y → All (λ z. y ≤ z) xs → All (λ z. x ≤ z) xs
All-mono x y [] h a = tt
All-mono x y (z ∷ xs) h a = (omega arith, All-mono x y xs h a.1)

All-insert_sorted :
    (x y : ℕ) (ys : List ℕ) → x ≤ y → All (λ z. x ≤ z) ys → All (λ z. x ≤ z) (insert_sorted y ys)
unfolding insert_sorted
All-insert_sorted x y [] h a = (h, tt)
All-insert_sorted x y (z ∷ ys) h a = ground (arith, All-insert_sorted x y ys h a.1)

insert_sorted-IsSorted : (x : ℕ) (ys : List ℕ) → IsSorted ys → IsSorted (insert_sorted x ys)
unfolding insert_sorted
insert_sorted-IsSorted x [] s = (tt, tt)
insert_sorted-IsSorted x (y ∷ ys) s =
    ground (arith, All-mono x y ys, All-insert_sorted y x ys, insert_sorted-IsSorted x ys s.1)

pub sort-IsSorted : (xs : List ℕ) → IsSorted (sort xs)
unfolding sort
sort-IsSorted [] = tt
sort-IsSorted (x ∷ xs) = insert_sorted-IsSorted x (sort xs) (sort-IsSorted xs)

length-filter-insert_sorted :
    (p : ℕ → Bool) (x : ℕ) (ys : List ℕ)
    → length (filter p (insert_sorted x ys)) ≡ length (filter p (x ∷ ys))
unfolding insert_sorted
length-filter-insert_sorted p x [] = refl
length-filter-insert_sorted p x (y ∷ ys) = ground (arith, length-filter-insert_sorted p x ys)

-- Sorting changes no count.
pub length-filter-sort :
    (p : ℕ → Bool) (xs : List ℕ) → length (filter p (sort xs)) ≡ length (filter p xs)
unfolding sort
length-filter-sort p [] = refl
length-filter-sort p (x ∷ xs) =
    ground (arith, length-filter-insert_sorted p x (sort xs), length-filter-sort p xs)

length-insert_sorted : (x : ℕ) (ys : List ℕ) → length (insert_sorted x ys) ≡ suc (length ys)
unfolding insert_sorted
length-insert_sorted x [] = refl
length-insert_sorted x (y ∷ ys) = ground (arith, length-insert_sorted x ys)

pub length-sort : (xs : List ℕ) → length (sort xs) ≡ length xs
unfolding sort
length-sort [] = refl
length-sort (x ∷ xs) = omega (arith, length-insert_sorted x (sort xs), length-sort xs)

le-get_elem? :
    (x y : ℕ) (zs : List ℕ) (j : ℕ) → All (λ z. y ≤ z) zs → get_elem? zs j ≡ some x → y ≤ x
le-get_elem? x y [] j a h = cc
le-get_elem? x y (z ∷ zs) zero a h = ground arith
le-get_elem? x y (z ∷ zs) (suc j) a h = le-get_elem? x y zs j a.1 h

-- In a sorted list, a test that fails up to the entry at `k` passes for what stands behind it only.
pub filter_behind :
    (p : ℕ → Bool) (x : ℕ)
    → ((t : ℕ) → t ≤ x → p t ≡ false)
    → (k : ℕ) (xs : List ℕ) → IsSorted xs
    → get_elem? xs k ≡ some x
    → length (filter p xs) + suc k ≤ length xs
filter_behind p x low k [] s e = cc
filter_behind p x low zero (y ∷ ys) s e = ground (arith, low y, length-filter-le p ys)
filter_behind p x low (suc k) (y ∷ ys) s e =
    ground (arith, low y, le-get_elem? x y ys k s.0, filter_behind p x low k ys s.1 e)

filter-All :
    (p : ℕ → Bool) (x : ℕ)
    → ((t : ℕ) → x ≤ t → p t ≡ true)
    → (xs : List ℕ) → All (λ z. x ≤ z) xs
    → length (filter p xs) ≡ length xs
filter-All p x high [] a = refl
filter-All p x high (y ∷ ys) a = ground (arith, high y, filter-All p x high ys a.1)

-- A test that passes from the entry at `k` on passes for it and all that stands behind it.
pub filter_from :
    (p : ℕ → Bool) (x : ℕ)
    → ((t : ℕ) → x ≤ t → p t ≡ true)
    → (k : ℕ) (xs : List ℕ) → IsSorted xs
    → get_elem? xs k ≡ some x
    → length xs ≤ length (filter p xs) + k
filter_from p x high k [] s e = cc
filter_from p x high zero (y ∷ ys) s e =
    ground (arith, high y, filter-All p y (λ t h. high t (ground arith)) ys s.0)
filter_from p x high (suc k) (y ∷ ys) s e = ground (arith, filter_from p x high k ys s.1 e)

pub get_elem?-some : (k : ℕ) (xs : List ℕ) → k < length xs → (x : ℕ) × (get_elem? xs k ≡ some x)
get_elem?-some k [] h = absurd (omega arith)
get_elem?-some zero (x ∷ xs) h = (x, refl)
get_elem?-some (suc k) (x ∷ xs) h = get_elem?-some k xs (omega arith)
