-- ===== src/CacheManager/Evict.antt =====
-- Which entry `evictOldest` takes out.
use cam_protocol.Base.{
  ℕ, ◌+◌, ◌≤◌, ◌≡◌, ◌≢◌, ◌⊎◌, refl, subst, String, true, false, Option, none, some, [], ◌∷◌, arith,
  ltb, str_eq, All, eq_iff, Bool-cases, inl, inr,
}
use cam_protocol.JsMap
use cam_protocol.JsMap.{JsMap, IsUnique}
use cam_protocol.CacheManager.{
  CacheEntry, CacheManager, Request, KeyData, oldest_from, is_expired, get, get_entry,
  generate_cache_key,
}

abbrev pub AllNewer : ℕ → JsMap CacheEntry → Type 0
AllNewer t = All (λ e. t ≤ e.1.created_at)

AllNewer-mono : (s t : ℕ) (m : JsMap CacheEntry) → s ≤ t → AllNewer t m → AllNewer s m
AllNewer-mono s t [] h a = tt
AllNewer-mono s t (e ∷ m) h a = (omega arith, AllNewer-mono s t m h a.1)

-- When the entry of a key was created.
abbrev pub created : String → JsMap CacheEntry → Option ℕ
created k m = elim (JsMap.get k m) [ none ↦ none | some e ↦ some e.created_at ]

created-cons :
    (i k : String) (x : CacheEntry) (m : JsMap CacheEntry) (u : ℕ)
    → JsMap.get i m ≡ none
    → created k m ≡ some u
    → created k ((i, x) ∷ m) ≡ some u
unfolding JsMap.get
created-cons i k x m u fresh e = elim (Bool-cases (str_eq i k)) [
  | inl same ↦
      let gone : JsMap.get k m ≡ none =
        subst (λ j. JsMap.get j m ≡ none) ((eq_iff i k).0 same) fresh in
      ground arith
  | inr other ↦ ground arith
]

created-head :
    (i k : String) (x : CacheEntry) (m : JsMap CacheEntry)
    → i ≡ k
    → created k ((i, x) ∷ m) ≡ some x.created_at
unfolding JsMap.get
created-head i k x m e = ground (arith, eq_iff i k)

-- The result of the loop is not newer than anything, and is the start value or an entry.
abbrev IsOldest : String → ℕ → JsMap CacheEntry → String → ℕ → Type 0
IsOldest j t m k u = (u ≤ t) × AllNewer u m × (((j ≡ k) × (t ≡ u)) ⊎ (created k m ≡ some u))

oldest_from_lem :
    (j : String) (t : ℕ) (m : JsMap CacheEntry) (k : String) (u : ℕ)
    → IsUnique m
    → oldest_from (some (j, t)) m ≡ some (k, u)
    → IsOldest j t m k u
unfolding oldest_from
oldest_from_lem j t [] k u un e = (ground arith, tt, inl (ground arith, ground arith))
oldest_from_lem j t ((i, x) ∷ m) k u un e = elim (Bool-cases (ltb x.created_at t)) [
  | inl less ↦
      let (low, all, found) = oldest_from_lem i x.created_at m k u un.1 (ground arith) in
      (
        ground arith,
        (low, all),
        inr (elim found [
          | inl (same, time) ↦ ground (arith, created-head i k x m same)
          | inr later ↦ created-cons i k x m u un.0 later
        ]),
      )
  | inr more ↦
      let (low, all, found) = oldest_from_lem j t m k u un.1 (ground arith) in
      (
        low,
        (ground arith, all),
        elim found [ inl here ↦ inl here | inr later ↦ inr (created-cons i k x m u un.0 later) ],
      )
]

-- The entry that the loop of `evictOldest` picks stands in the map, and none was created before it.
pub oldest_from-oldest :
    (m : JsMap CacheEntry) (k : String) (t : ℕ)
    → IsUnique m
    → oldest_from none m ≡ some (k, t)
    → (created k m ≡ some t) × AllNewer t m
unfolding oldest_from
oldest_from-oldest [] k t un e = cc
oldest_from-oldest ((i, x) ∷ m) k t un e =
    let (low, all, found) = oldest_from_lem i x.created_at m k t un.1 e in
    (
      elim found [
        | inl (same, time) ↦ ground (arith, created-head i k x m same)
        | inr later ↦ created-cons i k x m t un.0 later
      ],
      (low, all),
    )

oldest_from-some : (best : String × ℕ) (m : JsMap CacheEntry) → oldest_from (some best) m ≢ none
unfolding oldest_from
oldest_from-some (j, t) [] e = cc
oldest_from-some (j, t) ((i, x) ∷ m) e =
    ground (arith, oldest_from-some (i, x.created_at) m, oldest_from-some (j, t) m)

-- It finds one unless the map is empty.
pub oldest_from-none : (m : JsMap CacheEntry) → oldest_from none m ≡ none → m ≡ []
unfolding oldest_from
oldest_from-none [] e = refl
oldest_from-none ((i, x) ∷ m) e = absurd (oldest_from-some _ m e)

oldest_from-set :
    (best : Option (String × ℕ)) (k : String) (old new : CacheEntry) (m : JsMap CacheEntry)
    → JsMap.get k m ≡ some old
    → new.created_at ≡ old.created_at
    → oldest_from best (JsMap.set k new m) ≡ oldest_from best m
unfolding oldest_from JsMap.get JsMap.set
oldest_from-set best k old new [] e h = cc
oldest_from-set none k old new ((i, x) ∷ m) e h = elim (Bool-cases (str_eq i k)) [
  | inl here ↦ ground (arith, (eq_iff i k).0 here)
  | inr other ↦ ground (arith, oldest_from-set (some (i, x.created_at)) k old new m)
]
oldest_from-set (some (j, t)) k old new ((i, x) ∷ m) e h = elim (Bool-cases (str_eq i k)) [
  | inl here ↦ ground (arith, (eq_iff i k).0 here)
  | inr other ↦ ground (
    arith,
    oldest_from-set (some (i, x.created_at)) k old new m,
    oldest_from-set (some (j, t)) k old new m,
  )
]

module _ (digest : KeyData → String) where
  -- A read that hits leaves the next victim of an eviction as it was: the age of an entry decides,
  -- never its last use.
  pub oldest_from-get :
      (s : CacheManager) (r : Request) (p : Option String) (now : ℕ) (e : CacheEntry)
      → s.enabled ≡ true
      → JsMap.get (generate_cache_key digest r p) s.cache ≡ some e
      → is_expired now e ≡ false
      → oldest_from none (get digest s r p now).0.cache ≡ oldest_from none s.cache
  unfolding get get_entry
  oldest_from-get s r p now e on found fresh =
      rw (on, found, fresh, get_entry)
        (oldest_from-set none (generate_cache_key digest r p) e
          (record e { hit_count = e.hit_count + 1 }) s.cache found refl)
