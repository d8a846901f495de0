-- ===== src/CacheManager/Valid.antt =====
-- The invariant of the cache, and that every method keeps it.
use Prim.Native.String.{◌++◌ as str_append, count}
use text.Mathlib.TextLemmas.{length-append}
use cam_protocol.Base.{
  ℕ, suc, ◌≤◌, ◌<◌, ◌≡◌, ◌⊎◌, refl, ap, ◌∙◌, subst, String, Bool, true, false, Option, none, some,
  List, [], ◌∷◌, arith, leb, str_eq, eq_iff, Bool-cases, Option-cases, inl, inr, if_both,
}
use cam_protocol.JsMap
use cam_protocol.JsMap.{JsMap, IsUnique}
use cam_protocol.CacheManager.{
  CacheEntry, CacheManager, CacheManagerOptions, Request, Response, KeyData, init, oldest_from,
  delete_oldest, is_expired, is_failure, get, get_entry, generate_cache_key, store, set, invalidate,
  clear_expired, clear, set_enabled, given_or,
}
use cam_protocol.CacheManager.Evict.{created, oldest_from-oldest, oldest_from-none}

-- Each key once, none empty, and never more entries than the limit, which is not 0.
pub record IsValidMap (limit : ℕ) (m : JsMap CacheEntry) : Type 0 where
  pub positive : 0 < limit
  pub unique : IsUnique m
  pub named : JsMap.get "" m ≡ none
  pub bounded : JsMap.size m ≤ limit

abbrev pub IsValid : CacheManager → Type 0
IsValid s = IsValidMap s.max_entries s.cache

pub has-created :
    (k : String) (t : ℕ) (m : JsMap CacheEntry) → created k m ≡ some t → JsMap.has k m ≡ true
has-created k t m e = elim (Bool-cases (JsMap.has k m)) [
  | inl h ↦ h
  | inr h ↦ ground (arith, JsMap.has-get k m h)
]

created-not_empty :
    (k : String) (t : ℕ) (m : JsMap CacheEntry)
    → created k m ≡ some t
    → JsMap.get "" m ≡ none
    → str_eq k "" ≡ false
created-not_empty k t m at named = elim (Bool-cases (str_eq k "")) [
  | inl same ↦
      let moved : created "" m ≡ some t =
        subst (λ j. created j m ≡ some t) ((eq_iff k "").0 same) at in
      absurd (ground arith)
  | inr other ↦ other
]

-- An eviction makes room, if there is anything to evict.
pub delete_oldest-smaller :
    (m : JsMap CacheEntry)
    → IsUnique m
    → JsMap.get "" m ≡ none
    → (m ≡ []) ⊎ (suc (JsMap.size (delete_oldest m (oldest_from none m))) ≤ JsMap.size m)
delete_oldest-smaller m un named = elim (Option-cases (oldest_from none m)) [
  | inl e ↦ inl (oldest_from-none m e)
  | inr ((k, t), e) ↦
      let (at, _) = oldest_from-oldest m k t un e in
      let there : JsMap.has k m ≡ true = has-created k t m at in
      let full : str_eq k "" ≡ false = created-not_empty k t m at named in
      inr (rw (e, full) (JsMap.size-delete-lt k m there))
]

delete_oldest-get_empty :
    (m : JsMap CacheEntry) (o : Option (String × ℕ))
    → JsMap.get "" m ≡ none
    → JsMap.get "" (delete_oldest m o) ≡ none
delete_oldest-get_empty m none h = h
delete_oldest-get_empty m (some (k, t)) h = ground (arith, JsMap.get-delete k "" m)

delete_oldest-IsUnique :
    (m : JsMap CacheEntry) (o : Option (String × ℕ)) → IsUnique m → IsUnique (delete_oldest m o)
delete_oldest-IsUnique m none h = h
delete_oldest-IsUnique m (some (k, t)) h = ground (arith, JsMap.delete-IsUnique k m h)

pub init-IsValid : (o : CacheManagerOptions) → 0 < given_or o.max_entries 1000 → IsValid (init o)
unfolding init JsMap.get
init-IsValid o h = record { positive = h; unique = tt; named = refl; bounded = omega arith }

delete-IsValidMap :
    (k : String) (n : ℕ) (m : JsMap CacheEntry) → IsValidMap n m → IsValidMap n (JsMap.delete k m)
delete-IsValidMap k n m v = record {
  positive = v.positive;
  unique = JsMap.delete-IsUnique k m v.unique;
  named = ground (arith, JsMap.get-delete k "" m);
  bounded = omega (arith, JsMap.size-delete-le k m);
}

pub has-some :
    (k : String) (e : CacheEntry) (m : JsMap CacheEntry)
    → JsMap.get k m ≡ some e
    → JsMap.has k m ≡ true
has-some k e m h = elim (Bool-cases (JsMap.has k m)) [
  | inl y ↦ y
  | inr n ↦ ground (arith, JsMap.has-get k m n)
]

-- A write where the key is there, or where there is room.
set-IsValidMap :
    (k : String) (e : CacheEntry) (n : ℕ) (m : JsMap CacheEntry)
    → str_eq k "" ≡ false
    → (JsMap.has k m ≡ true) ⊎ (JsMap.size m < n)
    → IsValidMap n m
    → IsValidMap n (JsMap.set k e m)
set-IsValidMap k e n m full room v = record {
  positive = v.positive;
  unique = JsMap.set-IsUnique k e m v.unique;
  named = ground (arith, JsMap.get-set k "" e m);
  bounded = ground (arith, JsMap.size-set-has k e m, JsMap.size-set-le k e m);
}

evicted-IsValidMap :
    (n : ℕ) (m : JsMap CacheEntry)
    → IsValidMap n m
    → IsValidMap n (delete_oldest m (oldest_from none m))
      × (JsMap.size (delete_oldest m (oldest_from none m)) < n)
unfolding oldest_from
evicted-IsValidMap n m v =
    let fewer = delete_oldest-smaller m v.unique v.named in
    let room : JsMap.size (delete_oldest m (oldest_from none m)) < n = elim fewer [
      | inl e ↦ rw e (v.positive)
      | inr h ↦ omega (arith, v.bounded)
    ] in
    (
      record {
        positive = v.positive;
        unique = delete_oldest-IsUnique m (oldest_from none m) v.unique;
        named = delete_oldest-get_empty m (oldest_from none m) v.named;
        bounded = omega arith;
      },
      room,
    )

key_not_empty : (d : String) → str_eq (str_append "cam:" d) "" ≡ false
key_not_empty d = elim (Bool-cases (str_eq (str_append "cam:" d) "")) [
  | inl e ↦
      absurd
        (omega (arith, length-append "cam:" d, ap count ((eq_iff (str_append "cam:" d) "").0 e)))
  | inr e ↦ e
]

get_entry-IsValid :
    (s : CacheManager) (k : String) (now : ℕ)
    → str_eq k "" ≡ false
    → IsValid s
    → IsValid (get_entry s k (JsMap.get k s.cache) now).0
unfolding get_entry
get_entry-IsValid s k now full v = elim (Option-cases (JsMap.get k s.cache)) [
  | inl miss ↦ rw (miss, get_entry) v
  | inr (e, hit) ↦
      rw (hit, get_entry)
        (if_both (λ (q : CacheManager × Option Response). IsValid q.0) (is_expired now e)
          (λ _. delete-IsValidMap k s.max_entries s.cache v)
          (λ _. set-IsValidMap k _ s.max_entries s.cache full (inl (has-some k e s.cache hit)) v))
]

store-IsValid :
    (digest : KeyData → String) (s : CacheManager) (k : String) (a : Response) (now : ℕ)
    (ttl : Option ℕ)
    → str_eq k "" ≡ false
    → IsValid s
    → IsValid (store digest s k a now ttl)
unfolding store
store-IsValid digest s k a now ttl full v =
    elim (Bool-cases (leb s.max_entries (JsMap.size s.cache))) [
      | inl at_limit ↦
          let (w, room) = evicted-IsValidMap s.max_entries s.cache v in
          simp at_limit (set-IsValidMap k _ s.max_entries _ full (inr room) w)
      | inr below ↦
          simp below (set-IsValidMap k _ s.max_entries s.cache full (inr (ground arith)) v)
    ]

-- The methods that change the state, with their arguments and the clock's reading.
pub data Call : Type 0 where
  gets : Request → Option String → ℕ → Call
  sets : Request → Response → Option ℕ → Option String → ℕ → Call
  invalidates : Request → Option String → Call
  clears_expired : ℕ → Call
  clears : Call
  sets_enabled : Bool → Call

module _ (digest : KeyData → String) where
  unfoldable pub step : CacheManager → Call → CacheManager
  step s (gets r p now) = (get digest s r p now).0
  step s (sets r a ttl p now) = set digest s r a ttl p now
  step s (invalidates r p) = (invalidate digest s r p).0
  step s (clears_expired now) = (clear_expired s now).0
  step s clears = clear s
  step s (sets_enabled b) = set_enabled s b

  unfoldable pub run : CacheManager → List Call → CacheManager
  run s [] = s
  run s (c ∷ cs) = run (step s c) cs

  key_named : (r : Request) (p : Option String) → str_eq (generate_cache_key digest r p) "" ≡ false
  unfolding generate_cache_key
  key_named r p = key_not_empty _

  -- Every method keeps the invariant.
  step-IsValid : (s : CacheManager) (c : Call) → IsValid s → IsValid (step s c)
  unfolding step get set invalidate clear_expired clear set_enabled JsMap.get
  step-IsValid s (gets r p now) v =
      if_both (λ (q : CacheManager × Option Response). IsValid q.0) s.enabled
        (λ _. get_entry-IsValid s _ now (key_named r p) v) (λ _. v)
  step-IsValid s (sets r a ttl p now) v =
      if_both IsValid s.enabled
        (λ _.
          if_both IsValid (is_failure a) (λ _. v)
            (λ _. store-IsValid digest s _ a now ttl (key_named r p) v))
        (λ _. v)
  step-IsValid s (invalidates r p) v = delete-IsValidMap _ s.max_entries s.cache v
  step-IsValid s (clears_expired now) v = record {
    positive = v.positive;
    unique = JsMap.reject-IsUnique (is_expired now) s.cache v.unique;
    named = JsMap.get-reject-none (is_expired now) "" s.cache v.named;
    bounded = omega (arith, JsMap.size-reject-le (is_expired now) s.cache);
  }
  step-IsValid s clears v = record {
    positive = v.positive;
    unique = tt;
    named = refl;
    bounded = omega arith;
  }
  step-IsValid s (sets_enabled b) v = v

  run-IsValid : (s : CacheManager) (cs : List Call) → IsValid s → IsValid (run s cs)
  unfolding run
  run-IsValid s [] v = v
  run-IsValid s (c ∷ cs) v = run-IsValid (step s c) cs (step-IsValid s c v)

  step-max_entries : (s : CacheManager) (c : Call) → (step s c).max_entries ≡ s.max_entries
  unfolding step get set invalidate clear_expired clear set_enabled get_entry store
  step-max_entries s (gets r p now) = ground arith
  step-max_entries s (sets r a ttl p now) = ground arith
  step-max_entries s other = refl

  run-max_entries : (s : CacheManager) (cs : List Call) → (run s cs).max_entries ≡ s.max_entries
  unfolding run
  run-max_entries s [] = refl
  run-max_entries s (c ∷ cs) = run-max_entries (step s c) cs ∙ step-max_entries s c

  -- A cache whose limit is not 0 holds, after any calls of its methods, at most that many responses,
  -- and each key once.
  pub run-init-IsValid :
      (o : CacheManagerOptions) (cs : List Call)
      → 0 < given_or o.max_entries 1000
      → IsUnique (run (init o) cs).cache
        × (JsMap.size (run (init o) cs).cache ≤ given_or o.max_entries 1000)
  unfolding init
  run-init-IsValid o cs h =
      let v = run-IsValid (init o) cs (init-IsValid o h) in
      (v.unique, omega (arith, v.bounded, run-max_entries (init o) cs))
