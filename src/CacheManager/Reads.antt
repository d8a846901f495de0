-- ===== src/CacheManager/Reads.antt =====
-- What can be read from the cache after a call.
use cam_protocol.Base.{
  ℕ, ◌+◌, ◌≤◌, ◌≡◌, ◌≢◌, ◌⊎◌, refl, ap, ◌∙◌, String, true, false, Option, none, some, [], ◌∷◌,
  arith, ltb, leb, str_eq, Bool, subst, sym, if◌then◌else◌, eq_iff, Bool-cases, Option-cases, inl,
  inr,
}
use cam_protocol.JsMap
use cam_protocol.JsMap.{JsMap, IsUnique}
use cam_protocol.CacheManager.{
  CacheEntry, CacheManager, Request, Response, KeyData, oldest_from, delete_oldest, evict_oldest,
  is_expired, is_failure, cached_response, get, get_entry, generate_cache_key, store, set,
  clear_expired, count_expired, given_or, flag, number, text, spread, metadata_field,
}

-- The entry that `set` writes.
abbrev pub written : CacheManager → Response → Option ℕ → ℕ → CacheEntry
written s a ttl now = record {
  response = a;
  created_at = now;
  expires_at = now + given_or ttl s.default_ttl_ms;
  hit_count = 0;
}

-- What a read gives, by whether the time to live is over: nothing, or a copy of the stored response
-- at no cost and with no latency, marked as cached and with the cost that it had.
abbrev pub Gives : Response → Bool → Option Response → Type 0
Gives a true x = x ≡ none
Gives a false x =
    (b : Response) × (x ≡ some b)
    × (b.content ≡ a.content)
    × (b.provider ≡ a.provider)
    × (b.model ≡ a.model)
    × (b.usage ≡ a.usage)
    × (b.cost ≡ 0)
    × (b.latency ≡ 0)
    × (metadata_field b.metadata "cached" ≡ some (flag true))
    × (metadata_field b.metadata "originalCost" ≡ some (number a.cost))

module _ (digest : KeyData → String) where
  get-store :
      (s : CacheManager) (k j : String) (a : Response) (now : ℕ) (ttl : Option ℕ)
      → JsMap.get j (store digest s k a now ttl).cache ≡ (
          if str_eq k j
          then some (written s a ttl now)
          else JsMap.get j (
              if leb s.max_entries (JsMap.size s.cache)
              then delete_oldest s.cache (oldest_from none s.cache)
              else s.cache))
  unfolding store
  get-store s k j a now ttl =
      let full = leb s.max_entries (JsMap.size s.cache) in
      ground
        (arith, JsMap.get-set k j (written s a ttl now) (if full then evict_oldest s else s).cache)

  module _ (s : CacheManager) (r : Request) (a : Response) (ttl : Option ℕ) (p : Option String)
      (now : ℕ) (on : s.enabled ≡ true) (good : is_failure a ≡ false) where
    abbrev key : String
    key = generate_cache_key digest r p

    get-set : JsMap.get key (set digest s r a ttl p now).cache ≡ some (written s a ttl now)
    unfolding set
    get-set = ground (arith, get-store s key key a now ttl, eq_iff key key)

    set-enabled : (set digest s r a ttl p now).enabled ≡ true
    unfolding set store
    set-enabled = ground arith

    abbrev read_back : CacheEntry
    read_back = record (written s a ttl now) { hit_count = 1 }

    pub get-set_self :
        (later : ℕ)
        → let q = get digest (set digest s r a ttl p now) r p later in
          let over = ltb (now + given_or ttl s.default_ttl_ms) later in
          (q.1 ≡ (if over then none else some (cached_response key read_back)))
          × (JsMap.get key q.0.cache ≡ (if over then none else some read_back))
    unfolding get get_entry
    get-set_self later =
        let t = set digest s r a ttl p now in
        ground (
          arith,
          get-set,
          set-enabled,
          JsMap.get-delete key key t.cache,
          JsMap.get-set key key read_back t.cache,
          eq_iff key key,
        )

    given :
        (over : Bool) → Gives a over (if over then none else some (cached_response key read_back))
    unfolding cached_response
    given true = refl
    given false =
        let m = JsMap.set "cached" (flag true) (spread a.metadata) in
        let m1 = JsMap.set "cacheKey" (text key) m in
        let m2 = JsMap.set "originalCost" (number a.cost) m1 in
        let cost =
          JsMap.get-set "cacheHitCount" "originalCost" (number 1) m2
          ∙ JsMap.get-set "originalCost" "originalCost" (number a.cost) m1 in
        let cached =
          JsMap.get-set "cacheHitCount" "cached" (number 1) m2
          ∙ JsMap.get-set "originalCost" "cached" (number a.cost) m1
          ∙ JsMap.get-set "cacheKey" "cached" (text key) m
          ∙ JsMap.get-set "cached" "cached" (flag true) (spread a.metadata) in
        (cached_response key read_back, refl, refl, refl, refl, refl, refl, refl, cached, cost)

    -- A response that was stored is returned for the same request until its time to live is over:
    -- with the same content, provider, model and usage, a cost and a latency of 0, marked as cached and
    -- with its own cost noted beside; after that the request misses. The entry stays as long, with one
    -- hit counted, and is then gone. The cache is enabled, and the response is no error and no
    -- fallback.
    pub get-set_copy :
        (later : ℕ)
        → let q = get digest (set digest s r a ttl p now) r p later in
          let over = ltb (now + given_or ttl s.default_ttl_ms) later in
          (Gives a over q.1) × (JsMap.get key q.0.cache ≡ (if over then none else some read_back))
    get-set_copy later =
        let over = ltb (now + given_or ttl s.default_ttl_ms) later in
        let (e, entry) = get-set_self later in (subst (Gives a over) (sym e) (given over), entry)

    -- A store keeps what stands under any other key, but for the one victim of the eviction that it
    -- makes when the cache is full.
    pub get-set_ne :
        (j : String)
        → key ≢ j
        → ((t : ℕ) → oldest_from none s.cache ≢ some (j, t))
        → JsMap.get j (set digest s r a ttl p now).cache ≡ JsMap.get j s.cache
    unfolding set
    get-set_ne j other kept = elim (Option-cases (oldest_from none s.cache)) [
      | inl e ↦ ground (arith, get-store s key j a now ttl, eq_iff key j)
      | inr ((k, t), e) ↦
          let spared : k ≢ j = λ same. kept t (e ∙ ap (λ i. some (i, t)) same) in
          ground (
            arith,
            get-store s key j a now ttl,
            eq_iff key j,
            eq_iff k j,
            JsMap.get-delete k j s.cache,
          )
    ]

    -- The eviction does not look whether the key is new: where the cache is full, a store under a key
    -- that is already there, which needs no room, still drops the oldest response, when that is another
    -- one than the response under the key, and its key is not empty.
    pub set_evicts_needlessly :
        (j : String) (t : ℕ)
        → JsMap.has key s.cache ≡ true
        → s.max_entries ≤ JsMap.size s.cache
        → oldest_from none s.cache ≡ some (j, t)
        → str_eq j "" ≡ false
        → key ≢ j
        → JsMap.get j (set digest s r a ttl p now).cache ≡ none
    unfolding set
    set_evicts_needlessly j t there full oldest named other =
        ground (
          arith,
          get-store s key j a now ttl,
          eq_iff key j,
          eq_iff j j,
          JsMap.get-delete j j s.cache,
        )

  -- A read returns a response only from an entry under the key of the request that is not expired,
  -- and then counts a hit and saves its cost; any other read of an enabled cache counts a miss.
  pub get_counts :
      (s : CacheManager) (r : Request) (p : Option String) (now : ℕ)
      → s.enabled ≡ true
      → let q = get digest s r p now in
        let k = generate_cache_key digest r p in
        ((q.1 ≡ none)
          × (q.0.misses ≡ s.misses + 1)
          × (q.0.hits ≡ s.hits)
          × (q.0.total_cost_saved ≡ s.total_cost_saved))
        ⊎ ((e : CacheEntry) × (JsMap.get k s.cache ≡ some e)
            × (now ≤ e.expires_at)
            × (q.1 ≡ some (cached_response k (record e { hit_count = e.hit_count + 1 })))
            × (q.0.hits ≡ s.hits + 1)
            × (q.0.misses ≡ s.misses)
            × (q.0.total_cost_saved ≡ s.total_cost_saved + e.response.cost))
  unfolding get get_entry
  get_counts s r p now on =
      let k = generate_cache_key digest r p in
      elim (Option-cases (JsMap.get k s.cache)) [
        | inl miss ↦ inl (ground arith, ground arith, ground arith, ground arith)
        | inr (e, found) ↦ elim (Bool-cases (is_expired now e)) [
          | inl old ↦ inl (ground arith, ground arith, ground arith, ground arith)
          | inr fresh ↦
              inr (e, found, ground arith, ground arith, ground arith, ground arith, ground arith)
        ]
      ]

size-count_expired :
    (now : ℕ) (m : JsMap CacheEntry)
    → count_expired now m + JsMap.size (JsMap.reject (is_expired now) m) ≡ JsMap.size m
unfolding count_expired JsMap.reject
size-count_expired now [] = omega arith
size-count_expired now ((k, e) ∷ m) = ground (arith, size-count_expired now m)

-- `clearExpired` takes out exactly the entries that are expired, and returns how many these are. Each
-- key stands once.
pub clear_expired_lem :
    (s : CacheManager) (now : ℕ)
    → IsUnique s.cache
    → let q = clear_expired s now in
      (q.1 + JsMap.size q.0.cache ≡ JsMap.size s.cache)
      × ((k : String)
          → JsMap.get k q.0.cache ≡ elim (JsMap.get k s.cache) [
            | none ↦ none
            | some e ↦ if is_expired now e then none else some e
          ])
unfolding clear_expired
clear_expired_lem s now u =
    (size-count_expired now s.cache, λ k. JsMap.get-reject (is_expired now) k s.cache u)
