-- ===== src/CacheManager.antt =====
-- The response cache: src/routing/cache-manager.ts, class `CacheManager`. A method takes the state
-- and the clock's reading in milliseconds. Costs are whole numbers of 1/10^8 dollar, temperatures
-- whole numbers of 1/10000. The key's hash (JSON, SHA-256, its first 16 hex digits) is the parameter
-- `digest`. Logging has no effect on these.
mod Evict
mod Valid
pub mod Reads
mod Tests
use cam_protocol.Base.{
  ℕ, ◌+◌, ◌*◌, ◌/◌, ◌<◌, String, Bool, true, false, not, ◌||◌, Option, none, some, List, [], ◌∷◌,
  ltb, leb, ◌==◌, str_eq, if◌then◌else◌,
}
use Prim.Native.String.{◌++◌ as str_append}
use cam_protocol.JsMap
use cam_protocol.JsMap.{JsMap}
use cam_protocol.JsText.{text_or}

-- A value of the metadata, which are `Record<string, any>`.
pub data Value : Type 0 where
  text : String → Value
  number : ℕ → Value
  flag : Bool → Value
  texts : List String → Value
  null object : Value

-- As `if (x)` reads it, where `undefined` is the missing value.
unfoldable pub is_truthy : Option Value → Bool
is_truthy none = false
is_truthy (some (text s)) = not (str_eq s "")
is_truthy (some (number n)) = not (n == 0)
is_truthy (some (flag b)) = b
is_truthy (some (texts ts)) = true
is_truthy (some null) = false
is_truthy (some object) = true

pub record Request : Type 0 where
  pub prompt : String
  pub model : Option String
  pub temperature : Option ℕ

pub record Usage : Type 0 where
  pub prompt_tokens : ℕ
  pub completion_tokens : ℕ
  pub total_tokens : ℕ

pub record Response : Type 0 where
  pub content : String
  pub provider : String
  pub model : String
  pub usage : Usage
  pub cost : ℕ
  pub latency : ℕ
  pub metadata : Option (JsMap Value)

pub record CacheEntry : Type 0 where
  pub response : Response
  pub created_at : ℕ
  pub expires_at : ℕ
  pub hit_count : ℕ

pub record CacheManagerOptions : Type 0 where
  pub max_entries : Option ℕ
  pub default_ttl_ms : Option ℕ
  pub enabled : Option Bool

pub record CacheManager : Type 0 where
  pub cache : JsMap CacheEntry
  pub max_entries : ℕ
  pub default_ttl_ms : ℕ
  pub enabled : Bool
  pub hits : ℕ
  pub misses : ℕ
  pub total_cost_saved : ℕ

-- `x ?? d`.
abbrev pub given_or {ℓ} : {A : Type ℓ} → Option A → A → A
given_or none d = d
given_or (some x) d = x

unfoldable pub init : CacheManagerOptions → CacheManager
init options = record {
  cache = [];
  max_entries = given_or options.max_entries 1000;
  default_ttl_ms = given_or options.default_ttl_ms 300000;
  enabled = given_or options.enabled true;
  hits = 0;
  misses = 0;
  total_cost_saved = 0;
}

pub record KeyData : Type 0 where
  pub prompt : String
  pub model : String
  pub temperature : ℕ
  pub provider : String

-- `Math.round(t * 100) / 100`, on ten-thousandths.
abbrev pub round_hundredths : ℕ → ℕ
round_hundredths t = (t + 50) / 100 * 100

unfoldable pub key_data : Request → Option String → KeyData
key_data request provider_id = record {
  prompt = request.prompt;
  model = text_or request.model "default";
  temperature = round_hundredths (given_or request.temperature 7000);
  provider = text_or provider_id "any";
}

-- `metadata?.[k]`.
abbrev pub metadata_field : Option (JsMap Value) → String → Option Value
metadata_field none k = none
metadata_field (some m) k = JsMap.get k m

-- `...metadata`.
abbrev pub spread : Option (JsMap Value) → JsMap Value
spread none = []
spread (some m) = m

-- What a hit returns: the response with `hit_count` counted up, at no cost.
unfoldable pub cached_response : String → CacheEntry → Response
cached_response key entry = record (entry.response) {
  cost = 0;
  latency = 0;
  metadata = some (
      JsMap.set "cacheHitCount" (number entry.hit_count) (
        JsMap.set "originalCost" (number entry.response.cost) (
          JsMap.set "cacheKey" (text key)
            (JsMap.set "cached" (flag true) (spread entry.response.metadata)))));
}

-- The loop of `evictOldest`: the entry created first, and among those the first in the map.
-- The accumulator is `oldestKey` with `oldestTime`, `none` standing for `null` and `Infinity`.
unfoldable pub oldest_from : Option (String × ℕ) → JsMap CacheEntry → Option (String × ℕ)
oldest_from best [] = best
oldest_from none ((k, e) ∷ m) = oldest_from (some (k, e.created_at)) m
oldest_from (some (j, t)) ((k, e) ∷ m) =
    oldest_from (if ltb e.created_at t then some (k, e.created_at) else some (j, t)) m

abbrev pub delete_oldest : JsMap CacheEntry → Option (String × ℕ) → JsMap CacheEntry
delete_oldest m none = m
delete_oldest m (some (k, t)) = if str_eq k "" then m else JsMap.delete k m

unfoldable pub evict_oldest : CacheManager → CacheManager
evict_oldest s = record s { cache = delete_oldest s.cache (oldest_from none s.cache) }

abbrev pub is_expired : ℕ → CacheEntry → Bool
is_expired now e = ltb e.expires_at now

-- The rest of `get`, once the map was read.
unfoldable pub get_entry :
    CacheManager → String → Option CacheEntry → ℕ → CacheManager × Option Response
unfolding cached_response
get_entry s key none now = (record s { misses = s.misses + 1 }, none)
get_entry s key (some entry) now =
    if is_expired now entry
    then (record s { cache = JsMap.delete key s.cache; misses = s.misses + 1 }, none)
    else (let entry' = record entry { hit_count = entry.hit_count + 1 } in
        (
          record s {
            cache = JsMap.set key entry' s.cache;
            hits = s.hits + 1;
            total_cost_saved = s.total_cost_saved + entry.response.cost;
          },
          some (cached_response key entry'),
        ))

-- `metadata.error` or `metadata.fallback`: such a response is not stored.
abbrev pub is_failure : Response → Bool
is_failure r =
    is_truthy (metadata_field r.metadata "error")
    || is_truthy (metadata_field r.metadata "fallback")

module _ (digest : KeyData → String) where
  unfoldable pub generate_cache_key : Request → Option String → String
  unfolding key_data
  generate_cache_key request provider_id = str_append "cam:" (digest (key_data request provider_id))

  unfoldable pub get : CacheManager → Request → Option String → ℕ → CacheManager × Option Response
  get s request provider_id now =
      if s.enabled
      then (let key = generate_cache_key request provider_id in
          get_entry s key (JsMap.get key s.cache) now)
      else (s, none)

  -- The write of `set`, with the eviction before it.
  unfoldable pub store : CacheManager → String → Response → ℕ → Option ℕ → CacheManager
  unfolding evict_oldest
  store s key response now ttl_ms =
      let s' = if leb s.max_entries (JsMap.size s.cache) then evict_oldest s else s in
      record s' {
        cache =
            JsMap.set key
              (record {
                response = response;
                created_at = now;
                expires_at = now + given_or ttl_ms s.default_ttl_ms;
                hit_count = 0;
              })
              s'.cache;
      }

  unfoldable pub set :
      CacheManager → Request → Response → Option ℕ → Option String → ℕ → CacheManager
  set s request response ttl_ms provider_id now =
      if s.enabled
      then (if is_failure response
          then s
          else store s (generate_cache_key request provider_id) response now ttl_ms)
      else s

  unfoldable pub invalidate : CacheManager → Request → Option String → CacheManager × Bool
  invalidate s request provider_id =
      let key = generate_cache_key request provider_id in
      (record s { cache = JsMap.delete key s.cache }, JsMap.has key s.cache)

-- How many entries the loop deletes.
unfoldable pub count_expired : ℕ → JsMap CacheEntry → ℕ
count_expired now [] = 0
count_expired now ((k, e) ∷ m) =
    let rest = count_expired now m in if is_expired now e then rest + 1 else rest

unfoldable pub clear_expired : CacheManager → ℕ → CacheManager × ℕ
unfolding count_expired
clear_expired s now =
    (record s { cache = JsMap.reject (is_expired now) s.cache }, count_expired now s.cache)

unfoldable pub clear : CacheManager → CacheManager
clear s = record s { cache = [] }

unfoldable pub set_enabled : CacheManager → Bool → CacheManager
set_enabled s enabled = record s { enabled = enabled }

unfoldable pub is_enabled : CacheManager → Bool
is_enabled s = s.enabled

unfoldable pub size : CacheManager → ℕ
size s = JsMap.size s.cache

pub record CacheStats : Type 0 where
  pub hits : ℕ
  pub misses : ℕ
  -- In thousandths.
  pub hit_rate : ℕ
  pub entries : ℕ
  pub total_cost_saved : ℕ
  pub oldest_entry : Option ℕ
  pub newest_entry : Option ℕ

-- The loop of `getStats` over the creation times.
unfoldable pub oldest_date : Option ℕ → JsMap CacheEntry → Option ℕ
oldest_date best [] = best
oldest_date none ((k, e) ∷ m) = oldest_date (some e.created_at) m
oldest_date (some t) ((k, e) ∷ m) =
    oldest_date (some (if ltb e.created_at t then e.created_at else t)) m

unfoldable pub newest_date : Option ℕ → JsMap CacheEntry → Option ℕ
newest_date best [] = best
newest_date none ((k, e) ∷ m) = newest_date (some e.created_at) m
newest_date (some t) ((k, e) ∷ m) =
    newest_date (some (if ltb t e.created_at then e.created_at else t)) m

-- `Math.round(hits / total * 1000)`.
abbrev pub rate : ℕ → ℕ → ℕ
rate hits total = if ltb 0 total then (2000 * hits + total) / (2 * total) else 0

unfoldable pub get_stats : CacheManager → CacheStats
unfolding oldest_date newest_date
get_stats s = record {
  hits = s.hits;
  misses = s.misses;
  hit_rate = rate s.hits (s.hits + s.misses);
  entries = JsMap.size s.cache;
  total_cost_saved = (s.total_cost_saved + 5000) / 10000 * 10000;
  oldest_entry = oldest_date none s.cache;
  newest_entry = newest_date none s.cache;
}
