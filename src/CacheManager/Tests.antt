-- ===== src/CacheManager/Tests.antt =====
-- Runs of the cache on concrete requests, with a digest that shows the prompt and the model.
use Prim.Native.String.{◌++◌ as str_append}
use cam_protocol.Base.{◌≤◌, ◌≡◌, refl, String, true, false, none, some, [], ◌∷◌, arith, eq_iff}
use cam_protocol.JsMap
use cam_protocol.JsMap.{JsMap, IsUnique}
use cam_protocol.CacheManager.{
  CacheManager, CacheManagerOptions, Request, Response, KeyData, Value, init, key_data, oldest_from,
  is_truthy, cached_response, get, get_entry, generate_cache_key, store, set, clear_expired,
  invalidate,
}
use cam_protocol.CacheManager.Valid
use cam_protocol.CacheManager.Reads

program : Unit {0}
unfolding init key_data oldest_from is_truthy cached_response get get_entry generate_cache_key store
    set clear_expired invalidate JsMap.get JsMap.set JsMap.has JsMap.delete JsMap.reject
program = tt

abbrev digest : KeyData → String
digest k = str_append k.prompt k.model

abbrev small : CacheManagerOptions
small = record { max_entries = some 2; default_ttl_ms = some 1000; enabled = none }

abbrev request : String → Request
request text = record { prompt = text; model = none; temperature = none }

abbrev response : String → Response
response text = record {
  content = text;
  provider = "openai";
  model = "gpt-4";
  usage = record { prompt_tokens = 1; completion_tokens = 2; total_tokens = 3 };
  cost = 500;
  latency = 80;
  metadata = none;
}

abbrev empty : CacheManager
empty = init small

abbrev one : CacheManager
one = set digest empty (request "a") (response "A") none none 10

abbrev two : CacheManager
two = set digest one (request "b") (response "B") none none 20

hit_is_free :
    (get digest two (request "a") none 30).1
    ≡ some (record (response "A") {
      cost = 0;
      latency = 0;
      metadata = some (
          ("cached", Value.flag true)
          ∷ ("cacheKey", Value.text "cam:adefault")
          ∷ ("originalCost", Value.number 500)
          ∷ ("cacheHitCount", Value.number 1)
          ∷ []);
    })
unfolding program
hit_is_free = refl

get-set_copy_example :
    Reads.Gives (response "B") false (get digest two (request "b") none 30).1
    × (JsMap.get "cam:bdefault" (get digest two (request "b") none 30).0.cache
        ≡ some (record (Reads.written one (response "B") none 20) { hit_count = 1 }))
unfolding program
get-set_copy_example =
    Reads.get-set_copy digest one (request "b") (response "B") none none 20 refl refl 30

set_evicts_needlessly_example :
    JsMap.get "cam:adefault" (set digest two (request "b") (response "B") none none 30).cache ≡ none
unfolding program
set_evicts_needlessly_example =
    Reads.set_evicts_needlessly digest two (request "b") (response "B") none none 30 refl refl
      "cam:adefault" 10 refl (omega arith) refl refl
      (λ e. ground (arith, eq_iff "cam:bdefault" "cam:adefault"))

two-IsUnique : IsUnique two.cache
unfolding program
two-IsUnique = (refl, (refl, tt))

run-init-IsValid_example :
    IsUnique
      (Valid.run digest empty
        (Valid.Call.sets (request "a") (response "A") none none 10 ∷ Valid.Call.clears ∷ [])).cache
    × (JsMap.size
          (Valid.run digest empty (
            Valid.Call.sets (request "a") (response "A") none none 10
            ∷ Valid.Call.clears
            ∷ [])).cache
        ≤ 2)
run-init-IsValid_example =
    Valid.run-init-IsValid digest small
      (Valid.Call.sets (request "a") (response "A") none none 10 ∷ Valid.Call.clears ∷ [])
      (omega arith)
