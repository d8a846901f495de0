-- ===== src/RateLimiter/Recorded.antt =====
-- What the window operations of the rate limiter leave recorded under each key.
use cam_protocol.Base.{
  ℕ, ◌+◌, ◌≤◌, ◌≡◌, ◌≢◌, refl, String, true, Option, none, some, List, [], ◌∷◌, ◌++◌, arith, str_eq,
  if◌then◌else◌, length, filter, filter-filter, eq_iff, Option-cases, inl, inr,
}
use cam_protocol.JsMap
use cam_protocol.JsMap.{JsMap, IsUnique}
use cam_protocol.RateLimiter.Window.{
  SlidingWindowEntry, window_size_ms, is_live, slide, entry_or_new, get_or_create_window,
  count_requests_in_window,
}
use cam_protocol.RateLimiter.{push_timestamp, newest, are_stale, is_stale}

abbrev pub timestamps_of : Option SlidingWindowEntry → List ℕ
timestamps_of none = []
timestamps_of (some w) = w.timestamps

-- The timestamps that stand under a key.
abbrev pub recorded : JsMap SlidingWindowEntry → String → List ℕ
recorded m k = timestamps_of (JsMap.get k m)

-- Those that count at a time.
abbrev pub used : JsMap SlidingWindowEntry → String → ℕ → ℕ
used m k now = length (filter (is_live now) (recorded m k))

pub is_live_earlier : (t now ts : ℕ) → t ≤ now → is_live now ts ≡ true → is_live t ts ≡ true
is_live_earlier t now ts h l = ground arith

pub filter-is_live_later :
    (t now : ℕ) (xs : List ℕ)
    → t ≤ now
    → filter (is_live now) (filter (is_live t) xs) ≡ filter (is_live now) xs
filter-is_live_later t now xs h =
    filter-filter (is_live now) (is_live t) (λ ts l. is_live_earlier t now ts h l) xs

slid :
    (now : ℕ) (o : Option SlidingWindowEntry)
    → (slide now (entry_or_new now o)).timestamps ≡ filter (is_live now) (timestamps_of o)
unfolding slide entry_or_new
slid now none = refl
slid now (some w) = refl

pub recorded-get_or_create_window :
    (m : JsMap SlidingWindowEntry) (k j : String) (now : ℕ)
    → recorded (get_or_create_window m k now).0 j
      ≡ (if str_eq k j then filter (is_live now) (recorded m k) else recorded m j)
unfolding get_or_create_window
recorded-get_or_create_window m k j now = ground (
  arith,
  JsMap.get-set k j (slide now (entry_or_new now (JsMap.get k m))) m,
  slid now (JsMap.get k m),
)

-- The window that a check reads holds what counts.
pub timestamps-get_or_create_window :
    (m : JsMap SlidingWindowEntry) (k : String) (now : ℕ)
    → (get_or_create_window m k now).1.timestamps ≡ filter (is_live now) (recorded m k)
unfolding get_or_create_window
timestamps-get_or_create_window m k now = slid now (JsMap.get k m)

pub get-get_or_create_window :
    (m : JsMap SlidingWindowEntry) (k : String) (now : ℕ)
    → JsMap.get k (get_or_create_window m k now).0 ≡ some (get_or_create_window m k now).1
unfolding get_or_create_window
get-get_or_create_window m k now =
    ground (arith, JsMap.get-set k k (slide now (entry_or_new now (JsMap.get k m))) m, eq_iff k k)

pub count-get_or_create_window :
    (m : JsMap SlidingWindowEntry) (k : String) (now : ℕ)
    → count_requests_in_window (get_or_create_window m k now).1 now ≡ used m k now
unfolding count_requests_in_window
count-get_or_create_window m k now =
    ground
      (arith, timestamps-get_or_create_window m k now, filter-is_live_later now now (recorded m k))

pub get_or_create_window-IsUnique :
    (m : JsMap SlidingWindowEntry) (k : String) (now : ℕ)
    → IsUnique m
    → IsUnique (get_or_create_window m k now).0
unfolding get_or_create_window
get_or_create_window-IsUnique m k now u = JsMap.set-IsUnique k _ m u

pub recorded-push_timestamp :
    (m : JsMap SlidingWindowEntry) (k j : String) (now : ℕ)
    → JsMap.get k m ≢ none
    → recorded (push_timestamp m k now) j
      ≡ (if str_eq k j then recorded m k ++ now ∷ [] else recorded m j)
unfolding push_timestamp
recorded-push_timestamp m k j now there = elim (Option-cases (JsMap.get k m)) [
  | inl e ↦ absurd (there e)
  | inr (w, e) ↦
      ground (arith, JsMap.get-set k j (record w { timestamps = w.timestamps ++ now ∷ [] }) m)
]

pub push_timestamp-IsUnique :
    (m : JsMap SlidingWindowEntry) (k : String) (now : ℕ)
    → IsUnique m
    → IsUnique (push_timestamp m k now)
unfolding push_timestamp
push_timestamp-IsUnique m k now u = elim (Option-cases (JsMap.get k m)) [
  | inl e ↦ rw (e, push_timestamp) u
  | inr (w, e) ↦ rw (e, push_timestamp) (JsMap.set-IsUnique k _ m u)
]

newest-filter :
    (now : ℕ) (xs : List ℕ) → newest xs + window_size_ms ≤ now → filter (is_live now) xs ≡ []
unfolding newest
newest-filter now [] h = refl
newest-filter now (x ∷ xs) h = ground (arith, newest-filter now xs)

-- A stale window holds nothing that counts.
are_stale-filter : (now : ℕ) (ts : List ℕ) → are_stale now ts ≡ true → filter (is_live now) ts ≡ []
unfolding are_stale
are_stale-filter now [] h = refl
are_stale-filter now (t ∷ ts) h = newest-filter now (t ∷ ts) (ground arith)

-- So the cleanup changes nothing that counts.
pub used-reject :
    (m : JsMap SlidingWindowEntry) (k : String) (now : ℕ)
    → IsUnique m
    → filter (is_live now) (recorded (JsMap.reject (is_stale now) m) k)
      ≡ filter (is_live now) (recorded m k)
used-reject m k now u = elim (Option-cases (JsMap.get k m)) [
  | inl e ↦ ground (arith, JsMap.get-reject (is_stale now) k m u)
  | inr (w, e) ↦
      ground (arith, JsMap.get-reject (is_stale now) k m u, are_stale-filter now w.timestamps)
]
