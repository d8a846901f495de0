-- ===== src/RateLimiter/Tracks.antt =====
-- A map of windows against the history of the grants under each key.
use cam_protocol.Base.{
  ℕ, ◌≤◌, ◌<◌, ◌≡◌, ◌≢◌, ◌⊎◌, sym, ap, ◌∙◌, String, true, false, none, List, [], ◌∷◌, ◌++◌, arith,
  str_eq, if◌then◌else◌, length, filter, filter-append, length-append, length-filter_mono, eq_iff,
  Bool-cases, inl, inr,
}
use cam_protocol.JsMap
use cam_protocol.JsMap.{JsMap, IsUnique}
use cam_protocol.RateLimiter.Window.{SlidingWindowEntry, is_live, get_or_create_window}
use cam_protocol.RateLimiter.{push_timestamp, is_stale}
use cam_protocol.RateLimiter.Recorded.{
  recorded, used, is_live_earlier, filter-is_live_later, recorded-get_or_create_window,
  get_or_create_window-IsUnique, recorded-push_timestamp, push_timestamp-IsUnique, used-reject,
}

-- At the time `t` the windows hold the grants that still count, and these are within the bounds.
pub record Tracks (m : JsMap SlidingWindowEntry) (t : ℕ) (grants : String → List ℕ)
    (bound : String → ℕ) : Type 0 where
  pub unique : IsUnique m
  pub agree : (k : String) → filter (is_live t) (recorded m k) ≡ filter (is_live t) (grants k)
  pub within : (k : String) → length (filter (is_live t) (grants k)) ≤ bound k

module _ {m : JsMap SlidingWindowEntry} {grants : String → List ℕ} {bound : String → ℕ} where
  pub Tracks-later : (t now : ℕ) → t ≤ now → Tracks m t grants bound → Tracks m now grants bound
  Tracks-later t now h r = record {
    unique = r.unique;
    agree = λ k.
        sym (filter-is_live_later t now (recorded m k) h)
        ∙ ap (filter (is_live now)) (r.agree k)
        ∙ filter-is_live_later t now (grants k) h;
    within = λ k. omega (
      arith,
      r.within k,
      length-filter_mono (is_live now) (is_live t) (λ ts l. is_live_earlier t now ts h l)
          (grants k),
    );
  }

  pub Tracks-slide :
      (k : String) (now : ℕ)
      → Tracks m now grants bound
      → Tracks (get_or_create_window m k now).0 now grants bound
  Tracks-slide k now r = record {
    unique = get_or_create_window-IsUnique m k now r.unique;
    agree = λ j. agree_at j (Bool-cases (str_eq k j));
    within = r.within;
  }
    where
      agree_at :
          (j : String)
          → (str_eq k j ≡ true) ⊎ (str_eq k j ≡ false)
          → filter (is_live now) (recorded (get_or_create_window m k now).0 j)
            ≡ filter (is_live now) (grants j)
      agree_at j (inl e) =
          let same : k ≡ j = (eq_iff k j).0 e in
          ap (filter (is_live now)) (recorded-get_or_create_window m k j now ∙ rw e)
          ∙ filter-is_live_later now now (recorded m k) (omega arith)
          ∙ rw (← same) (r.agree k)
      agree_at j (inr e) =
          ap (filter (is_live now)) (recorded-get_or_create_window m k j now ∙ rw e) ∙ r.agree j

  pub Tracks-clean :
      (now : ℕ)
      → Tracks m now grants bound
      → Tracks (JsMap.reject (is_stale now) m) now grants bound
  Tracks-clean now r = record {
    unique = JsMap.reject-IsUnique (is_stale now) m r.unique;
    agree = λ k. used-reject m k now r.unique ∙ r.agree k;
    within = r.within;
  }

  pub Tracks-ext :
      (t : ℕ) {others : String → List ℕ}
      → ((k : String) → grants k ≡ others k)
      → Tracks m t grants bound
      → Tracks m t others bound
  Tracks-ext t same r = record {
    unique = r.unique;
    agree = λ k. rw (← same k) (r.agree k);
    within = λ k. rw (← same k) (r.within k);
  }

  -- A grant below the bound.
  pub Tracks-push :
      (k : String) (now : ℕ)
      → JsMap.get k m ≢ none
      → used m k now < bound k
      → Tracks m now grants bound
      → Tracks
          (push_timestamp m k now)
          now
          (λ j. if str_eq k j then grants k ++ now ∷ [] else grants j)
          bound
  Tracks-push k now there room r = record {
    unique = push_timestamp-IsUnique m k now r.unique;
    agree = λ j. agree_at j (Bool-cases (str_eq k j));
    within = λ j. within_at j (Bool-cases (str_eq k j));
  }
    where
      agree_at :
          (j : String)
          → (str_eq k j ≡ true) ⊎ (str_eq k j ≡ false)
          → filter (is_live now) (recorded (push_timestamp m k now) j)
            ≡ filter (is_live now) (if str_eq k j then grants k ++ now ∷ [] else grants j)
      agree_at j (inl e) =
          rw (recorded-push_timestamp m k j now there, e)
            (rw (
              filter-append (is_live now) (recorded m k) (now ∷ []),
              filter-append (is_live now) (grants k) (now ∷ []),
              r.agree k,
            ))
      agree_at j (inr e) = rw (recorded-push_timestamp m k j now there, e) (r.agree j)

      within_at :
          (j : String)
          → (str_eq k j ≡ true) ⊎ (str_eq k j ≡ false)
          → length (filter (is_live now) (if str_eq k j then grants k ++ now ∷ [] else grants j))
            ≤ bound j
      within_at j (inl e) =
          let same : k ≡ j = (eq_iff k j).0 e in
          rw (e, ← same, filter-append (is_live now) (grants k) (now ∷ []), ← r.agree k)
            (ground (arith, length-append (filter (is_live now) (recorded m k)) (now ∷ [])))
      within_at j (inr e) = rw e (r.within j)
