-- ===== src/StateManager/Restart.antt =====
-- What survives a restart: a manager that stored its state is shut down, and another starts on the
-- same store.
use cam_protocol.Base.{
  ℕ, ◌≡◌, refl, ap, subst, sym, ◌∙◌, String, Bool, true, ◌&&◌, All, Option, none, some, List, [],
  ◌∷◌, arith, ◌==◌, if◌then◌else◌, map, Bool-cases, Option-cases, inl, inr,
}
use cam_protocol.Errors.{ok, throw}
use cam_protocol.CacheManager.{given_or}
use cam_protocol.JsMap.{JsMap}
use cam_protocol.Persistence.{
  StateSnapshot, PersistedState, Adapter, json, json_snapshot, file, RouteState, CollaborationState,
  RouteMetrics, Progress, Fields, JsValue, undefined_, json_metadata, json_field, json_metrics,
  json_progress, json_route, json_collaboration, json_pairs, is_plain, are_plain_fields, both_true,
  json_fields-plain, json_value-plain, load_file, save_file, holds,
}
use cam_protocol.StateManager.{
  StateManager, init, persist, persisted, shutdown, restore_from_snapshot, restore_snapshot,
  get_snapshot, find_snapshot, restore_failed,
}

-- What the adapter for files promises: a state that was saved is loaded by a new adapter as JSON
-- leaves it.
abbrev pub LoadsJson : Adapter → Type 0
LoadsJson a =
    (p : PersistedState) (s q : a.Store) → a.save p s ≡ some q → a.load (a.opened q) ≡ json p

some-injective : {A : Type 0} (x y : A) → some x ≡ some y → x ≡ y
some-injective x y e = cc

pub file-LoadsJson : LoadsJson file
unfolding save_file load_file
file-LoadsJson p s q e = elim (Bool-cases s.writable) [
  | inl w ↦
      let e' : some (record s { content = holds (json p) }) ≡ some q =
        subst (λ b. (if b then some (record s { content = holds (json p) }) else none) ≡ some q) w
          e in
      ap load_file (sym (some-injective (record s { content = holds (json p) }) q e'))
  | inr w ↦ ground arith
]

-- No snapshot that JSON made can be restored.
find_snapshot-json :
    (t : ℕ) (ss : List StateSnapshot) (x : StateSnapshot)
    → find_snapshot t ss ≡ some x
    → find_snapshot t (map json_snapshot ss) ≡ some (json_snapshot x)
unfolding find_snapshot json_snapshot
find_snapshot-json t [] x e = cc
find_snapshot-json t (y ∷ ss) x e = elim (Bool-cases (y.timestamp == t)) [
  | inl same ↦ ground arith
  | inr other ↦ ground (arith, find_snapshot-json t ss x)
]

load-shutdown :
    (a : Adapter)
    → LoadsJson a
    → (s : StateManager a) → (shutdown a s).1 ≡ ok tt
    → a.load (a.opened (shutdown a s).0.persistence) ≡ json (persisted a s)
unfolding shutdown persist
load-shutdown a loads s h = elim (Option-cases (a.save (persisted a s) s.persistence)) [
  | inl e ↦ ground arith
  | inr (p, e) ↦ rw (e, shutdown, persist) (loads (persisted a s) s.persistence p e)
]

-- The metadata, the metrics and the progress hold only what JSON keeps: texts, finite numbers,
-- Booleans, `null`, and arrays and objects of such.
abbrev pub is_plain_metadata : Option Fields → Bool
is_plain_metadata none = true
is_plain_metadata (some fs) = are_plain_fields fs

abbrev pub is_plain_metrics : Option RouteMetrics → Bool
is_plain_metrics none = true
is_plain_metrics (some m) =
    is_plain m.request_count && (is_plain m.average_latency && is_plain m.error_rate)

abbrev pub is_plain_progress : Option Progress → Bool
is_plain_progress none = true
is_plain_progress (some g) = is_plain g.completed_steps && is_plain g.total_steps

abbrev pub IsPlainRoute : RouteState → Type 0
IsPlainRoute r = (is_plain_metadata r.metadata ≡ true) × (is_plain_metrics r.metrics ≡ true)

abbrev pub IsPlainCollaboration : CollaborationState → Type 0
IsPlainCollaboration c =
    (is_plain_metadata c.metadata ≡ true) × (is_plain_progress c.progress ≡ true)

json_metadata-plain : (o : Option Fields) → is_plain_metadata o ≡ true → json_metadata o ≡ o
json_metadata-plain none h = refl
json_metadata-plain (some fs) h = ap some (json_fields-plain fs h)

json_field-plain : (v : JsValue) → is_plain v ≡ true → json_field v ≡ v
json_field-plain v h = ap (λ o. given_or o undefined_) (json_value-plain v h)

json_metrics-plain : (o : Option RouteMetrics) → is_plain_metrics o ≡ true → json_metrics o ≡ o
json_metrics-plain none h = refl
json_metrics-plain (some m) h =
    let (p, h') =
      both_true (is_plain m.request_count) (is_plain m.average_latency && is_plain m.error_rate)
        h in
    let (q, r) = both_true (is_plain m.average_latency) (is_plain m.error_rate) h' in
    rw
      (
        json_field-plain m.request_count p,
        json_field-plain m.average_latency q,
        json_field-plain m.error_rate r,
      )
      refl

json_progress-plain : (o : Option Progress) → is_plain_progress o ≡ true → json_progress o ≡ o
json_progress-plain none h = refl
json_progress-plain (some g) h =
    let (p, q) = both_true (is_plain g.completed_steps) (is_plain g.total_steps) h in
    rw (json_field-plain g.completed_steps p, json_field-plain g.total_steps q) refl

json_route-plain : (r : RouteState) → IsPlainRoute r → json_route r ≡ r
unfolding json_route
json_route-plain r (p, q) =
    rw (json_metadata-plain r.metadata p, json_metrics-plain r.metrics q) refl

json_collaboration-plain :
    (c : CollaborationState) → IsPlainCollaboration c → json_collaboration c ≡ c
unfolding json_collaboration
json_collaboration-plain c (p, q) =
    rw (json_metadata-plain c.metadata p, json_progress-plain c.progress q) refl

json_pairs-same :
    {V : Type 0} (change : V → V) (P : V → Type 0)
    → ((v : V) → P v → change v ≡ v)
    → (m : JsMap V) → All (λ (e : String × V). P e.1) m
    → json_pairs change m ≡ m
unfolding json_pairs
json_pairs-same change P same [] h = refl
json_pairs-same change P same ((k, v) ∷ m) (p, h) =
    rw (same v p, json_pairs-same change P same m h) refl

-- After a shutdown that stored the state, a new manager on the same store has every route and every
-- collaboration as it was. What the adapter saved a new one loads as JSON leaves it, and the metadata,
-- the metrics and the progress hold only texts, finite numbers, Booleans, `null`, and arrays and
-- objects of such.
pub init-shutdown :
    (a : Adapter)
    → LoadsJson a
    → (s : StateManager a) (limit : Option ℕ) → (shutdown a s).1 ≡ ok tt
    → All (λ (e : String × RouteState). IsPlainRoute e.1) s.route_states
    → All (λ (e : String × CollaborationState). IsPlainCollaboration e.1) s.collaboration_states
    → let q = init a limit (shutdown a s).0.persistence in
      (q.route_states ≡ s.route_states) × (q.collaboration_states ≡ s.collaboration_states)
unfolding init json
init-shutdown a loads s limit h routes sessions =
    let e = load-shutdown a loads s h in
    (
      ap (λ p. p.route_states) e
          ∙ json_pairs-same json_route IsPlainRoute json_route-plain s.route_states routes,
      ap (λ p. p.collaboration_states) e
          ∙ json_pairs-same json_collaboration IsPlainCollaboration json_collaboration-plain
              s.collaboration_states sessions,
    )

-- No snapshot outlives a restart: where the old manager could find the snapshot of a time, the new one
-- on the same store throws `STATE_RESTORE_FAILED` for that time, and changes nothing. What the adapter
-- saved it loads as JSON leaves it.
pub restore-init :
    (a : Adapter)
    → LoadsJson a
    → (s : StateManager a) (limit : Option ℕ) (t now : ℕ) (x : StateSnapshot)
    → (shutdown a s).1 ≡ ok tt
    → find_snapshot t s.snapshots ≡ some x
    → let q = init a limit (shutdown a s).0.persistence in
      restore_from_snapshot a q t now ≡ (q, throw restore_failed)
unfolding init json json_snapshot restore_snapshot get_snapshot restore_from_snapshot
restore-init a loads s limit t now x h found =
    let q = init a limit (shutdown a s).0.persistence in
    let e : find_snapshot t q.snapshots ≡ some (json_snapshot x) =
      ap (λ p. find_snapshot t p.snapshots) (load-shutdown a loads s h)
      ∙ find_snapshot-json t s.snapshots x found in
    rw (e, restore_from_snapshot, get_snapshot) refl
