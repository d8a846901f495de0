-- ===== src/StateManager.antt =====
-- The state manager: src/core/state-manager.ts, class `StateManager`. The adapter is the parameter
-- `a`; the listeners are named by texts, and `sent` lists what each was told, in order. A method reads
-- the clock once. An error's message ends with the text of its cause, which is left out.
pub mod Usage
mod Snapshots
mod Bounded
mod Restart
mod Cleanup
mod Tests
use cam_protocol.Base.{
  ℕ, suc, ◌+◌, ◌-◌, ◌<◌, max, String, Bool, true, false, not, ◌||◌, Option, none, some, List, [],
  ◌∷◌, ◌++◌, map, ltb, leb, ◌==◌, str_eq, if◌then◌else◌, length, drop, filter,
}
use cam_protocol.Errors.{Thrown, cam_error, runtime_error, Result, ok, throw}
use cam_protocol.JsMap
use cam_protocol.JsMap.{JsMap}
use cam_protocol.Persistence.{
  RouteState, CollaborationState, MapField, entries, plain_object, StateSnapshot, PersistedState,
  Adapter,
}
use Usage.{CustomerUsage}

pub data StateChangeEvent : Type 0 where
  route_state_changed : String → RouteState → RouteState → ℕ → StateChangeEvent
  collaboration_state_changed :
      String → CollaborationState → CollaborationState → ℕ → StateChangeEvent
  route_state_expired collaboration_state_expired : String → ℕ → StateChangeEvent
  -- When it was restored, and the snapshot's own time.
  state_restored : ℕ → ℕ → StateChangeEvent

-- A time that is over. A missing or empty `expiresAt` never is.
abbrev pub is_over : ℕ → Option ℕ → Bool
is_over now none = false
is_over now (some t) = ltb t now

-- `snapshots.find((s) => s.timestamp === timestamp)`.
unfoldable pub find_snapshot : ℕ → List StateSnapshot → Option StateSnapshot
find_snapshot t [] = none
find_snapshot t (s ∷ ss) = if s.timestamp == t then some s else find_snapshot t ss

unfoldable pub last_snapshot : List StateSnapshot → Option StateSnapshot
last_snapshot [] = none
last_snapshot (s ∷ []) = some s
last_snapshot (s ∷ t ∷ ss) = last_snapshot (t ∷ ss)

-- `snapshots.slice(-n)` for a positive `n`.
abbrev pub last_of {ℓ} : {A : Type ℓ} → ℕ → List A → List A
last_of n xs = drop (length xs - n) xs

-- One delivery for each listener, in order. A listener that throws does not stop the others.
unfoldable pub deliveries : StateChangeEvent → List String → List (String × StateChangeEvent)
deliveries e = map (λ l. (l, e))

-- The keys whose states are over, in the order of the map.
unfoldable pub expired_keys {ℓ} : {V : Type ℓ} → (V → Bool) → JsMap V → List String
expired_keys test [] = []
expired_keys test ((k, v) ∷ m) = let rest = expired_keys test m in if test v then k ∷ rest else rest

-- The end of `createSnapshot`: the last `maxSnapshots` snapshots stay.
abbrev pub limited : ℕ → List StateSnapshot → List StateSnapshot
limited n ss = if ltb n (length ss) then last_of n ss else ss

abbrev pub restore_failed : Thrown
restore_failed = cam_error "Failed to restore state" "STATE_RESTORE_FAILED"

module _ (a : Adapter) where
  open a use {Store, opened, load, save}

  pub record StateManager : Type 0 where
    pub route_states : JsMap RouteState
    pub collaboration_states : JsMap CollaborationState
    pub snapshots : List StateSnapshot
    pub listeners : List String
    pub customer_usage : JsMap CustomerUsage
    pub max_snapshots : ℕ
    pub persistence : Store
    pub sent : List (String × StateChangeEvent)

  -- `config.maxSnapshots || 100`, with a new adapter. `left` is the store that the adapter before left.
  unfoldable pub init : Option ℕ → Store → StateManager
  init max_snapshots left =
      let loaded = load (opened left) in
      record {
        route_states = loaded.route_states;
        collaboration_states = loaded.collaboration_states;
        snapshots = loaded.snapshots;
        listeners = [];
        customer_usage = [];
        max_snapshots = elim max_snapshots [ none ↦ 100 | some n ↦ if n == 0 then 100 else n ];
        persistence = opened left;
        sent = [];
      }

  unfoldable pub emit_state_change : StateManager → StateChangeEvent → StateManager
  emit_state_change s e = record s { sent = s.sent ++ deliveries e s.listeners }

  abbrev pub persisted : StateManager → PersistedState
  persisted s = record {
    route_states = s.route_states;
    collaboration_states = s.collaboration_states;
    snapshots = s.snapshots;
  }

  unfoldable pub persist : StateManager → StateManager × Result (Unit {0})
  persist s = elim (save (persisted s) s.persistence) [
    | none ↦ (s, throw runtime_error)
    | some store ↦ (record s { persistence = store }, ok tt)
  ]

  abbrev pub snapshot_of : StateManager → ℕ → StateSnapshot
  snapshot_of s now = record {
    timestamp = now;
    route_states = entries s.route_states;
    collaboration_states = entries s.collaboration_states;
  }

  unfoldable pub push_snapshot : StateManager → ℕ → StateManager
  push_snapshot s now = record s {
    snapshots = limited s.max_snapshots (s.snapshots ++ snapshot_of s now ∷ []);
  }

  unfoldable pub create_snapshot : StateManager → ℕ → StateManager × Result (Unit {0})
  unfolding push_snapshot
  create_snapshot s now = persist (push_snapshot s now)

  -- The next statement, where the one before did not throw.
  abbrev pub and_then :
      StateManager × Result (Unit {0})
      → (StateManager → StateManager × Result (Unit {0}))
      → StateManager × Result (Unit {0})
  and_then (s, ok x) next = next s
  and_then (s, throw e) next = (s, throw e)

  -- `createSnapshot(); persist();`.
  unfoldable pub snapshot_and_persist : StateManager → ℕ → StateManager × Result (Unit {0})
  snapshot_and_persist s now = and_then (create_snapshot s now) persist

  -- The `catch` of a method.
  abbrev pub or_fail : Thrown → StateManager × Result (Unit {0}) → StateManager × Result (Unit {0})
  or_fail e (s, ok x) = (s, ok x)
  or_fail e (s, throw _) = (s, throw e)

  abbrev pub previous_or {ℓ} : {A : Type ℓ} → Option A → A → A
  previous_or none x = x
  previous_or (some y) x = y

  -- The write and the event of `setRouteState`.
  unfoldable pub write_route_state : StateManager → String → RouteState → ℕ → StateManager
  unfolding emit_state_change
  write_route_state s id state now =
      emit_state_change
        (record s {
          route_states = JsMap.set id (record state { last_updated = now }) s.route_states;
        })
        (route_state_changed id (previous_or (JsMap.get id s.route_states) state) state now)

  unfoldable pub set_route_state :
      StateManager → String → RouteState → ℕ → StateManager × Result (Unit {0})
  set_route_state s id state now =
      or_fail (cam_error "Failed to update route state" "STATE_UPDATE_FAILED")
        (snapshot_and_persist (write_route_state s id state now) now)

  unfoldable pub get_route_state : StateManager → String → Option RouteState
  get_route_state s id = JsMap.get id s.route_states

  -- The write and the event of `setCollaborationState`.
  unfoldable pub write_collaboration_state :
      StateManager → String → CollaborationState → ℕ → StateManager
  unfolding emit_state_change
  write_collaboration_state s id state now =
      emit_state_change
        (record s {
          collaboration_states =
              JsMap.set id (record state { last_updated = now }) s.collaboration_states;
        })
        (collaboration_state_changed id (previous_or (JsMap.get id s.collaboration_states) state)
          state now)

  unfoldable pub set_collaboration_state :
      StateManager → String → CollaborationState → ℕ → StateManager × Result (Unit {0})
  set_collaboration_state s id state now =
      or_fail (cam_error "Failed to update collaboration state" "STATE_UPDATE_FAILED")
        (snapshot_and_persist (write_collaboration_state s id state now) now)

  unfoldable pub get_collaboration_state : StateManager → String → Option CollaborationState
  get_collaboration_state s id = JsMap.get id s.collaboration_states

  unfoldable pub emit_all : StateManager → List StateChangeEvent → StateManager
  emit_all s [] = s
  emit_all s (e ∷ es) = emit_all (emit_state_change s e) es

  -- The two loops of `cleanupExpiredStates`, with their events.
  unfoldable pub drop_expired : StateManager → ℕ → StateManager
  unfolding emit_all
  drop_expired s now =
      emit_all
        (record s {
          route_states = JsMap.reject (λ r. is_over now r.expires_at) s.route_states;
          collaboration_states =
              JsMap.reject (λ c. is_over now c.expires_at) s.collaboration_states;
        })
        (map (λ k. route_state_expired k now)
            (expired_keys (λ (r : RouteState). is_over now r.expires_at) s.route_states)
          ++ map (λ k. collaboration_state_expired k now)
              (expired_keys (λ (c : CollaborationState). is_over now c.expires_at)
                s.collaboration_states))

  unfoldable pub count_over : StateManager → ℕ → ℕ
  count_over s now =
      length (expired_keys (λ (r : RouteState). is_over now r.expires_at) s.route_states)
      + length (
          expired_keys (λ (c : CollaborationState). is_over now c.expires_at)
            s.collaboration_states)

  unfoldable pub cleanup_expired_states : StateManager → ℕ → StateManager × Result (Unit {0})
  unfolding count_over
  cleanup_expired_states s now =
      let told = drop_expired s now in
      if ltb 0 (count_over s now) then snapshot_and_persist told now else (told, ok tt)

  -- Without a timestamp the last one.
  unfoldable pub get_snapshot : StateManager → Option ℕ → Option StateSnapshot
  get_snapshot s none = last_snapshot s.snapshots
  get_snapshot s (some t) = find_snapshot t s.snapshots

  abbrev pub restored : StateManager × Result (Unit {0}) → StateManager × Result Bool
  restored (s, ok x) = (s, ok true)
  restored (s, throw e) = (s, throw restore_failed)

  -- `new Map(field)`: a plain object cannot be iterated over, which throws.
  unfoldable pub restore_collaboration :
      StateManager → ℕ → MapField CollaborationState → ℕ → StateManager × Result Bool
  restore_collaboration s t plain_object now = (s, throw restore_failed)
  restore_collaboration s t (entries m) now =
      restored
        (persist (emit_state_change (record s { collaboration_states = m }) (state_restored now t)))

  unfoldable pub restore_snapshot :
      StateManager
      → ℕ
      → MapField RouteState
      → MapField CollaborationState
      → ℕ
      → StateManager × Result Bool
  unfolding restore_collaboration
  restore_snapshot s t plain_object c now = (s, throw restore_failed)
  restore_snapshot s t (entries m) c now =
      restore_collaboration (record s { route_states = m }) t c now

  unfoldable pub restore_from_snapshot : StateManager → ℕ → ℕ → StateManager × Result Bool
  restore_from_snapshot s t now = elim (get_snapshot s (some t)) [
    | none ↦ (s, ok false)
    | some snap ↦ restore_snapshot s t snap.route_states snap.collaboration_states now
  ]

  -- The listeners are a `Set`.
  unfoldable pub add_state_change_listener : StateManager → String → StateManager
  add_state_change_listener s l =
      let there = length (filter (str_eq l) s.listeners) in
      if there == 0 then record s { listeners = s.listeners ++ l ∷ [] } else s

  unfoldable pub remove_state_change_listener : StateManager → String → StateManager
  remove_state_change_listener s l = record s {
    listeners = filter (λ m. not (str_eq l m)) s.listeners;
  }

  -- The listeners and the usage of the customers are not stored; `shutdown` keeps the usage.
  unfoldable pub shutdown : StateManager → StateManager × Result (Unit {0})
  shutdown s = and_then (persist s) (λ s'. (
    record s' { route_states = []; collaboration_states = []; snapshots = []; listeners = [] },
    ok tt,
  ))
