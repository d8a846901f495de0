-- ===== src/Persistence.antt =====
-- What the state manager stores, and the two adapters that store it: src/core/persistence.ts, and the
-- state types of src/shared/types.ts. The ISO texts of the fields `lastUpdated` and `expiresAt` stand
-- for their times in milliseconds.
mod Metadata
unfoldable pub use Metadata.*
use cam_protocol.Base.{ℕ, String, Bool, Option, none, some, List, [], ◌∷◌, map, if◌then◌else◌}
use cam_protocol.JsMap.{JsMap}
use cam_protocol.CacheManager.{given_or}

pub data RouteStatus : Type 0 where
  active inactive error pending : RouteStatus

-- `metrics` of a route, and `progress` of a collaboration. A number that is not finite is `null` after
-- JSON.
pub record RouteMetrics : Type 0 where
  pub request_count : JsValue
  pub average_latency : JsValue
  pub error_rate : JsValue

pub record Progress : Type 0 where
  pub phase : String
  pub completed_steps : JsValue
  pub total_steps : JsValue

pub record RouteState : Type 0 where
  pub route_id : String
  pub status : RouteStatus
  pub last_updated : ℕ
  pub expires_at : Option ℕ
  pub metadata : Option Fields
  pub metrics : Option RouteMetrics

pub data CollaborationStatus : Type 0 where
  active paused completed error : CollaborationStatus

pub record CollaborationState : Type 0 where
  pub session_id : String
  pub status : CollaborationStatus
  pub participants : List String
  pub last_updated : ℕ
  pub expires_at : Option ℕ
  pub metadata : Option Fields
  pub progress : Option Progress

-- A field of type `Map` at run time: a `Map`, or the plain object `{}` that JSON makes of one.
pub data MapField (V : Type 0) : Type 0 where
  entries : JsMap V → MapField V
  plain_object : MapField V

pub record StateSnapshot : Type 0 where
  pub timestamp : ℕ
  pub route_states : MapField RouteState
  pub collaboration_states : MapField CollaborationState

pub record PersistedState : Type 0 where
  pub route_states : JsMap RouteState
  pub collaboration_states : JsMap CollaborationState
  pub snapshots : List StateSnapshot

unfoldable pub no_state : PersistedState
no_state = record { route_states = []; collaboration_states = []; snapshots = [] }

-- `JSON.parse(JSON.stringify(snapshot))`: a `Map` has no enumerable fields.
unfoldable pub json_snapshot : StateSnapshot → StateSnapshot
json_snapshot s = record s { route_states = plain_object; collaboration_states = plain_object }

abbrev pub json_metadata : Option Fields → Option Fields
json_metadata none = none
json_metadata (some fs) = some (json_fields fs)

-- A field of a record: what JSON leaves out reads as `undefined`.
abbrev pub json_field : JsValue → JsValue
json_field v = given_or (json_value v) undefined_

abbrev pub json_metrics : Option RouteMetrics → Option RouteMetrics
json_metrics none = none
json_metrics (some m) = some (record {
  request_count = json_field m.request_count;
  average_latency = json_field m.average_latency;
  error_rate = json_field m.error_rate;
})

abbrev pub json_progress : Option Progress → Option Progress
json_progress none = none
json_progress (some g) = some (record g {
  completed_steps = json_field g.completed_steps;
  total_steps = json_field g.total_steps;
})

unfoldable pub json_route : RouteState → RouteState
json_route r = record r { metadata = json_metadata r.metadata; metrics = json_metrics r.metrics }

unfoldable pub json_collaboration : CollaborationState → CollaborationState
json_collaboration c = record c {
  metadata = json_metadata c.metadata;
  progress = json_progress c.progress;
}

-- The pairs of a map, with the values changed.
unfoldable pub json_pairs {ℓ} : {V : Type ℓ} → (V → V) → JsMap V → JsMap V
json_pairs change [] = []
json_pairs change ((k, v) ∷ m) = (k, change v) ∷ json_pairs change m

-- `JSON.parse(JSON.stringify(state))`: the lists of pairs stay lists of pairs.
unfoldable pub json : PersistedState → PersistedState
unfolding json_snapshot json_route json_collaboration json_pairs
json p = record {
  route_states = json_pairs json_route p.route_states;
  collaboration_states = json_pairs json_collaboration p.collaboration_states;
  snapshots = map json_snapshot p.snapshots;
}

-- The interface `PersistenceAdapter`, with what it stores in made explicit. `none` is a thrown error.
-- `opened` is the store of a new adapter, from the one that the adapter before left.
pub record Adapter : Type 1 where
  pub Store : Type 0
  pub opened : Store → Store
  pub load : Store → PersistedState
  pub save : PersistedState → Store → Option Store

-- `InMemoryPersistence`: a new one starts empty.
abbrev pub memory : Adapter
memory = record {
  Store = PersistedState;
  opened = λ s. no_state;
  load = λ s. json s;
  save = λ p s. some (json p);
}

-- What the file at the path holds.
pub data FileContent : Type 0 where
  missing unreadable : FileContent
  holds : PersistedState → FileContent

pub record Disk : Type 0 where
  pub content : FileContent
  pub writable : Bool

unfoldable pub load_file : Disk → PersistedState
unfolding no_state
load_file d = elim d.content [ missing ↦ no_state | unreadable ↦ no_state | holds p ↦ p ]

unfoldable pub save_file : PersistedState → Disk → Option Disk
save_file p d = if d.writable then some (record d { content = holds (json p) }) else none

-- `FilePersistence`: the file stays as it was left.
abbrev pub file : Adapter
file = record {
  Store = Disk;
  opened = λ d. d;
  load = λ d. load_file d;
  save = λ p d. save_file p d;
}
