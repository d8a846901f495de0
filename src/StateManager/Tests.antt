-- ===== src/StateManager/Tests.antt =====
-- Runs of the state manager on the store in memory and on a file, and of its usage of the customers.
use cam_protocol.Base.{
  ℕ, ◌+◌, ◌≤◌, ◌≡◌, ◌⊎◌, refl, max, true, false, none, some, List, [], ◌∷◌, arith, length,
}
use cam_protocol.Errors.{ok, throw, cam_error}
use cam_protocol.JsMap
use cam_protocol.Persistence.{
  RouteState, StateSnapshot, memory, file, missing, no_state, json, json_snapshot, active,
  load_file, save_file, json_route, json_collaboration, json_pairs, json_fields, json_value,
  is_plain, field, number, no_field, undefined_, date, iso_text, not_finite, null,
}
use cam_protocol.StateManager.{
  StateManager, init, set_route_state, get_route_state, get_collaboration_state, shutdown,
  restore_from_snapshot, restore_snapshot, restore_collaboration, cleanup_expired_states,
  restore_failed, snapshot_of, find_snapshot, get_snapshot, persist, create_snapshot,
  snapshot_and_persist, push_snapshot, emit_state_change, write_route_state, deliveries,
  drop_expired, emit_all, expired_keys, count_over, add_state_change_listener,
}
use cam_protocol.StateManager.Usage
use cam_protocol.StateManager.Snapshots
use cam_protocol.StateManager.Bounded
use cam_protocol.StateManager.Restart

program : Unit {0}
unfolding init set_route_state get_route_state get_collaboration_state shutdown
    restore_from_snapshot restore_snapshot restore_collaboration cleanup_expired_states persist
    create_snapshot find_snapshot get_snapshot snapshot_and_persist push_snapshot emit_state_change
    write_route_state deliveries drop_expired emit_all expired_keys count_over JsMap.get JsMap.set
    JsMap.reject json json_snapshot json_route json_collaboration json_pairs json_value is_plain
    load_file save_file no_state add_state_change_listener
program = tt

abbrev route : ℕ → RouteState
route t = record {
  route_id = "r";
  status = active;
  last_updated = 0;
  expires_at = some t;
  metadata = some (field "weight" (number "3") no_field);
  metrics = none;
}

abbrev start : StateManager memory
unfolding program
start = add_state_change_listener memory (init memory (some 2) no_state) "log"

abbrev written : StateManager memory
unfolding program
written = (set_route_state memory start "r" (route 90) 10).0

abbrev snapshot : StateSnapshot
unfolding program
snapshot = snapshot_of memory (write_route_state memory start "r" (route 90) 10) 10

restore-set_route_state_example :
    let back = (restore_from_snapshot memory written 10 30).0 in
    let then_ = (set_route_state memory start "r" (route 90) 10).0 in
    (back.route_states ≡ then_.route_states)
    × (back.collaboration_states ≡ then_.collaboration_states)
unfolding program
restore-set_route_state_example =
    Snapshots.restore-set_route_state memory start written "r" (route 90) 10 30 (omega arith) refl
      refl

run-IsBounded_example :
    length
      (Bounded.run memory start (
        Bounded.Call.sets_route "r" (route 90) 10
        ∷ Bounded.Call.sets_route "r" (route 95) 20
        ∷ Bounded.Call.cleans 99
        ∷ [])).snapshots
    ≤ 2
unfolding program
run-IsBounded_example =
    Bounded.run-IsBounded memory 2 start
      (Bounded.Call.sets_route "r" (route 90) 10
        ∷ Bounded.Call.sets_route "r" (route 95) 20
        ∷ Bounded.Call.cleans 99
        ∷ [])
      refl (omega arith)

-- The manager on a file that can be written, which held nothing.
abbrev on_file : StateManager file
unfolding program
on_file = init file (some 2) (record { content = missing; writable = true })

abbrev stored : StateManager file
unfolding program
stored = (set_route_state file on_file "r" (route 90) 10).0

abbrev stored_snapshot : StateSnapshot
unfolding program
stored_snapshot = snapshot_of file (write_route_state file on_file "r" (route 90) 10) 10

init-shutdown_example :
    let q = init file none (shutdown file stored).0.persistence in
    (q.route_states ≡ stored.route_states) × (q.collaboration_states ≡ stored.collaboration_states)
unfolding program
init-shutdown_example =
    Restart.init-shutdown file Restart.file-LoadsJson stored none refl ((refl, refl), tt) tt

restore-init_example :
    let q = init file none (shutdown file stored).0.persistence in
    restore_from_snapshot file q 10 30 ≡ (q, throw restore_failed)
unfolding program
restore-init_example =
    Restart.restore-init file Restart.file-LoadsJson stored none 10 30 stored_snapshot refl refl

-- A file that cannot be written: the update throws and stays.
abbrev read_only : StateManager file
unfolding program
read_only = init file none (record { content = missing; writable = false })

get-set_route_state_example :
    let (q, result) = set_route_state file read_only "r" (route 90) 10 in
    ((result ≡ ok tt)
      ⊎ (result ≡ throw (cam_error "Failed to update route state" "STATE_UPDATE_FAILED")))
    × (get_route_state file q "r" ≡ some (record (route 90) { last_updated = 10 }))
    × (get_collaboration_state file q "r" ≡ none)
unfolding program
get-set_route_state_example = Snapshots.get-set_route_state file read_only "r" "r" (route 90) 10

unsaved_test :
    (set_route_state file read_only "r" (route 90) 10).1
    ≡ throw (cam_error "Failed to update route state" "STATE_UPDATE_FAILED")
unfolding program
unsaved_test = refl

-- What the store in memory held is not there for the next manager.
forgotten_test : (init memory none (shutdown memory written).0.persistence).route_states ≡ []
unfolding program
forgotten_test = refl

-- A field that JSON leaves out is gone after the restart, and a date is a text.
json_test :
    json_fields (field "f" undefined_ (field "d" (date 5) (field "n" not_finite no_field)))
    ≡ field "d" (iso_text 5) (field "n" null no_field)
unfolding program
json_test = refl

abbrev month : ℕ → ℕ × ℕ
month now = (0, 1000)

abbrev ann : Usage.CustomerUsage
unfolding Usage.new_usage
ann = Usage.new_usage month "ann" 5

abbrev records : List Usage.Entry
records =
    Usage.Entry.request "ann" 7 3 10
    ∷ Usage.Entry.agents "ann" 4 11
    ∷ Usage.Entry.request "bob" 9 9 12
    ∷ []

get-apply_all_example :
    (v : Usage.CustomerUsage) × (JsMap.get "ann" (Usage.apply_all month (("ann", ann) ∷ []) records)
      ≡ some v)
    × (v.requests ≡ ann.requests + Usage.requests_of "ann" records)
    × (v.tokens ≡ ann.tokens + Usage.tokens_of "ann" records)
    × (v.cost ≡ ann.cost + Usage.cost_of "ann" records)
    × (v.agents ≡ max ann.agents (Usage.most_agents "ann" records))
unfolding JsMap.get
get-apply_all_example = Usage.get-apply_all month (("ann", ann) ∷ []) "ann" ann records refl

-- The first request and the expiry of the route are told to the listener, in order.
sent_test : length (cleanup_expired_states memory written 91).0.sent ≡ 2
unfolding program
sent_test = refl
