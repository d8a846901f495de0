-- ===== src/StateManager/Snapshots.antt =====
-- Reads after writes, the limit of the snapshots, and the way back to one.
use cam_protocol.Base.{
  ℕ, suc, ◌-◌, ◌≤◌, ◌<◌, ◌≡◌, ◌⊎◌, refl, ap, subst, sym, ◌∙◌, String, none, some, List, [], ◌∷◌,
  ◌++◌, arith, ltb, str_eq, if◌then◌else◌, length, length-append, length-drop, drop, zero,
  Option-cases, inl, inr, if_both, map,
}
use cam_protocol.Errors.{Thrown, cam_error, Result, ok, throw}
use cam_protocol.JsMap
use cam_protocol.JsMap.{JsMap}
use cam_protocol.Persistence.{RouteState, CollaborationState, entries, StateSnapshot, Adapter}
use cam_protocol.StateManager.{
  StateManager, StateChangeEvent, emit_state_change, emit_all, persist, persisted, push_snapshot,
  create_snapshot, snapshot_and_persist, snapshot_of, limited, find_snapshot, write_route_state,
  write_collaboration_state, set_route_state, get_route_state, set_collaboration_state,
  get_collaboration_state, restore_from_snapshot, restore_snapshot, get_snapshot, or_fail, restored,
  state_restored, drop_expired, is_over, expired_keys, route_state_expired,
  collaboration_state_expired,
}

module _ (a : Adapter) where
  pub persist-fields :
      (s : StateManager a) → (p : a.Store) × ((persist a s).0 ≡ record s { persistence = p })
  unfolding persist
  persist-fields s = elim (Option-cases (a.save (persisted a s) s.persistence)) [
    | inl e ↦ (s.persistence, ground arith)
    | inr (p, e) ↦ (p, ground arith)
  ]

  -- Whether or not the store could be saved, only the snapshots and the store have changed.
  pub snapshot_and_persist-fields :
      (s : StateManager a) (now : ℕ)
      → (p : a.Store) × ((snapshot_and_persist a s now).0
          ≡ record (push_snapshot a s now) { persistence = p })
  unfolding snapshot_and_persist create_snapshot persist
  snapshot_and_persist-fields s now =
      let q = persisted a (push_snapshot a s now) in
      elim (Option-cases (a.save q s.persistence)) [
        | inl e ↦ (s.persistence, ground arith)
        | inr (p, e) ↦ elim (Option-cases (a.save q p)) [
          | inl f ↦ (p, ground arith)
          | inr (r, f) ↦ (r, ground arith)
        ]
      ]

  pub length-limited-le : (n : ℕ) (ss : List StateSnapshot) → length (limited n ss) ≤ n
  length-limited-le n ss = ground (arith, length-drop (length ss - n) ss)

  or_fail-state : (e : Thrown) (r : StateManager a × Result (Unit {0})) → (or_fail a e r).0 ≡ r.0
  or_fail-state e (s, ok x) = refl
  or_fail-state e (s, throw x) = refl

  -- What a call that writes the states leaves: `w` is the state after the write and its event.
  module _ (w : StateManager a) (now : ℕ) where
    pub record Wrote (q : StateManager a) : Type 0 where
      pub routes : q.route_states ≡ w.route_states
      pub sessions : q.collaboration_states ≡ w.collaboration_states
      pub taken : q.snapshots ≡ limited w.max_snapshots (w.snapshots ++ snapshot_of a w now ∷ [])
      pub same_limit : q.max_snapshots ≡ w.max_snapshots
      pub told : q.sent ≡ w.sent

    pub Wrote-snapshot_and_persist : Wrote (snapshot_and_persist a w now).0
    unfolding push_snapshot
    Wrote-snapshot_and_persist =
        let (p, e) = snapshot_and_persist-fields w now in
        rw e
          (record { routes = refl; sessions = refl; taken = refl; same_limit = refl; told = refl })

  pub Wrote-set_route_state :
      (s : StateManager a) (id : String) (st : RouteState) (now : ℕ)
      → Wrote (write_route_state a s id st now) now (set_route_state a s id st now).0
  unfolding set_route_state
  Wrote-set_route_state s id st now =
      subst (λ q. Wrote (write_route_state a s id st now) now q) (sym (or_fail-state _ _))
        (Wrote-snapshot_and_persist (write_route_state a s id st now) now)

  pub Wrote-set_collaboration_state :
      (s : StateManager a) (id : String) (st : CollaborationState) (now : ℕ)
      → Wrote
          (write_collaboration_state a s id st now)
          now
          (set_collaboration_state a s id st now).0
  unfolding set_collaboration_state
  Wrote-set_collaboration_state s id st now =
      subst (λ q. Wrote (write_collaboration_state a s id st now) now q) (sym (or_fail-state _ _))
        (Wrote-snapshot_and_persist (write_collaboration_state a s id st now) now)

  or_fail-result :
      (e : Thrown) (r : StateManager a × Result (Unit {0}))
      → ((or_fail a e r).1 ≡ ok tt) ⊎ ((or_fail a e r).1 ≡ throw e)
  or_fail-result e (s, ok x) = inl refl
  or_fail-result e (s, throw x) = inr refl

  -- A state that is set is read back under its id with the time of the write, and no other route and
  -- no collaboration changes. The call returns or throws `STATE_UPDATE_FAILED`, and that holds in both
  -- cases: a failed update is not undone.
  pub get-set_route_state :
      (s : StateManager a) (id other : String) (st : RouteState) (now : ℕ)
      → let (q, result) = set_route_state a s id st now in
        ((result ≡ ok tt)
          ⊎ (result ≡ throw (cam_error "Failed to update route state" "STATE_UPDATE_FAILED")))
        × (get_route_state a q other ≡ (
            if str_eq id other
            then some (record st { last_updated = now })
            else get_route_state a s other))
        × (get_collaboration_state a q other ≡ get_collaboration_state a s other)
  unfolding get_route_state get_collaboration_state write_route_state set_route_state
  get-set_route_state s id other st now =
      let w = Wrote-set_route_state s id st now in
      (
        or_fail-result (cam_error "Failed to update route state" "STATE_UPDATE_FAILED")
            (snapshot_and_persist a (write_route_state a s id st now) now),
        ap (JsMap.get other) w.routes
            ∙ JsMap.get-set id other (record st { last_updated = now }) s.route_states,
        ap (JsMap.get other) w.sessions,
      )

  find_snapshot-append :
      (t : ℕ) (ss : List StateSnapshot) (x : StateSnapshot)
      → find_snapshot t ss ≡ none
      → x.timestamp ≡ t
      → find_snapshot t (ss ++ x ∷ []) ≡ some x
  unfolding find_snapshot
  find_snapshot-append t [] x h e = ground arith
  find_snapshot-append t (y ∷ ss) x h e = ground (arith, find_snapshot-append t ss x)

  find_snapshot-drop :
      (t n : ℕ) (ss : List StateSnapshot)
      → find_snapshot t ss ≡ none
      → find_snapshot t (drop n ss) ≡ none
  unfolding find_snapshot
  find_snapshot-drop t zero ss h = h
  find_snapshot-drop t (suc n) [] h = h
  find_snapshot-drop t (suc n) (y ∷ ss) h = find_snapshot-drop t n ss (ground arith)

  drop-append :
      (n : ℕ) (ss : List StateSnapshot) (x : StateSnapshot)
      → n ≤ length ss
      → drop n (ss ++ x ∷ []) ≡ drop n ss ++ x ∷ []
  drop-append zero ss x h = refl
  drop-append (suc n) [] x h = absurd (omega arith)
  drop-append (suc n) (y ∷ ss) x h = drop-append n ss x (omega arith)

  -- The snapshot just taken is found, whatever the limit drops.
  find_snapshot-limited :
      (t n : ℕ) (ss : List StateSnapshot) (x : StateSnapshot)
      → 0 < n
      → find_snapshot t ss ≡ none
      → x.timestamp ≡ t
      → find_snapshot t (limited n (ss ++ x ∷ [])) ≡ some x
  find_snapshot-limited t n ss x pos h e =
      if_both (λ l. find_snapshot t l ≡ some x) (ltb n (length (ss ++ x ∷ [])))
        (λ over.
          let k = length (ss ++ x ∷ []) - n in
          let small : k ≤ length ss = omega (arith, length-append ss (x ∷ [])) in
          rw (drop-append k ss x small)
            (find_snapshot-append t (drop k ss) x (find_snapshot-drop t k ss h) e))
        (λ _. find_snapshot-append t ss x h e)

  pub restored-state : (r : StateManager a × Result (Unit {0})) → (restored a r).0 ≡ r.0
  restored-state (s, ok x) = refl
  restored-state (s, throw x) = refl

  pub restore_entries :
      (s : StateManager a) (t now : ℕ) (r : JsMap RouteState) (c : JsMap CollaborationState)
      → let q = (restore_snapshot a s t (entries r) (entries c) now).0 in
        (q.route_states ≡ r)
        × (q.collaboration_states ≡ c)
        × (q.snapshots ≡ s.snapshots)
        × (q.max_snapshots ≡ s.max_snapshots)
  unfolding restore_snapshot emit_state_change
  restore_entries s t now r c =
      let before : StateManager a = record s { route_states = r; collaboration_states = c } in
      let told = emit_state_change a before (state_restored now t) in
      let (p, e) = persist-fields told in
      rw (restored-state (persist a told), e) (refl, refl, refl, refl)

  -- To restore the snapshot that a write of a route took brings back the states of the routes and of
  -- the collaborations as they were right after the write, from any later state that still has the
  -- snapshot. No older snapshot had the same time, and the limit is not 0.
  pub restore-set_route_state :
      (s q : StateManager a) (id : String) (st : RouteState) (now later : ℕ)
      → 0 < s.max_snapshots
      → find_snapshot now s.snapshots ≡ none
      → find_snapshot now q.snapshots
        ≡ find_snapshot now (set_route_state a s id st now).0.snapshots
      → let back = (restore_from_snapshot a q now later).0 in
        let then_ = (set_route_state a s id st now).0 in
        (back.route_states ≡ then_.route_states)
        × (back.collaboration_states ≡ then_.collaboration_states)
  unfolding restore_from_snapshot get_snapshot write_route_state
  restore-set_route_state s q id st now later pos new still =
      let w = Wrote-set_route_state s id st now in
      let x = snapshot_of a (write_route_state a s id st now) now in
      let found : find_snapshot now q.snapshots ≡ some x =
        still
        ∙ ap (find_snapshot now) w.taken
        ∙ find_snapshot-limited now s.max_snapshots s.snapshots x pos new refl in
      let (r, c, _, _) =
        restore_entries q now later (write_route_state a s id st now).route_states
          (write_route_state a s id st now).collaboration_states in
      rw (found, restore_from_snapshot, get_snapshot) (r ∙ sym w.routes, c ∙ sym w.sessions)

  emit_all-fields :
      (s : StateManager a) (es : List StateChangeEvent)
      → (sent' : List (String × StateChangeEvent)) × (emit_all a s es ≡ record s { sent = sent' })
  unfolding emit_all emit_state_change
  emit_all-fields s [] = (s.sent, refl)
  emit_all-fields s (e ∷ es) = emit_all-fields (emit_state_change a s e) es

  pub drop_expired-fields :
      (s : StateManager a) (now : ℕ)
      → (sent' : List (String × StateChangeEvent)) × (drop_expired a s now ≡ record s {
        route_states = JsMap.reject (λ r. is_over now r.expires_at) s.route_states;
        collaboration_states = JsMap.reject (λ c. is_over now c.expires_at) s.collaboration_states;
        sent = sent';
      })
  unfolding drop_expired
  drop_expired-fields s now =
      emit_all-fields
        (record s {
          route_states = JsMap.reject (λ r. is_over now r.expires_at) s.route_states;
          collaboration_states =
              JsMap.reject (λ c. is_over now c.expires_at) s.collaboration_states;
        })
        (map (λ k. route_state_expired k now)
            (expired_keys (λ (r : RouteState). is_over now r.expires_at) s.route_states)
          ++ map (λ k. collaboration_state_expired k now)
              (expired_keys (λ (c : CollaborationState). is_over now c.expires_at)
                s.collaboration_states))
