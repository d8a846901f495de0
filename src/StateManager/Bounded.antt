-- ===== src/StateManager/Bounded.antt =====
-- The snapshots in the run of a manager.
use cam_protocol.Base.{
  ℕ, ◌≤◌, ◌≡◌, ap, subst, sym, ◌∙◌, String, some, List, [], ◌∷◌, ◌++◌, arith, ltb, length,
  Option-cases, inl, inr, if_both,
}
use cam_protocol.Errors.{Result}
use cam_protocol.Persistence.{
  RouteState, CollaborationState, MapField, entries, plain_object, Adapter,
}
use cam_protocol.StateManager.{
  StateManager, persist, snapshot_and_persist, snapshot_of, write_route_state,
  write_collaboration_state, set_route_state, set_collaboration_state, cleanup_expired_states,
  restore_from_snapshot, restore_snapshot, get_snapshot, drop_expired, shutdown, count_over,
  persisted,
}
use cam_protocol.StateManager.Snapshots.{
  Wrote, Wrote-set_route_state, Wrote-set_collaboration_state, Wrote-snapshot_and_persist,
  length-limited-le, drop_expired-fields, restore_entries,
}

module _ (a : Adapter) where
  pub data Call : Type 0 where
    sets_route : String → RouteState → ℕ → Call
    sets_collaboration : String → CollaborationState → ℕ → Call
    cleans : ℕ → Call
    restores : ℕ → ℕ → Call
    shuts_down : Call

  unfoldable pub step : StateManager a → Call → StateManager a
  step s (sets_route id st now) = (set_route_state a s id st now).0
  step s (sets_collaboration id st now) = (set_collaboration_state a s id st now).0
  step s (cleans now) = (cleanup_expired_states a s now).0
  step s (restores t now) = (restore_from_snapshot a s t now).0
  step s shuts_down = (shutdown a s).0

  unfoldable pub run : StateManager a → List Call → StateManager a
  run s [] = s
  run s (c ∷ cs) = run (step s c) cs

  abbrev pub IsBounded : ℕ → StateManager a → Type 0
  IsBounded n s = (s.max_snapshots ≡ n) × (length s.snapshots ≤ n)

  Wrote-IsBounded :
      (n now : ℕ) (w q : StateManager a) → w.max_snapshots ≡ n → Wrote a w now q → IsBounded n q
  Wrote-IsBounded n now w q e v = (
    v.same_limit ∙ e,
    omega (
      arith,
      ap length v.taken,
      length-limited-le a w.max_snapshots (w.snapshots ++ snapshot_of a w now ∷ []),
    ),
  )

  drop_expired-IsBounded :
      (n now : ℕ) (s : StateManager a) → IsBounded n s → IsBounded n (drop_expired a s now)
  drop_expired-IsBounded n now s b = let (sent', e) = drop_expired-fields a s now in rw e b

  snapshot_and_persist-IsBounded :
      (n now : ℕ) (s : StateManager a)
      → IsBounded n s
      → IsBounded n (snapshot_and_persist a s now).0
  snapshot_and_persist-IsBounded n now s b =
      Wrote-IsBounded n now s _ b.0 (Wrote-snapshot_and_persist a s now)

  cleanup-IsBounded :
      (n now : ℕ) (s : StateManager a)
      → IsBounded n s
      → IsBounded n (cleanup_expired_states a s now).0
  unfolding cleanup_expired_states
  cleanup-IsBounded n now s b =
      let d = drop_expired-IsBounded n now s b in
      if_both (λ (r : StateManager a × Result (Unit {0})). IsBounded n r.0)
        (ltb 0 (count_over a s now))
        (λ _. snapshot_and_persist-IsBounded n now (drop_expired a s now) d) (λ _. d)

  restore_snapshot-IsBounded :
      (n t now : ℕ) (s : StateManager a) (r : MapField RouteState) (c : MapField CollaborationState)
      → IsBounded n s
      → IsBounded n (restore_snapshot a s t r c now).0
  unfolding restore_snapshot
  restore_snapshot-IsBounded n t now s plain_object c b = b
  restore_snapshot-IsBounded n t now s (entries m) plain_object b = b
  restore_snapshot-IsBounded n t now s (entries m) (entries k) b =
      let (_, _, e, f) = restore_entries a s t now m k in
      (f ∙ b.0, subst (λ ss. length ss ≤ n) (sym e) b.1)

  restore-IsBounded :
      (n t now : ℕ) (s : StateManager a)
      → IsBounded n s
      → IsBounded n (restore_from_snapshot a s t now).0
  unfolding restore_from_snapshot
  restore-IsBounded n t now s b = elim (Option-cases (get_snapshot a s (some t))) [
    | inl e ↦ rw (e, restore_from_snapshot) b
    | inr (x, e) ↦
        rw (e, restore_from_snapshot)
          (restore_snapshot-IsBounded n t now s x.route_states x.collaboration_states b)
  ]

  shutdown-IsBounded : (n : ℕ) (s : StateManager a) → IsBounded n s → IsBounded n (shutdown a s).0
  unfolding shutdown persist
  shutdown-IsBounded n s b = elim (Option-cases (a.save (persisted a s) s.persistence)) [
    | inl e ↦ rw (e, shutdown, persist) b
    | inr (p, e) ↦ rw (e, shutdown, persist) (b.0, omega arith)
  ]

  step-IsBounded : (n : ℕ) (s : StateManager a) (c : Call) → IsBounded n s → IsBounded n (step s c)
  unfolding step write_route_state write_collaboration_state
  step-IsBounded n s (sets_route id st now) b =
      Wrote-IsBounded n now _ _ b.0 (Wrote-set_route_state a s id st now)
  step-IsBounded n s (sets_collaboration id st now) b =
      Wrote-IsBounded n now _ _ b.0 (Wrote-set_collaboration_state a s id st now)
  step-IsBounded n s (cleans now) b = cleanup-IsBounded n now s b
  step-IsBounded n s (restores t now) b = restore-IsBounded n t now s b
  step-IsBounded n s shuts_down b = shutdown-IsBounded n s b

  -- A manager that starts within its limit of snapshots stays within it, whichever states are set,
  -- cleaned up or restored and whether it is shut down, in any order, and whichever of the calls fail.
  pub run-IsBounded :
      (n : ℕ) (s : StateManager a) (cs : List Call)
      → s.max_snapshots ≡ n
      → length s.snapshots ≤ n
      → length (run s cs).snapshots ≤ n
  unfolding run
  run-IsBounded n s [] e b = b
  run-IsBounded n s (c ∷ cs) e b =
      let (f, d) = step-IsBounded n s c (e, b) in run-IsBounded n (step s c) cs f d
