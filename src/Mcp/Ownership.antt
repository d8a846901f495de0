-- ===== src/Mcp/Ownership.antt =====
-- Whose the tools are: every tool of the registry is of a server whose client is there.
use cam_protocol.Base.{
  bools_differ, ℕ, ◌≡◌, refl, sym, ap, subst, ◌∙◌, String, true, false, not, ◌&&◌, some, List, [],
  ◌∷◌, map, arith, str_eq, All, if_both, eq_iff, Option-cases, inl, inr,
}
use cam_protocol.JsMap
use cam_protocol.JsMap.{JsMap}
use cam_protocol.Mcp.Types.{Outcome, returned, raised, ServerConfig, Tool, RegisteredTool}
use cam_protocol.Mcp.Client
use cam_protocol.Mcp.Client.{
  McpSdk, McpClient, connect, discover, create_transport, get_registered_tools, registered_tool,
}
use cam_protocol.Mcp.Metrics.{
  Report, succeeded, failed, update_tool_metrics, count_call, count_latency, count_failure,
}
use cam_protocol.Mcp.Registry
use cam_protocol.Mcp.Registry.{
  get_client, Registry, drop_server, put_all, put_from, refresh_server_tools, remove_server,
  after_connect, add_server, refresh_one, refresh_each, refresh_all, shutdown,
}

-- Every client stands under the id of its server.
abbrev pub AllKeyed : JsMap McpClient → Type 0
AllKeyed = All (λ e. e.1.config.id ≡ e.0)

abbrev pub IsOwned : JsMap McpClient → String × RegisteredTool → Type 0
IsOwned clients e = JsMap.has e.1.server_id clients ≡ true

abbrev pub IsOrdered : Registry → Type 0
IsOrdered s = AllKeyed s.clients × All (IsOwned s.clients) s.tools

put_all-All :
    (P : String × RegisteredTool → Type 0) (m : JsMap RegisteredTool) (ts : List RegisteredTool)
    → All P m
    → All (λ t. P (t.id, t)) ts
    → All P (put_all (λ (t : RegisteredTool). t.id) m ts)
unfolding put_all
put_all-All P m [] h k = h
put_all-All P m (t ∷ ts) h (p, k) =
    put_all-All P (JsMap.set t.id t m) ts (JsMap.set-All P t.id t m p h) k

-- The tools that a client registers are of its server.
registered-IsOwned :
    (clients : JsMap McpClient) (config : ServerConfig) (m : JsMap Tool)
    → JsMap.has config.id clients ≡ true
    → All (λ (t : RegisteredTool). IsOwned clients (t.id, t)) (map (registered_tool config) m)
unfolding registered_tool
registered-IsOwned clients config [] h = tt
registered-IsOwned clients config ((name, t) ∷ m) h = (h, registered-IsOwned clients config m h)

drop_server-IsOwned :
    (clients : JsMap McpClient) (id : String) (s : Registry)
    → All (IsOwned clients) s.tools
    → All (λ e. IsOwned clients e × (str_eq e.1.server_id id ≡ false)) (drop_server id s).tools
unfolding drop_server
drop_server-IsOwned clients id s h =
    JsMap.reject-All (IsOwned clients) (λ (t : RegisteredTool). str_eq t.server_id id) s.tools h

get-has_client :
    (id : String) (clients : JsMap McpClient) (c : McpClient)
    → JsMap.get id clients ≡ some c
    → JsMap.has id clients ≡ true
get-has_client id clients c e = ground (arith, JsMap.has-get id clients)

put_from-IsOwned :
    (s : Registry) (c : McpClient) (id : String)
    → All (IsOwned s.clients) s.tools
    → JsMap.has c.config.id s.clients ≡ true
    → All (IsOwned s.clients) (put_from c (drop_server id s)).tools
unfolding put_from get_registered_tools
put_from-IsOwned s c id owned there =
    put_all-All (IsOwned s.clients) (drop_server id s).tools (get_registered_tools c)
      (JsMap.All-map (λ e. IsOwned s.clients e × (str_eq e.1.server_id id ≡ false))
        (IsOwned s.clients) (λ x p. p.0) (drop_server id s).tools
        (drop_server-IsOwned s.clients id s owned))
      (registered-IsOwned s.clients c.config c.tools there)

refresh_server_tools-IsOrdered :
    (s : Registry) (id : String) → IsOrdered s → IsOrdered (refresh_server_tools s id)
unfolding refresh_server_tools drop_server put_from
refresh_server_tools-IsOrdered s id (keyed, owned) = elim (Option-cases (JsMap.get id s.clients)) [
  | inl e ↦ rw (e, refresh_server_tools) (keyed, owned)
  | inr (c, e) ↦
      let same : c.config.id ≡ id =
        JsMap.get-All (λ (x : String × McpClient). x.1.config.id ≡ x.0) id c s.clients keyed e in
      let there : JsMap.has c.config.id s.clients ≡ true =
        ap (λ k. JsMap.has k s.clients) same ∙ get-has_client id s.clients c e in
      rw (e, refresh_server_tools)
        (if_both IsOrdered c.connected (λ f. (keyed, put_from-IsOwned s c id owned there))
          (λ f. (keyed, owned)))
]

set-IsOrdered :
    (s : Registry) (id : String) (c : McpClient)
    → c.config.id ≡ id
    → IsOrdered s
    → IsOrdered (record s { clients = JsMap.set id c s.clients })
set-IsOrdered s id c same (keyed, owned) = (
  JsMap.set-All (λ (x : String × McpClient). x.1.config.id ≡ x.0) id c s.clients same keyed,
  JsMap.All-map (IsOwned s.clients) (IsOwned (JsMap.set id c s.clients))
      (λ x h. ground (arith, JsMap.has-set id x.1.server_id c s.clients)) s.tools owned,
)

after_connect-IsOrdered :
    (s : Registry) (id : String) (x : McpClient × Outcome (Unit {0}))
    → x.0.config.id ≡ id
    → IsOrdered s
    → IsOrdered (after_connect s id x)
after_connect-IsOrdered s id (c, raised e) same h = set-IsOrdered s id c same h
after_connect-IsOrdered s id (c, returned u) same h =
    refresh_server_tools-IsOrdered (record s { clients = JsMap.set id c s.clients }) id
      (set-IsOrdered s id c same h)

drop_removed :
    (s : Registry) (id : String)
    → IsOrdered s
    → IsOrdered (drop_server id (record s { clients = JsMap.delete id s.clients }))
unfolding drop_server
drop_removed s id (keyed, owned) = (
  JsMap.delete-All (λ (x : String × McpClient). x.1.config.id ≡ x.0) id s.clients keyed,
  JsMap.All-map (λ e. IsOwned s.clients e × (str_eq e.1.server_id id ≡ false))
      (IsOwned (JsMap.delete id s.clients))
      (λ x h.
        let (owns, other) = h in
        ground (
          arith,
          JsMap.has-delete id x.1.server_id s.clients,
          eq_iff id x.1.server_id,
          eq_iff x.1.server_id id,
        ))
      (drop_server id s).tools (drop_server-IsOwned s.clients id s owned),
)

remove_server-IsOrdered :
    (s : Registry) (id : String) → IsOrdered s → IsOrdered (remove_server s id)
unfolding remove_server
remove_server-IsOrdered s id h = elim (Option-cases (JsMap.get id s.clients)) [
  | inl e ↦ rw (e, remove_server) h
  | inr (c, e) ↦ rw (e, remove_server) (drop_removed s id h)
]

count_call-server_id :
    (t : RegisteredTool) (report : Report) (now : ℕ)
    → (count_call t report now).server_id ≡ t.server_id
unfolding count_call count_latency count_failure
count_call-server_id t (succeeded latency) now = refl
count_call-server_id t (failed latency error) now = refl

update_tool_metrics-IsOrdered :
    (s : Registry) (id : String) (report : Report) (now : ℕ)
    → IsOrdered s
    → IsOrdered (update_tool_metrics s id report now)
unfolding update_tool_metrics
update_tool_metrics-IsOrdered s id report now (keyed, owned) =
    elim (Option-cases (JsMap.get id s.tools)) [
      | inl e ↦ rw (e, update_tool_metrics) (keyed, owned)
      | inr (t, e) ↦
          rw (e, update_tool_metrics)
            (
              keyed,
              JsMap.set-All (IsOwned s.clients) id (count_call t report now) s.tools
                  (subst (λ k. JsMap.has k s.clients ≡ true)
                    (sym (count_call-server_id t report now))
                    (JsMap.get-All (IsOwned s.clients) id t s.tools owned e))
                  owned,
            )
    ]

module _ (sdk : McpSdk) where
  connect-config : (c : McpClient) (now : ℕ) → (connect sdk c now).0.config ≡ c.config
  unfolding connect discover
  connect-config c now =
      if_both (λ (x : McpClient × Outcome (Unit {0})). x.0.config ≡ c.config) c.connected
        (λ e. refl) (λ e. tried (create_transport c.config) (sdk.connect c.config now))
    where
      tried :
          (a b : Outcome (Unit {0}))
          → (elim a as (λ (x : Outcome (Unit {0})). McpClient × Outcome (Unit {0})) [
            | raised e ↦ (c, raised e)
            | returned u ↦ elim b as (λ (x : Outcome (Unit {0})). McpClient × Outcome (Unit {0})) [
              | raised e ↦ (c, raised e)
              | returned v ↦ (discover sdk c now, returned tt)
            ]
          ]).0.config
            ≡ c.config
      tried (raised e) b = refl
      tried (returned u) (raised e) = refl
      tried (returned u) (returned v) = refl

  add_server-IsOrdered :
      (s : Registry) (config : ServerConfig) (now : ℕ)
      → IsOrdered s
      → IsOrdered (add_server sdk s config now)
  unfolding add_server Client.init
  add_server-IsOrdered s config now h =
      if_both IsOrdered (config.enabled && not (JsMap.has config.id s.clients))
        (λ e.
          after_connect-IsOrdered s config.id (connect sdk (Client.init config) now)
            (ap (λ (c : ServerConfig). c.id) (connect-config (Client.init config) now)) h)
        (λ e. h)

  refresh_one-IsOrdered :
      (s : Registry) (id : String) (now : ℕ) → IsOrdered s → IsOrdered (refresh_one sdk s id now)
  unfolding refresh_one
  refresh_one-IsOrdered s id now (keyed, owned) = elim (Option-cases (JsMap.get id s.clients)) [
    | inl e ↦ rw (e, refresh_one) (keyed, owned)
    | inr (c, e) ↦
        rw (e, refresh_one)
          (after_connect-IsOrdered s id (connect sdk c now)
            (ap (λ (k : ServerConfig). k.id) (connect-config c now)
              ∙ JsMap.get-All (λ (x : String × McpClient). x.1.config.id ≡ x.0) id c s.clients keyed
                  e)
            (keyed, owned))
  ]

  refresh_each-IsOrdered :
      (s : Registry) (ids : List String) (now : ℕ)
      → IsOrdered s
      → IsOrdered (refresh_each sdk s ids now)
  refresh_each-IsOrdered s [] now h = h
  refresh_each-IsOrdered s (id ∷ ids) now h =
      refresh_each-IsOrdered (refresh_one sdk s id now) ids now (refresh_one-IsOrdered s id now h)

  -- The registries that the calls lead to, from the empty one on.
  pub data Reached : Registry → Type 0 where
    empty : Reached Registry.init
    added :
        (s : Registry) (config : ServerConfig) (now : ℕ)
        → Reached s
        → Reached (add_server sdk s config now)
    removed : (s : Registry) (id : String) → Reached s → Reached (remove_server s id)
    refreshed : (s : Registry) (now : ℕ) → Reached s → Reached (refresh_all sdk s now)
    counted :
        (s : Registry) (id : String) (report : Report) (now : ℕ)
        → Reached s
        → Reached (update_tool_metrics s id report now)
    closed : (s : Registry) → Reached s → Reached (shutdown s)

  reached-IsOrdered : (s : Registry) → Reached s → IsOrdered s
  unfolding Registry.init shutdown refresh_all
  reached-IsOrdered _ empty = (tt, tt)
  reached-IsOrdered _ (added s config now r) =
      add_server-IsOrdered s config now (reached-IsOrdered s r)
  reached-IsOrdered _ (removed s id r) = remove_server-IsOrdered s id (reached-IsOrdered s r)
  reached-IsOrdered _ (refreshed s now r) =
      refresh_each-IsOrdered s (map (λ e. e.0) s.clients) now (reached-IsOrdered s r)
  reached-IsOrdered _ (counted s id report now r) =
      update_tool_metrics-IsOrdered s id report now (reached-IsOrdered s r)
  reached-IsOrdered _ (closed s r) = (tt, tt)

  -- In every registry that the calls lead to, whatever the servers answer, each tool is of a server
  -- whose client is there and stands under the id of its configuration.
  pub reached-get_client :
      (s : Registry) (key : String) (t : RegisteredTool)
      → Reached s
      → JsMap.get key s.tools ≡ some t
      → (c : McpClient) × (get_client s t.server_id ≡ some c) × (c.config.id ≡ t.server_id)
  unfolding get_client
  reached-get_client s key t r e =
      let (keyed, owned) = reached-IsOrdered s r in
      let there = JsMap.get-All (IsOwned s.clients) key t s.tools owned e in
      elim (Option-cases (JsMap.get t.server_id s.clients)) [
        | inl f ↦ absurd (bools_differ (sym there ∙ JsMap.get-has t.server_id s.clients f))
        | inr (c, f) ↦ (
          c,
          f,
          JsMap.get-All (λ (x : String × McpClient). x.1.config.id ≡ x.0) t.server_id c s.clients
              keyed f,
        )
      ]
