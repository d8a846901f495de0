-- ===== src/Mcp/Registry.antt =====
-- The tool registry: src/mcp/tool-registry.ts, class `MCPToolRegistry`. A method that waits for the
-- MCP package takes it as `sdk`, with the clock's reading.
use cam_protocol.Base.{
  ℕ, String, Bool, true, not, ◌&&◌, Option, none, some, List, [], ◌∷◌, map, leb, str_eq,
  if◌then◌else◌, length, filter, any,
}
use cam_protocol.JsMap
use cam_protocol.JsMap.{JsMap}
use cam_protocol.JsText.{contains, mentions, truthy}
use cam_protocol.Mcp.Types.{
  Outcome, returned, raised, TrustTier, untrusted, standard, trusted, privileged, ServerConfig,
  RegisteredTool, RegisteredResource, RegisteredPrompt, ServerConnection,
}
use cam_protocol.Mcp.Client
use cam_protocol.Mcp.Client.{
  McpSdk, McpClient, connect, disconnect, get_registered_tools, get_registered_resources,
  get_registered_prompts, get_connection_status,
}

pub record Registry : Type 0 where
  pub clients : JsMap McpClient
  pub tools : JsMap RegisteredTool
  pub resources : JsMap RegisteredResource
  pub prompts : JsMap RegisteredPrompt

unfoldable pub init : Registry
init = record { clients = []; tools = []; resources = []; prompts = [] }

-- The loops that delete what is of the server.
unfoldable pub drop_server : String → Registry → Registry
drop_server id s = record s {
  tools = JsMap.reject (λ (t : RegisteredTool). str_eq t.server_id id) s.tools;
  resources = JsMap.reject (λ (r : RegisteredResource). str_eq r.server_id id) s.resources;
  prompts = JsMap.reject (λ (p : RegisteredPrompt). str_eq p.server_id id) s.prompts;
}

-- Sets each under its id.
unfoldable pub put_all : {A : Type 0} → (A → String) → JsMap A → List A → JsMap A
put_all key m [] = m
put_all key m (x ∷ xs) = put_all key (JsMap.set (key x) x m) xs

unfoldable pub put_from : McpClient → Registry → Registry
unfolding put_all
put_from c s = record s {
  tools = put_all (λ (t : RegisteredTool). t.id) s.tools (get_registered_tools c);
  resources = put_all (λ (r : RegisteredResource). r.id) s.resources (get_registered_resources c);
  prompts = put_all (λ (p : RegisteredPrompt). p.id) s.prompts (get_registered_prompts c);
}

unfoldable pub refresh_server_tools : Registry → String → Registry
unfolding drop_server put_from
refresh_server_tools s id = elim (JsMap.get id s.clients) [
  | none ↦ s
  | some c ↦ if c.connected then put_from c (drop_server id s) else s
]

unfoldable pub remove_server : Registry → String → Registry
unfolding drop_server
remove_server s id = elim (JsMap.get id s.clients) [
  | none ↦ s
  | some c ↦ drop_server id (record s { clients = JsMap.delete id s.clients })
]

-- The client after it tried to connect, in the map, and refreshed where it did.
abbrev pub after_connect : Registry → String → McpClient × Outcome (Unit {0}) → Registry
after_connect s id (c, raised e) = record s { clients = JsMap.set id c s.clients }
after_connect s id (c, returned u) =
    refresh_server_tools (record s { clients = JsMap.set id c s.clients }) id

module _ (sdk : McpSdk) where
  unfoldable pub add_server : Registry → ServerConfig → ℕ → Registry
  unfolding refresh_server_tools
  add_server s config now =
      if config.enabled && not (JsMap.has config.id s.clients)
      then after_connect s config.id (connect sdk (Client.init config) now)
      else s

  -- The turn of one server.
  unfoldable pub refresh_one : Registry → String → ℕ → Registry
  refresh_one s id now = elim (JsMap.get id s.clients) [
    | none ↦ s
    | some c ↦ after_connect s id (connect sdk c now)
  ]

  abbrev pub refresh_each : Registry → List String → ℕ → Registry
  refresh_each s [] now = s
  refresh_each s (id ∷ ids) now = refresh_each (refresh_one s id now) ids now

  unfoldable pub refresh_all : Registry → ℕ → Registry
  unfolding refresh_one
  refresh_all s now = refresh_each s (map (λ e. e.0) s.clients) now

-- The first tool of the name.
unfoldable pub named : String → JsMap RegisteredTool → Option RegisteredTool
named name [] = none
named name ((id, t) ∷ m) = if str_eq t.tool.name name then some t else named name m

unfoldable pub get_tool : Registry → String → Option RegisteredTool
unfolding named
get_tool s id_or_name =
    if JsMap.has id_or_name s.tools then JsMap.get id_or_name s.tools else named id_or_name s.tools

pub record Criteria : Type 0 where
  pub name : Option String
  pub tags : Option (List String)
  pub trust_tier : Option TrustTier
  pub max_cost : Option ℕ
  pub data_classifications : Option (List String)
  pub server_id : Option String

-- The place in the list of tiers.
abbrev pub tier_rank : TrustTier → ℕ
tier_rank untrusted = 0
tier_rank standard = 1
tier_rank trusted = 2
tier_rank privileged = 3

unfoldable pub trust_tier_matches : TrustTier → TrustTier → Bool
trust_tier_matches actual required = leb (tier_rank required) (tier_rank actual)

abbrev pub fits_name : Option String → RegisteredTool → Bool
fits_name none t = true
fits_name (some name) t = mentions t.tool.name name

abbrev pub fits_server : Option String → RegisteredTool → Bool
fits_server none t = true
fits_server (some id) t = str_eq t.server_id id

abbrev pub fits_tier : Option TrustTier → RegisteredTool → Bool
fits_tier none t = true
fits_tier (some tier) t = trust_tier_matches t.trust_tier tier

abbrev pub fits_cost : Option ℕ → RegisteredTool → Bool
fits_cost none t = true
fits_cost (some cost) t = leb t.cost_estimate cost

-- Any tag that is asked for, in any tag of the tool; no tags ask for nothing.
abbrev pub fits_tags : Option (List String) → RegisteredTool → Bool
fits_tags none t = true
fits_tags (some []) t = true
fits_tags (some (w ∷ ws)) t = any (λ tag. any (λ own. mentions own tag) t.tags) (w ∷ ws)

abbrev pub fits_data : Option (List String) → RegisteredTool → Bool
fits_data none t = true
fits_data (some []) t = true
fits_data (some (d ∷ ds)) t = not (any (λ own. not (contains own (d ∷ ds))) t.data_classifications)

-- None of the loop's `continue`s is taken.
unfoldable pub meets : Criteria → RegisteredTool → Bool
unfolding trust_tier_matches
meets c t =
    fits_name (truthy c.name) t
    && fits_server (truthy c.server_id) t
    && fits_tier c.trust_tier t
    && fits_cost c.max_cost t
    && fits_tags c.tags t
    && fits_data c.data_classifications t

unfoldable pub find_tools : Registry → Criteria → List RegisteredTool
unfolding meets
find_tools s c = filter (meets c) (JsMap.values s.tools)

unfoldable pub get_all_tools : Registry → List RegisteredTool
get_all_tools s = JsMap.values s.tools

unfoldable pub get_all_resources : Registry → List RegisteredResource
get_all_resources s = JsMap.values s.resources

unfoldable pub get_all_prompts : Registry → List RegisteredPrompt
get_all_prompts s = JsMap.values s.prompts

unfoldable pub get_server_status : Registry → String → Option ServerConnection
get_server_status s id = elim (JsMap.get id s.clients) [
  | none ↦ none
  | some c ↦ some (get_connection_status c)
]

unfoldable pub get_all_server_statuses : Registry → List ServerConnection
get_all_server_statuses s = map get_connection_status (JsMap.values s.clients)

unfoldable pub get_client : Registry → String → Option McpClient
get_client s id = JsMap.get id s.clients

pub record RegistryStats : Type 0 where
  pub server_count : ℕ
  pub connected_servers : ℕ
  pub tool_count : ℕ
  pub resource_count : ℕ
  pub prompt_count : ℕ

unfoldable pub get_stats : Registry → RegistryStats
get_stats s = record {
  server_count = JsMap.size s.clients;
  connected_servers = length (filter (λ (c : McpClient). c.connected) (JsMap.values s.clients));
  tool_count = JsMap.size s.tools;
  resource_count = JsMap.size s.resources;
  prompt_count = JsMap.size s.prompts;
}

-- All clients disconnect, and nothing is left.
unfoldable pub shutdown : Registry → Registry
shutdown s = init
