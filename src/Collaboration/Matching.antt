-- ===== src/Collaboration/Matching.antt =====
-- What the registry finds: agents for all requirements that can be met, each once.
use cam_protocol.Base.{
  ◌≡◌, refl, ap, sym, ◌∙◌, String, Bool, true, false, ◌||◌, Option, none, some, List, [], ◌∷◌, ◌++◌,
  map, arith, str_eq, if◌then◌else◌, filter, All, eq_iff, Bool-cases, Option-cases, inl, inr,
  is_nil, first_of, sort_by, sort_by-All, first_of-All, filter-All, some-injective, is_nil-first_of,
  is_nil-sort_by,
}
use cam_protocol.JsText.{contains}
use cam_protocol.Collaboration.Registry.{
  AgentInfo, Found, satisfies, candidates, add_candidate, find_step, by_quality,
}

-- Some agent of the list meets the requirement.
unfoldable pub is_met : String → List AgentInfo → Bool
is_met req [] = false
is_met req (a ∷ as_) = if satisfies req a then true else is_met req as_

-- The agent under an id.
unfoldable pub agent_of : String → List AgentInfo → Option AgentInfo
agent_of id [] = none
agent_of id (a ∷ as_) = if str_eq a.id id then some a else agent_of id as_

-- Every agent of the list is the registry's agent of its id.
abbrev pub AllKnown : List AgentInfo → List AgentInfo → Type 0
AllKnown agents = All (λ a. agent_of a.id agents ≡ some a)

unfoldable pub ids_of : List AgentInfo → List String
ids_of = map (λ a. a.id)

-- No text stands twice.
abbrev pub IsDistinct : List String → Type 0
IsDistinct [] = Unit
IsDistinct (t ∷ ts) = (contains t ts ≡ false) × IsDistinct ts

append-All :
    (P : AgentInfo → Type 0) (xs ys : List AgentInfo) → All P xs → All P ys → All P (xs ++ ys)
append-All P [] ys ps qs = qs
append-All P (x ∷ xs) ys (p, ps) qs = (p, append-All P xs ys ps qs)

filter_not_empty :
    (req : String) (as_ : List AgentInfo)
    → is_met req as_ ≡ true
    → is_nil (filter (satisfies req) as_) ≡ false
unfolding is_met
filter_not_empty req [] h = cc
filter_not_empty req (a ∷ as_) h = ground (arith, filter_not_empty req as_)

pub candidates_not_empty :
    (agents : List AgentInfo) (req : String)
    → is_met req agents ≡ true
    → (c : AgentInfo) × (first_of (candidates agents req) ≡ some c)
unfolding candidates
candidates_not_empty agents req h =
    let fit = filter (satisfies req) agents in
    is_nil-first_of (sort_by by_quality fit)
      (is_nil-sort_by by_quality fit ∙ filter_not_empty req agents h)

-- A candidate that is chosen meets the requirement, and is the registry's agent of its id.
pub candidate_lem :
    (agents : List AgentInfo) (req : String) (c : AgentInfo)
    → AllKnown agents agents
    → first_of (candidates agents req) ≡ some c
    → (agent_of c.id agents ≡ some c) × (satisfies req c ≡ true)
unfolding candidates
candidate_lem agents req c known e =
    let Q : AgentInfo → Type 0 = λ a. (agent_of a.id agents ≡ some a) × (satisfies req a ≡ true) in
    let fit = filter (satisfies req) agents in
    first_of-All Q (sort_by by_quality fit) c
      (sort_by-All by_quality Q fit
        (filter-All (λ a. agent_of a.id agents ≡ some a) (satisfies req) agents known))
      e

is_met-append :
    (req : String) (xs ys : List AgentInfo)
    → is_met req (xs ++ ys) ≡ (is_met req xs || is_met req ys)
unfolding is_met
is_met-append req [] ys = refl
is_met-append req (x ∷ xs) ys = ground (arith, is_met-append req xs ys)

-- An agent whose id is there already is there.
is_met-ids_of :
    (agents ms : List AgentInfo) (req : String) (c : AgentInfo)
    → AllKnown agents ms
    → agent_of c.id agents ≡ some c
    → satisfies req c ≡ true
    → contains c.id (ids_of ms) ≡ true
    → is_met req ms ≡ true
unfolding is_met contains ids_of
is_met-ids_of agents [] req c ks k h there = cc
is_met-ids_of agents (m ∷ ms) req c ks k h there = elim (Bool-cases (str_eq m.id c.id)) [
  | inl same ↦
      let again : agent_of c.id agents ≡ some m = rw (← (eq_iff m.id c.id).0 same) ks.0 in
      let is_c : m ≡ c = some-injective m c (sym again ∙ k) in
      let met : satisfies req m ≡ true = rw is_c h in ground arith
  | inr other ↦ ground (arith, is_met-ids_of agents ms req c ks.1 k h)
]

-- The state of the loop: the ids are those of the matched agents, which the registry knows, each once.
pub record IsSound (agents : List AgentInfo) (found : Found) : Type 0 where
  pub same : found.added ≡ ids_of found.matched
  pub known : AllKnown agents found.matched
  pub distinct : IsDistinct (ids_of found.matched)

ids_of-append : (xs ys : List AgentInfo) → ids_of (xs ++ ys) ≡ ids_of xs ++ ids_of ys
unfolding ids_of
ids_of-append [] ys = refl
ids_of-append (x ∷ xs) ys = ap (λ l. x.id ∷ l) (ids_of-append xs ys)

contains-append :
    (t : String) (xs ys : List String) → contains t (xs ++ ys) ≡ (contains t xs || contains t ys)
unfolding contains
contains-append t [] ys = refl
contains-append t (x ∷ xs) ys = ground (arith, contains-append t xs ys)

append-IsDistinct :
    (xs : List String) (t : String)
    → contains t xs ≡ false
    → IsDistinct xs
    → IsDistinct (xs ++ t ∷ [])
unfolding contains
append-IsDistinct [] t h d = (refl, tt)
append-IsDistinct (x ∷ xs) t h (d, ds) =
    ground
      (arith, eq_iff x t, eq_iff t x, contains-append x xs (t ∷ []), append-IsDistinct xs t _ ds)

module _ (agents : List AgentInfo) where
  add_candidate-IsSound :
      (found : Found) (c : AgentInfo)
      → agent_of c.id agents ≡ some c
      → IsSound agents found
      → IsSound agents (add_candidate found c)
  unfolding add_candidate ids_of
  add_candidate-IsSound found c k s = elim (Bool-cases (contains c.id found.added)) [
    | inl there ↦ rw (there, add_candidate) s
    | inr new ↦
        let fresh : contains c.id (ids_of found.matched) ≡ false = rw (← s.same) new in
        rw (new, add_candidate)
          (record {
            same = ap (λ l. l ++ c.id ∷ []) s.same ∙ sym (ids_of-append found.matched (c ∷ []));
            known =
                append-All (λ a. agent_of a.id agents ≡ some a) found.matched (c ∷ []) s.known
                  (k, tt);
            distinct =
                rw (ids_of-append found.matched (c ∷ []))
                  (append-IsDistinct (ids_of found.matched) c.id fresh s.distinct);
          })
  ]

  pub find_step-IsSound :
      (found : Found) (req : String)
      → AllKnown agents agents
      → IsSound agents found
      → IsSound agents (find_step agents found req)
  unfolding find_step
  find_step-IsSound found req all s = elim (Option-cases (first_of (candidates agents req))) [
    | inl e ↦ rw (e, find_step) s
    | inr (c, e) ↦
        rw (e, find_step) (add_candidate-IsSound found c (candidate_lem agents req c all e).0 s)
  ]

  add_candidate-keeps :
      (found : Found) (c : AgentInfo) (req : String)
      → is_met req found.matched ≡ true
      → is_met req (add_candidate found c).matched ≡ true
  unfolding add_candidate is_met
  add_candidate-keeps found c req h = ground (arith, is_met-append req found.matched (c ∷ []))

  pub find_step-keeps :
      (found : Found) (r req : String)
      → is_met req found.matched ≡ true
      → is_met req (find_step agents found r).matched ≡ true
  unfolding find_step
  find_step-keeps found r req h = elim (Option-cases (first_of (candidates agents r))) [
    | inl e ↦ rw (e, find_step) h
    | inr (c, e) ↦ rw (e, find_step) (add_candidate-keeps found c req h)
  ]

  pub find_step-meets :
      (found : Found) (req : String)
      → AllKnown agents agents
      → IsSound agents found
      → is_met req agents ≡ true
      → is_met req (find_step agents found req).matched ≡ true
  unfolding find_step add_candidate is_met
  find_step-meets found req all s h =
      let (c, e) = candidates_not_empty agents req h in
      let (k, ok_) = candidate_lem agents req c all e in
      elim (Bool-cases (contains c.id found.added)) [
        | inl there ↦
            rw (e, find_step, there, add_candidate)
              (is_met-ids_of agents found.matched req c s.known k ok_ (rw (← s.same) there))
        | inr new ↦
            rw (e, find_step, new, add_candidate)
              (ground (arith, is_met-append req found.matched (c ∷ [])))
      ]
