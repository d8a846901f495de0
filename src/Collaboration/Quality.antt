-- ===== src/Collaboration/Quality.antt =====
-- The order of the candidates: the best comes first.
use cam_protocol.Base.{
  ◌≤◌, ◌≡◌, String, true, some, List, [], ◌∷◌, arith, filter, All, first_of, sort_by-IsFirst,
}
use cam_protocol.Collaboration.Registry.{AgentInfo, satisfies, by_quality, candidates}

-- No agent of the list has a higher quality.
abbrev pub AllNotBetter : AgentInfo → List AgentInfo → Type 0
AllNotBetter c = All (λ a. a.capabilities.quality ≤ c.capabilities.quality)

read_quality :
    (c : AgentInfo) (as_ : List AgentInfo)
    → All (λ a. by_quality c a ≡ true) as_
    → AllNotBetter c as_
read_quality c [] ps = tt
read_quality c (a ∷ as_) (p, ps) = (ground arith, read_quality c as_ ps)

-- The first candidate for a requirement is one of the best: no other agent that meets it has a higher
-- quality.
pub candidates-first :
    (agents : List AgentInfo) (req : String) (c : AgentInfo)
    → first_of (candidates agents req) ≡ some c
    → AllNotBetter c (filter (satisfies req) agents)
unfolding candidates
candidates-first agents req c e = read_quality c (filter (satisfies req) agents) (
    sort_by-IsFirst by_quality (λ x y h. ground arith) (λ x y z p q. ground arith)
      (filter (satisfies req) agents) c e)
