-- ===== src/Mcp/Retries.antt =====
-- The loop of the attempts.
use cam_protocol.Base.{
  bools_differ, ℕ, suc, zero, ◌≤◌, ◌≡◌, ◌≢◌, refl, String, Bool, true, arith, ◌∙◌, ap, sym, subst,
  if◌then◌else◌, Bool-cases, inl, inr,
}
use cam_protocol.JsMap.{JsMap}
use cam_protocol.CacheManager.{Value}
use cam_protocol.Mcp.Types.{Outcome, returned, raised, RegisteredTool, ToolCallRequest}
use cam_protocol.Mcp.Client.{McpSdk}
use cam_protocol.Mcp.Gateway.{Gateway, attempt, retry_or, attempts, is_transient}

same_error : (d e : String) → ◌≡◌ {A = Outcome (JsMap Value)} (raised d) (raised e) → d ≡ e
same_error d e h = cc

not_raised : (x : JsMap Value) (e : String) → returned x ≢ raised e
not_raised x e h = cc

module _ (sdk : McpSdk) (s : Gateway) (t : RegisteredTool) (r : ToolCallRequest) where
  -- The attempt raises an error that is tried again.
  abbrev pub IsRetried : ℕ × Outcome (JsMap Value) → Type 0
  IsRetried (clock, returned x) = ⊥
  IsRetried (clock, raised e) = is_transient e ≡ true

  -- So many attempts are tried again, and the next one gives the answer.
  abbrev pub Recovers : ℕ → ℕ → ℕ → ℕ × Outcome (JsMap Value) → Type 0
  Recovers zero number clock a = attempt sdk s t r number clock ≡ a
  Recovers (suc n) number clock a =
      IsRetried (attempt sdk s t r number clock)
      × Recovers n (suc number) (attempt sdk s t r number clock).0 a

  -- The attempts, so many and one more, are all tried again.
  abbrev pub AllRetried : ℕ → ℕ → ℕ → Type 0
  AllRetried zero number clock = IsRetried (attempt sdk s t r number clock)
  AllRetried (suc n) number clock =
      IsRetried (attempt sdk s t r number clock)
      × AllRetried n (suc number) (attempt sdk s t r number clock).0

  retry_or-retried : (a rest : ℕ × Outcome (JsMap Value)) → IsRetried a → retry_or sdk a rest ≡ rest
  retry_or-retried (clock, returned x) rest h = absurd h
  retry_or-retried (clock, raised e) rest h = rw h refl

  retry_or-returned :
      (a rest : ℕ × Outcome (JsMap Value)) (clock : ℕ) (x : JsMap Value)
      → a ≡ (clock, returned x)
      → retry_or sdk a rest ≡ (clock, returned x)
  retry_or-returned a rest clock x e = rw e refl

  retry_or-raised :
      (a rest : ℕ × Outcome (JsMap Value)) (clock : ℕ) (e : String)
      → retry_or sdk a rest ≡ (clock, raised e)
      → is_transient e ≡ true
      → IsRetried a × (rest ≡ (clock, raised e))
  retry_or-raised (c, returned x) rest clock e h k = absurd (not_raised x e (ap (λ a. a.1) h))
  retry_or-raised (c, raised d) rest clock e h k = elim (Bool-cases (is_transient d)) [
    | inl f ↦ (f, subst (λ (b : Bool). (if b then rest else (c, raised d)) ≡ (clock, raised e)) f h)
    | inr f ↦
        let g = subst (λ (b : Bool). (if b then rest else (c, raised d)) ≡ (clock, raised e)) f h in
        absurd (bools_differ (sym k ∙ ap is_transient (sym (same_error d e (ap (λ a. a.1) g))) ∙ f))
  ]

  pub attempts-Recovers :
      (n left number clock end_ : ℕ) (x : JsMap Value)
      → n ≤ left
      → Recovers n number clock (end_, returned x)
      → attempts sdk s t r left number clock ≡ (end_, returned x)
  unfolding attempts
  attempts-Recovers zero zero number clock end_ x le e = e
  attempts-Recovers zero (suc left) number clock end_ x le e = retry_or-returned _ _ end_ x e
  attempts-Recovers (suc n) zero number clock end_ x le h = absurd (omega arith)
  attempts-Recovers (suc n) (suc left) number clock end_ x le (h, k) =
      retry_or-retried _ _ h
      ∙ attempts-Recovers n left (suc number) (attempt sdk s t r number clock).0 end_ x
          (omega arith) k

  -- The loop gives up with an error that may be tried again only after all its attempts.
  pub attempts-AllRetried :
      (left number clock end_ : ℕ) (e : String)
      → attempts sdk s t r left number clock ≡ (end_, raised e)
      → is_transient e ≡ true
      → AllRetried left number clock
  unfolding attempts
  attempts-AllRetried zero number clock end_ e h k = subst IsRetried (sym h) k
  attempts-AllRetried (suc left) number clock end_ e h k =
      let tried = attempt sdk s t r number clock in
      let (again, rest) =
        retry_or-raised tried (attempts sdk s t r left (suc number) tried.0) end_ e h k in
      (again, attempts-AllRetried left (suc number) tried.0 end_ e rest k)
