-- ===== src/Policy/Edges.antt =====
-- `communication_is_allowed` of policy.py, and what it decides.
use hermes_orchestrator.Prelude.{
  ℕ, ◌≡◌, ◌↔◌, ◌⊎◌, Bool, true, ◌&&◌, String, Option, List, [], ◌∷◌, arith, ltb, ◌==◌, filter, any,
  none_or, or_else, str_in, some,
}
use hermes_orchestrator.Models.Rows.{CommunicationEdge}

-- `is_active`
edge_is_active : ℕ → CommunicationEdge → Bool
edge_is_active now e = none_or (λ t. ltb now t) e.expires_at

-- The `select` on the two agents.
edges_between : ℕ → ℕ → List CommunicationEdge → List CommunicationEdge
edges_between source target = filter λ e. e.source_agent_id == source && e.target_agent_id == target

unfoldable pub communication_is_allowed :
    List CommunicationEdge → ℕ → ℕ → String → String → Option ℕ → ℕ → Bool
unfolding edge_is_active edges_between
communication_is_allowed edges source target task_class scope now clock =
    any
      (λ e.
        edge_is_active (or_else now clock) e
        && str_in task_class e.task_classes
        && str_in scope e.scopes)
      (edges_between source target edges)

-- An edge that lets the one agent reach the other at that time.
pub record Grants (source target : ℕ) (task_class scope : String) (now : ℕ) (e : CommunicationEdge)
    : Type 0 where
  pub from_source : e.source_agent_id ≡ source
  pub to_target : e.target_agent_id ≡ target
  pub unexpired : none_or (λ t. ltb now t) e.expires_at ≡ true
  pub covers_class : str_in task_class e.task_classes ≡ true
  pub covers_scope : str_in scope e.scopes ≡ true

-- One of the edges grants.
abbrev pub SomeGrants : ℕ → ℕ → String → String → ℕ → List CommunicationEdge → Type 0
SomeGrants source target task_class scope now [] = ⊥
SomeGrants source target task_class scope now (e ∷ es) =
    Grants source target task_class scope now e ⊎ SomeGrants source target task_class scope now es

module _ (source target : ℕ) (task_class scope : String) (now : ℕ) where
  allowed_sound :
      (es : List CommunicationEdge) (clock : ℕ)
      → communication_is_allowed es source target task_class scope (some now) clock ≡ true
      → SomeGrants source target task_class scope now es
  unfolding communication_is_allowed
  allowed_sound [] clock h = cc
  allowed_sound (e ∷ es) clock h = ground (arith, allowed_sound es clock)

  allowed_complete :
      (es : List CommunicationEdge) (clock : ℕ)
      → SomeGrants source target task_class scope now es
      → communication_is_allowed es source target task_class scope (some now) clock ≡ true
  unfolding communication_is_allowed
  allowed_complete [] clock h = absurd h
  allowed_complete (e ∷ es) clock h = ground (arith, allowed_complete es clock)

  -- Communication is allowed exactly when one edge from the one agent to the other has not expired
  -- at that time and covers both the task class and the scope.
  pub communication_is_allowed_iff :
      (es : List CommunicationEdge) (clock : ℕ)
      → (communication_is_allowed es source target task_class scope (some now) clock ≡ true)
        ↔ SomeGrants source target task_class scope now es
  communication_is_allowed_iff es clock = (allowed_sound es clock, allowed_complete es clock)
