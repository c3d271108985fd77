-- ===== src/Agents/Evaluation.antt =====
-- `evaluate_agent_request` of agent_policy.py.
use Prim.Native.Char.{code}
use hermes_orchestrator.Prelude.{
  ℕ, Bool, true, false, ◌||◌, ◌&&◌, String, Option, none, some, List, [], ◌∷◌, str_eq, str_in,
  str_append, strip_prefix, is_some, filter, leb, ◌==◌, some_and, first_some, if◌then◌else◌,
}
use hermes_orchestrator.Models.Json.{
  pos, Json, null, boolean, integer, decimal, text, uuid, instant, array, object, Items, nil, cons,
  Fields, end, field, get, as_text,
}
use hermes_orchestrator.Models.Rows.{Agent}
use hermes_orchestrator.Models.Settings.{TextLibrary}
use hermes_orchestrator.Store.Exec.{Db}
use hermes_orchestrator.Policy.Permissions.{lookup}
use hermes_orchestrator.Agents.Profiles.{dangerous_markers}

pub data PolicyAction : Type 0 where
  approve reject defer : PolicyAction

pub record AgentPolicyDecision : Type 0 where
  pub action : PolicyAction
  pub code : String
  pub reason : String
  pub profile_id : Option String
  pub profile_digest : Option String

-- `value.replace("-", "_")`
pub underscored : String → String
underscored String.[] = String.[]
underscored (String.◌∷◌ c s) =
    let rest = underscored s in if code c == 45 then str_append "_" rest else String.◌∷◌ c rest

-- `item in value`, for texts
pub contains : String → String → Bool
contains item String.[] = is_some (strip_prefix item String.[])
contains item (String.◌∷◌ c s) = is_some (strip_prefix item (String.◌∷◌ c s)) || contains item s

-- The first of the markers that the text contains. Python's order of a set is arbitrary; the choice
-- shows only in the text of a reason.
pub marker_in : String → List String → Option String
unfolding contains
marker_in value [] = none
marker_in value (m ∷ ms) =
    let rest = marker_in value ms in if contains m value then some m else rest

-- `_dangerous` of a text
unfoldable pub dangerous_text : TextLibrary → String → Option String
unfolding underscored marker_in
dangerous_text lib value = marker_in (underscored (lib.lower value)) dangerous_markers

-- `_dangerous`
unfoldable mutual
  unfolding dangerous_text

  pub dangerous : TextLibrary → Json → Option String
  dangerous lib (object fields) = dangerous_fields lib fields
  dangerous lib (array items) = dangerous_items lib items
  dangerous lib (text value) = dangerous_text lib value
  dangerous lib null = none
  dangerous lib (boolean b) = none
  dangerous lib (integer n) = none
  dangerous lib (decimal n) = none
  dangerous lib (uuid n) = none
  dangerous lib (instant n) = none

  pub dangerous_items : TextLibrary → Items → Option String
  dangerous_items lib nil = none
  dangerous_items lib (cons child items) =
      first_some (dangerous lib child) (dangerous_items lib items)

  pub dangerous_fields : TextLibrary → Fields → Option String
  dangerous_fields lib end = none
  dangerous_fields lib (field key child fields) =
      first_some (first_some (dangerous_text lib key) (dangerous lib child))
        (dangerous_fields lib fields)

unfoldable pub text_items : Items → Option (List String)
text_items nil = some []
text_items (cons (text s) items) = elim (text_items items) [ none ↦ none | some ss ↦ some (s ∷ ss) ]
text_items (cons _ items) = none

-- `_sequence(payload.get(key, []))`
unfoldable pub sequence : Option Json → Option (List String)
unfolding text_items
sequence none = some []
sequence (some (array items)) = text_items items
sequence (some _) = none

-- `set(xs).issubset(ys)`
unfoldable pub is_subset : List String → List String → Bool
is_subset [] ys = true
is_subset (x ∷ xs) ys = str_in x ys && is_subset xs ys

-- `set(d).issubset(ys)`
unfoldable pub keys_subset : Fields → List String → Bool
keys_subset end ys = true
keys_subset (field k v d) ys = str_in k ys && keys_subset d ys

-- A list of texts, or none at all, within the allowed ones.
unfoldable pub sequence_within : Option Json → List String → Bool
unfolding sequence is_subset
sequence_within value allowed = some_and (λ xs. is_subset xs allowed) (sequence value)

-- `payload.get(key, {})`, where it is a dictionary
unfoldable pub object_or_empty : Option Json → Option Fields
object_or_empty none = some end
object_or_empty (some (object fields)) = some fields
object_or_empty (some _) = none

-- `policy_set.get(key, default) == default`
unfoldable pub absent_or_text : Option Json → String → Bool
absent_or_text none expected = true
absent_or_text (some (text s)) expected = str_eq s expected
absent_or_text (some _) expected = false

-- `policy_set.get("allowed_profiles", [expected]) == [expected]`
unfoldable pub absent_or_only : Option Json → String → Bool
absent_or_only none expected = true
absent_or_only (some (array (cons (text s) nil))) expected = str_eq s expected
absent_or_only (some _) expected = false

-- `policy_set.get(key, default) in allowed`, where the default is
unfoldable pub absent_or_in : Option Json → List String → Bool
absent_or_in none allowed = true
absent_or_in (some (text s)) allowed = str_in s allowed
absent_or_in (some _) allowed = false

-- One entry of the budget: a natural number within the limit of its key.
unfoldable pub entry_within : List (String × ℕ) → String → Json → Bool
entry_within limits key (integer (pos n)) = some_and (λ limit. leb n limit) (lookup key limits)
entry_within limits key _ = false

-- The first key of the budget whose value is not within its limit.
unfoldable pub budget_excess : List (String × ℕ) → Fields → Option String
unfolding entry_within
budget_excess limits end = none
budget_excess limits (field key value rest) =
    let later = budget_excess limits rest in
    if entry_within limits key value then later else some key

-- `_managed_agents`
unfoldable pub managed_agents : Db → List Agent
managed_agents d =
    filter
      (λ (a : Agent).
        str_eq a.desired_state "active"
        && some_and (λ s. str_eq s "agent-provisioner") (as_text (get "managed_by" a.policy_set)))
      d.agents

-- `AgentPolicyDecision("reject", code, reason)`
abbrev pub rejected : String → String → AgentPolicyDecision
rejected code reason = record {
  action = PolicyAction.reject;
  code = code;
  reason = reason;
  profile_id = none;
  profile_digest = none;
}

-- `if not c: return AgentPolicyDecision("reject", code, reason)`
abbrev pub unless : Bool → String → String → AgentPolicyDecision → AgentPolicyDecision
unless passes code reason rest = if passes then rest else rejected code reason
