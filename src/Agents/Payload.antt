-- ===== src/Agents/Payload.antt =====
-- `ProvisioningPayload` of provisioning.py and `_payload` of provisioning_services.py: the request's
-- payload, validated. The payload of a request has no key "request_id" (`AgentRequestCreate` forbids
-- it), so the identifier is that of the request.
use Prim.Native.Char.{code}
use hermes_orchestrator.Prelude.{
  ℕ, zero, suc, ◌-◌, Bool, false, ◌||◌, ◌&&◌, not, String, Option, none, some, List, [], ◌∷◌,
  str_in, leb, ◌==◌, if◌then◌else◌,
}
use hermes_orchestrator.Models.Json.{
  Json, null, boolean, integer, decimal, text, uuid, instant, array, object, Items, nil, cons,
  Fields, end, field, get, as_text,
}
use hermes_orchestrator.Models.Settings.{TextLibrary}
use hermes_orchestrator.Store.Exec.{Exec, Exception, pure, or_raise, raise_if, ◌>>=◌, ◌>>◌}
use hermes_orchestrator.Agents.Profiles.{role_execution_profile}
use hermes_orchestrator.Agents.Evaluation.{
  sequence, object_or_empty, keys_subset, absent_or_text, absent_or_only,
}

pub record ProvisioningPayload : Type 0 where
  pub request_id : ℕ
  pub slug : String
  pub role : String
  pub description : String
  pub policy_set : Fields
  pub capabilities : List String
  pub secret_refs : List String

-- `AgentTemplateRole`
abbrev pub template_roles : List String
template_roles =
    "leader" ∷ "researcher" ∷ "developer" ∷ "validator" ∷ "operator" ∷ "data_steward"
    ∷ "risk_manager" ∷ "trader" ∷ []

-- `FORBIDDEN_TEMPLATE_KEYS`
abbrev pub forbidden_template_keys : List String
forbidden_template_keys =
    "command" ∷ "entrypoint" ∷ "privileged" ∷ "network_mode" ∷ "pid" ∷ "pid_mode" ∷ "volumes"
    ∷ "mounts" ∷ "docker_socket" ∷ []

is_lower : ℕ → Bool
is_lower c = leb 97 c && leb c 122

-- `[a-z0-9-]{n,}` of at most m characters, to the end
slug_rest : ℕ → ℕ → String → Bool
unfolding is_lower
slug_rest n m String.[] = n == 0
slug_rest n zero (String.◌∷◌ c s) = false
slug_rest n (suc m) (String.◌∷◌ c s) =
    (is_lower (code c) || (leb 48 (code c) && leb (code c) 57) || code c == 45)
    && slug_rest (n - 1) m s

-- `^[a-z][a-z0-9-]{2,39}$`
unfoldable pub is_slug : String → Bool
unfolding slug_rest is_lower
is_slug String.[] = false
is_slug (String.◌∷◌ c s) = is_lower (code c) && slug_rest 2 39 s

-- `len(s)`
pub text_length : String → ℕ
text_length String.[] = 0
text_length (String.◌∷◌ c s) = suc (text_length s)

-- `visit` of `deny_template_escape`: some key of the value is forbidden.
unfoldable mutual
  pub escapes : TextLibrary → Json → Bool
  escapes lib (object fields) = fields_escape lib fields
  escapes lib (array items) = items_escape lib items
  escapes lib (text s) = false
  escapes lib null = false
  escapes lib (boolean b) = false
  escapes lib (integer n) = false
  escapes lib (decimal n) = false
  escapes lib (uuid n) = false
  escapes lib (instant n) = false

  pub items_escape : TextLibrary → Items → Bool
  items_escape lib nil = false
  items_escape lib (cons child items) = escapes lib child || items_escape lib items

  pub fields_escape : TextLibrary → Fields → Bool
  fields_escape lib end = false
  fields_escape lib (field key child fields) =
      str_in (lib.lower key) forbidden_template_keys
      || escapes lib child
      || fields_escape lib fields

template_denied : Exception
template_denied =
    Exception.provisioning "template_policy_denied"
      "Solicitud incompatible con la plantilla allowlisted" 422

slug_denied : Exception
slug_denied =
    Exception.provisioning "slug_invalid" "Solicitud incompatible con la plantilla allowlisted" 422

text_where : (String → Bool) → Option String → Option String
text_where p none = none
text_where p (some s) = if p s then some s else none

is_description : String → Bool
unfolding text_length
is_description s = leb 1 (text_length s) && leb (text_length s) 2000

payload_keys : List String
payload_keys = "slug" ∷ "role" ∷ "description" ∷ "policy_set" ∷ "capabilities" ∷ "secret_refs" ∷ []

-- The model's validation: an invalid slug has a code of its own, whatever else is wrong.
unfoldable pub payload_of : TextLibrary → ℕ → Fields → Exec ProvisioningPayload
unfolding template_denied slug_denied text_where is_description payload_keys
payload_of lib request_id raw = do
  slug ← or_raise (text_where is_slug (as_text (get "slug" raw))) slug_denied
  role ←
      or_raise (text_where (λ r. str_in r template_roles) (as_text (get "role" raw)))
        template_denied
  description ←
      or_raise (text_where is_description (as_text (get "description" raw))) template_denied
  policy_set ← or_raise (object_or_empty (get "policy_set" raw)) template_denied
  capabilities ← or_raise (sequence (get "capabilities" raw)) template_denied
  secret_refs ← or_raise (sequence (get "secret_refs" raw)) template_denied
  raise_if (not (keys_subset raw payload_keys)) template_denied
  raise_if (fields_escape lib policy_set) template_denied
  raise_if
      (not
        (absent_or_text (get "execution_profile_default" policy_set) (role_execution_profile role)))
      template_denied
  raise_if (not (absent_or_only (get "allowed_profiles" policy_set) (role_execution_profile role)))
      template_denied
  pure (record {
    request_id = request_id;
    slug = slug;
    role = role;
    description = description;
    policy_set = policy_set;
    capabilities = capabilities;
    secret_refs = secret_refs;
  })
