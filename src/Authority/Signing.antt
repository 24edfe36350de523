-- ===== src/Authority/Signing.antt =====
-- `_sign` of app/runtime/execution_authority.py: the payload that a signature covers. `json.dumps`
-- with sorted keys, the key and HMAC-SHA256 are together a parameter, a function of the payload;
-- so is the canonical JSON text of a binding.
use enterprise_agent_securit.Prelude.{
  ℕ, String, ◌≡◌, refl, Option, none, some, List, [], ◌∷◌, ◌++◌, arith, eq_iff, false≢true,
}
use enterprise_agent_securit.Authority.{ExecutionBinding, RuntimeExecutionGrant}

pub data JsonValue : Type 0 where
  text : String → JsonValue
  number : ℕ → JsonValue

-- a dict as the list of its items
abbrev pub Payload : Type 0
Payload = List (String × JsonValue)

abbrev pub optional_field : String → Option String → Payload
optional_field key none = []
optional_field key (some v) = (key, text v) ∷ []

unfoldable pub payload :
    (ExecutionBinding → String)
    → String
    → String
    → ExecutionBinding
    → ℕ
    → ℕ
    → String
    → String
    → Option String
    → Option String
    → Payload
payload canonical_json grant_id authority_id binding issued_at expires_at agent_id session_id
      profile digest =
    (("agent_id", text agent_id)
      ∷ ("authority_id", text authority_id)
      ∷ ("binding", text (canonical_json binding))
      ∷ ("expires_at", number expires_at)
      ∷ ("grant_id", text grant_id)
      ∷ ("issued_at", number issued_at)
      ∷ ("session_id", text session_id)
      ∷ [])
    ++ (optional_field "capability_profile_id" profile ++ optional_field "capability_digest" digest)

-- the payload that the signature of a grant covers
unfoldable pub grant_payload : (ExecutionBinding → String) → RuntimeExecutionGrant → Payload
unfolding payload
grant_payload canonical_json g =
    payload canonical_json g.grant_id g.authority_id g.binding g.issued_at g.expires_at g.agent_id
      g.session_id g.capability_profile_id g.capability_digest

abbrev optional_fields : Option String → Option String → Payload
optional_fields profile digest =
    optional_field "capability_profile_id" profile ++ optional_field "capability_digest" digest

keys_differ : (◌≡◌ {A = String} "capability_profile_id" "capability_digest") → ⊥
keys_differ e = false≢true ((eq_iff "capability_profile_id" "capability_digest").1 e)

-- a field that is left out is not mistaken for the other
optional_fields-injective :
    (p d q f : Option String) → optional_fields p d ≡ optional_fields q f → (p ≡ q) × (d ≡ f)
optional_fields-injective none none none none h = (refl, refl)
optional_fields-injective none (some d) none (some f) h = (refl, cc)
optional_fields-injective (some p) none (some q) none h = (cc, refl)
optional_fields-injective (some p) (some d) (some q) (some f) h = (cc, cc)
optional_fields-injective none (some d) (some q) none h = absurd (keys_differ cc)
optional_fields-injective (some p) none none (some f) h = absurd (keys_differ cc)
optional_fields-injective p d q f h = ground arith

-- The payload binds every signed field: two grants with one payload agree in their identifier,
-- authority, agent, session, times, capability profile and digest, and in the canonical text of
-- their binding.
pub grant_payload_binds :
    (canonical_json : ExecutionBinding → String) (g h : RuntimeExecutionGrant)
    → grant_payload canonical_json g ≡ grant_payload canonical_json h
    → (g.grant_id ≡ h.grant_id)
      × (g.authority_id ≡ h.authority_id)
      × (g.agent_id ≡ h.agent_id)
      × (g.session_id ≡ h.session_id)
      × (g.issued_at ≡ h.issued_at)
      × (g.expires_at ≡ h.expires_at)
      × (canonical_json g.binding ≡ canonical_json h.binding)
      × (g.capability_profile_id ≡ h.capability_profile_id)
      × (g.capability_digest ≡ h.capability_digest)
unfolding grant_payload
grant_payload_binds cj g h e =
    let (profile, digest) =
      optional_fields-injective g.capability_profile_id g.capability_digest h.capability_profile_id
        h.capability_digest (cc) in
    (cc, cc, cc, cc, cc, cc, cc, profile, digest)
