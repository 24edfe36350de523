-- ===== src/Authority/Soundness.antt =====
-- app/runtime/execution_authority.py: `claim_grant` and `_require_exact_match`.
use enterprise_agent_securit.Prelude.{
  ℕ, String, ◌<◌, ◌≡◌, ◌↔◌, refl, true, none, some, List, [], ◌∷◌, ok, arith, eq_iff, eq_refl,
  Option-cases, inl, inr, opt_eq_iff,
}
use enterprise_agent_securit.Dict
use enterprise_agent_securit.Dict.{
  get-put, get-put_self, get-remove, get-remove_self, get-drop_where,
}
use enterprise_agent_securit.Authority.{
  ExecutionBinding, RuntimeExecutionGrant, OutstandingGrant, ExecutionAuthority, prune, is_past,
}
use enterprise_agent_securit.Authority.Signing.{Payload, grant_payload}
use enterprise_agent_securit.Authority.Claim.{
  grant, verify_authenticity, require_claimable_locked, require_exact_match, claim_grant,
  parameters_eq,
}

parameters_eq→eq : (xs ys : List (String × String)) → parameters_eq xs ys ≡ true → xs ≡ ys
parameters_eq→eq [] [] h = refl
parameters_eq→eq [] (y ∷ ys) h = cc
parameters_eq→eq (x ∷ xs) [] h = cc
parameters_eq→eq ((a, b) ∷ xs) ((c, d) ∷ ys) h =
    ground (arith, eq_iff a c, eq_iff b d, parameters_eq→eq xs ys)

parameters_eq_refl : (xs : List (String × String)) → parameters_eq xs xs ≡ true
parameters_eq_refl [] = refl
parameters_eq_refl ((a, b) ∷ xs) = ground (arith, eq_refl a, eq_refl b, parameters_eq_refl xs)

-- Exact match is equality of bindings.
pub require_exact_match_iff :
    (authorized requested : ExecutionBinding)
    → (require_exact_match authorized requested ≡ none) ↔ (requested ≡ authorized)
unfolding require_exact_match
require_exact_match_iff a r = (
  λ h. ground (
    arith,
    eq_iff r.tool_id a.tool_id,
    eq_iff r.tool_version a.tool_version,
    opt_eq_iff r.resource a.resource,
    parameters_eq→eq r.parameters a.parameters,
  ),
  λ h. ground (
    arith,
    eq_refl a.tool_id,
    eq_refl a.tool_version,
    opt_eq_iff r.resource a.resource,
    parameters_eq_refl a.parameters,
  ),
)

prune_outstanding :
    (id : String) (now : ℕ) (s : ExecutionAuthority) (o : OutstandingGrant)
    → Dict.get id (prune now s).outstanding ≡ some o
    → Dict.get id s.outstanding ≡ some o
unfolding prune
prune_outstanding id now s o h = ground (arith, get-drop_where (is_past now) id s.outstanding)

module _ (canonical_json : ExecutionBinding → String) (mac : Payload → String) where
  -- A claim succeeds only for a grant of this authority whose signature verifies, which has not
  -- expired, which is outstanding for the very agent and session that it names, and which authorizes
  -- exactly the requested operation.
  pub claim_sound :
      (g : RuntimeExecutionGrant) (requested : ExecutionBinding) (now : ℕ) (s : ExecutionAuthority)
      → (claim_grant canonical_json mac (grant g) requested now s).0 ≡ ok tt
      → (o : OutstandingGrant) × (Dict.get g.grant_id s.outstanding ≡ some o)
        × (o.agent_id ≡ g.agent_id)
        × (o.session_id ≡ g.session_id)
        × (g.authority_id ≡ s.authority_id)
        × (g.signature ≡ mac (grant_payload canonical_json g))
        × (now < g.expires_at)
        × (requested ≡ g.binding)
  unfolding claim_grant verify_authenticity require_claimable_locked
  claim_sound g requested now s h =
      elim (Option-cases (Dict.get g.grant_id (prune now s).outstanding)) [
        | inl n ↦ absurd (ground arith)
        | inr (o, e) ↦ (
          o,
          prune_outstanding g.grant_id now s o e,
          ground (arith, eq_iff o.agent_id g.agent_id),
          ground (arith, eq_iff o.session_id g.session_id),
          ground (arith, eq_iff g.authority_id s.authority_id),
          ground (arith, eq_iff (mac (grant_payload canonical_json g)) g.signature),
          ground arith,
          ground (arith, require_exact_match_iff g.binding requested),
        )
      ]
