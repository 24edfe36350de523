-- ===== src/Agent.antt =====
-- app/models/agent.py and app/repositories/in_memory/agent_repository.py: the identity and the
-- configuration of an agent, and the store of the registered agents.
use enterprise_agent_securit.Prelude.{String, Option, List}
use enterprise_agent_securit.Dict
use enterprise_agent_securit.Dict.{Dict}

pub data AgentStatus : Type 0 where
  registered active suspended disabled : AgentStatus

pub data RiskTier : Type 0 where
  low medium high critical : RiskTier

pub record Agent : Type 0 where
  pub agent_id : String
  pub name : String
  pub owner : String
  pub risk_tier : RiskTier
  pub approved_tools : List String
  pub status : AgentStatus

abbrev pub get : String → Dict Agent → Option Agent
get agent_id agents = Dict.get agent_id agents

-- the status is a projection and is discarded at the boundary
unfoldable pub save : Agent → Dict Agent → Dict Agent
save agent agents = Dict.put agent.agent_id (record agent { status = registered }) agents
