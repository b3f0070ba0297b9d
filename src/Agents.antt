-- ===== src/Agents.antt =====
-- The agents behind the squad: src/agents/risk_agent.py, execution_agent.py and behavioral_guard.py.
pub mod Risk
pub mod Decision
pub mod Execution
pub mod Behavior
mod Tests
