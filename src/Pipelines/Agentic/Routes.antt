-- ===== src/Pipelines/Agentic/Routes.antt =====
-- Where the agentic graph's edges lead.
use phylum.Common.{
  text_in, ◌≡◌, ◌↔◌, refl, true, false, some, none, [], ◌∷◌, arith, if◌then◌else◌, truthy, is_some,
}
use phylum.StateGraph.{matches}
use phylum.StateGraph.Executor.{resolve_next}
use phylum.Pipelines.{
  PipelineState, StepResult, has_provider, no_provider, llm_completed, llm_handoff, llm_error,
}
use phylum.Pipelines.Agentic.{agentic, build_agentic_graph}

module _ (s : PipelineState) (r : StepResult) where
  pub llm_loop_route : resolve_next agentic "llm_loop" s r ≡ (
      if llm_completed s r
      then some "reflection"
      else if llm_handoff s r
      then some "handoff"
      else if llm_error s r
      then some "recovery"
      else none)
  unfolding resolve_next build_agentic_graph matches
  llm_loop_route = refl

  pub provider_route : resolve_next agentic "provider_check" s r ≡ (
      if has_provider s r
      then some "llm_loop"
      else if no_provider s r
      then some "fallback_manual"
      else none)
  unfolding resolve_next build_agentic_graph matches
  provider_route = refl

-- After the language model's loop the agentic run cannot go on exactly when the result has no error
-- text and its status is none of completed, awaiting_input and failed, and is not missing.
pub llm_loop_stuck_iff :
    (s : PipelineState) (r : StepResult)
    → (resolve_next agentic "llm_loop" s r ≡ none) ↔ (
        (truthy r.error_text ≡ false)
        × (is_some r.status ≡ true)
        × (text_in r.status ("completed" ∷ "awaiting_input" ∷ "failed" ∷ []) ≡ false))
unfolding llm_completed llm_handoff llm_error
llm_loop_stuck_iff s r = ground (arith, llm_loop_route s r)

-- The provider check leads to the language model's loop where the state has a provider, and to the
-- manual fallback where it has none, whatever the result is.
pub provider_check_lem :
    (s : PipelineState) (r : StepResult)
    → resolve_next agentic "provider_check" s r
      ≡ (if truthy s.provider then some "llm_loop" else some "fallback_manual")
unfolding has_provider no_provider
provider_check_lem s r = ground (arith, provider_route s r)
