-- ===== src/AgenticLoop/Journal.antt =====
-- What a run of the loop may do, and in which order.
use phylum.Common.{ℕ, suc, ◌<◌, ◌+◌, true, false, List, [], ◌∷◌, ◌++◌, ◌≡◌}
use phylum.AgenticLoop.{
  ToolCall, Message, Task, Services, Log, asked, executed, delegated, is_subagent,
}
use phylum.AgenticLoop.Conversation.{Answered}
use phylum.AgenticLoop.Turns.{IsPlanned}

-- A log, with its number of steps and the number of requests that were repeated in the last one. It grew
-- by requests with a conversation in order, by tasks that were made of valid calls in this step and by
-- calls of sub-agents; before the first request of a step and before a task the run was not cancelled,
-- and in a step at most two requests are repeated. The steps are counted from the first one.
pub data IsSound (services : Services) (start : ℕ) : ℕ → ℕ → Log → Type 0 where
  starts : IsSound services start 0 0 []
  asks :
      {n k : ℕ} {l : Log} {ms : List Message}
      → IsSound services start n k l
      → services.is_set l ≡ false
      → Answered ms
      → IsSound services start (suc n) 0 (l ++ asked ms ∷ [])
  repeats :
      {n k : ℕ} {l : Log} {ms : List Message}
      → IsSound services start n k l
      → k < 2
      → Answered ms
      → IsSound services start n (suc k) (l ++ asked ms ∷ [])
  executes :
      {n k : ℕ} {l : Log} (p : ToolCall × Task)
      → IsSound services start n k l
      → services.is_set l ≡ false
      → IsPlanned services (start + n) p
      → IsSound services start n k (l ++ executed (p.1) ∷ [])
  delegates :
      {n k : ℕ} {l : Log} (call : ToolCall)
      → IsSound services start n k l
      → is_subagent call ≡ true
      → IsSound services start n k (l ++ delegated call ∷ [])
