-- ===== src/Router/Sinks.antt =====
-- core/src/router/sinks.rs and render_rejection of core/src/schema.rs: the texts typed into an agent's
-- prompt.
use core_tempo.Common.{
  ℕ, String, List, [], ◌∷◌, map, Option, none, some, ◌==◌, nat_eq, if◌then◌else◌, leb, concat, join,
  show,
}
use core_tempo.Types.Ids.{AgentId, MessageId, FlowName}
use core_tempo.Types.Message.{Origin, agent, user, http, trigger}
use core_tempo.Types.Config.{Edge, EdgeKind}

unfoldable pub origin_label : Origin → String
origin_label (agent id) = id
origin_label user = "user"
origin_label (http req) = "http"
origin_label (trigger hex) = "http"

unfoldable pub sender_clause : Origin → Option FlowName → String
unfolding origin_label
sender_clause origin (some flow) = concat (origin_label origin ∷ ", flow " ∷ flow ∷ [])
sender_clause origin none = origin_label origin

unfoldable pub render_ask : MessageId → Origin → Option FlowName → String → String
unfolding sender_clause
render_ask id from flow body = concat (
    "[CoreTempo "
    ∷ id
    ∷ " from "
    ∷ sender_clause from flow
    ∷ " — reply expected] "
    ∷ body
    ∷ "\nReply first with: tempo reply "
    ∷ id
    ∷ " --code 0 '<answer>' (--code 1 on failure), then continue."
    ∷ [])

unfoldable pub render_send : MessageId → Origin → Option FlowName → String → String
unfolding sender_clause
render_send id from flow body =
    concat ("[CoreTempo " ∷ id ∷ " from " ∷ sender_clause from flow ∷ "] " ∷ body ∷ [])

unfoldable pub render_reply : MessageId → AgentId → ℕ → String → String
render_reply id replier code body =
    concat
      ("[CoreTempo reply to " ∷ id ∷ " from " ∷ replier ∷ " — code " ∷ show code ∷ "] " ∷ body ∷ [])

nudge_step_of : EdgeKind → AgentId → String
nudge_step_of EdgeKind.ask to = concat ("tempo ask " ∷ to ∷ " \"<your delegation>\"" ∷ [])
nudge_step_of EdgeKind.send to = concat ("tempo send " ∷ to ∷ " \"<your message>\"" ∷ [])
nudge_step_of EdgeKind.loop to = concat (
    "tempo ask " ∷ to ∷ " \"<next round>\" (or `tempo done " ∷ to ∷ "` if the task is complete)"
    ∷ [])

unfoldable pub render_nudge : List Edge → String
unfolding nudge_step_of
render_nudge unmet = concat (
    "[CoreTempo] You have not completed your required workflow steps. Run now, in order: "
    ∷ join ", then " (map (λ e. nudge_step_of e.kind e.to) unmet)
    ∷ "."
    ∷ [])

abbrev first_or : String → List MessageId → String
first_or d [] = d
first_or d (id ∷ ids) = id

unfoldable pub render_reply_nudge : List MessageId → ℕ → String
render_reply_nudge owed round = concat (
    "[CoreTempo] You still owe a reply to: "
    ∷ join ", " owed
    ∷ ". Run `tempo reply "
    ∷ first_or "<id>" owed
    ∷ " --code 0 '<answer>'` (or --code 1 with why you could not) before anything else. The asker is blocked on you."
    ∷ (if leb 2 round
        then " If you are waiting on background subagents, poll for their result inside this turn (`/tasks`, or check their output files) rather than ending it — CoreTempo cannot see them."
        else "")
    ∷ [])

cap_part : AgentId × ℕ → String
cap_part (to, most) = concat (
    "the loop with "
    ∷ to
    ∷ " hit its round cap ("
    ∷ show most
    ∷ ") — run `tempo done "
    ∷ to
    ∷ "` if the task is complete, or report your state to whoever kicked you off"
    ∷ [])

unfoldable pub render_cap_nudge : List (AgentId × ℕ) → String
unfolding cap_part
render_cap_nudge capped = concat ("[CoreTempo] " ∷ join "; " (map cap_part capped) ∷ "." ∷ [])

unfoldable pub render_rejection : List String → ℕ → FlowName → String
render_rejection errors attempts_left flow = concat (
    "tempo reply rejected: the reply body does not match the output schema of flow '"
    ∷ flow
    ∷ "' (the flow named in that ask's [CoreTempo …] line).\n- "
    ∷ join "\n- " errors
    ∷ "\nReply with ONLY the JSON object — no prose, no markdown fences. Consider writing it to a file and using `tempo reply <id> --code 0 --json-file <path>`.\n"
    ∷ show attempts_left
    ∷ " "
    ∷ (if attempts_left == 1 then "attempt" else "attempts")
    ∷ " remain; after that the trigger fails and the caller gets these errors.\nIf you cannot produce this shape, reply with --code 1 and a plain-text explanation instead."
    ∷ [])
