-- ===== src/Workflow/Agents.antt =====
-- core/src/workflow.rs: the checks of one agent's table.
use core_tempo.Common.{
  ℕ, suc, String, Bool, true, not, ◌&&◌, ◌||◌, List, [], ◌∷◌, ◌++◌, Option, none, some, ◌==◌,
  string_eq, nat_eq, option_eq, pair_eq, if◌then◌else◌, leb, all, codes, concat, is_empty, show,
  is_some,
}
use Prim.Native.Char.{code}
use core_tempo.Common.Dict.{Dict, lookup, insert}
use core_tempo.Common.KeySet.{member}
use core_tempo.Types.Ids.{AgentId, is_valid}
use core_tempo.Types.Config.{Edge, EdgeKind, loop, edge_kind_eq, AgentConfig}
use core_tempo.Workflow.Issues.{
  ValidationIssue, push, push2, agent_path, is_blank, self_edge, unknown_target, duplicate_edge,
  max_rounds_not_loop, zero_max_rounds, bad_tool, blank_allow, blank_mcp, repeated_mcp,
  skills_not_isolated, empty_skill, nameless_skill, same_skill_name, bad_agent_id, blank_prompt,
  empty_dir,
}

module _ (agents : Dict AgentId AgentConfig) (id : AgentId) where
  -- What one edge adds; `seen` are the targets and kinds of those before it.
  pub validate_edge : Edge → List (AgentId × EdgeKind) → List ValidationIssue
  validate_edge edge seen =
      (if edge.to == id
        then push2 true id "edges" self_edge
        else push2 (not (is_some (lookup edge.to agents))) id "edges" (unknown_target edge.to))
      ++ (push2 (member (edge.to, edge.kind) seen) id "edges" (duplicate_edge edge.to edge.kind)
          ++ (push2 (is_some edge.max_rounds && not (edge.kind == loop)) id "edges"
                max_rounds_not_loop
              ++ push2 (edge.max_rounds == some 0) id "edges" zero_max_rounds))

  pub validate_edges : List Edge → List (AgentId × EdgeKind) → List ValidationIssue
  validate_edges [] seen = []
  validate_edges (edge ∷ edges) seen =
      validate_edge edge seen ++ validate_edges edges ((edge.to, edge.kind) ∷ seen)

abbrev is_ascii_alphanumeric : ℕ → Bool
is_ascii_alphanumeric c =
    (leb b'0' c && leb c b'9') || (leb b'A' c && leb c b'Z') || (leb b'a' c && leb c b'z')

-- A bare binary name.
unfoldable pub is_bare : String → Bool
is_bare tool =
    not (is_empty tool)
    && all (λ c. is_ascii_alphanumeric c || c == b'.' || c == b'_' || c == b'-') (codes tool)

unfoldable pub validate_tools : AgentId → List String → List ValidationIssue
validate_tools id [] = []
validate_tools id (tool ∷ tools) =
    push2 (not (is_bare tool)) id "tools" (bad_tool tool) ++ validate_tools id tools

unfoldable pub validate_allow : AgentId → List String → List ValidationIssue
validate_allow id [] = []
validate_allow id (rule ∷ rules) =
    push2 (is_blank rule) id "allow" (blank_allow rule) ++ validate_allow id rules

-- `seen` is the set of names that were neither blank nor repeated.
unfoldable pub validate_mcp : AgentId → List String → List String → List ValidationIssue
validate_mcp id [] seen = []
validate_mcp id (name ∷ names) seen =
    (if is_blank name
      then push2 true id "mcp" (blank_mcp name)
      else push2 (member name seen) id "mcp" (repeated_mcp name))
    ++ validate_mcp id names (if is_blank name then seen else name ∷ seen)

-- The parts of a path between its separators.
abbrev add_part : String → List String → List String
add_part part parts = if is_empty part || part == "." then parts else part ∷ parts

split_path : String → String × List String
split_path String.[] = ("", [])
split_path (String.◌∷◌ c s) =
    let (part, parts) = split_path s in
    if code c == b'/' then ("", add_part part parts) else (String.◌∷◌ c part, parts)

abbrev last_part : List String → Option String
last_part [] = none
last_part (p ∷ []) = some p
last_part (p ∷ q ∷ ps) = last_part (q ∷ ps)

-- `Path::file_name`: the last component, unless it is `..`.
unfoldable pub file_name : String → Option String
unfolding split_path
file_name path =
    let (part, parts) = split_path path in
    let last = last_part (add_part part parts) in if last == some ".." then none else last

-- What one skill path adds, and the names taken by those before it and by it.
abbrev entry_path : AgentId → ℕ → String
entry_path id n = concat ("agents." ∷ id ∷ ".skills[" ∷ show n ∷ "]" ∷ [])

abbrev pub name_skill :
    AgentId
    → ℕ
    → String
    → Option String
    → Dict String String
    → List ValidationIssue × Dict String String
name_skill id n path none names = (push true (entry_path id n) (nameless_skill path), names)
name_skill id n path (some name) names = elim (lookup name names) [
  | none ↦ ([], insert name path names)
  | some first ↦ (push2 true id "skills" (same_skill_name name first path), names)
]

unfoldable pub validate_skill :
    AgentId → ℕ → String → Dict String String → List ValidationIssue × Dict String String
unfolding file_name
validate_skill id n path names =
    if is_empty path
    then (push true (entry_path id n) empty_skill, names)
    else name_skill id n path (file_name path) names

unfoldable pub validate_each_skill :
    AgentId → ℕ → List String → Dict String String → List ValidationIssue
unfolding validate_skill
validate_each_skill id n [] names = []
validate_each_skill id n (path ∷ paths) names =
    let (issues, taken) = validate_skill id n path names in
    issues ++ validate_each_skill id (suc n) paths taken

unfoldable pub validate_skills : AgentId → AgentConfig → List ValidationIssue
unfolding validate_each_skill
validate_skills id agent = elim agent.skills [
  | [] ↦ []
  | path ∷ paths ↦
      push2 (not agent.isolated_config) id "skills" skills_not_isolated
      ++ validate_each_skill id 0 (path ∷ paths) []
]

-- One turn of the loop over the agents.
unfoldable pub validate_agent :
    Dict AgentId AgentConfig → AgentId → AgentConfig → List ValidationIssue
unfolding validate_edges validate_edge validate_tools validate_allow validate_mcp validate_skills
validate_agent agents id agent =
    push (not (is_valid (codes id))) (agent_path id) (bad_agent_id id)
    ++ (push2 (is_blank agent.prompt) id "prompt" blank_prompt
        ++ (push2 (is_empty agent.dir) id "dir" empty_dir
            ++ (validate_edges agents id agent.edges []
                ++ (validate_tools id agent.tools
                    ++ (validate_allow id agent.allow
                        ++ (validate_mcp id agent.mcp [] ++ validate_skills id agent))))))
