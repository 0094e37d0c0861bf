-- ===== src/Examples/Serving.antt =====
-- The theorems on serve mode, at a daemon with one webhook flow.
use core_tempo.Common.{◌≡◌, refl, true, false, List, [], ◌∷◌, ◌++◌, none, some, length, string_eq}
use core_tempo.Common.Dict.{lookup, insert}
use core_tempo.Types.Config.{FrozenWorkflow, FrozenFlow}
use core_tempo.Types.Config
use core_tempo.Workflow.Validate.{err}
use core_tempo.Serve.{
  FlowIngress, stopped, Call, posts, works, interrupts, run, serve, ServeState, admit,
  shutting_down,
}
use core_tempo.Serve.Accounts.{IsAccounted}
use core_tempo.Serve.Accounts.Run.{serve-IsAccounted}
use core_tempo.Serve.Drained.{shutdown_drains}
use core_tempo.Examples.{workflow}

abbrev review : FrozenFlow
review = record {
  members = "critic" ∷ [];
  trigger_type = Config.webhook;
  edge = record { to = "critic"; kind = Config.ask; max_rounds = none };
  message = none;
}

abbrev served : FrozenWorkflow
served = record workflow { flows = ("review", review) ∷ [] }

-- Three triggers; the first runs, and the worker has the second in hand.
abbrev before : List Call
before =
    posts "review" "aa" "one"
    ∷ posts "review" "bb" "two"
    ∷ posts "review" "cc" "three"
    ∷ works "review" true
    ∷ works "review" true
    ∷ works "review" true
    ∷ works "review" true
    ∷ works "review" true
    ∷ []

serve-IsAccounted_example : IsAccounted 2 (run before (serve served 2))
serve-IsAccounted_example = serve-IsAccounted served 2 before

-- The interrupt settles the second and the third, and the first goes on.
abbrev left : FlowIngress
left = record {
  jobs = [];
  closed = true;
  is_open = false;
  outstanding = 1;
  running = 1;
  worker = stopped;
  runs = "aa" ∷ [];
}

abbrev end_state : ServeState
end_state = run (before ++ (interrupts ∷ ([] ++ works "review" false ∷ []))) (serve served 2)

goes_on : lookup "review" end_state.flows ≡ some left
unfolding run serve lookup insert
goes_on = refl

shutdown_drains_example :
    (left.jobs ≡ [])
    × (left.outstanding ≡ length left.runs)
    × (left.running ≡ length left.runs)
    × (admit "dd" "four" (left, end_state.shared) ≡ ((left, end_state.shared), err shutting_down))
shutdown_drains_example =
    shutdown_drains served 2 before [] [] "review" false left end_state "dd" "four" refl goes_on
