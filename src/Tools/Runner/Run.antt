-- ===== src/Tools/Runner/Run.antt =====
-- src/acip/tools/runner.py: `run`, from its checks to the row of the call and its evidence.
use agentic_cyber_investigat.Prelude.{
  suc, String, not, ◌&&◌, Option, none, some, is_some, [], ◌∷◌, ◌++◌, length,
}
use agentic_cyber_investigat.Prelude.Result.{Result, ok, err, ◌>>=◌, ◌>>◌, raise_if}
use agentic_cyber_investigat.Types.{RunStatus}
use agentic_cyber_investigat.Evidence.Contracts.{Platform}
use agentic_cyber_investigat.Evidence.Store.{Source, add_valid}
use agentic_cyber_investigat.Tools.Runner.{
  Execution, FileSystem, ToolAdapter, ToolCall, ToolContext, ToolFault, ToolInvocation, ToolRun,
  ToolRunner, all_warnings, change_last, check_containment, contained, finalize, invalid_arguments,
  not_available, raised, invalid_entity, redact_args, requires_an_artifact, returned, time_limit,
  timed_out, tool_raised, tool_timed_out, unknown_tool,
}

module _ {R A W : Type 0} (env : Platform) (fs : FileSystem) (call : ToolCall R) where
  -- What `run` checks before it writes the row: the tool, its arguments and the artifact's path.
  unfoldable pub prepare :
      ToolRunner R A W → String → Result ToolFault (ToolAdapter R A W × A × Option String)
  unfolding check_containment
  prepare runner tool_name = elim (runner.registry tool_name) [
    | none ↦ err unknown_tool
    | some tool ↦ elim tool.unavailable_reason [
      | some reason ↦ err (not_available reason)
      | none ↦ elim (tool.model_validate call.args) [
        | err problem ↦ err (invalid_arguments problem)
        | ok args ↦ do
          raise_if (tool.requires_artifact && not (is_some call.artifact_path)) requires_an_artifact
          contained fs call.artifact_path runner.artifact_root >>= (λ path. ok (tool, args, path))
      ]
    ]
  ]

  abbrev pub opened_run : ToolRunner R A W → ToolAdapter R A W → A → ToolRun
  opened_run runner tool args =
      let n = runner.store.session.drawn in
      record {
        id = env.uuid4 n;
        investigation_id = runner.store.investigation_id;
        agent_run_id = call.agent_run_id;
        tool_name = tool.name;
        tool_version = tool.version;
        sandbox_tier = tool.tier;
        args = redact_args (tool.model_dump args);
        status = RunStatus.running;
        exit_status = none;
        evidence_count = 0;
        warnings = [];
        started_at = env.utcnow n;
        finished_at = none;
        duration_ms = none;
        error = none;
      }

  -- The runner once the row is written.
  abbrev pub opened : ToolRunner R A W → ToolRun → ToolRunner R A W
  opened runner row = record runner {
    store = record runner.store {
      session = record runner.store.session { drawn = suc runner.store.session.drawn };
    };
    tool_runs = runner.tool_runs ++ row ∷ [];
  }

  abbrev pub finalized : (ToolRun → ToolRun) → ToolRunner R A W → ToolRunner R A W
  finalized final runner = record runner { tool_runs = change_last final runner.tool_runs }

  -- What follows the execution of the tool of the row. The store is called outside of the handlers, so an
  -- exception of its leaves the row as it is.
  unfoldable pub settle :
      ToolAdapter R A W
      → ToolRun
      → ToolRunner R A W
      → Execution
      → Result ToolFault ToolInvocation × ToolRunner R A W
  settle tool row runner timed_out = (
    err (tool_timed_out (time_limit call.timeout runner.default_timeout)),
    finalized
        (finalize (env.utcnow runner.store.session.drawn) RunStatus.failed (some "timed out") 0 []
          none)
        runner,
  )
  settle tool row runner (raised reason) = (
    err (tool_raised reason),
    finalized
        (finalize (env.utcnow runner.store.session.drawn) RunStatus.failed (some reason) 0 [] none)
        runner,
  )
  settle tool row runner (returned result) =
      let source : Source = record {
        source_tool = tool.name;
        artifact_id = call.artifact_id;
        tool_run_id = some row.id;
        agent_run_id = call.agent_run_id;
      } in
      elim (add_valid env runner.store source result.evidence) [
        | none ↦ (err invalid_entity, runner)
        | some added ↦
            let final =
              finalize (env.utcnow added.1.session.drawn) RunStatus.succeeded none (length added.0)
                (all_warnings result added.1.last_quota_dropped) result.exit_status in
            (
              ok (record { tool_run = final row; result = result; evidence = added.0 }),
              finalized final (record runner { store = added.1 }),
            )
      ]

  unfoldable pub run_tool :
      ToolRunner R A W → String → W → Result ToolFault ToolInvocation × ToolRunner R A W × W
  unfolding prepare settle redact_args
  run_tool runner tool_name w = elim (prepare runner tool_name) [
    | err fault ↦ (err fault, runner, w)
    | ok (tool, args, path) ↦
        let row = opened_run runner tool args in
        let start = opened runner row in
        let context : ToolContext = record {
          investigation_id = runner.store.investigation_id;
          agent_run_id = call.agent_run_id;
          artifact_id = call.artifact_id;
          artifact_path = path;
        } in
        let (execution, w') =
          tool.execute args context (time_limit call.timeout runner.default_timeout) w in
        let (outcome, after) = settle tool row start execution in (outcome, after, w')
  ]
