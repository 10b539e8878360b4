-- ===== src/Tools/Tests.antt =====
-- A registry of two tools, and the theorems at it. Definitions, calls and scopes are texts.
use aurora_bot.Prelude.{
  ◌≡◌, ◌↔◌, refl, String, none, some, [], ◌∷◌, Distinct, string_eq, str_le, ok, err, sorted,
}
use aurora_bot.Prelude.Dict
use aurora_bot.Prelude.Dict.{Dict}
use aurora_bot.Tools.Registry.{
  Tool, ToolCall, succeeded, output, execution_error, scopes, repeated_tool, names_of,
  tool_registry, definitions_for, scopes_for, failed_output, execute,
}
use aurora_bot.Tools.Routing.{tool_registry-Distinct}
use aurora_bot.Tools.Outcomes.{Executes, Scopes, execute-Executes}

abbrev read_tool : Tool String String String
read_tool = record {
  name = "aurora:tool/definition/read";
  definition = "reads";
  resolve_scopes = some (λ c. scopes c);
  run = λ c. output (record { content = c; status = succeeded; evidence_refs = [] });
}

abbrev wait_tool : Tool String String String
wait_tool = record {
  name = "aurora:tool/definition/wait";
  definition = "waits";
  resolve_scopes = none;
  run = λ c. execution_error;
}

abbrev catalog : Dict String (Tool String String String)
catalog = (read_tool.name, read_tool) ∷ (wait_tool.name, wait_tool) ∷ []

abbrev read_call : ToolCall String String String
read_call = record { tool_name = "aurora:tool/definition/read"; arguments = "notes" }

built : tool_registry (wait_tool ∷ read_tool ∷ []) ≡ ok catalog
unfolding tool_registry Dict.put Dict.get sorted str_le
built = refl

repeated : tool_registry (wait_tool ∷ wait_tool ∷ []) ≡ err repeated_tool
unfolding tool_registry Dict.put
repeated = refl

visible_only : definitions_for catalog ("aurora:tool/definition/wait" ∷ []) ≡ "waits" ∷ []
unfolding definitions_for
visible_only = refl

unknown_tool :
    execute (λ n. n) catalog (record read_call { tool_name = "missing" })
    ≡ ok (failed_output "missing")
unfolding execute Dict.get
unknown_tool = refl

tool_registry-Distinct_example :
    ((r : Dict String (Tool String String String)) × (tool_registry (wait_tool ∷ read_tool ∷ [])
        ≡ ok r))
    ↔ Distinct (names_of (wait_tool ∷ read_tool ∷ []))
tool_registry-Distinct_example = tool_registry-Distinct (wait_tool ∷ read_tool ∷ [])

execute-Executes_example :
    Executes (λ n. n) (wait_tool ∷ read_tool ∷ []) read_call (execute (λ n. n) catalog read_call)
    × Scopes "" (wait_tool ∷ read_tool ∷ []) read_call (scopes_for "" catalog read_call)
execute-Executes_example =
    execute-Executes (wait_tool ∷ read_tool ∷ []) read_call catalog built (λ n. n) ""
