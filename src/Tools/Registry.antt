-- ===== src/Tools/Registry.antt =====
-- `ToolRegistry` of src/aurora_bot/tools/registry.py. A tool is its definition, the resolver of its
-- scopes, if it has one that can be called, and what its execution answers; definitions, calls and
-- scopes are types of their own, and the read-only views are dictionaries.
use aurora_bot.Prelude.{
  String, Option, none, some, List, [], ◌∷◌, map, contains, sorted, str_le, string_eq, Result, ok,
  err, ◌>>=◌, ◌>>◌, refuse_if, if◌then◌else◌,
}
use aurora_bot.Prelude.Dict
use aurora_bot.Prelude.Dict.{Dict}

pub data ToolStatus : Type 0 where
  succeeded failed unknown : ToolStatus

pub record ToolOutput : Type 0 where
  pub content : String
  pub status : ToolStatus
  pub evidence_refs : List String

-- How an execution ends: an output, a value of another type, a ToolExecutionError or another
-- exception.
pub data Answer : Type 0 where
  output : ToolOutput → Answer
  other_value execution_error : Answer
  exception : String → Answer

-- How the resolution of scopes ends.
pub data Resolved (S : Type 0) : Type 0 where
  scopes : S → Resolved S
  other_scopes : Resolved S
  resolver_exception : String → Resolved S

pub data ToolError : Type 0 where
  repeated_tool invalid_scopes invalid_result : ToolError
  raised : String → ToolError

module _ (D C S : Type 0) where
  pub record Tool : Type 0 where
    pub name : String
    pub definition : D
    pub resolve_scopes : Option (C → Resolved S)
    pub run : C → Answer

  -- ToolCall: the name and the rest
  pub record ToolCall : Type 0 where
    pub tool_name : String
    pub arguments : C

abbrev pub resolved_scopes : {S : Type 0} → Resolved S → Result ToolError S
resolved_scopes (scopes s) = ok s
resolved_scopes other_scopes = err invalid_scopes
resolved_scopes (resolver_exception text) = err (raised text)

abbrev pub scopes_by : {C S : Type 0} → S → C → Option (C → Resolved S) → Result ToolError S
scopes_by no_scopes arguments none = ok no_scopes
scopes_by no_scopes arguments (some resolver) = resolved_scopes (resolver arguments)

abbrev pub failed_output : String → ToolOutput
failed_output text = record { content = text; status = failed; evidence_refs = [] }

abbrev pub normalised : Answer → Result ToolError ToolOutput
normalised (output o) = ok o
normalised other_value = err invalid_result
normalised execution_error = ok (failed_output "工具确认执行失败")
normalised (exception text) = err (raised text)

module _ {D C S : Type 0} where
  abbrev pub names_of : List (Tool D C S) → List String
  names_of = map (λ t. t.name)

  -- the loop over the tools
  unfoldable pub register :
      List (Tool D C S) → Dict String (Tool D C S) → Result ToolError (Dict String (Tool D C S))
  register [] bindings = ok bindings
  register (tool ∷ tools) bindings = do
    refuse_if (contains (Dict.keys bindings) tool.name) repeated_tool
    register tools (Dict.put bindings tool.name tool)

  abbrev pub with_tool :
      String → Option (Tool D C S) → Dict String (Tool D C S) → Dict String (Tool D C S)
  with_tool name none rest = rest
  with_tool name (some tool) rest = (name, tool) ∷ rest

  -- {name: bindings[name] for name in names}
  unfoldable pub arrange : List String → Dict String (Tool D C S) → Dict String (Tool D C S)
  arrange [] bindings = []
  arrange (name ∷ names) bindings = with_tool name (Dict.get bindings name) (arrange names bindings)

  -- ToolRegistry(tools)
  unfoldable pub tool_registry : List (Tool D C S) → Result ToolError (Dict String (Tool D C S))
  unfolding register arrange
  tool_registry tools = do
    bindings ← register tools []
    ok (arrange (sorted str_le (Dict.keys bindings)) bindings)

  -- definitions
  abbrev pub definitions : Dict String (Tool D C S) → List D
  definitions = map (λ entry. entry.1.definition)

  -- definitions_for
  unfoldable pub definitions_for : Dict String (Tool D C S) → List String → List D
  definitions_for [] visible = []
  definitions_for ((name, tool) ∷ tools) visible =
      let rest = definitions_for tools visible in
      if contains visible name then tool.definition ∷ rest else rest

  abbrev pub scopes_with : S → C → Option (Tool D C S) → Result ToolError S
  scopes_with no_scopes arguments none = ok no_scopes
  scopes_with no_scopes arguments (some tool) = scopes_by no_scopes arguments tool.resolve_scopes

  -- scopes_for, where `no_scopes` is ToolScopes()
  unfoldable pub scopes_for : S → Dict String (Tool D C S) → ToolCall D C S → Result ToolError S
  scopes_for no_scopes tools call =
      scopes_with no_scopes call.arguments (Dict.get tools call.tool_name)

  -- the dispatch of a call to the tool that was found, where `refusal` names an unknown tool
  abbrev pub answer_of :
      (String → String) → ToolCall D C S → Option (Tool D C S) → Result ToolError ToolOutput
  answer_of refusal call none = ok (failed_output (refusal call.tool_name))
  answer_of refusal call (some tool) = normalised (tool.run call.arguments)

  -- execute
  unfoldable pub execute :
      (String → String) → Dict String (Tool D C S) → ToolCall D C S → Result ToolError ToolOutput
  execute refusal tools call = answer_of refusal call (Dict.get tools call.tool_name)
