-- ===== src/Tools/Outcomes.antt =====
-- What a call gives in a built registry (`execute` and `scopes_for` of
-- src/aurora_bot/tools/registry.py), apart from the way it is dispatched.
use aurora_bot.Prelude.{
  [], ◌≡◌, refl, sym, String, Option, none, some, List, string_eq, Result, ok, err,
}
use aurora_bot.Prelude.Dict
use aurora_bot.Prelude.Dict.{Dict}
use aurora_bot.Tools.Registry.{
  Tool, ToolCall, ToolError, ToolOutput, failed, Answer, output, other_value, execution_error,
  exception, Resolved, scopes, other_scopes, resolver_exception, invalid_scopes, invalid_result,
  raised, tool_registry, answer_of, execute, scopes_with, scopes_by, scopes_for, normalised,
}
use aurora_bot.Tools.Routing.{find_tool, get-tool_registry}

module _ {D C S : Type 0} where
  -- What a call gives, by the first tool of its name and what that tool does.
  pub data Executes (refusal : String → String) (tools : List (Tool D C S)) (call : ToolCall D C S)
      : Result ToolError ToolOutput → Type 0 where
    no_tool :
        find_tool tools call.tool_name ≡ none
        → Executes refusal tools call
            (ok (record { content = refusal call.tool_name; status = failed; evidence_refs = [] }))
    answered :
        (t : Tool D C S) (o : ToolOutput)
        → find_tool tools call.tool_name ≡ some t
        → t.run call.arguments ≡ output o
        → Executes refusal tools call (ok o)
    refused_value :
        (t : Tool D C S)
        → find_tool tools call.tool_name ≡ some t
        → t.run call.arguments ≡ other_value
        → Executes refusal tools call (err invalid_result)
    confirmed_failure :
        (t : Tool D C S)
        → find_tool tools call.tool_name ≡ some t
        → t.run call.arguments ≡ execution_error
        → Executes refusal tools call
            (ok (record { content = "工具确认执行失败"; status = failed; evidence_refs = [] }))
    passed_on :
        (t : Tool D C S) (text : String)
        → find_tool tools call.tool_name ≡ some t
        → t.run call.arguments ≡ exception text
        → Executes refusal tools call (err (raised text))

  -- The scopes of a call, by the first tool of its name and what its resolver does.
  pub data Scopes (no_scopes : S) (tools : List (Tool D C S)) (call : ToolCall D C S)
      : Result ToolError S → Type 0 where
    unknown_tool :
        find_tool tools call.tool_name ≡ none → Scopes no_scopes tools call (ok no_scopes)
    no_resolver :
        (t : Tool D C S)
        → find_tool tools call.tool_name ≡ some t
        → t.resolve_scopes ≡ none
        → Scopes no_scopes tools call (ok no_scopes)
    resolved :
        (t : Tool D C S) (resolver : C → Resolved S) (s : S)
        → find_tool tools call.tool_name ≡ some t
        → t.resolve_scopes ≡ some resolver
        → resolver call.arguments ≡ scopes s
        → Scopes no_scopes tools call (ok s)
    refused_scopes :
        (t : Tool D C S) (resolver : C → Resolved S)
        → find_tool tools call.tool_name ≡ some t
        → t.resolve_scopes ≡ some resolver
        → resolver call.arguments ≡ other_scopes
        → Scopes no_scopes tools call (err invalid_scopes)
    not_resolved :
        (t : Tool D C S) (resolver : C → Resolved S) (text : String)
        → find_tool tools call.tool_name ≡ some t
        → t.resolve_scopes ≡ some resolver
        → resolver call.arguments ≡ resolver_exception text
        → Scopes no_scopes tools call (err (raised text))

  module _ (tools : List (Tool D C S)) (call : ToolCall D C S) where
    normalised-Executes :
        (refusal : String → String) (t : Tool D C S) (a : Answer)
        → find_tool tools call.tool_name ≡ some t
        → t.run call.arguments ≡ a
        → Executes refusal tools call (normalised a)
    normalised-Executes refusal t (output o) f r = answered t o f r
    normalised-Executes refusal t other_value f r = refused_value t f r
    normalised-Executes refusal t execution_error f r = confirmed_failure t f r
    normalised-Executes refusal t (exception text) f r = passed_on t text f r

    answer_of-Executes :
        (refusal : String → String) (o : Option (Tool D C S))
        → find_tool tools call.tool_name ≡ o
        → Executes refusal tools call (answer_of refusal call o)
    answer_of-Executes refusal none f = no_tool f
    answer_of-Executes refusal (some t) f =
        normalised-Executes refusal t (t.run call.arguments) f refl

    scopes_by-Scopes :
        (no_scopes : S) (t : Tool D C S) (o : Option (C → Resolved S))
        → find_tool tools call.tool_name ≡ some t
        → t.resolve_scopes ≡ o
        → Scopes no_scopes tools call (scopes_by no_scopes call.arguments o)
    scopes_by-Scopes no_scopes t none f r = no_resolver t f r
    scopes_by-Scopes no_scopes t (some resolver) f r = by_result (resolver call.arguments) refl
      where
        by_result :
            (x : Resolved S)
            → resolver call.arguments ≡ x
            → Scopes no_scopes tools call (scopes_by no_scopes call.arguments (some (λ c. x)))
        by_result (scopes s) e = resolved t resolver s f r e
        by_result other_scopes e = refused_scopes t resolver f r e
        by_result (resolver_exception text) e = not_resolved t resolver text f r e

    scopes_with-Scopes :
        (no_scopes : S) (o : Option (Tool D C S))
        → find_tool tools call.tool_name ≡ o
        → Scopes no_scopes tools call (scopes_with no_scopes call.arguments o)
    scopes_with-Scopes no_scopes none f = unknown_tool f
    scopes_with-Scopes no_scopes (some t) f = scopes_by-Scopes no_scopes t t.resolve_scopes f refl

    -- In a registry that was built, a call gives what the first tool with its name answers: its
    -- output, a failed output for a confirmed failure, an error for any other value or exception;
    -- with no such tool, a failed output. Its scopes are what that tool's resolver gives, with an
    -- error for any other value or exception; with no such tool or no resolver, the empty scopes.
    pub execute-Executes :
        (r : Dict String (Tool D C S))
        → tool_registry tools ≡ ok r
        → (refusal : String → String) (no_scopes : S)
        → Executes refusal tools call (execute refusal r call)
          × Scopes no_scopes tools call (scopes_for no_scopes r call)
    unfolding execute scopes_for
    execute-Executes r h refusal no_scopes =
        let q = sym (get-tool_registry tools r call.tool_name h) in
        (
          answer_of-Executes refusal (Dict.get r call.tool_name) q,
          scopes_with-Scopes no_scopes (Dict.get r call.tool_name) q,
        )
