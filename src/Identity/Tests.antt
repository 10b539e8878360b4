-- ===== src/Identity/Tests.antt =====
-- Concrete identities and tags, and the theorems at them.
use aurora_bot.Prelude.{◌≡◌, ◌≢◌, ◌↔◌, refl, String, true, none, List, [], ◌∷◌, codes, ok, err}
use aurora_bot.Prelude.Dict
use aurora_bot.Prelude.Dict.{Dict}
use aurora_bot.Identity.Names.{is_namespace, is_path, namespace_form, path_form}
use aurora_bot.Identity.Identifiers.{
  repeated_tag, Identifier, parse, print, matches_species, world_scope, no_namespace, bad_path,
  cycle, out_of_fuel, unknown_tag,
}
use aurora_bot.Identity.Tags.{expand, tags_config, max_tag_depth}
use aurora_bot.Identity.Segments.{Joined, is_namespace-Joined}
use aurora_bot.Identity.Parsing.{IsIdentifier, parse-print}
use aurora_bot.Identity.Expansion.{Expands}
use aurora_bot.Identity.Ending.{expand-ends, expand-Expands}

abbrev send : Identifier
send = record { namespace = "org.aurora.qq"; path = "tool/definition/send.message" }

parse_send : parse none "org.aurora.qq:tool/definition/send.message" ≡ ok send
unfolding parse
parse_send = refl

parse_bare : parse none "send" ≡ err no_namespace
unfolding parse
parse_bare = refl

parse_empty_segment : parse none "aurora:tool//send" ≡ err bad_path
unfolding parse
parse_empty_segment = refl

species_tool : matches_species "tool/definition/send" "tool/definition/" ≡ true
unfolding matches_species
species_tool = refl

world_of_aurora : world_scope "aurora" ≡ ok "aurora:world"
unfolding world_scope
world_of_aurora = refl

-- The tag b stands for two entries, a for b and one more, and c for itself.
abbrev table : Dict String (List String)
table = ("a", "#b" ∷ "z" ∷ []) ∷ ("b", "x" ∷ "y" ∷ []) ∷ ("c", "#c" ∷ []) ∷ []

expanded : expand table ("w" ∷ "#a" ∷ []) ≡ ok ("w" ∷ "x" ∷ "y" ∷ "z" ∷ [])
unfolding expand Dict.get
expanded = refl

in_cycle : expand table ("#c" ∷ []) ≡ err cycle
unfolding expand Dict.get
in_cycle = refl

undeclared_tag : expand table ("#d" ∷ []) ≡ err unknown_tag
unfolding expand Dict.get
undeclared_tag = refl

repeated_names :
    tags_config
      (record { name = "a:x"; values = "y" ∷ [] } ∷ record { name = "a:x"; values = "z" ∷ [] } ∷ [])
    ≡ err repeated_tag
unfolding tags_config
repeated_names = refl

parse-print_example :
    (parse none "org.aurora.qq:tool/definition/send.message" ≡ ok send)
    ↔ ((print send ≡ "org.aurora.qq:tool/definition/send.message") × IsIdentifier send)
parse-print_example = parse-print "org.aurora.qq:tool/definition/send.message" send

is_namespace-Joined_example :
    ((is_namespace "org.aurora" ≡ true) ↔ Joined namespace_form (codes "org.aurora"))
    × ((is_path "org.aurora" ≡ true) ↔ Joined path_form (codes "org.aurora"))
is_namespace-Joined_example = is_namespace-Joined "org.aurora"

expand-ends_example : expand table ("#c" ∷ []) ≢ err out_of_fuel
expand-ends_example = expand-ends table ("#c" ∷ [])

no_cycle : expand table ("w" ∷ "#a" ∷ []) ≢ err cycle
unfolding expand Dict.get
no_cycle p = absurd (cc)

expand-Expands_example :
    (expand table ("w" ∷ "#a" ∷ []) ≡ ok ("w" ∷ "x" ∷ "y" ∷ "z" ∷ []))
    ↔ Expands table max_tag_depth ("w" ∷ "#a" ∷ []) ("w" ∷ "x" ∷ "y" ∷ "z" ∷ [])
expand-Expands_example =
    expand-Expands table ("w" ∷ "#a" ∷ []) ("w" ∷ "x" ∷ "y" ∷ "z" ∷ []) no_cycle
