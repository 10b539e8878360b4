-- ===== src/Identity/Tags.antt =====
-- `TagDefinition`, `TagTable` and `TagsConfig` of src/aurora_bot/contracts/identity.py. The output
-- list that the recursion appends to is its result. The recursion takes one unit of fuel for each
-- level of tags.
use Prim.Native.Char.{code}
use aurora_bot.Prelude.{
  ℕ, zero, suc, String, Bool, false, ◌||◌, Option, none, some, List, [], ◌∷◌, ◌++◌, length, any,
  contains, is_empty, Result, ok, err, ◌>>=◌, ◌>>◌, refuse_if, is_blank, string_eq, leb, nat_beq,
  if◌then◌else◌,
}
use aurora_bot.Prelude.Dict
use aurora_bot.Prelude.Dict.{Dict}
use aurora_bot.Identity.Identifiers.{
  IdentityError, bad_tag, repeated_tag, cycle, too_deep, unknown_tag, out_of_fuel, parse,
}

-- TagDefinition
pub record TagDefinition : Type 0 where
  pub name : String
  pub values : List String

-- TagDefinition.__post_init__
unfoldable pub tag_definition : TagDefinition → Result IdentityError TagDefinition
unfolding parse is_blank
tag_definition tag = do
  parse none tag.name
  refuse_if (is_empty tag.values || any is_blank tag.values) bad_tag
  ok tag

abbrev pub repeats : List String → Bool
repeats [] = false
repeats (name ∷ names) = contains names name || repeats names

abbrev pub tag_names : List TagDefinition → List String
tag_names [] = []
tag_names (tag ∷ tags) = tag.name ∷ tag_names tags

-- TagsConfig.__post_init__
unfoldable pub tags_config : List TagDefinition → Result IdentityError (List TagDefinition)
tags_config tags = do refuse_if (repeats (tag_names tags)) repeated_tag; ok tags

-- table
unfoldable pub table_of : List TagDefinition → Dict String (List String) → Dict String (List String)
table_of [] tags = tags
table_of (tag ∷ rest) tags = table_of rest (Dict.put tags tag.name tag.values)

abbrev pub hash : ℕ
hash = 35

-- the name after the prefix, where the entry has the prefix
unfoldable pub tag_of : String → Option String
tag_of String.[] = none
tag_of (String.◌∷◌ c s) = if nat_beq (code c) hash then some s else none

abbrev pub max_tag_depth : ℕ
max_tag_depth = 16

-- the checks of one tag
unfoldable pub check_tag : List String → String → Result IdentityError (Unit {0})
check_tag stack name = do
  refuse_if (contains stack name) cycle
  refuse_if (leb max_tag_depth (length stack)) too_deep

module _ (tags : Dict String (List String)) where
  -- self.tags.get(name), or its error
  unfoldable pub values_of : String → Result IdentityError (List String)
  values_of name = elim (Dict.get tags name) [ none ↦ err unknown_tag | some values ↦ ok values ]

  -- one entry and the tag that it names, where `inside` expands the values of the tag
  unfoldable pub expand_named :
      (List String → List String → Result IdentityError (List String))
      → List String
      → String
      → Option String
      → Result IdentityError (List String)
  unfolding check_tag values_of
  expand_named inside stack entry none = ok (entry ∷ [])
  expand_named inside stack entry (some name) = do
    check_tag stack name
    values ← values_of name
    inside (stack ++ name ∷ []) values

  unfoldable pub expand_all :
      (List String → List String → Result IdentityError (List String))
      → List String
      → List String
      → Result IdentityError (List String)
  unfolding expand_named tag_of
  expand_all inside stack [] = ok []
  expand_all inside stack (entry ∷ entries) = do
    some_entries ← expand_named inside stack entry (tag_of entry)
    rest ← expand_all inside stack entries
    ok (some_entries ++ rest)

  -- _expand_into
  unfoldable pub expand_into : ℕ → List String → List String → Result IdentityError (List String)
  unfolding expand_all
  expand_into zero stack entries = err out_of_fuel
  expand_into (suc fuel) stack entries = expand_all (expand_into fuel) stack entries

  -- expand
  unfoldable pub expand : List String → Result IdentityError (List String)
  unfolding expand_into
  expand entries = expand_into (suc max_tag_depth) [] entries
