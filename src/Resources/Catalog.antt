-- ===== src/Resources/Catalog.antt =====
-- `ResourceCatalog` of src/aurora_bot/resources/catalog.py: the checks of its construction, and
-- the resolution of a reference. A mapping of versions to a tuple is a dictionary of lists.
use aurora_bot.Prelude.{
  String, Bool, true, false, not, ◌&&◌, ◌||◌, Option, none, some, List, [], ◌∷◌, ◌++◌, ◌==◌, Result,
  ok, err, ◌>>=◌, ◌>>◌, refuse_if, contains, keep, sorted, str_le, string_eq, if◌then◌else◌,
}
use aurora_bot.Prelude.Dict
use aurora_bot.Prelude.Dict.{Dict}
use aurora_bot.Resources.Keys.{
  ResourceKey, ResourceRef, ResourceDescriptor, ResourceAlias, key_eq, ref_eq, option_eq,
}

pub data CatalogError : Type 0 where
  duplicate_version alias_conflict dangling_alias ambiguous missing wrong_contract : CatalogError

pub record Catalog (M : Type 0) : Type 0 where
  pub entries : Dict ResourceRef (ResourceDescriptor M)
  pub versions : Dict ResourceKey (List (ResourceDescriptor M))
  pub bindings : Dict ResourceKey ResourceRef

-- a < b and a == b on the fields of a key, in the order of the dataclass
abbrev lexicographic : String → String → Bool → Bool
lexicographic a b rest = if a == b then rest else str_le a b

pub key_le : ResourceKey → ResourceKey → Bool
key_le a b =
    lexicographic a.namespace b.namespace
      (lexicographic a.domain b.domain (lexicographic a.kind b.kind (str_le a.path b.path)))

abbrev revision_or_empty : Option String → String
revision_or_empty none = ""
revision_or_empty (some text) = text

-- the sort key (entry.ref.key, entry.ref.revision or "")
unfoldable pub entry_le : {M : Type 0} → ResourceDescriptor M → ResourceDescriptor M → Bool
unfolding key_le
entry_le a b =
    if a.ref.key == b.ref.key
    then str_le (revision_or_empty a.ref.revision) (revision_or_empty b.ref.revision)
    else key_le a.ref.key b.ref.key

-- a filter that is not given lets every value pass
abbrev passes : Option String → String → Bool
passes none value = true
passes (some wanted) value = value == wanted

module _ {M : Type 0} where
  abbrev pub empty : Catalog M
  empty = record { entries = []; versions = []; bindings = [] }

  -- the loop over the definitions
  unfoldable pub add_definitions :
      List (ResourceDescriptor M) → Catalog M → Result CatalogError (Catalog M)
  add_definitions [] c = ok c
  add_definitions (d ∷ ds) c = do
    refuse_if (contains (Dict.keys c.entries) d.ref) duplicate_version
    add_definitions ds (record c {
      entries = Dict.put c.entries d.ref d;
      versions = Dict.put c.versions d.ref.key (Dict.get_or c.versions d.ref.key [] ++ (d ∷ []));
    })

  -- the loop over the aliases
  unfoldable pub add_aliases : List ResourceAlias → Catalog M → Result CatalogError (Catalog M)
  add_aliases [] c = ok c
  add_aliases (a ∷ as') c = do
    refuse_if (contains (Dict.keys c.bindings) a.key || contains (Dict.keys c.versions) a.key)
        alias_conflict
    refuse_if (not (contains (Dict.keys c.entries) a.target)) dangling_alias
    add_aliases as' (record c { bindings = Dict.put c.bindings a.key a.target })

  -- __init__
  unfoldable pub build :
      List (ResourceDescriptor M) → List ResourceAlias → Result CatalogError (Catalog M)
  unfolding add_definitions add_aliases
  build definitions aliases = do c ← add_definitions definitions empty; add_aliases aliases c

  -- find
  unfoldable pub find :
      Catalog M → Option String → Option String → Option String → List (ResourceDescriptor M)
  find c namespace domain kind = sorted entry_le (
      keep
        (λ d.
          passes namespace d.ref.key.namespace
          && passes domain d.ref.key.domain
          && passes kind d.ref.key.kind)
        (Dict.values c.entries))

  abbrev pub only_version : List (ResourceDescriptor M) → Result CatalogError ResourceRef
  only_version [] = err ambiguous
  only_version (d ∷ []) = ok d.ref
  only_version (d ∷ e ∷ ds) = err ambiguous

  abbrev pub bound_or_only :
      Catalog M → ResourceKey → Option ResourceRef → Result CatalogError ResourceRef
  bound_or_only c key (some target) = ok target
  bound_or_only c key none = only_version (Dict.get_or c.versions key [])

  -- the version that a reference means
  unfoldable pub target_of : Catalog M → ResourceRef → Result CatalogError ResourceRef
  target_of c ref = elim ref.revision [
    | some revision ↦ ok ref
    | none ↦ bound_or_only c ref.key (Dict.get c.bindings ref.key)
  ]

  abbrev pub entry : Catalog M → ResourceRef → Result CatalogError (ResourceDescriptor M)
  entry c target = elim (Dict.get c.entries target) [ none ↦ err missing | some d ↦ ok d ]

  abbrev pub lacks : Option ResourceRef → ResourceDescriptor M → Bool
  lacks none d = false
  lacks (some wanted) d = not (d.contract == some wanted)

  -- resolve
  unfoldable pub resolve :
      Catalog M → ResourceRef → Option ResourceRef → Result CatalogError (ResourceDescriptor M)
  unfolding target_of
  resolve c ref contract = do
    target ← target_of c ref
    d ← entry c target
    refuse_if (lacks contract d) wrong_contract
    ok d
