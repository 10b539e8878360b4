-- ===== src/Identity/Identifiers.antt =====
-- `Identifier`, `world_scope` and `matches_species` of src/aurora_bot/contracts/identity.py.
use Prim.Native.Char.{Char, code}
use aurora_bot.Prelude.{
  ℕ, String, Bool, true, false, not, ◌&&◌, Option, none, some, Result, ok, err, ◌>>◌, refuse_if,
  is_blank, nat_beq, if◌then◌else◌,
}
use aurora_bot.Identity.Names.{is_namespace, is_path}

pub data IdentityError : Type 0 where
  bad_namespace bad_path empty_identity no_namespace bad_tag repeated_tag : IdentityError
  cycle too_deep unknown_tag out_of_fuel : IdentityError

-- Identifier
pub record Identifier : Type 0 where
  pub namespace : String
  pub path : String

-- cls(namespace, path)
unfoldable pub identifier : String → String → Result IdentityError Identifier
unfolding is_namespace is_path
identifier namespace path = do
  refuse_if (not (is_namespace namespace)) bad_namespace
  refuse_if (not (is_path path)) bad_path
  ok (record { namespace = namespace; path = path })

abbrev pub colon : ℕ
colon = 58

-- text.partition(":")
pub record Parts : Type 0 where
  pub head : String
  pub separator : Bool
  pub tail : String

abbrev pub after : Char → Parts → Parts
after c parts = record parts { head = String.◌∷◌ c parts.head }

unfoldable pub partition : String → Parts
partition String.[] = record { head = ""; separator = false; tail = "" }
partition (String.◌∷◌ c s) =
    let rest = partition s in
    if nat_beq (code c) colon
    then record { head = ""; separator = true; tail = s }
    else after c rest

-- the end of parse, where the text is divided
unfoldable pub identify : Option String → Parts → Result IdentityError Identifier
unfolding identifier
identify none parts = if parts.separator then identifier parts.head parts.tail else err no_namespace
identify (some owner) parts =
    if parts.separator then identifier parts.head parts.tail else identifier owner parts.head

-- parse
unfoldable pub parse : Option String → String → Result IdentityError Identifier
unfolding identify partition is_blank
parse default_namespace text = do
  refuse_if (is_blank text) empty_identity
  identify default_namespace (partition text)

-- a + b on texts
unfoldable pub join : String → String → String
join String.[] t = t
join (String.◌∷◌ c s) t = String.◌∷◌ c (join s t)

-- __str__
unfoldable pub print : Identifier → String
unfolding join
print i = join i.namespace (join ":" i.path)

-- optional
unfoldable pub optional : String → Option Identifier
unfolding parse
optional text = elim (parse (some "aurora") text) [ ok i ↦ some i | err e ↦ none ]

-- text.startswith(prefix)
unfoldable pub starts_with : String → String → Bool
starts_with text String.[] = true
starts_with String.[] (String.◌∷◌ p ps) = false
starts_with (String.◌∷◌ c s) (String.◌∷◌ p ps) = nat_beq (code c) (code p) && starts_with s ps

-- matches_species
unfoldable pub matches_species : String → String → Bool
unfolding optional starts_with
matches_species value path_prefix = elim (optional value) [
  | none ↦ false
  | some i ↦ starts_with i.path path_prefix
]

-- world_scope
unfoldable pub world_scope : String → Result IdentityError String
unfolding is_namespace join
world_scope owner = do refuse_if (not (is_namespace owner)) bad_namespace; ok (join owner ":world")
