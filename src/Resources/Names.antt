-- ===== src/Resources/Names.antt =====
-- The text of a resource key and how it is read (`ResourceKey` of
-- src/aurora_bot/contracts/resource.py).
use Prim.Native.Char.{Char, code}
use aurora_bot.Prelude.{
  ◌≡◌, refl, ap, ap₂, ◌∙◌, String, Bool, true, false, not, Option, none, some, arith, codes,
  nat_beq, Bool-cases, inl, inr, if◌then◌else◌, Result, ok, err, ◌>>◌, refuse_if,
}
use aurora_bot.Resources.Keys.{ResourceKey}
use aurora_bot.Identity.Names.{scan, namespace_form, path_form, slash, is_namespace, is_path}
use aurora_bot.Identity.Identifiers.{Identifier, IdentityError, parse, join, print}
use aurora_bot.Identity.Parsing.{parse-print}

pub data KeyError : Type 0 where
  identity : IdentityError → KeyError
  bad_label bad_key_path not_three_parts : KeyError

-- ResourceKey(namespace, domain, kind, path)
unfoldable pub resource_key : ResourceKey → Result KeyError ResourceKey
unfolding is_namespace is_path
resource_key key = do
  refuse_if (not (is_namespace key.namespace)) bad_label
  refuse_if (not (is_namespace key.domain)) bad_label
  refuse_if (not (is_namespace key.kind)) bad_label
  refuse_if (not (is_path key.path)) bad_key_path
  ok key

abbrev pub before : Char → Option (String × String) → Option (String × String)
before c none = none
before c (some (head, tail)) = some (String.◌∷◌ c head, tail)

-- text.split("/", maxsplit=1), where the separator occurs
unfoldable pub split_slash : String → Option (String × String)
split_slash String.[] = none
split_slash (String.◌∷◌ c s) =
    let rest = split_slash s in if nat_beq (code c) slash then some ("", s) else before c rest

-- the last two of the three parts, and ResourceKey
abbrev pub with_kind : String → String → Option (String × String) → Result KeyError ResourceKey
with_kind namespace domain none = err not_three_parts
with_kind namespace domain (some (kind, path)) =
    resource_key (record { namespace = namespace; domain = domain; kind = kind; path = path })

abbrev pub with_domain : String → Option (String × String) → Result KeyError ResourceKey
with_domain namespace none = err not_three_parts
with_domain namespace (some (domain, rest)) = with_kind namespace domain (split_slash rest)

abbrev pub from_identifier : Result IdentityError Identifier → Result KeyError ResourceKey
from_identifier (err e) = err (identity e)
from_identifier (ok i) = with_domain i.namespace (split_slash i.path)

-- ResourceKey.parse: split("/", maxsplit=2) is two splits at the first separator
unfoldable pub parse_key : String → Result KeyError ResourceKey
unfolding split_slash resource_key parse
parse_key text = from_identifier (parse none text)

-- the part of ResourceKey.__str__ after the colon
unfoldable pub key_path : ResourceKey → String
unfolding join
key_path key = join key.domain (join "/" (join key.kind (join "/" key.path)))

-- ResourceKey.__str__
unfoldable pub print_key : ResourceKey → String
unfolding join key_path
print_key key = join key.namespace (join ":" (key_path key))

-- A key that passed the checks of its constructor.
pub record IsKey (key : ResourceKey) : Type 0 where
  pub namespace_ok : is_namespace key.namespace ≡ true
  pub domain_ok : is_namespace key.domain ≡ true
  pub kind_ok : is_namespace key.kind ≡ true
  pub path_ok : is_path key.path ≡ true

before_slash :
    (c : Char) (s t : String)
    → nat_beq (code c) slash ≡ false
    → split_slash (join s (join "/" t)) ≡ some (s, t)
    → split_slash (join (String.◌∷◌ c s) (join "/" t)) ≡ some (String.◌∷◌ c s, t)
unfolding join split_slash
before_slash c s t f h =
    ap
      (λ b.
        if b then some ("", join s (join "/" t)) else before c (split_slash (join s (join "/" t))))
      f
    ∙ ap (before c) h

-- A namespace holds no slash.
split_slash-join :
    (inside : Bool) (s t : String)
    → scan namespace_form inside (codes s) ≡ true
    → split_slash (join s (join "/" t)) ≡ some (s, t)
unfolding scan join split_slash
split_slash-join inside String.[] t h = refl
split_slash-join false (String.◌∷◌ c s) t h =
    before_slash c s t (ground arith) (split_slash-join true s t (ground arith))
split_slash-join true (String.◌∷◌ c s) t h =
    elim (Bool-cases (nat_beq (code c) namespace_form.separator)) [
      | inl d ↦ before_slash c s t (ground arith) (split_slash-join false s t (ground arith))
      | inr n ↦ before_slash c s t (ground arith) (split_slash-join true s t (ground arith))
    ]

-- A namespace and a path, joined by a slash, are a path.
scan-join :
    (inside : Bool) (s t : String)
    → scan namespace_form inside (codes s) ≡ true
    → scan path_form false (codes t) ≡ true
    → scan path_form true (codes (join s (join "/" t))) ≡ true
unfolding scan join
scan-join inside String.[] t h g = ground arith
scan-join false (String.◌∷◌ c s) t h g = ground (arith, scan-join true s t (ground arith) g)
scan-join true (String.◌∷◌ c s) t h g =
    elim (Bool-cases (nat_beq (code c) namespace_form.separator)) [
      | inl d ↦ ground (arith, scan-join false s t (ground arith) g)
      | inr n ↦ ground (arith, scan-join true s t (ground arith) g)
    ]

is_path-join :
    (s t : String) → is_namespace s ≡ true → is_path t ≡ true → is_path (join s (join "/" t)) ≡ true
unfolding is_namespace is_path scan join
is_path-join String.[] t h g = absurd (cc)
is_path-join (String.◌∷◌ c s) t h g = ground (arith, scan-join true s t (ground arith) g)

resource_key-IsKey : (key : ResourceKey) → IsKey key → resource_key key ≡ ok key
unfolding resource_key
resource_key-IsKey key h =
    ap₂
      (λ a b.
        refuse_if (not a) bad_label
        >> (refuse_if (not b) bad_label
            >> (refuse_if (not (is_namespace key.kind)) bad_label
                >> (refuse_if (not (is_path key.path)) bad_key_path >> ok key))))
      h.namespace_ok h.domain_ok
    ∙ ap₂ (λ a b. refuse_if (not a) bad_label >> (refuse_if (not b) bad_key_path >> ok key))
        h.kind_ok h.path_ok

namespace-split :
    (s t : String) → is_namespace s ≡ true → split_slash (join s (join "/" t)) ≡ some (s, t)
unfolding is_namespace
namespace-split s t h = split_slash-join false s t h

-- A valid key is read from the text that it is written as.
pub parse_key-print_key : (key : ResourceKey) → IsKey key → parse_key (print_key key) ≡ ok key
unfolding parse_key print_key key_path print
parse_key-print_key key h =
    let rest = join key.kind (join "/" key.path) in
    let whole : is_path (key_path key) ≡ true =
      is_path-join key.domain rest h.domain_ok
        (is_path-join key.kind key.path h.kind_ok h.path_ok) in
    let i : Identifier = record { namespace = key.namespace; path = key_path key } in
    ap from_identifier ((parse-print (print_key key) i).1 (refl, (h.namespace_ok, whole)))
    ∙ ap (with_domain key.namespace) (namespace-split key.domain rest h.domain_ok)
    ∙ ap (with_kind key.namespace key.domain) (namespace-split key.kind key.path h.kind_ok)
    ∙ resource_key-IsKey key h
