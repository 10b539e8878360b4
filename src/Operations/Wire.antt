-- ===== src/Operations/Wire.antt =====
-- The objects that are written to the journal and to the artifact store, as JSON values, and their
-- reading: the description of stored content (src/aurora_bot/contracts/artifact_codec.py, with the
-- checks of src/aurora_bot/contracts/artifact.py). A finite float is its text; the keys of an
-- object are looked up by their first occurrence, and are frozen already.
use aurora_bot.Prelude.{
  ℕ, ◌≡◌, refl, sym, ap, ◌∙◌, String, Bool, false, not, ◌&&◌, ◌||◌, Option, none, some, List, [],
  ◌∷◌, any, all, reverse, length, codes, is_space, is_blank, leb, ltb, nat_beq, ◌==◌, string_eq,
  if◌then◌else◌, Result, ok, err, ◌>>=◌, ◌>>◌, refuse_if,
}
use aurora_bot.Prelude.Int.{ℤ, pos}
use aurora_bot.Resources.Keys.{ResourceKey, ResourceRef}
use aurora_bot.Resources.Names.{KeyError, print_key, parse_key, IsKey, parse_key-print_key}
use aurora_bot.Operations.Payloads.{ArtifactInfo}

mutual
  pub data Value : Type 0 where
    null : Value
    flag : Bool → Value
    number : ℤ → Value
    real : String → Value
    text : String → Value
    object : Fields → Value
    array : Elements → Value

  pub data Fields : Type 0 where
    no_fields : Fields
    field : String → Value → Fields → Fields

  pub data Elements : Type 0 where
    no_elements : Elements
    element : Value → Elements → Elements

-- data.get(name)
unfoldable pub field_of : Fields → String → Option Value
field_of no_fields name = none
field_of (field key value rest) name =
    let later = field_of rest name in if key == name then some value else later

pub data WireError : Type 0 where
  missing_field not_text not_an_object bad_revision bad_size bad_media_type : WireError
  bad_key : KeyError → WireError

-- the text of a field that must be one
abbrev pub text_or : Option Value → Result WireError String
text_or (some (text s)) = ok s
text_or _ = err not_text

-- a text or null
abbrev pub optional_text : Option String → Value
optional_text none = null
optional_text (some s) = text s

abbrev pub texts : List String → Elements
texts [] = no_elements
texts (s ∷ ss) = element (text s) (texts ss)

abbrev pub ends_with_space : List ℕ → Bool
ends_with_space [] = false
ends_with_space (c ∷ s) = is_space c

-- ResourceRef(key, revision)
unfoldable pub resource_ref : ResourceKey → Option String → Result WireError ResourceRef
unfolding is_blank is_space
resource_ref key none = ok (record { key = key; revision = none })
resource_ref key (some revision) = do
  refuse_if
      (is_blank revision
        || ends_with_space (codes revision)
        || ends_with_space (reverse (codes revision)))
      bad_revision
  ok (record { key = key; revision = some revision })

-- [0-9a-f]
abbrev pub is_hex : ℕ → Bool
is_hex c = leb 48 c && leb c 57 || leb 97 c && leb c 102

-- artifact_revision: whether _SHA256 matches the revision
unfoldable pub is_digest : Option String → Bool
is_digest none = false
is_digest (some revision) = nat_beq (length (codes revision)) 64 && all is_hex (codes revision)

-- ArtifactInfo(ref, size, media_type), where `size` is any value
unfoldable pub artifact_info : ResourceRef → Value → String → Result WireError ArtifactInfo
unfolding is_digest is_blank
artifact_info ref (number (pos size)) media_type = do
  refuse_if (not (is_digest ref.revision)) bad_revision
  refuse_if (is_blank media_type || any (λ c. ltb c 32) (codes media_type)) bad_media_type
  ok (record { ref = ref; size = size; media_type = media_type })
artifact_info ref _ media_type = do
  refuse_if (not (is_digest ref.revision)) bad_revision
  err bad_size

-- artifact_data
unfoldable pub artifact_data : ArtifactInfo → Fields
unfolding print_key
artifact_data info = field "key" (text (print_key info.ref.key)) (
    field "revision" (optional_text info.ref.revision)
      (field "size" (number (pos info.size)) (field "media_type" (text info.media_type) no_fields)))

abbrev pub key_or : Result KeyError ResourceKey → Result WireError ResourceKey
key_or (err e) = err (bad_key e)
key_or (ok key) = ok key

abbrev pub value_or : Option Value → Result WireError Value
value_or none = err missing_field
value_or (some value) = ok value

-- read_artifact
unfoldable pub read_artifact : Value → Result WireError ArtifactInfo
unfolding field_of parse_key resource_ref artifact_info
read_artifact (object fields) = do
  key_text ← text_or (field_of fields "key")
  revision ← text_or (field_of fields "revision")
  media_type ← text_or (field_of fields "media_type")
  key ← key_or (parse_key key_text)
  ref ← resource_ref key (some revision)
  size ← value_or (field_of fields "size")
  artifact_info ref size media_type
read_artifact _ = err not_an_object

-- A description that passed the checks of its constructors.
pub record IsInfo (info : ArtifactInfo) : Type 0 where
  pub key_ok : IsKey info.ref.key
  pub ref_ok : resource_ref info.ref.key info.ref.revision ≡ ok info.ref
  pub info_ok : artifact_info info.ref (number (pos info.size)) info.media_type ≡ ok info

has_revision :
    (key : ResourceKey) (revision : Option String) (size : ℕ) (media_type : String)
    (i : ArtifactInfo)
    → artifact_info (record { key = key; revision = revision }) (number (pos size)) media_type
      ≡ ok i
    → (r : String) × (revision ≡ some r)
unfolding artifact_info
has_revision key none size media_type i h = absurd (cc)
has_revision key (some r) size media_type i h = (r, refl)

with_revision : ArtifactInfo → Option String → Fields
with_revision info revision = field "key" (text (print_key info.ref.key)) (
    field "revision" (optional_text revision)
      (field "size" (number (pos info.size)) (field "media_type" (text info.media_type) no_fields)))

-- The last steps of read_artifact.
finish : ArtifactInfo → String → Result WireError ResourceKey → Result WireError ArtifactInfo
finish info revision found = do
  key ← found
  ref ← resource_ref key (some revision)
  artifact_info ref (number (pos info.size)) info.media_type

-- A valid description is read from the fields that it is written as.
pub read_artifact-artifact_data :
    (info : ArtifactInfo) → IsInfo info → read_artifact (object (artifact_data info)) ≡ ok info
unfolding read_artifact artifact_data with_revision finish field_of
read_artifact-artifact_data info h =
    let (r, e) =
      has_revision info.ref.key info.ref.revision info.size info.media_type info h.info_ok in
    ap (λ o. read_artifact (object (with_revision info o))) e
    ∙ ap (λ k. finish info r (key_or k)) (parse_key-print_key info.ref.key h.key_ok)
    ∙ ap (λ x. x >>= λ ref. artifact_info ref (number (pos info.size)) info.media_type)
        (ap (resource_ref info.ref.key) (sym e) ∙ h.ref_ok)
    ∙ h.info_ok
