-- ===== src/Identity/Names.antt =====
-- `is_namespace` and `is_path` of src/aurora_bot/contracts/identity.py. The two regular expressions
-- have one form, a separated list of segments with a set of first and a set of further characters,
-- which is matched from left to right: the separator is in neither set.
use aurora_bot.Prelude.{
  ℕ, String, Bool, true, false, ◌&&◌, ◌||◌, List, [], ◌∷◌, codes, leb, nat_beq, if◌then◌else◌,
}

-- Character classes.
abbrev pub is_lower : ℕ → Bool
is_lower c = leb 97 c && leb c 122

abbrev pub is_upper : ℕ → Bool
is_upper c = leb 65 c && leb c 90

abbrev pub is_digit : ℕ → Bool
is_digit c = leb 48 c && leb c 57

abbrev pub underscore : ℕ
underscore = 95

abbrev pub hyphen : ℕ
hyphen = 45

abbrev pub dot : ℕ
dot = 46

abbrev pub slash : ℕ
slash = 47

-- The form of _NAMESPACE and _PATH: the separator, the first and the further characters.
pub record Form : Type 0 where
  pub separator : ℕ
  pub leads : ℕ → Bool
  pub continues : ℕ → Bool

-- re.fullmatch from the start of a segment or from inside of one
unfoldable pub scan : Form → Bool → List ℕ → Bool
scan form inside [] = inside
scan form false (c ∷ s) = form.leads c && scan form true s
scan form true (c ∷ s) =
    let next = scan form false s in
    let rest = scan form true s in
    if nat_beq c form.separator then next else form.continues c && rest

-- _NAMESPACE
abbrev pub namespace_form : Form
namespace_form = record {
  separator = dot;
  leads = is_lower;
  continues = λ c. is_lower c || is_digit c || nat_beq c underscore || nat_beq c hyphen;
}

-- _PATH
abbrev pub path_form : Form
path_form = record {
  separator = slash;
  leads = λ c. is_lower c || is_upper c || is_digit c || nat_beq c underscore;
  continues = λ c.
      is_lower c
      || is_upper c
      || is_digit c
      || nat_beq c underscore
      || nat_beq c dot
      || nat_beq c hyphen;
}

-- is_namespace
unfoldable pub is_namespace : String → Bool
unfolding scan
is_namespace value = scan namespace_form false (codes value)

-- is_path
unfoldable pub is_path : String → Bool
unfolding scan
is_path value = scan path_form false (codes value)
