-- ===== src/Scopes/Patterns.antt =====
-- `ScopeDeclaration` of src/aurora_bot/contracts/scope.py: the checks of its construction, and the
-- match of a scope. A text is split by its code points; the regular expression that a pattern
-- becomes consists of escaped characters and of `.+`, where `.` takes any character but a newline.
use aurora_bot.Prelude.{
  ℕ, ◌≡◌, ◌↔◌, String, Bool, true, false, not, ◌&&◌, ◌||◌, List, [], ◌∷◌, reverse, Eq, ◌==◌, nat_eq,
  eq_iff, string_eq, arith, Result, ok, ◌>>◌, refuse_if, is_empty, contains, codes, is_space,
  is_blank, nat_beq, if◌then◌else◌,
}

-- ScopeKind
pub data ScopeKind : Type 0 where
  resource run : ScopeKind

abbrev pub kind_test : ScopeKind → ScopeKind → Bool
kind_test resource resource = true
kind_test resource run = false
kind_test run resource = false
kind_test run run = true

pub kind_test_iff : (a b : ScopeKind) → (kind_test a b ≡ true) ↔ (a ≡ b)
kind_test_iff resource resource = ground arith
kind_test_iff resource run = ground arith
kind_test_iff run resource = ground arith
kind_test_iff run run = ground arith

-- ScopeDeclaration
pub record ScopeDeclaration : Type 0 where
  pub pattern_text : String
  pub kind : ScopeKind
  pub description : String

-- a == b of the dataclass
unfoldable pub declaration_test : ScopeDeclaration → ScopeDeclaration → Bool
declaration_test a b =
    a.pattern_text == b.pattern_text && kind_test a.kind b.kind && a.description == b.description

pub declaration_test_iff : (a b : ScopeDeclaration) → (declaration_test a b ≡ true) ↔ (a ≡ b)
unfolding declaration_test
declaration_test_iff a b = ground (
  arith,
  eq_iff a.pattern_text b.pattern_text,
  kind_test_iff a.kind b.kind,
  eq_iff a.description b.description,
)

instance abbrev pub declaration_eq : Eq ScopeDeclaration
declaration_eq = record { test = declaration_test; test_iff = declaration_test_iff }

abbrev pub star : ℕ
star = 42

abbrev pub colon : ℕ
colon = 58

abbrev pub newline : ℕ
newline = 10

-- text.partition(":"): the head, whether the separator was found, and the tail
pub record Parts : Type 0 where
  pub owner : List ℕ
  pub separator : Bool
  pub path : List ℕ

unfoldable pub partition : List ℕ → Parts
partition [] = record { owner = []; separator = false; path = [] }
partition (c ∷ s) =
    let rest = partition s in
    if nat_beq c colon
    then record { owner = []; separator = true; path = s }
    else record rest { owner = c ∷ rest.owner }

abbrev pub same_text : List ℕ → List ℕ → Bool
same_text [] [] = true
same_text [] (c ∷ s) = false
same_text (c ∷ s) [] = false
same_text (c ∷ s) (d ∷ t) = nat_beq c d && same_text s t

-- `.+` and what follows it
unfoldable pub any_text : (List ℕ → Bool) → List ℕ → Bool
any_text rest [] = false
any_text rest (c ∷ s) =
    let later = any_text rest s in if nat_beq c newline then false else rest s || later

-- one escaped character and what follows it
abbrev pub literal : ℕ → (List ℕ → Bool) → List ℕ → Bool
literal p rest [] = false
literal p rest (c ∷ s) = nat_beq p c && rest s

-- re.fullmatch of the pattern, with `.+` for each star
unfoldable pub full_match : List ℕ → List ℕ → Bool
unfolding any_text
full_match [] [] = true
full_match [] (c ∷ s) = false
full_match (p ∷ ps) s =
    if nat_beq p star then any_text (full_match ps) s else literal p (full_match ps) s

-- _matches_path
unfoldable pub matches_path : List ℕ → List ℕ → Bool
unfolding full_match
matches_path path value = if same_text path value then true else full_match path value

abbrev any_owner : List ℕ
any_owner = star ∷ []

-- owner
unfoldable pub owner_of : ScopeDeclaration → List ℕ
unfolding partition
owner_of d = (partition (codes d.pattern_text)).owner

-- self.owner in (_NAMESPACE_ANY, owner)
abbrev pub owner_covers : List ℕ → List ℕ → Bool
owner_covers declared owner = same_text declared any_owner || same_text declared owner

-- not separator or not owner or not path
abbrev pub is_incomplete : Parts → Bool
is_incomplete parts = not parts.separator || is_empty parts.owner || is_empty parts.path

-- matches
unfoldable pub matches : ScopeDeclaration → String → Bool
unfolding partition owner_of matches_path
matches d scope =
    let parts = partition (codes scope) in
    if is_incomplete parts
    then false
    else owner_covers (owner_of d) parts.owner
      && matches_path (partition (codes d.pattern_text)).path parts.path

pub data ScopeError : Type 0 where
  untrimmed no_namespace bad_namespace no_description duplicate_pattern inconsistent : ScopeError
  undeclared_scopes : List String → ScopeError

abbrev starts_with_space : List ℕ → Bool
starts_with_space [] = false
starts_with_space (c ∷ s) = is_space c

-- not text.strip() or text != text.strip()
unfoldable pub is_untrimmed : String → Bool
unfolding is_blank is_space
is_untrimmed text =
    is_blank text || starts_with_space (codes text) || starts_with_space (reverse (codes text))

-- __post_init__
unfoldable pub declare : ScopeDeclaration → Result ScopeError ScopeDeclaration
unfolding partition is_untrimmed is_blank
declare d =
    let parts = partition (codes d.pattern_text) in
    do
      refuse_if (is_untrimmed d.pattern_text) untrimmed
      refuse_if (is_incomplete parts) no_namespace
      refuse_if (contains parts.owner star && not (same_text parts.owner any_owner)) bad_namespace
      refuse_if (is_blank d.description) no_description
      ok d
