-- ===== src/Resources/Keys.antt =====
-- `ResourceKey`, `ResourceRef`, `ResourceDescriptor` and `ResourceAlias` of
-- src/aurora_bot/contracts/resource.py, with their equality. Metadata is a type of its own.
use aurora_bot.Prelude.{
  String, Bool, true, false, Option, none, some, ◌&&◌, ◌≡◌, ◌↔◌, Eq, ◌==◌, string_eq, eq_iff, arith,
}

-- ResourceKey
pub record ResourceKey : Type 0 where
  pub namespace : String
  pub domain : String
  pub kind : String
  pub path : String

-- ResourceRef
pub record ResourceRef : Type 0 where
  pub key : ResourceKey
  pub revision : Option String

-- ResourceDescriptor
pub record ResourceDescriptor (M : Type 0) : Type 0 where
  pub ref : ResourceRef
  pub description : String
  pub contract : Option ResourceRef
  pub metadata : M

-- ResourceAlias
pub record ResourceAlias : Type 0 where
  pub key : ResourceKey
  pub target : ResourceRef

unfoldable pub option_test {ℓ} : {A : Type ℓ} ⦃e : Eq A⦄ → Option A → Option A → Bool
option_test none none = true
option_test none (some b) = false
option_test (some a) none = false
option_test (some a) (some b) = a == b

pub option_test_iff {ℓ} :
    {A : Type ℓ} ⦃e : Eq A⦄ (a b : Option A) → (option_test a b ≡ true) ↔ (a ≡ b)
unfolding option_test
option_test_iff none none = ground arith
option_test_iff none (some b) = ground arith
option_test_iff (some a) none = ground arith
option_test_iff ⦃e⦄ (some a) (some b) = ground (arith, e.test_iff a b)

instance abbrev pub option_eq {ℓ} : {A : Type ℓ} ⦃e : Eq A⦄ → Eq (Option A)
option_eq = record { test = option_test; test_iff = option_test_iff }

unfoldable pub key_test : ResourceKey → ResourceKey → Bool
key_test a b =
    a.namespace == b.namespace && a.domain == b.domain && a.kind == b.kind && a.path == b.path

pub key_test_iff : (a b : ResourceKey) → (key_test a b ≡ true) ↔ (a ≡ b)
unfolding key_test
key_test_iff a b = ground (
  arith,
  eq_iff a.namespace b.namespace,
  eq_iff a.domain b.domain,
  eq_iff a.kind b.kind,
  eq_iff a.path b.path,
)

instance abbrev pub key_eq : Eq ResourceKey
key_eq = record { test = key_test; test_iff = key_test_iff }

unfoldable pub ref_test : ResourceRef → ResourceRef → Bool
ref_test a b = a.key == b.key && a.revision == b.revision

pub ref_test_iff : (a b : ResourceRef) → (ref_test a b ≡ true) ↔ (a ≡ b)
unfolding ref_test
ref_test_iff a b = ground (arith, key_test_iff a.key b.key, option_test_iff a.revision b.revision)

instance abbrev pub ref_eq : Eq ResourceRef
ref_eq = record { test = ref_test; test_iff = ref_test_iff }

module _ {M : Type 0} ⦃m : Eq M⦄ where
  unfoldable pub descriptor_test : ResourceDescriptor M → ResourceDescriptor M → Bool
  descriptor_test a b =
      a.ref == b.ref
      && a.description == b.description
      && a.contract == b.contract
      && a.metadata == b.metadata

  pub descriptor_test_iff : (a b : ResourceDescriptor M) → (descriptor_test a b ≡ true) ↔ (a ≡ b)
  unfolding descriptor_test
  descriptor_test_iff a b = ground (
    arith,
    ref_test_iff a.ref b.ref,
    eq_iff a.description b.description,
    option_test_iff a.contract b.contract,
    m.test_iff a.metadata b.metadata,
  )

  instance abbrev pub descriptor_eq : Eq (ResourceDescriptor M)
  descriptor_eq = record { test = descriptor_test; test_iff = descriptor_test_iff }
