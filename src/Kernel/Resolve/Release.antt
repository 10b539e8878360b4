-- ===== src/Kernel/Resolve/Release.antt =====
-- One round of `_topological` of src/aurora_kernel/resolve.py: what is released, and the heap.
use aurora_bot.Prelude.{
  ℕ, ◌-◌, ◌≡◌, ◌⊎◌, refl, ap, ◌∙◌, String, Bool, true, false, ◌&&◌, ◌||◌, some, List, [], ◌∷◌,
  eq_iff, string_eq, nat_eq, ==_cases, arith, get_elem?, contains, leb, nat_beq, nat_beq_iff,
  Distinct, insert_sorted, insert_sorted-Distinct, contains-insert_sorted, if◌then◌else◌, if_case,
  Bool-cases, inl, inr,
}
use aurora_bot.Prelude.Dict
use aurora_bot.Prelude.Dict.{Dict, get_or-put}
use aurora_bot.Kernel.Declaration.{ModuleSpec}
use aurora_bot.Kernel.Optional.{identities}
use aurora_bot.Kernel.Resolve.Topological.{position_of, release}

pub position_of-injective :
    (names : List String) (m n : String)
    → contains names m ≡ true
    → contains names n ≡ true
    → position_of names m ≡ position_of names n
    → m ≡ n
unfolding position_of
position_of-injective [] m n hm hn e = absurd (cc)
position_of-injective (x ∷ names) m n hm hn e =
    ground (arith, eq_iff x m, eq_iff x n, position_of-injective names m n)

pub get_elem?-position_of :
    {C : Type 0} (specs : List (ModuleSpec C)) (n : String)
    → contains (identities specs) n ≡ true
    → (spec : ModuleSpec C) × (get_elem? specs (position_of (identities specs) n) ≡ some spec)
      × (spec.module_id ≡ n)
unfolding position_of identities
get_elem?-position_of [] n h = absurd (cc)
get_elem?-position_of (s ∷ specs) n h = elim (==_cases s.module_id n) [
  | inl (t, p) ↦ (s, rw t, p)
  | inr (f, p) ↦ rw f (get_elem?-position_of specs n (ground arith))
]

module _ (names : List String) where
  pub degree-release :
      (ds : List String) (degrees : Dict String ℕ) (queue : List ℕ) (n : String)
      → Distinct ds
      → Dict.get_or (release names ds degrees queue).0 n 0
        ≡ (if contains ds n then Dict.get_or degrees n 0 - 1 else Dict.get_or degrees n 0)
  unfolding release
  degree-release [] degrees queue n d = refl
  degree-release (x ∷ ds) degrees queue n d =
      degree-release ds _ _ n d.1
      ∙ ground (
        arith,
        get_or-put degrees x n (Dict.get_or degrees x 0 - 1) 0,
        eq_iff x n,
        ap (contains ds),
      )

  -- A heap with one more position where a test says so.
  pushed : Bool → ℕ → List ℕ → List ℕ
  pushed b p queue = if b then insert_sorted leb p queue else queue

  contains-pushed :
      (b : Bool) (p : ℕ) (queue : List ℕ) (q : ℕ)
      → contains (pushed b p queue) q ≡ (b && nat_beq p q || contains queue q)
  unfolding pushed
  contains-pushed true p queue q = contains-insert_sorted leb p queue q
  contains-pushed false p queue q = refl

  pub release_keeps :
      (ds : List String) (degrees : Dict String ℕ) (queue : List ℕ) (p : ℕ)
      → contains queue p ≡ true
      → contains (release names ds degrees queue).1 p ≡ true
  unfolding release pushed
  release_keeps [] degrees queue p h = h
  release_keeps (x ∷ ds) degrees queue p h = release_keeps ds _ _ p (
      contains-pushed (nat_beq (Dict.get_or degrees x 0 - 1) 0) (position_of names x) queue p
      ∙ ground arith)

  pub release_adds :
      (ds : List String) (degrees : Dict String ℕ) (queue : List ℕ) (n : String)
      → Distinct ds
      → contains ds n ≡ true
      → Dict.get_or degrees n 0 - 1 ≡ 0
      → contains (release names ds degrees queue).1 (position_of names n) ≡ true
  unfolding release pushed
  release_adds [] degrees queue n d h z = absurd (cc)
  release_adds (x ∷ ds) degrees queue n d h z = elim (==_cases x n) [
    | inl (t, p) ↦ release_keeps ds _ _ (position_of names n) (
        contains-pushed (nat_beq (Dict.get_or degrees x 0 - 1) 0) (position_of names x) queue
          (position_of names n)
        ∙ ground (arith, ap (position_of names) p, ap (λ k. Dict.get_or degrees k 0) p))
    | inr (f, p) ↦
        release_adds ds _ _ n d.1 (ground arith)
          (ground (arith, get_or-put degrees x n (Dict.get_or degrees x 0 - 1) 0))
  ]

  pub release_only :
      (ds : List String) (degrees : Dict String ℕ) (queue : List ℕ) (p : ℕ)
      → Distinct ds
      → contains (release names ds degrees queue).1 p ≡ true
      → (contains queue p ≡ true)
        ⊎ ((n : String) × (contains ds n ≡ true)
            × (p ≡ position_of names n)
            × (Dict.get_or degrees n 0 - 1 ≡ 0))
  unfolding release pushed
  release_only [] degrees queue p d h = inl h
  release_only (x ∷ ds) degrees queue p d h = elim (release_only ds _ _ p d.1 h) [
    | inl c ↦ elim (Bool-cases (contains queue p)) [
      | inl q ↦ inl q
      | inr q ↦ inr (x, ground (arith, eq_iff x x), (pushed_here c q).0, (pushed_here c q).1)
    ]
    | inr (n, c, e, z) ↦ inr (
      n,
      ground arith,
      e,
      ground (
        arith,
        get_or-put degrees x n (Dict.get_or degrees x 0 - 1) 0,
        eq_iff x n,
        ap (contains ds),
      ),
    )
  ]
    where
      pushed_here :
          contains (pushed (nat_beq (Dict.get_or degrees x 0 - 1) 0) (position_of names x) queue) p
            ≡ true
          → contains queue p ≡ false
          → (p ≡ position_of names x) × (Dict.get_or degrees x 0 - 1 ≡ 0)
      pushed_here c q = ground (
        arith,
        contains-pushed (nat_beq (Dict.get_or degrees x 0 - 1) 0) (position_of names x) queue p,
      )

  pub release-Distinct :
      (ds : List String) (degrees : Dict String ℕ) (queue : List ℕ)
      → Distinct ds
      → ((n : String) → contains ds n ≡ true → contains names n ≡ true)
      → ((n : String) → contains ds n ≡ true → contains queue (position_of names n) ≡ false)
      → Distinct queue
      → Distinct (release names ds degrees queue).1
  unfolding release pushed
  release-Distinct [] degrees queue d i f q = q
  release-Distinct (x ∷ ds) degrees queue d i f q =
      release-Distinct ds _ _ d.1 (λ n c. i n (ground arith)) fresh
        (if_case Distinct (nat_beq (Dict.get_or degrees x 0 - 1) 0) _ _
          (λ b.
            insert_sorted-Distinct leb (position_of names x) queue
              (f x (ground (arith, eq_iff x x))) q)
          (λ b. q))
    where
      fresh :
          (n : String)
          → contains ds n ≡ true
          → contains
              (pushed (nat_beq (Dict.get_or degrees x 0 - 1) 0) (position_of names x) queue)
              (position_of names n)
            ≡ false
      fresh n c =
          contains-pushed (nat_beq (Dict.get_or degrees x 0 - 1) 0) (position_of names x) queue
            (position_of names n)
          ∙ ground (
            arith,
            f n (ground arith),
            nat_beq_iff (position_of names x) (position_of names n),
            position_of-injective names x n (i x (ground (arith, eq_iff x x))) (i n (ground arith)),
            ap (contains ds),
          )
