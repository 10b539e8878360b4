-- ===== src/Kernel/Phases.antt =====
-- The phases of src/aurora_kernel/phase.py as values: their equality, and the built-in ones.
use aurora_bot.Prelude.{
  ℕ, String, Bool, true, false, ◌≡◌, ◌↔◌, ◌&&◌, ◌||◌, List, [], ◌∷◌, string_eq, ◌==◌, Eq, eq_iff,
  arith,
}
use aurora_bot.Prelude.Int.{pos, int_beq, int_beq_iff}
use aurora_bot.Kernel.Declaration.{PhaseKind, setup, build, hook, task, Phase}

abbrev pub kind_beq : PhaseKind → PhaseKind → Bool
kind_beq setup setup = true
kind_beq build build = true
kind_beq hook hook = true
kind_beq task task = true
kind_beq k l = false

abbrev pub bool_beq : Bool → Bool → Bool
bool_beq true b = b
bool_beq false true = false
bool_beq false false = true

abbrev pub phase_beq : Phase → Phase → Bool
phase_beq p q =
    p.name == q.name
    && int_beq p.order q.order
    && kind_beq p.kind q.kind
    && bool_beq p.shutdown q.shutdown

kind_beq_iff : (k l : PhaseKind) → (kind_beq k l ≡ true) ↔ (k ≡ l)
kind_beq_iff setup l = ground arith
kind_beq_iff build l = ground arith
kind_beq_iff hook l = ground arith
kind_beq_iff task l = ground arith

bool_beq_iff : (a b : Bool) → (bool_beq a b ≡ true) ↔ (a ≡ b)
bool_beq_iff true b = ground arith
bool_beq_iff false b = ground arith

pub phase_beq_iff : (p q : Phase) → (phase_beq p q ≡ true) ↔ (p ≡ q)
phase_beq_iff p q = ground (
  arith,
  eq_iff p.name q.name,
  int_beq_iff p.order q.order,
  kind_beq_iff p.kind q.kind,
  bool_beq_iff p.shutdown q.shutdown,
)

instance abbrev pub phase_eq : Eq Phase
phase_eq = record { test = phase_beq; test_iff = phase_beq_iff }

abbrev phase_of : String → ℕ → PhaseKind → Bool → Phase
phase_of name order kind shutdown = record {
  name = name;
  order = pos order;
  kind = kind;
  shutdown = shutdown;
}

abbrev pub prepare : Phase
prepare = phase_of "prepare" 100 setup false

abbrev pub construct : Phase
construct = phase_of "construct" 200 build false

abbrev pub activate : Phase
activate = phase_of "activate" 300 hook false

abbrev pub ready : Phase
ready = phase_of "ready" 400 hook false

abbrev pub run : Phase
run = phase_of "run" 500 task false

abbrev pub drain : Phase
drain = phase_of "drain" 600 hook true

abbrev pub close : Phase
close = phase_of "close" 700 hook true

abbrev pub builtin_phases : List Phase
builtin_phases = prepare ∷ construct ∷ activate ∷ ready ∷ run ∷ drain ∷ close ∷ []

-- phase.kind in CONSTRUCTION_KINDS
abbrev pub is_construction : Phase → Bool
is_construction phase = kind_beq phase.kind setup || kind_beq phase.kind build
