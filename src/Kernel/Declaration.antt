-- ===== src/Kernel/Declaration.antt =====
-- The declarations of src/aurora_kernel/declaration.py and src/aurora_kernel/phase.py. A callback
-- is opaque: a type parameter.
use aurora_bot.Prelude.{String, Bool, Option, List}
use aurora_bot.Prelude.Int.{ℤ}

pub data PhaseKind : Type 0 where
  setup build hook task : PhaseKind

pub record Phase : Type 0 where
  pub name : String
  pub order : ℤ
  pub kind : PhaseKind
  pub shutdown : Bool

pub record Ordering : Type 0 where
  pub phase : Phase
  pub after : List String
  pub after_phase : Option Phase

pub record Manifest : Type 0 where
  pub version : String
  pub kernel_api : String

pub record Callpoint : Type 0 where
  pub name : String
  pub mode : String

pub record Hook (C : Type 0) : Type 0 where
  pub target : String
  pub callback : C
  pub priority : ℤ

-- The hooks of the phases are in the order of their registration.
pub record ModuleSpec (C : Type 0) : Type 0 where
  pub module_id : String
  pub depends : List String
  pub provides : List String
  pub requires : List String
  pub contributes : List String
  pub consumes : List String
  pub declares : List String
  pub priority : ℤ
  pub optional : Bool
  pub order : List Ordering
  pub hooks : List (Phase × C)
  pub points : List Callpoint
  pub handlers : List (Hook C)
  pub manifest : Manifest
