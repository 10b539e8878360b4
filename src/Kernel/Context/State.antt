-- ===== src/Kernel/Context/State.antt =====
-- `Context` and `NamespaceView` of src/aurora_kernel/context.py. A value of the model does not
-- change, so `_copy` gives the value itself, and its refusal of a cyclic container is a parameter.
-- A watcher either returns or raises: it may read the context, and it cannot write to it.
use aurora_bot.Prelude.{
  ℕ, ◌+◌, String, Bool, true, false, not, ◌&&◌, Option, none, some, List, [], ◌∷◌, string_eq,
  nat_eq, ◌==◌, Eq, eq_iff, ◌↔◌, ◌≡◌, arith, is_empty, keep, contains, add, sorted, str_le,
  has_space, if◌then◌else◌,
}
use aurora_bot.Prelude.Dict
use aurora_bot.Prelude.Dict.{Dict}

pub data ContextError : Type 0 where
  invalid_name unknown_namespace unknown_key recursive_write conflict cyclic_value : ContextError
  notification_failed body_failed : ContextError

-- a namespace and a key; the key is empty for the namespace itself
abbrev pub Place : Type 0
Place = String × String

pub place_test : Place → Place → Bool
place_test p q = p.0 == q.0 && p.1 == q.1

pub place_test_iff : (p q : Place) → (place_test p q ≡ true) ↔ (p ≡ q)
unfolding place_test
place_test_iff p q = ground (arith, eq_iff p.0 q.0, eq_iff p.1 q.1)

instance abbrev pub place_eq : Eq Place
unfolding place_test
place_eq = record { test = place_test; test_iff = place_test_iff }

abbrev pub place_le : Place → Place → Bool
place_le p q = if p.0 == q.0 then str_le p.1 q.1 else str_le p.0 q.0

pub record Change : Type 0 where
  pub revision : ℕ
  pub source : String
  pub keys : List Place

pub record Context (V : Type 0) : Type 0 where
  pub values : Dict String (Dict String V)
  pub revision : ℕ
  pub source : String
  pub notifying : Bool
  pub watchers : List (Change → Bool)
  pub changed : List Place
  pub last_change : Option Change

-- What a call does: it returns or raises, and leaves a context.
pub data Outcome (V : Type 0) : Type 0 where
  returned : Context V → Outcome V
  raised : ContextError → Context V → Outcome V

abbrev pub left : {V : Type 0} → Outcome V → Context V
left (returned s) = s
left (raised e s) = s

-- check_name
unfoldable pub is_name : String → Bool
is_name name = not (name == "") && not (has_space name)

-- set.update
unfoldable pub add_places : List Place → List Place → List Place
add_places [] changed = changed
add_places (p ∷ rest) changed = add_places rest (add p changed)

module _ {V : Type 0} where
  abbrev pub empty : Context V
  empty = record {
    values = [];
    revision = 0;
    source = "host";
    notifying = false;
    watchers = [];
    changed = [];
    last_change = none;
  }

  -- _record
  unfoldable pub note : List Place → Context V → Context V
  unfolding add_places
  note keys s = record s {
    revision = s.revision + 1;
    changed = add_places keys s.changed;
    last_change = some (record { revision = s.revision + 1; source = s.source; keys = keys });
  }

  -- _notify: every watcher is called, and their errors are raised together afterwards
  unfoldable pub notify : List Place → Context V → Outcome V
  notify keys s =
      let change : Change = record { revision = s.revision; source = s.source; keys = keys } in
      if is_empty (keep (λ watcher. watcher change) s.watchers)
      then returned s
      else raised notification_failed s

  -- _record and _notify
  unfoldable pub publish : List Place → Context V → Outcome V
  unfolding note notify
  publish keys s = notify keys (note keys s)

  -- ensure
  unfoldable pub ensure : String → Context V → Outcome V
  unfolding is_name publish
  ensure namespace s =
      if not (is_name namespace)
      then raised invalid_name s
      else if contains (Dict.keys s.values) namespace
      then returned s
      else if s.notifying
      then raised recursive_write s
      else publish ((namespace, "") ∷ []) (record s { values = Dict.put s.values namespace [] })

  -- NamespaceView.__getitem__
  unfoldable pub get_item : String → String → Context V → Option V
  get_item namespace key s = Dict.get (Dict.get_or s.values namespace []) key

  -- NamespaceView.__setitem__, on a namespace that is there
  unfoldable pub set_item : (V → Bool) → String → String → V → Context V → Outcome V
  unfolding is_name publish
  set_item is_cyclic namespace key value s =
      if not (is_name key)
      then raised invalid_name s
      else if is_cyclic value
      then raised cyclic_value s
      else if s.notifying
      then raised recursive_write s
      else publish ((namespace, key) ∷ []) (record s {
        values =
            Dict.put s.values namespace (Dict.put (Dict.get_or s.values namespace []) key value);
      })

  -- NamespaceView.__delitem__
  unfoldable pub delete_item : String → String → Context V → Outcome V
  unfolding publish
  delete_item namespace key s =
      if s.notifying
      then raised recursive_write s
      else if not (contains (Dict.keys (Dict.get_or s.values namespace [])) key)
      then raised unknown_key s
      else publish ((namespace, key) ∷ []) (record s {
        values =
            Dict.put s.values namespace
              (keep (λ entry. not (entry.0 == key)) (Dict.get_or s.values namespace []));
      })

  -- the context that a transaction works on
  unfoldable pub staged_of : Context V → Context V
  staged_of s = record (empty) { values = s.values; source = s.source }

  -- the end of a transaction that began at a revision
  unfoldable pub commit_staged : ℕ → Context V → Context V → Outcome V
  unfolding publish
  commit_staged version staged s =
      if is_empty staged.changed
      then returned s
      else if s.notifying
      then raised recursive_write s
      else if not (s.revision == version)
      then raised conflict s
      else publish (sorted place_le staged.changed) (record s { values = staged.values })

  abbrev pub finish : ℕ → Outcome V → Context V → Outcome V
  finish version (returned staged) s = commit_staged version staged s
  finish version (raised e staged) s = raised e s

  -- transaction: the body works on a copy, and others may use the context in the meantime
  unfoldable pub transaction :
      Option ℕ → (Context V → Outcome V) → (Context V → Context V) → Context V → Outcome V
  unfolding staged_of commit_staged
  transaction none body meanwhile s = finish s.revision (body (staged_of s)) (meanwhile s)
  transaction (some expected) body meanwhile s =
      if not (expected == s.revision)
      then raised conflict s
      else finish s.revision (body (staged_of s)) (meanwhile s)

  abbrev pub then_set : Outcome V → (Context V → Outcome V) → Outcome V
  then_set (returned s) f = f s
  then_set (raised e s) f = raised e s

  -- staged[namespace]: a KeyError where it is not there
  unfoldable pub assign : (V → Bool) → String → Dict String V → Context V → Outcome V
  unfolding set_item
  assign is_cyclic namespace [] s = returned s
  assign is_cyclic namespace ((key, value) ∷ rest) s =
      then_set
        (if contains (Dict.keys s.values) namespace
          then set_item is_cyclic namespace key value s
          else raised unknown_namespace s)
        (assign is_cyclic namespace rest)

  -- NamespaceView.update
  unfoldable pub update :
      (V → Bool) → String → Dict String V → (Context V → Context V) → Context V → Outcome V
  unfolding transaction assign
  update is_cyclic namespace values meanwhile s =
      transaction none (assign is_cyclic namespace values) meanwhile s
