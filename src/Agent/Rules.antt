-- ===== src/Agent/Rules.antt =====
-- Rules to compose the actions of src/aurora_agent/run.py that keep a driven run going.
use aurora_bot.Prelude.{
  ℕ, String, Bool, true, false, ◌≡◌, refl, Option, none, some, arith, if◌then◌else◌, string_eq,
}
use aurora_bot.Agent.State.{RunResult, RunStatus, terminal, Run}
use aurora_bot.Agent.Action.{
  Raised, emit, finish, Flow, done, thrown, Awaited, Action, give, throw, await_on, modify, look,
  after, ◌>>=◌,
}
use aurora_bot.Agent.Steps.{Services, caught}
use aurora_bot.Agent.Events.{Reports, IsSound, IsActive, IsActive-IsSound, finish-IsSound}
use aurora_bot.Agent.Keeps.{Keeps, interfere-IsActive}

abbrev pub is_thrown : {A : Type 0} → Flow A → Bool
is_thrown (done a) = false
is_thrown (thrown e) = true

-- A run that an action leaves: sound, still driven, and going on where the action raised.
pub record IsLeft {J A : Type 0} (sv : Services J) (r : Flow A) (s : Run J) : Type 0 where
  pub sound : IsSound sv s
  pub driven : s.driving ≡ true
  pub going : is_thrown r ≡ true → IsActive sv 0 0 s

module _ {J : Type 0} (sv : Services J) where
  -- An action that keeps the run going, whether it returns or raises.
  pub record Stays (m t : ℕ) {A : Type 0} (act : Action J A) : Type 0 where
    pub at : (s : Run J) → IsActive sv m t s → IsActive sv m t (act s).1

  -- An action that may end the run, but not and then raise.
  pub record Ends (m t : ℕ) {A : Type 0} (act : Action J A) : Type 0 where
    pub at : (s : Run J) → IsActive sv m t s → IsLeft sv (act s).0 (act s).1

  pub Stays-IsLeft :
      {A : Type 0} (m t : ℕ) (r : Flow A) (s : Run J) → IsActive sv m t s → IsLeft sv r s
  Stays-IsLeft m t r s a = record {
    sound = IsActive-IsSound sv m t s a;
    driven = a.driven;
    going = λ e. weaker m t s a;
  }
    where
      weaker : (m t : ℕ) (s : Run J) → IsActive sv m t s → IsActive sv 0 0 s
      weaker m t s a = ground arith

  module _ (m t : ℕ) where
    pub Stays-Ends : {A : Type 0} (act : Action J A) → Stays m t act → Ends m t act
    Stays-Ends act k = record { at = λ s a. Stays-IsLeft m t (act s).0 (act s).1 (k.at s a) }

    pub Stays-give : {A : Type 0} (x : A) → Stays m t (give x)
    unfolding give
    Stays-give x = record { at = λ s a. a }

    pub Stays-throw : {A : Type 0} (e : Raised) → Stays m t (throw {A = A} e)
    unfolding throw
    Stays-throw e = record { at = λ s a. a }

    pub Stays-look : Stays m t look
    unfolding look
    Stays-look = record { at = λ s a. a }

    pub Stays-modify : (f : Run J → Run J) → Keeps sv m t f → Stays m t (modify f)
    unfolding modify
    Stays-modify f k = record { at = k.at }

    pub Stays-await_on : {A : Type 0} (service : Run J → Awaited A) → Stays m t (await_on service)
    unfolding await_on
    Stays-await_on service = record { at = λ s a. interfere-IsActive sv m t (service s).during s a }

    pub Stays-caught : {A : Type 0} (act : Action J A) → Stays m t act → Stays m t (caught act)
    unfolding caught
    Stays-caught act k = record { at = k.at }

    pub Stays-if :
        {A : Type 0} (b : Bool) (x y : Action J A)
        → Stays m t x
        → Stays m t y
        → Stays m t (if b then x else y)
    Stays-if true x y kx ky = kx
    Stays-if false x y kx ky = ky

    pub Ends-if :
        {A : Type 0} (b : Bool) (x y : Action J A)
        → Ends m t x
        → Ends m t y
        → Ends m t (if b then x else y)
    Ends-if true x y kx ky = kx
    Ends-if false x y kx ky = ky

    pub Stays-bind :
        {A B : Type 0} (x : Action J A) (f : A → Action J B)
        → Stays m t x
        → ((a : A) → Stays m t (f a))
        → Stays m t (x >>= f)
    unfolding ◌>>=◌
    Stays-bind {A = A} x f kx kf = record { at = λ s a. go (x s).0 (x s).1 (kx.at s a) }
      where
        go : (r : Flow A) (s : Run J) → IsActive sv m t s → IsActive sv m t (after r f s).1
        go (done v) s a = (kf v).at s a
        go (thrown e) s a = a

    pub Ends-bind :
        {A B : Type 0} (x : Action J A) (f : A → Action J B)
        → Stays m t x
        → ((a : A) → Ends m t (f a))
        → Ends m t (x >>= f)
    unfolding ◌>>=◌
    Ends-bind {A = A} x f kx kf = record { at = λ s a. go (x s).0 (x s).1 (kx.at s a) }
      where
        go :
            (r : Flow A) (s : Run J) → IsActive sv m t s → IsLeft sv (after r f s).0 (after r f s).1
        go (done v) s a = (kf v).at s a
        go (thrown e) s a = Stays-IsLeft m t (thrown e) s a

    pub Ends-finish :
        (status : RunStatus) (output reason : Option String)
        → terminal status ≡ true
        → Ends m t (modify (finish status output reason))
    unfolding modify
    Ends-finish status output reason f = record {
      at = λ s a. record {
        sound = finish-IsSound sv m t s a status output reason f;
        driven = unfold finish emit in a.driven;
        going = λ e. absurd (cc);
      };
    }

    -- The change before the rest may use up the room for a call.
    pub Ends-modify :
        {A : Type 0} (m' t' : ℕ) (f : Run J → Run J) (rest : Action J A)
        → ((s : Run J) → IsActive sv m t s → IsActive sv m' t' (f s))
        → Ends m' t' rest
        → Ends m t (modify f >>= λ _. rest)
    unfolding ◌>>=◌ modify
    Ends-modify m' t' f rest k kr = record { at = λ s a. kr.at (f s) (k s a) }

  -- A sound run that is driven and has not ended can go on.
  pub IsSound-IsActive :
      (s : Run J) → IsSound sv s → s.driving ≡ true → terminal s.status ≡ false → IsActive sv 0 0 s
  IsSound-IsActive s v d a = record {
    numbered = v.numbered;
    once = ground arith;
    closed = ground arith;
    reports = none_of s.result v.reports;
    alive = a;
    driven = d;
    model_room = omega arith;
    tool_room = omega arith;
  }
    where
      none_of : (r : Option RunResult) → Reports r s.status → r ≡ none
      none_of none h = refl
      none_of (some r) h = absurd (cc (h.1, a))
