-- ===== src/Mysql/Ownership.antt =====
-- When the sessions of the MySQL example are destroyed, as a machine on the log, and programs along it:
-- what the log does to the machine is what the environment says of `session_`, however the program ends.
use pinpoint_cpp_examples.Common.{
  ℕ, suc, ◌≡◌, refl, sym, ap, ◌∙◌, Bool, true, false, Option, none, some, List, Text, if◌then◌else◌,
}
use pinpoint_cpp_examples.Trace.{
  Call, EventOp, SpanOp, ServiceType, Carrier, mysql_session, acquire, release, on_event, on_span,
  new_span, end_span,
}
use pinpoint_cpp_examples.Trace.Program.{
  Program, Run, World, Outcome, Exception, returned, thrown, fault, Answer, closing, continue,
  caught, pure, ask, need, scoped, emit, try_catch, get_span_context, set_span_context, ◌>>=◌,
}
use pinpoint_cpp_examples.Trace.Drives.{drive, drive-append}

-- Whether `session_` is set; or a new session has been made and the old one is still there.
pub data Ownership : Type 0 where
  settled : (has : Bool) → Ownership
  replacing : Ownership

made_one : Ownership → Option Ownership
made_one (settled true) = some replacing
made_one (settled false) = some (settled true)
made_one replacing = none

destroyed_one : Ownership → Option Ownership
destroyed_one (settled true) = some (settled false)
destroyed_one (settled false) = none
destroyed_one replacing = some (settled true)

other_call : Ownership → Option Ownership
other_call (settled has) = some (settled has)
other_call replacing = none

-- While a session is being replaced, nothing but the destruction of the old one may come.
unfoldable pub own_step : Ownership → Call → Option Ownership
unfolding made_one destroyed_one other_call
own_step q (acquire mysql_session) = made_one q
own_step q (release mysql_session) = destroyed_one q
own_step q _ = other_call q

closing_lem :
    {A : Type 0} (has : Bool) (o : Outcome A) (d : ℕ)
    → drive own_step (settled has) (closing o d) ≡ some (settled has)
unfolding drive own_step
closing_lem has (returned a) d = refl
closing_lem has (thrown e) d = refl
closing_lem has fault d = refl

-- The machine goes from what the environment says before to what it says afterwards.
pub record Accounts {W A : Type 0} (rests : W → Bool) (m : Program W A) : Type 0 where
  pub at :
      (d : ℕ) (w : World W)
      → drive own_step (settled (rests w.env)) (m d w).log
        ≡ some (settled (rests (m d w).world.env))

module _ {W A : Type 0} (rests : W → Bool) where
  caught-accounts :
      (a : Ownership) (o : Outcome A) (log : List Call) (w : World W)
      (f : Exception → World W → Run W A)
      → drive own_step a log ≡ some (settled (rests w.env))
      → ((e : Exception)
          → drive own_step (settled (rests w.env)) (f e w).log
            ≡ some (settled (rests (f e w).world.env)))
      → drive own_step a (caught o log w f).log
        ≡ some (settled (rests (caught o log w f).world.env))
  caught-accounts a (returned x) log w f h k = h
  caught-accounts a (thrown e) log w f h k =
      drive-append own_step a (settled (rests w.env)) log _ h ∙ k e
  caught-accounts a fault log w f h k = h

  continue-accounts :
      {B : Type 0} (a : Ownership) (o : Outcome A) (log : List Call) (w : World W)
      (f : A → World W → Run W B)
      → drive own_step a log ≡ some (settled (rests w.env))
      → ((x : A)
          → drive own_step (settled (rests w.env)) (f x w).log
            ≡ some (settled (rests (f x w).world.env)))
      → drive own_step a (continue o log w f).log
        ≡ some (settled (rests (continue o log w f).world.env))
  continue-accounts a (returned x) log w f h k =
      drive-append own_step a (settled (rests w.env)) log _ h ∙ k x
  continue-accounts a (thrown e) log w f h k = h
  continue-accounts a fault log w f h k = h

module _ {W A : Type 0} {rests : W → Bool} where
  pub Accounts-pure : (a : A) → Accounts rests (pure a)
  unfolding pure drive own_step
  Accounts-pure a = record { at = λ d w. refl }

  -- A call that leaves the count.
  pub Accounts-ask :
      (f : W → Answer A × W) → ((v : W) → rests (f v).1 ≡ rests v) → Accounts rests (ask f)
  unfolding ask drive own_step
  Accounts-ask f k = record { at = λ d w. ap (λ x. some (settled x)) (sym (k w.env)) }

  pub Accounts-scoped :
      (s : Option ℕ) (name : Text) (type : ServiceType) (body : ℕ → Program W A)
      → ((d : ℕ) → Accounts rests (body d))
      → Accounts rests (scoped s name type body)
  unfolding scoped drive own_step
  Accounts-scoped s name type body k = record {
    at = λ d w.
        let run = body d (suc d) w in
        drive-append own_step (settled (rests w.env)) (settled (rests run.world.env)) run.log _
          ((k d).at (suc d) w)
        ∙ closing_lem (rests run.world.env) run.out d;
  }

  pub Accounts-if :
      (b : Bool) {m n : Program W A}
      → Accounts rests m
      → Accounts rests n
      → Accounts rests (if b then m else n)
  Accounts-if true km kn = km
  Accounts-if false km kn = kn

  pub Accounts-try_catch :
      (m : Program W A) (handler : Exception → Program W A)
      → Accounts rests m
      → ((e : Exception) → Accounts rests (handler e))
      → Accounts rests (try_catch m handler)
  unfolding try_catch
  Accounts-try_catch m handler km kh = record {
    at = λ d w.
        caught-accounts rests (settled (rests w.env)) _ _ _ _ (km.at d w)
          (λ e. (kh e).at d (m d w).world);
  }

module _ {W : Type 0} {rests : W → Bool} where
  pub Accounts-need : (is_set : W → Bool) → Accounts rests (need is_set)
  unfolding need drive own_step
  Accounts-need is_set = record { at = λ d w. refl }

  pub Accounts-on_event : (e : ℕ) (op : EventOp) → Accounts rests (emit (on_event e op))
  unfolding emit drive own_step
  Accounts-on_event e op = record { at = λ d w. refl }

  pub Accounts-on_span : (s : ℕ) (op : SpanOp) → Accounts rests (emit (on_span s op))
  unfolding emit drive own_step
  Accounts-on_span s op = record { at = λ d w. refl }

  pub Accounts-new_span :
      (s : ℕ) (app rpc : Text) (carrier : Option Carrier)
      → Accounts rests (emit (new_span s app rpc carrier))
  unfolding emit drive own_step
  Accounts-new_span s app rpc carrier = record { at = λ d w. refl }

  pub Accounts-end_span : (s : ℕ) → Accounts rests (emit (end_span s))
  unfolding emit drive own_step
  Accounts-end_span s = record { at = λ d w. refl }

  pub Accounts-get_span_context : Accounts rests get_span_context
  unfolding get_span_context drive own_step
  Accounts-get_span_context = record { at = λ d w. refl }

  pub Accounts-set_span_context : (s : Option ℕ) → Accounts rests (set_span_context s)
  unfolding set_span_context drive own_step
  Accounts-set_span_context s = record { at = λ d w. refl }

module _ {W A B : Type 0} {rests : W → Bool} where
  pub Accounts-bind :
      (m : Program W A) (f : A → Program W B)
      → Accounts rests m
      → ((x : A) → Accounts rests (f x))
      → Accounts rests (m >>= f)
  unfolding ◌>>=◌
  Accounts-bind m f km kf = record {
    at = λ d w.
        continue-accounts rests (settled (rests w.env)) _ _ _ _ (km.at d w)
          (λ x. (kf x).at d (m d w).world);
  }

pub ruleset accounted = (
  Accounts-pure, Accounts-scoped, Accounts-if, Accounts-try_catch, Accounts-need, Accounts-on_event,
  Accounts-on_span, Accounts-new_span, Accounts-end_span, Accounts-get_span_context,
  Accounts-set_span_context, Accounts-bind,
)
