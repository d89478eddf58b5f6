-- ===== src/Job/Observes.antt =====
-- One step of the loop of `Start` (job/statemachine.go) and its measure, with a look at the desired
-- state.
use hch.Base.{
  ◌≡◌, ◌≢◌, refl, ◌∙◌, ℕ, suc, ◌+◌, ◌≤◌, ◌==◌, ◌⊎◌, inl, inr, none, some, Option, List, [], ◌∷◌,
  length, arith, Bool-cases, head?, tail,
}
use hch.Job.State.{StateName}
use hch.Job.Machine.{
  Machine, Run, Round, enter_state, entered, enter_handler, enter_error, observe, stop,
  stop_request, lookup_handler, is_allowed, targets, ran,
}
use hch.Job.Enter.{enter_state_allowed, enter_state_refused}
use hch.Job.Tables.{Kind, IsSetUp, transitions_of}
use hch.Job.Within.{Within, Next}
use hch.Job.Rounds.{enter_handler-Next}
use hch.Replication.World.{Env, Ctx, Res, ok, err, panic}

-- A machine that goes on with a next state, after which at most `b` rounds follow.
pub record Going (kind : Kind) (k b : ℕ) (r : Res StateName) (m : Machine) : Type 0 where
  pub set_up : IsSetUp kind m
  pub desired : m.desired ≡ StateName.empty
  pub within : Within kind k m.current (length m.ctx.base.tags) b r

pub Within-pos :
    (kind : Kind) (k : ℕ) (c : StateName) (t b : ℕ) (r : Res StateName)
    → Within kind k c t b r
    → 1 ≤ b
Within-pos kind k c t b (err e) h = h
Within-pos kind k c t b panic h = h
Within-pos Kind.transfer k c t b (ok n) h = ground arith
Within-pos Kind.delete k c t b (ok n) h = ground arith

pub Within-two :
    (kind : Kind) (k : ℕ) (c : StateName) (t b : ℕ) (n : StateName)
    → n ≢ StateName.empty
    → Within kind k c t b (ok n)
    → 2 ≤ b
Within-two Kind.transfer k c t b n ne h = ground arith
Within-two Kind.delete k c t b n ne h = ground arith

entered-Going :
    (kind : Kind) (k b : ℕ) (n : StateName) (m : Machine) (p : Res StateName × Ctx)
    → IsSetUp kind m
    → m.desired ≡ StateName.empty
    → 1 ≤ b
    → Next kind k n b p
    → Going kind k b (entered n m p).0 (entered n m p).1 × ((entered n m p).1.stops ≡ m.stops)
entered-Going kind k b n m (ok next, c) s d one h = (
  record {
    set_up = record { transitions = s.transitions; handlers = s.handlers };
    desired = d;
    within = h;
  },
  refl,
)
entered-Going kind k b n m (err e, c) s d one h = (
  record {
    set_up = record { transitions = s.transitions; handlers = s.handlers };
    desired = d;
    within = one;
  },
  refl,
)
entered-Going kind k b n m (panic, c) s d one h = (
  record {
    set_up = record { transitions = s.transitions; handlers = s.handlers };
    desired = d;
    within = one;
  },
  refl,
)

-- One `EnterState` takes one round off the bound, and looks at no stop request.
pub enter_state-Going :
    (env : Env) (kind : Kind) (k b : ℕ) (n : StateName) (m : Machine)
    → ((i : ℕ) → length (env.tags i) ≤ k)
    → n ≢ StateName.empty
    → n ≢ StateName.continue
    → Going kind k (suc b) (ok n) m
    → let p = enter_state env n m in Going kind k b p.0 p.1 × (p.1.stops ≡ m.stops)
enter_state-Going env kind k b n m f ne nc g =
    let one : 1 ≤ b =
      (omega (arith, Within-two kind k m.current (length m.ctx.base.tags) (suc b) n ne g.within)) in
    elim (Bool-cases (is_allowed m n)) [
      | inr refused ↦
          rw (enter_state_refused env n m refused)
            (record { set_up = g.set_up; desired = g.desired; within = one }, refl)
      | inl allowed ↦
          let e = g.set_up.handlers in
          rw (enter_state_allowed env n m allowed) (
            entered-Going kind k b n m
              (enter_handler env m.job_id (lookup_handler m.handlers n) m.ctx) g.set_up g.desired
              one
              (rw e (enter_handler-Next env m.job_id kind k b m.current n m.ctx f g.within ne nc)))
    ]

abbrev pub Ends : Run → Type 0
Ends r = r ≢ Run.no_fuel

-- A round ends the run or leaves less to do, the stop requests still to come counted in.
abbrev pub RoundGoing : Kind → ℕ → ℕ → Round → Type 0
RoundGoing kind k fuel (Round.over r) = Ends r
RoundGoing kind k fuel (Round.more r m) = (b : ℕ) × Going kind k b r m × (b + length m.stops ≤ fuel)

ran-Ends : (p : Res StateName × Machine) → Ends (ran p)
ran-Ends (ok n, m) e = cc
ran-Ends (err x, m) e = cc
ran-Ends (panic, m) e = cc

pub enter_error-Ends : (env : Env) (m : Machine) → Ends (enter_error env m)
unfolding enter_error
enter_error-Ends env m = ran-Ends (enter_state env StateName.error m)

-- What a look at the desired state finds: nothing, or a stop, which takes a request off.
pub record Quiet (m o : Machine) : Type 0 where
  pub set_up : (kind : Kind) → IsSetUp kind m → IsSetUp kind o
  pub desired : o.desired ≡ m.desired
  pub current : o.current ≡ m.current
  pub ctx : o.ctx ≡ m.ctx
  pub stops : length o.stops ≤ length m.stops

pub record Stopped (m o : Machine) : Type 0 where
  pub set_up : (kind : Kind) → IsSetUp kind m → IsSetUp kind o
  pub desired : o.desired ≡ StateName.stopped
  pub stops : 1 + length o.stops ≤ length m.stops

pub keep-IsSetUp :
    (m o : Machine)
    → o.transitions ≡ m.transitions
    → o.handlers ≡ m.handlers
    → (kind : Kind) → IsSetUp kind m
    → IsSetUp kind o
keep-IsSetUp m o p q kind s = record { transitions = p ∙ s.transitions; handlers = q ∙ s.handlers }

-- The machine with the first entry of the schedule taken off.
abbrev advance : Machine → Machine
advance m = record m { stops = tail m.stops }

length-tail : (l : List (Option ℕ)) → length (tail l) ≤ length l
length-tail [] = omega arith
length-tail (x ∷ l) = omega arith

length-tail-some :
    (l : List (Option ℕ)) (x : Option ℕ) → head? l ≡ some x → 1 + length (tail l) ≤ length l
length-tail-some [] x h = cc
length-tail-some (y ∷ l) x h = omega arith

advance-Quiet : (m : Machine) → Quiet m (advance m)
advance-Quiet m = record {
  set_up = keep-IsSetUp m (advance m) refl refl;
  desired = refl;
  current = refl;
  ctx = refl;
  stops = length-tail m.stops;
}

pub observe_lem : (m : Machine) → Quiet m (observe m) ⊎ Stopped m (observe m)
unfolding observe stop
observe_lem m = go (head? m.stops) refl
  where
    go :
        (r : Option (Option ℕ))
        → head? m.stops ≡ r
        → Quiet m (stop_request r (advance m)) ⊎ Stopped m (stop_request r (advance m))
    go none e = inl (advance-Quiet m)
    go (some none) e = inl (advance-Quiet m)
    go (some (some id)) e = elim (Bool-cases (id == m.job_id)) [
      | inl mine ↦ rw mine (
          inr (record {
            set_up =
                keep-IsSetUp m (record m { stops = tail m.stops; desired = StateName.stopped }) refl
                  refl;
            desired = refl;
            stops = length-tail-some m.stops (some id) e;
          }))
      | inr other ↦ rw other (inl (advance-Quiet m))
    ]

-- The state that follows "running" in each table.
abbrev pub first_state : Kind → StateName
first_state Kind.transfer = StateName.initialize
first_state Kind.delete = StateName.delete

pub targets_running :
    (kind : Kind) (t : List (StateName × List StateName)) (c : StateName)
    → t ≡ transitions_of kind
    → c ≡ StateName.running
    → targets t c ≡ first_state kind ∷ []
targets_running Kind.transfer t c p q = rw (p, q)
targets_running Kind.delete t c p q = rw (p, q)
