-- ===== src/Examples/Governance/Forward.antt =====
-- How a proposal's state moves: contracts/examples/timelock-resolver/src/lib.rs.
use sorocron.Base.{
  ℕ, ◌&&◌, ◌≤◌, ◌≡◌, refl, ap, ◌∙◌, false, not, Option, none, some, List, leb, ltb, ◌==◌, arith,
  Bool-cases, Option-cases, inl, inr, eq-of-==,
}
use sorocron.Base.Word.{sat_add}
use sorocron.Base.Dict.{Dict, find, put, find-put}
use sorocron.Soroban.{Host, World, committed}
use sorocron.Soroban.History.{InOrder, end_time, run, run-keeps}
use sorocron.Examples.Governance.{
  Proposal, ProposalState, unknown, queued, ready, expired, executed, Proposals, state_of, is_ready,
  state, should_run, register, bind, mark_executed,
}

pub data Call : Type 0 where
  registering : ℕ → ℕ → ℕ → Call
  binding : ℕ → ℕ → Call
  marking : ℕ → Call

-- How far a proposal has come.
abbrev pub rank : ProposalState → ℕ
rank unknown = 0
rank queued = 1
rank ready = 2
rank expired = 3
rank executed = 4

abbrev rank_of : ℕ → Option Proposal → ℕ
rank_of now none = 0
rank_of now (some p) = rank (state_of now p)

rank-state :
    (now : ℕ) (s : Proposals) (proposal : ℕ)
    → rank (state now s proposal) ≡ rank_of now (find proposal s.proposals)
unfolding state
rank-state now s proposal = ground arith

rank_later : (now later : ℕ) (o : Option Proposal) → now ≤ later → rank_of now o ≤ rank_of later o
rank_later now later o h = ground arith

put_forward :
    (now id k : ℕ) (new : Proposal) (d : Dict Proposal)
    → rank_of now (find k d) ≤ rank_of now (some new)
    → rank_of now (find id d) ≤ rank_of now (find id (put k new d))
put_forward now id k new d h = elim (Bool-cases (k == id)) [
  | inl same ↦ let e = eq-of-== k id same in rw (find-put id k new d, same) (rw (← e) h)
  | inr other ↦ rw (find-put id k new d, other) (omega arith)
]

last_state : (s : ProposalState) → 4 ≤ rank s → is_ready s ≡ false
last_state executed h = refl
last_state unknown h = refl
last_state queued h = refl
last_state expired h = refl
last_state ready h = ground arith

should_run-bound :
    (now : ℕ) (s : Proposals) (job_id id : ℕ)
    → find job_id s.jobs ≡ some id
    → should_run now s job_id ≡ is_ready (state now s id)
unfolding should_run
should_run-bound now s job_id id bound = ground arith

module _ {X : Type 0} where
  abbrev pub serve : Host X → Call → World Proposals X → World Proposals X
  serve host (registering proposal eta window) w = committed w (register host proposal eta window w)
  serve host (binding job_id proposal) w = committed w (bind host job_id proposal w)
  serve host (marking proposal) w = committed w (mark_executed host proposal w)

  serve_forward :
      (host : Host X) (c : Call) (w : World Proposals X) (id now : ℕ)
      → rank_of now (find id w.store.proposals)
        ≤ rank_of now (find id (serve host c w).store.proposals)
  unfolding register bind mark_executed
  serve_forward host (registering proposal eta window) w id now =
      elim (Bool-cases (host.authorized w.store.admin)) [
        | inr unsigned ↦ rw unsigned (omega arith)
        | inl signed ↦ elim (Option-cases (find proposal w.store.proposals)) [
          | inr (p, found) ↦ rw (signed, found) (omega arith)
          | inl new ↦
              rw (signed, new)
                (put_forward now id proposal _ w.store.proposals (rw new (omega arith)))
        ]
      ]
  serve_forward host (binding job_id proposal) w id now = ground arith
  serve_forward host (marking proposal) w id now =
      elim (Bool-cases (host.authorized w.store.admin)) [
        | inr unsigned ↦ rw unsigned (omega arith)
        | inl signed ↦ elim (Option-cases (find proposal w.store.proposals)) [
          | inl missing ↦ rw (signed, missing) (omega arith)
          | inr (p, found) ↦
              rw (signed, found)
                (put_forward now id proposal _ w.store.proposals (rw found (ground arith)))
        ]
      ]

  -- A proposal's state only moves forward: along every history of calls in order of time it goes
  -- from unknown to queued, ready, expired and executed, and never back.
  pub run-forward :
      (moments : List (Host X × Call)) (now : ℕ) (w : World Proposals X) (id : ℕ)
      → InOrder now moments
      → rank (state now w.store id)
        ≤ rank (state (end_time now moments) (run serve moments w).store id)
  run-forward moments now w id o =
      let forward =
        run-keeps serve
          (λ later v.
            rank_of now (find id w.store.proposals) ≤ rank_of later (find id v.store.proposals))
          (λ from later v le p. omega (arith, rank_later from later (find id v.store.proposals) le))
          (λ host c v p. omega (arith, serve_forward host c v id host.timestamp)) moments now w o
          (omega arith) in
      rw
        (
          rank-state now w.store id,
          rank-state (end_time now moments) (run serve moments w).store id,
        )
        forward

  -- Once a proposal is executed, no later history of calls makes the resolver answer true for a
  -- job that is bound to it.
  executed-should_run :
      (moments : List (Host X × Call)) (now : ℕ) (w : World Proposals X) (id job_id : ℕ)
      → InOrder now moments
      → state now w.store id ≡ executed
      → find job_id (run serve moments w).store.jobs ≡ some id
      → should_run (end_time now moments) (run serve moments w).store job_id ≡ false
  executed-should_run moments now w id job_id o e bound =
      let forward = run-forward moments now w id o in
      should_run-bound (end_time now moments) (run serve moments w).store job_id id bound
      ∙ last_state (state (end_time now moments) (run serve moments w).store id)
          (omega (arith, forward, ap rank e))

should_run-window :
    (now : ℕ) (s : Proposals) (job_id id : ℕ) (p : Proposal)
    → find job_id s.jobs ≡ some id
    → find id s.proposals ≡ some p
    → should_run now s job_id
      ≡ (not p.executed && (leb p.eta now && ltb now (sat_add p.eta p.window)))
unfolding should_run state
should_run-window now s job_id id p bound stored = ground arith
