-- ===== src/Examples/Governance.antt =====
-- Proposals that are executable in a window: contracts/examples/timelock-resolver/src/lib.rs.
pub mod Forward
use sorocron.Base.{ℕ, Bool, true, false, Option, none, some, [], ltb, if◌then◌else◌, is_some, not}
use sorocron.Base.Word.{sat_add}
use sorocron.Base.Dict.{Dict, find, put}
use sorocron.Registry.Types.{Address}
use sorocron.Soroban.{Host, World, M, ◌>>=◌, ◌>>◌, gets, modify, ok_or, fail_if, require_auth}

pub data Error : Type 0 where
  unknown_proposal already_registered : Error

pub record Proposal : Type 0 where
  pub queued_at : ℕ
  pub eta : ℕ
  pub window : ℕ
  pub executed : Bool

pub data ProposalState : Type 0 where
  unknown queued ready expired executed : ProposalState

-- The proposals by hash, and the proposal of each job.
pub record Proposals : Type 0 where
  pub admin : Address
  pub proposals : Dict Proposal
  pub jobs : Dict ℕ

unfoldable pub constructor : Address → Proposals
constructor admin = record { admin = admin; proposals = []; jobs = [] }

-- `state` of a stored proposal.
abbrev pub state_of : ℕ → Proposal → ProposalState
state_of now p =
    if p.executed
    then ProposalState.executed
    else if ltb now p.eta
    then queued
    else if ltb now (sat_add p.eta p.window)
    then ready
    else expired

abbrev pub is_ready : ProposalState → Bool
is_ready ready = true
is_ready _ = false

unfoldable pub state : ℕ → Proposals → ℕ → ProposalState
state now s proposal = elim (find proposal s.proposals) [ none ↦ unknown | some p ↦ state_of now p ]

unfoldable pub should_run : ℕ → Proposals → ℕ → Bool
unfolding state
should_run now s job_id = elim (find job_id s.jobs) [
  | none ↦ false
  | some proposal ↦ is_ready (state now s proposal)
]

module _ {X : Type 0} (host : Host X) where
  unfoldable pub register : ℕ → ℕ → ℕ → M Error (World Proposals X) (Unit {0})
  register proposal eta window = do
    s ← gets (λ s. s)
    require_auth host s.admin
    fail_if (is_some (find proposal s.proposals)) already_registered
    modify (λ s. record s {
      proposals =
          put proposal
            (record { queued_at = host.timestamp; eta = eta; window = window; executed = false })
            s.proposals;
    })

  unfoldable pub bind : ℕ → ℕ → M Error (World Proposals X) (Unit {0})
  bind job_id proposal = do
    s ← gets (λ s. s)
    require_auth host s.admin
    fail_if (not (is_some (find proposal s.proposals))) unknown_proposal
    modify (λ s. record s { jobs = put job_id proposal s.jobs })

  unfoldable pub mark_executed : ℕ → M Error (World Proposals X) (Unit {0})
  mark_executed proposal = do
    s ← gets (λ s. s)
    require_auth host s.admin
    p ← ok_or (find proposal s.proposals) unknown_proposal
    modify (λ s. record s { proposals = put proposal (record p { executed = true }) s.proposals })
