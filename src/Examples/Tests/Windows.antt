-- ===== src/Examples/Tests/Windows.antt =====
-- The timelock, and the proposals of the governance resolver.
use sorocron.Base.{◌≤◌, ◌≡◌, refl, List, [], ◌∷◌, arith}
use sorocron.Base.Int.{pos}
use sorocron.Base.Dict.{find, delete}
use sorocron.Soroban
use sorocron.Soroban.{World, returns, committed}
use sorocron.Soroban.History.{run}
use sorocron.Examples.Tests.Sample.{Ledger, host}
use sorocron.Examples.Timelock
use sorocron.Examples.Timelock.Progress.{Progress}
use sorocron.Examples.Governance
use sorocron.Examples.Governance.Forward

abbrev wealth : Ledger
wealth token who = pos 5000

abbrev calls : List (Soroban.Host Ledger × Forward.Call)
calls =
    (host 10, Forward.registering 5 100 50)
    ∷ (host 20, Forward.binding 1 5)
    ∷ (host 110, Forward.marking 5)
    ∷ []

abbrev proposals : World Governance.Proposals Ledger
proposals = record { store = Governance.constructor 1; outside = wealth }

run-forward_example :
    Forward.rank (Governance.state 0 proposals.store 5)
    ≤ Forward.rank (Governance.state 110 (run Forward.serve calls proposals).store 5)
run-forward_example =
    Forward.run-forward calls 0 proposals 5 (omega arith, (omega arith, (omega arith, tt)))

-- A call that is ready, one that has expired and one that waits.
abbrev timelock : World Timelock.Timelock Ledger
timelock = record {
  store = record {
    admin = 1;
    delay = 100;
    grace = 50;
    next_id = 3;
    queue = 0 ∷ 1 ∷ 2 ∷ [];
    calls =
        (0, record { target = 6; function = 0; args = []; eta = 180 })
        ∷ (1, record { target = 6; function = 0; args = []; eta = 120 })
        ∷ (2, record { target = 6; function = 0; args = []; eta = 300 })
        ∷ [];
    events = [];
  };
  outside = wealth;
}

-- One call ran.
one_ran :
    Timelock.execute_ready (host 200) timelock
    ≡ returns 1 (committed timelock (Timelock.execute_ready (host 200) timelock))
unfolding Timelock.execute_ready Timelock.visit_all Timelock.visit Timelock.record_call
    Timelock.remove find delete
one_ran = refl
