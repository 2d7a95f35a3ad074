-- ===== src/Session/Examples.antt =====
-- A session of a runner, with a lowering that leaves texts as they are.
use knitting_crab.Prelude.{ℕ, ◌≡◌, refl, List, codes}
use knitting_crab.Session.{runner, SessionConfig, new, valid, session_name}
use knitting_crab.Session.Safe.{IsName, session_name-IsName}

abbrev config : SessionConfig
config = record { repo_name = codes "knitting crab"; work_id = codes "PR 12; id"; role = runner }

abbrev same : List ℕ → List ℕ
same cs = cs

accepted : new (codes "knitting crab") (codes "PR 12; id") runner ≡ valid config
unfolding new
accepted = refl

session_name-IsName_example :
    (name : List ℕ) × (session_name same config ≡ valid name) × IsName name
session_name-IsName_example =
    session_name-IsName same (codes "knitting crab") (codes "PR 12; id") runner config (λ cs. refl)
      accepted
