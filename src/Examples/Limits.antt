-- ===== src/Examples/Limits.antt =====
-- Three calls of one key under a limit of two.
use verity_os_v.Base.{◌≤◌, codes, List, [], ◌∷◌, length, select, arith}
use verity_os_v.RateLimit.{is_live}
use verity_os_v.RateLimit.Window.{Call, run, fresh_run, run-bound}

abbrev calls : List Call
calls = (codes "a", 1) ∷ (codes "a", 2) ∷ (codes "b", 2) ∷ (codes "a", 3) ∷ []

run-bound_example :
    length (select (is_live 10 5) (run (codes "a") calls (fresh_run 10 2 0)).granted) ≤ 2
unfolding run
run-bound_example =
    run-bound 10 2 0 (codes "a") calls 5
      (omega arith, (omega arith, (omega arith, (omega arith, tt)))) (omega arith)
