-- ===== src/Worker/Tests.antt =====
-- The worker at a job that it holds.
use spacerocks_coa.Base.{none, ok}
use spacerocks_coa.Db.{Db}
use spacerocks_coa.Jobs.Models.{default_backoff}
use spacerocks_coa.Worker.{Worker, Moments, conclude}
use spacerocks_coa.Jobs.Samples.{first_holder, one_leased}

abbrev idle : Worker
idle = record {
  worker_id = "w1";
  handlers = λ kind. none;
  terminal_failure = λ order_id code db. (ok tt, db);
  task_dispatch = none;
  lease_for = 60;
  backoff = default_backoff;
}

abbrev at_end : Moments
at_end = record { checked = 130; delayed = 131; finished = 132 }

abbrev stamped : Db
stamped = (conclude idle first_holder (ok tt) 0 at_end one_leased).1
