-- ===== src/Spi/Driver/Tests.antt =====
-- The driver at small sizes.
use trusty_app_sample.Common.{List, [], fault, none, ok, out_of_bounds, true, ◌∷◌, ◌≡◌}
use trusty_app_sample.Spi.Driver.Requests.{
  Request, clock, deselect, idle, issue, pause, perform, perform_all, select, transaction,
}
use trusty_app_sample.Spi.Driver.{System, call_exec, no_error}
use trusty_app_sample.Spi.Driver.Sequence.{transaction-eq-perform_all}
use trusty_app_sample.Spi.Driver.Overflow.{full, is_guarded, issue-full}

abbrev looped : System
looped = record {
  dev = record { addr = 1; cmds = none; num_cmds = 0; curr_cmd = 0; loopback = true };
  owner = none;
  num_devs = 1;
  memory = λ a. a;
  slept = [];
  live = 4;
}

abbrev three : List Request
three = select ∷ pause 7 ∷ deselect ∷ []

transaction-eq-perform_all_example :
    transaction (λ seed i. seed) three (idle looped)
    ≡ ok (no_error, idle (record looped { slept = 7 ∷ [] }))
unfolding perform_all perform call_exec
transaction-eq-perform_all_example = transaction-eq-perform_all (λ seed i. seed) three looped

issue-full_example : issue clock (full [] looped) ≡ fault out_of_bounds
unfolding is_guarded
issue-full_example = issue-full clock [] looped
