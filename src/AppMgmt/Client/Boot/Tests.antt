-- ===== src/AppMgmt/Client/Boot/Tests.antt =====
-- Tests of app-mgmt-test/client/main.c without a fixture, at small sizes.
use trusty_app_sample.Common.{
  All, [], false, if◌then◌else◌, ltb, negsuc, no_event, pos, refl, suc, true, ℕ, ◌∷◌, ◌≡◌,
}
use trusty_app_sample.AppMgmt.Client.{Sys}
use trusty_app_sample.AppMgmt.Client.Held.{Owes, nothing}
use trusty_app_sample.AppMgmt.Client.Boot.{app_restart_positive}
use trusty_app_sample.AppMgmt.Client.Boot.Closes.{boot_tests, boot_tests-Owes}
use trusty_app_sample.AppMgmt.Client.Fixture.Tests.{at_start, kernel}

boot_tests-Owes_example :
    All (λ test. Owes nothing at_start (test at_start)) (boot_tests kernel false 50 100)
boot_tests-Owes_example = boot_tests-Owes kernel false 50 100 at_start

-- A kernel on which the server hangs up and does not come back: the third handle is the last.
abbrev once : Sys ℕ
once = record kernel {
  connect =
      λ port is_async wait_for_port w. if ltb w 3 then (pos (suc w), suc w) else (negsuc 1, w);
  wait = λ chan is_bounded w. (pos 0, record no_event { hup = true; msg = true }, w);
}

-- The channel, which has the number 3, is closed a second time.
app_restart_twice : (app_restart_positive once 100 at_start).ledger.closed ≡ 2 ∷ 1 ∷ 3 ∷ 3 ∷ []
unfolding app_restart_positive
app_restart_twice = refl
