-- ===== src/Tests/CmdTests.antt =====
-- The start of the operator with the default flags and a directory for the webhook's certificates.
use azdo_kube_operator.Base.{◌≡◌, true, false, [], All}
use azdo_kube_operator.Cmd.{Flags, default_flags, BootCall, Refuses, main}
use azdo_kube_operator.Cmd.Plan.{run, plan, main-plan}
use azdo_kube_operator.Cmd.Safety.{Secured, main-Secured}

abbrev sample_flags : Flags
sample_flags = record default_flags { webhook_cert_path = "/certs" }

-- The health check is refused.
abbrev without_health : Refuses
without_health l (BootCall.add_healthz_check name) = true
without_health l BootCall.get_config = false
without_health l _ = false

main-plan_example : main without_health sample_flags [] ≡ run without_health (plan sample_flags) []
main-plan_example = main-plan without_health sample_flags []

main-Secured_example : All (Secured sample_flags) (main without_health sample_flags []).1
main-Secured_example = main-Secured sample_flags without_health
