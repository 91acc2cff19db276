-- ===== src/Deploy/HostTests.antt =====
-- A job without an order for two hosts, and the theorems at it.
use devops_backend.Prelude.{String, ◌≡◌, refl, Bool, true, false, none, List, [], ◌∷◌, text_key}
use devops_backend.Outcome.{ok}
use devops_backend.Deploy.Orders.{DeployJob, World}
use devops_backend.Deploy.Hosts.{Playbook, Site, init_order, init_result, jar_run}
use devops_backend.Deploy.Spread.{Judged, jar_run-Judged}

abbrev job : DeployJob
job = record {
  id = 9;
  order_id = "";
  appinfo_id = 1;
  status = 0;
  deploy_type = 0;
  modules = "";
  result = none;
}

abbrev world : World
world = record { job = job; apps = []; orders = []; cached = none; notice_delay = 1 }

abbrev site : Site
site = record { world = world; version = "v1"; batch = none; over = false }

abbrev played : Playbook
played = record { failed = false; unreachable = false }

abbrev steps : List Bool
steps = true ∷ true ∷ []

abbrev one_host : List String
one_host = "h1" ∷ []

abbrev two_hosts : List String
two_hosts = "h1" ∷ "h2" ∷ []

abbrev running : World
running = record world { job = record job { status = 3 } }

started : init_result none world ≡ ok (none, running)
unfolding init_result init_order
started = refl

jar_run-Judged_example :
    (s' : Site) × (jar_run (ok played) steps "v2" one_host two_hosts none site ≡ ok s')
    × Judged played steps one_host two_hosts s'.world.job.status
jar_run-Judged_example = jar_run-Judged played steps "v2" one_host two_hosts none site
