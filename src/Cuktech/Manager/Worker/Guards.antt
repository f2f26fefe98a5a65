-- ===== src/Cuktech/Manager/Worker/Guards.antt =====
-- manager.py: what the worker tests before a turn of its loop, and before an operation of the queue.
use lan_mi_home.Base.{◌≡◌}
use lan_mi_home.Cuktech.Controller.{Controller, Run}
use lan_mi_home.Cuktech.Manager.Site.{Site}

-- It reaches neither the charger nor what is known of it.
abbrev Quiet : {D A : Type 0} → Run (Site D) A → Type 0
Quiet {D} m =
    (site : Site D) (c : Controller)
    → ((m site c).0.device ≡ site.device) × ((m site c).1.state ≡ c.state)
