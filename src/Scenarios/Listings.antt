-- ===== src/Scenarios/Listings.antt =====
-- Runs of the list of containers.
use mathlib.Core.List.{Memᴰ}
use cri.Base.{String, ◌≡◌, ◌↔◌, refl, none, some, List, [], ◌∷◌}
use cri.Base.GoMap.{lookup}
use cri.Container.Create.{created_status}
use cri.Container.Status.{Status, container_running, container_created}
use cri.IdStore.{Store, new_store, add}
use cri.IdStore.Agreement
use cri.IdStore.Agreement.{Agree, adds, run-Agree}
use cri.Label.{new_label_store}
use cri.Listing.{
  Stores, StoredContainer, Container, ContainerFilter, container_fields, sandbox_fields,
  list_containers,
}
use cri.Listing.Selection.{stored, Asked, list_containers_lem}
use cri.Scenarios.Reservations.{own_level}
use cri.Scenarios.Stores.{whole_ids}
use cri.Scenarios.Updates.{running_status}

abbrev web : StoredContainer
web = record {
  id = "c1";
  sandbox_id = "s1";
  process_label = "";
  labels = ("app", "web") ∷ ("tier", "front") ∷ [];
  status = running_status;
}

abbrev db : StoredContainer
db = record {
  id = "c2";
  sandbox_id = "s1";
  process_label = "";
  labels = ("app", "db") ∷ [];
  status = created_status 3;
}

abbrev stores : Stores whole_ids own_level
stores = record {
  containers =
      (add whole_ids own_level container_fields db
        (add whole_ids own_level container_fields web
          (new_store whole_ids own_level container_fields new_label_store)).0).0;
  sandboxes = new_store whole_ids own_level sandbox_fields new_label_store;
}

-- The running containers of the front.
abbrev front : ContainerFilter
front = record {
  id = "";
  pod_sandbox_id = "s1";
  state = some container_running;
  label_selector = some (("tier", "front") ∷ []);
}

abbrev web_listed : Container
web_listed = record {
  id = "c1";
  pod_sandbox_id = "s1";
  state = container_running;
  created_at = 5;
  labels = web.labels;
}

lists_front : list_containers whole_ids own_level stores (some front) ≡ web_listed ∷ []
unfolding list_containers cri.Listing.filter_cri_containers cri.Base.keep cri.IdStore.list
    cri.Base.GoMap.values add lookup new_store cri.Label.reserve cri.Base.GoMap.insert
    cri.Listing.accepts_container cri.Listing.normalize_container_filter
    cri.Listing.whole_container_id cri.IdStore.get cri.Listing.whole_sandbox_id
    cri.Listing.to_cri_container cri.Container.Status.state cri.Listing.selected
    cri.Listing.match_label_selector cri.Listing.asked_sandbox
lists_front = refl

listed-Agree : Agree whole_ids own_level container_fields stores.containers
unfolding Agreement.run Agreement.step
listed-Agree =
    run-Agree whole_ids own_level container_fields new_label_store (adds web ∷ adds db ∷ [])

pods-Agree : Agree whole_ids own_level sandbox_fields stores.sandboxes
unfolding Agreement.run Agreement.step
pods-Agree = run-Agree whole_ids own_level sandbox_fields new_label_store []

list_containers_lem_example :
    Memᴰ web_listed (list_containers whole_ids own_level stores (some front)) ↔ (
      Memᴰ web_listed (stored whole_ids own_level stores)
      × Asked whole_ids own_level stores (some front) web_listed)
unfolding lookup
list_containers_lem_example =
    list_containers_lem whole_ids own_level stores (some front) web_listed listed-Agree pods-Agree
      (refl, tt)
