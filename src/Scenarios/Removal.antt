-- ===== src/Scenarios/Removal.antt =====
-- The removal of a container from a service.
use cri.Base.{none}
use cri.Label.{new_label_store}
use cri.IdStore.{new_store, add}
use cri.Registrar.{new_registrar, reserve}
use cri.Container.Exit.{Live}
use cri.Container.Remove.{Removal}
use cri.Container.Remove.Handler.{Service}
use cri.Scenarios.Reservations.{own_level}
use cri.Scenarios.Stores.{whole_ids, item_fields}
use cri.Scenarios.Containers.{values}

abbrev one_container : Service values whole_ids own_level item_fields
one_container = record {
  containers =
      (add whole_ids own_level item_fields ("c1", "s0:c1")
        (new_store whole_ids own_level item_fields new_label_store)).0;
  names = (reserve "web" "c1" new_registrar).0;
}

abbrev no_stop : Live values → Removal values
no_stop c = (c, none)
