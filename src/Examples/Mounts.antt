-- ===== src/Examples/Mounts.antt =====
-- The dataset of a folder, where two mount points are over it.
use cs_sync.Prelude.{eqt, Text, txt, ◌≡◌, refl, some}
use cs_sync.Os.{other_error, done, failed}
use cs_sync.Zfscheck.{Dataset, ZfsTool, parse_datasets, list_datasets, parent_dataset}
use cs_sync.Zfscheck.Parent.{IsLongest, parent_dataset-IsLongest}

abbrev mounts : Text
mounts = txt "tank\t/tank\ntank/d\t/tank/data\nrpool\tnone\n"

abbrev mount_tool : ZfsTool
mount_tool = record {
  World = Unit {0};
  output = λ args w. done mounts;
  run = λ args w. (failed other_error, w);
  abs = λ p w. done p;
}

abbrev data_set : Dataset
data_set = record { ds_name = txt "tank/d"; mountpoint = txt "/tank/data" }

data_chosen : parent_dataset mount_tool (txt "/tank/data/x") tt ≡ done (some data_set)
unfolding parent_dataset eqt
data_chosen = refl

parent_dataset-IsLongest_example :
    IsLongest (txt "/tank/data/x") (parse_datasets mounts) (some data_set)
unfolding list_datasets
parent_dataset-IsLongest_example =
    parent_dataset-IsLongest mount_tool (txt "/tank/data/x") (txt "/tank/data/x") tt
      (parse_datasets mounts) (some data_set) refl refl data_chosen
