-- ===== src/Examples/Storing.antt =====
-- A dataset whose user properties are a map, and a configuration stored over a longer one.
use cs_sync.Prelude.{eqt, Text, txt, false, Option, none, some, List, [], ◌∷◌, if◌then◌else◌}
use cs_sync.Os.{other_error, Outcome, done, failed}
use cs_sync.Prelude.Dict.{Dict, lookup, insert, erase}
use cs_sync.Prelude.Split.{split_first}
use cs_sync.Zfs.Command.{Host}

abbrev value_of : Option Text → Text
value_of none = txt "-"
value_of (some v) = v

get_answer : List Text → Dict Text → Outcome Text
unfolding lookup
get_answer (a ∷ b ∷ c ∷ d ∷ p ∷ e ∷ []) w = done (value_of (lookup p w))
get_answer _ w = failed other_error

set_pair : Option (Text × Text) → Dict Text → Dict Text
unfolding insert
set_pair none w = w
set_pair (some (p, v)) w = insert p v w

abbrev change : Text → Text → Dict Text → Dict Text
change verb p w = if eqt verb (txt "set") then set_pair (split_first b'=' p) w else erase p w

abbrev run_command : List Text → Dict Text → Outcome Text × Dict Text
run_command (verb ∷ p ∷ ds ∷ []) w = (done [], change verb p w)
run_command _ w = (failed other_error, w)

abbrev property_host : Host
property_host = record {
  World = Dict Text;
  query = get_answer;
  command = run_command;
  send_recv = λ a b w. (failed other_error, w);
  now_unix = λ w. 0;
  read_approval = λ id w. failed other_error;
  remove_approval = λ id w. w;
  write_blocked = λ id t w. w;
  remove_blocked = λ id w. w;
  write_status = λ id t w. w;
  freeze_due = λ w. false;
  note_freeze = λ w. w;
  freeze_snap = λ ds name r w. (failed other_error, w);
  guests_of = λ t. none;
  stat_file = λ path w. false;
  glob_files = λ pattern w. [];
  read_conf = λ path w. failed other_error;
  gzip64 = λ s. s;
  gunzip64 = λ s. some s;
  conf_seen = λ w. none;
  set_conf_seen = λ m w. w;
}

abbrev new_text : Text
new_text = txt "gz1:QQ"

abbrev longer : Dict Text
longer = (txt "cs:pveconf", txt "gz1:A") ∷ (txt "cs:pveconf.1", txt "B") ∷ []
