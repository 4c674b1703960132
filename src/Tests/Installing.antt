-- ===== src/Tests/Installing.antt =====
-- The theorems on the fleet at a beacon that is sent one model.
use ultravisor.Base.{zero, suc, true, false, none, some, List, [], ◌∷◌, ◌≡◌, ◌≢◌, refl}
use ultravisor.Base.Dict.{lookup}
use ultravisor.Coordinator.Poll.{is_mine, poll_for_work}
use ultravisor.Fleet.Push.{FilePath, Chunk, Scan, PushConfig, response, Dispatch, push_directory}
use ultravisor.Fleet.Transfer.{plan, nothing_sent, send_from, sent_of, push_directory_lem}
use ultravisor.Fleet.Installs.{ModelTable}
use ultravisor.Fleet.Models.{AvailableModel}
use ultravisor.Fleet.Filter.{Fleet, check_model, scan_available, extract_model_key}
use ultravisor.Fleet.Manager.{Hub, install_model}
use ultravisor.Fleet.Consent.{
  History, starts_install, progresses, is_disabled, is_enabled, perform_all, has_consent,
  any_enabled,
}
use ultravisor.Fleet.Delivery.{Surroundings, fleet_env, poll-has_consent}
use ultravisor.Fleet.Histories.{check_model-install_model}
use ultravisor.Tests.Samples.{env_5000, beacon_of, waiting_item, with_waiting}

abbrev weights : FilePath
weights = 109 ∷ []

abbrev one_file : Scan
one_file = record { hash = 77; total_bytes = 8; files = weights ∷ [] }

abbrev chunks_of : FilePath → FilePath → List Chunk
chunks_of file wire =
    record { path = wire; index = 0; total = 2; bytes = 4 }
    ∷ record { path = wire; index = 1; total = 2; bytes = 4 }
    ∷ []

-- The second call fails.
abbrev one_success : Dispatch
one_success zero k =
    response (record { refused = false; status = 0; exit_code = 0; output_error = 0; error = 0 })
one_success (suc n) k =
    response (record { refused = true; status = 0; exit_code = 1; output_error = 15; error = 0 })

abbrev push_config : PushConfig
push_config = record {
  source_dir = weights;
  push_action = 21;
  finalize_action = 22;
  prefix = 112 ∷ [];
}

push_directory_example :
    sent_of (push_directory chunks_of one_success push_config one_file)
    ≡ send_from one_success (plan chunks_of push_config one_file) nothing_sent
push_directory_example =
    push_directory_lem chunks_of one_success push_config one_file refl (λ e. cc)

abbrev model : AvailableModel
model = record { model_name = 16; source_dir = weights; push_action = 21; finalize_action = 22 }

abbrev hub : Hub
hub = record {
  now = 5000;
  beacons = (60, beacon_of []) ∷ [];
  disk = record { root = λ p. none; skips = λ p. false };
  scan = λ dir. one_file;
  chunks = λ dir. chunks_of;
  dispatch = λ b. one_success;
  text_of = λ p. 17;
  path_of = λ m. 112 ∷ [];
  describe = λ e. 18;
}

abbrev no_rows : ModelTable
no_rows = record { ready = true; rows = [] }

-- The model 5 can be installed; no beacon has it.
abbrev fleet : Fleet
fleet = record {
  catalogs = [];
  cache = record { models = (5, model) ∷ []; last_scan = 4000 };
  models = no_rows;
}

check_model-install_model_example :
    (check_model 60 5 (install_model hub 60 5 false fleet).0.models).allowed ≡ false
unfolding any_enabled
check_model-install_model_example = check_model-install_model hub 60 5 fleet refl refl

-- The model 5 is installed on the beacon 60 in part, and enabled on another one.
abbrev writes : History
writes =
    (60, 5, starts_install hub 20 model one_file)
    ∷ (61, 5, is_enabled)
    ∷ (60, 5, progresses 4)
    ∷ (60, 5, is_disabled)
    ∷ []

abbrev installing_fleet : Fleet
installing_fleet = record fleet { models = perform_all writes no_rows }

-- Every item needs the model 5.
abbrev surroundings : Surroundings
surroundings = record {
  text_of = hub.text_of;
  disk = hub.disk;
  settings = λ it. record { key = 5; other_key = 0; path = []; other_path = []; weights_path = [] };
  throws = λ b it. false;
}

poll-has_consent_example :
    (poll_for_work (fleet_env surroundings installing_fleet env_5000) 60 with_waiting).1 ≢ some 7
unfolding any_enabled has_consent lookup extract_model_key scan_available is_mine
poll-has_consent_example =
    poll-has_consent surroundings installing_fleet env_5000 60 5 7 (beacon_of []) waiting_item
      with_waiting writes no_rows refl refl refl refl refl refl refl refl refl refl
