-- ===== src/Tests/Config.antt =====
-- Concrete runs of the configuration and of the router's guard.
use bankstmt_analyzer.Prelude.{◌≡◌, refl, true, false, [], ◌∷◌, length}
use bankstmt_analyzer.Text.{Bytes, codes, contains}
use bankstmt_analyzer.Go.{ok}
use bankstmt_analyzer.Go.Integers.{pos}
use bankstmt_analyzer.Config.{Config, load, all_hex, secrets}
use bankstmt_analyzer.Config.Keys.{load-hides_key}
use bankstmt_analyzer.Pipeline.Scrub.{clean, new_scrubber}
use bankstmt_analyzer.Http.Problem.{json}
use bankstmt_analyzer.Http.Router.{Endpoint, create_upload, endpoint, Handler, Incoming, route}
use bankstmt_analyzer.Tests.Data.{two_uploads, world}

abbrev pub some_key : Bytes
some_key = codes "0123456789abcdef0123456789ABCDEF"

abbrev pub config : Config
config = record {
  env = codes "production";
  http_addr = codes ":8080";
  api_key = some_key;
  log_level = codes "info";
  database_url = codes "postgres://db";
  migrate_on_start = false;
  storage_dir = codes "/data";
  storage = record { backend = codes "local" };
  s3 = record {
    endpoint = [];
    bucket = [];
    region = codes "us-east-1";
    access_key_id = [];
    secret_access_key = [];
    use_path_style = true;
    prefix = [];
    timeout = pos 120;
  };
  ocr = record {
    endpoint = codes "https://ocr";
    api_key = codes "ocr-key-1";
    model = codes "m";
    path = codes "/ocr";
    timeout = pos 300;
  };
  open_ai = record {
    endpoint = codes "https://llm";
    api_key = codes "llm-key-1";
    deployment = codes "d";
    api_version = codes "2024-10-21";
    timeout = pos 600;
  };
  http = record {
    read_header_timeout = pos 10;
    write_timeout = pos 120;
    idle_timeout = pos 60;
    shutdown_timeout = pos 20;
    cors_allowed_origins = codes "*" ∷ [];
  };
  worker = record {
    concurrency = pos 4;
    max_retry = pos 3;
    backoff_base = pos 2;
    backoff_max = pos 120;
  };
  queue = record { name = codes "q"; lease_duration = pos 900; poll_interval = pos 1 };
  upload = record { max_files = pos 12; max_file_bytes = pos 20971520 };
}

accepted : load (ok config) ≡ ok config
unfolding load
accepted = refl

abbrev leak : Bytes
leak = codes "header api-key: 0123456789abcdef0123456789ABCDEF refused"

load-hides_key_example :
    (length some_key ≡ 32)
    × (all_hex some_key ≡ true)
    × (contains (clean (new_scrubber (secrets config)) leak) some_key ≡ false)
load-hides_key_example = load-hides_key (ok config) leak accepted

-- The handlers would empty the world.
abbrev handlers : Endpoint → Handler Bytes
handlers e w = (json 200 [], record w { blobs = [] })

abbrev with_other : Incoming
with_other = record {
  info = record { path = codes "/api/v1/uploads"; id = codes "r" };
  sent_path = codes "/api/v1/uploads";
  api_key = codes "0123";
}

abbrev below_uploads : Incoming
below_uploads = record with_other {
  info = record { path = codes "/api/v1/nothing"; id = codes "r" };
  sent_path = codes "/api/v1/nothing";
}

-- The same for an endpoint.
guarded_create :
    (route Bytes config with_other handlers (endpoint create_upload) (world two_uploads)).1
    ≡ world two_uploads
unfolding route
guarded_create = refl
