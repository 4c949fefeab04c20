-- ===== src/Examples/Meta.antt =====
-- Configurations for meta.cpp.
use redis_agent.Base.{
  Bool, true, false, ℕ, ◌≡◌, refl, List, [], ◌∷◌, Option, none, some, arith, if◌then◌else◌,
}
use redis_agent.Base.Int.{pos}
use redis_agent.Meta.Partition.{
  loaded, load_partition, load_words, load_word, store, store_range, cut, atoi, digits, to_unsigned,
}
use redis_agent.Meta.Auth.{same_key, UserInfo, HashMap, IsHashMap, auth_load, auth_check, check_tk}
use redis_agent.Meta.Auth.First.{auth_check-first_user}
use redis_agent.Meta.Load.{
  ServiceConf, Db, load_services, load_service, read_service, add_service, place_service,
}
use redis_agent.Meta.Load.{loaded as db_loaded}
use redis_agent.Meta.Load.Services.{Configured, load_services-IsLoaded}

-- The text `1-2,5`.
abbrev text : List ℕ
text = 49 ∷ 45 ∷ 50 ∷ 44 ∷ 53 ∷ []

text_loaded : load_partition 8 text ≡ loaded (1 ∷ 2 ∷ 5 ∷ [])
unfolding load_partition load_words load_word store store_range cut atoi digits to_unsigned
text_loaded = refl

-- A map as a function.
abbrev kept_or : ℕ → Option ℕ → Option ℕ
kept_or w none = some w
kept_or w (some v) = some v

abbrev function_map : HashMap (List ℕ → Option ℕ)
function_map = record {
  clear = λ k. none;
  set = λ k w m j. if same_key k j then kept_or w (m j) else m j;
  get = λ k m. m k;
}

same_key_self : (k : List ℕ) → same_key k k ≡ true
same_key_self [] = refl
same_key_self (x ∷ xs) = let rest = same_key_self xs in ground arith

function_map-IsHashMap : IsHashMap (List ℕ → Option ℕ) function_map
function_map-IsHashMap = record {
  get-clear = λ k. refl;
  set-there = λ k v w m e. rw (same_key_self k, e) refl;
  set-new = λ k w m e. rw (same_key_self k, e) refl;
  set-other = λ k j w m e. rw e refl;
}

abbrev first_byte : List ℕ → ℕ
first_byte [] = 0
first_byte (b ∷ bs) = b

abbrev users : List UserInfo
users =
    record { uname = 1 ∷ []; tk = 2 ∷ []; power = pos 1 }
    ∷ record { uname = 3 ∷ []; tk = 4 ∷ []; power = pos 2 }
    ∷ []

auth_check-first_user_example :
    auth_check
      (List ℕ → Option ℕ)
      function_map
      first_byte
      users
      (auth_load (List ℕ → Option ℕ) function_map users)
      (some (3 ∷ []))
      (some (4 ∷ []))
      (some [])
    ≡ some (pos 2)
unfolding check_tk
auth_check-first_user_example =
    auth_check-first_user (List ℕ → Option ℕ) function_map function_map-IsHashMap first_byte users
      (3 ∷ []) (4 ∷ []) []

-- Two services of one partition, of which the second is in another building.
abbrev service_conf : List ℕ → Bool → ServiceConf
service_conf idc can_write = record {
  service_name = some (1 ∷ []);
  addr = some (2 ∷ []);
  port = some 6379;
  partition = some 0;
  can_read = some true;
  can_write = some can_write;
  machine_room = none;
  idc = some idc;
}

abbrev confs : List ServiceConf
confs = service_conf (8 ∷ []) true ∷ service_conf (9 ∷ []) false ∷ []

abbrev empty_db : Db
empty_db = record {
  partition_num = 1;
  read_idc_only = true;
  read_room_only = false;
  server_idc_name = 8 ∷ [];
  server_machine_room_name = [];
  services = [];
  partition_service_r = λ p. [];
  partition_service_w = λ p. [];
}

filled : (d : Db) × (load_services empty_db 0 confs ≡ db_loaded d)
unfolding load_services load_service read_service add_service place_service
filled = (_, refl)

load_services-IsLoaded_example : Configured empty_db filled.0 0 confs
load_services-IsLoaded_example = load_services-IsLoaded empty_db filled.0 0 confs filled.1
