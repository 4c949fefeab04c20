-- ===== src/Meta/Load.antt =====
-- The services and the users of a configuration: the second half of `_meta_load_conf` of meta.cpp. What the
-- configuration reader (comcfg) answers is an argument, `none` where it throws or returns an error.
pub mod Services
use redis_agent.Base.{
  ℕ, ◌+◌, ◌*◌, ◌/◌, ◌%◌, Bool, true, false, not, ◌&&◌, Option, none, some, List, [], ◌∷◌, ◌++◌, ltb,
  leb, ◌==◌, if◌then◌else◌, length,
}
use redis_agent.Base.Int.{ℤ}
use redis_agent.Meta.Auth.{UserInfo}

-- The answers for one service.
pub record ServiceConf : Type 0 where
  pub service_name : Option (List ℕ)
  pub addr : Option (List ℕ)
  pub port : Option ℕ
  pub partition : Option ℕ
  pub can_read : Option Bool
  pub can_write : Option Bool
  pub machine_room : Option (List ℕ)
  pub idc : Option (List ℕ)

-- `meta_service_info`
pub record Service : Type 0 where
  pub id : ℕ
  pub service_name : List ℕ
  pub addr : List ℕ
  pub port : ℕ
  pub partition : ℕ
  pub can_read : Bool
  pub can_write : Bool
  pub idc_name : List ℕ
  pub machine_room_name : List ℕ

-- What the loop over the services uses of `meta_db_info`, and what it fills.
pub record Db : Type 0 where
  pub partition_num : ℕ
  pub read_idc_only : Bool
  pub read_room_only : Bool
  pub server_idc_name : List ℕ
  pub server_machine_room_name : List ℕ
  pub services : List Service
  pub partition_service_r : ℕ → List Service
  pub partition_service_w : ℕ → List Service

-- `MAX_COPY_NUM`, the size of the array of services of a partition.
abbrev pub max_copy_num : ℕ
max_copy_num = 64

-- -1, a write behind an array, or the filled `Db`.
pub data Loaded (A : Type 0) : Type 0 where
  failed : Loaded A
  fault : Loaded A
  loaded : A → Loaded A

-- `strncmp(s, t, n) == 0` of texts within their arrays.
abbrev pub same_name : List ℕ → List ℕ → Bool
same_name [] [] = true
same_name [] (y ∷ ys) = false
same_name (x ∷ xs) [] = false
same_name (x ∷ xs) (y ∷ ys) = (x == y) && same_name xs ys

infixl 20 ◌>>=◌
abbrev pub ◌>>=◌ : {A B : Type 0} → Option A → (A → Option B) → Option B
none >>= f = none
some a >>= f = f a

-- A text that is read when a flag asks for it.
abbrev pub when : Bool → Option (List ℕ) → Option (List ℕ)
when true o = o
when false o = some []

-- The two tests that take the right to read.
abbrev pub readable : Db → Service → Bool
readable db s =
    s.can_read
    && not (db.read_idc_only && not (same_name s.idc_name db.server_idc_name))
    && not (db.read_room_only && not (same_name s.machine_room_name db.server_machine_room_name))

abbrev pub with_rights : Db → Service → Service
with_rights db s = record (s) { can_read = readable db s }

-- One service, read and filtered; `none` where the reader fails.
unfoldable pub read_service : Db → ℕ → ServiceConf → Option Service
read_service db id c = do
  service_name ← c.service_name
  addr ← c.addr
  port ← c.port
  partition ← c.partition
  can_read ← c.can_read
  can_write ← c.can_write
  machine_room_name ← when db.read_room_only c.machine_room
  idc_name ← when db.read_idc_only c.idc
  some (
      with_rights db (record {
        id = id;
        service_name = service_name;
        addr = addr;
        port = port;
        partition = partition;
        can_read = can_read;
        can_write = can_write;
        idc_name = idc_name;
        machine_room_name = machine_room_name;
      }))

-- `service[service_num++] = service` of the service's partition; `none` is a write behind the array.
unfoldable pub add_service : Bool → Service → (ℕ → List Service) → Option (ℕ → List Service)
add_service false s m = some m
add_service true s m =
    if ltb (length (m s.partition)) max_copy_num
    then some (λ p. if s.partition == p then m p ++ (s ∷ []) else m p)
    else none

unfoldable pub place_service : Service → Db → Loaded Db
place_service s db = elim (add_service s.can_read s db.partition_service_r) [
  | none ↦ fault
  | some r ↦ elim (add_service s.can_write s db.partition_service_w) [
    | none ↦ fault
    | some w ↦ loaded (record (db) {
      services = db.services ++ (s ∷ []);
      partition_service_r = r;
      partition_service_w = w;
    })
  ]
]

-- A turn of the loop, and the loop.
unfoldable pub load_service : Db → ℕ → ServiceConf → Loaded Db
load_service db id c = elim (read_service db id c) [
  | none ↦ failed
  | some s ↦ if leb db.partition_num s.partition then failed else place_service s db
]

unfoldable pub load_services : Db → ℕ → List ServiceConf → Loaded Db
load_services db id [] = loaded db
load_services db id (c ∷ cs) = elim (load_service db id c) [
  | failed ↦ failed
  | fault ↦ fault
  | loaded d ↦ load_services d (id + 1) cs
]

-- The loop over the users.
pub record UserConf : Type 0 where
  pub uname : Option (List ℕ)
  pub tk : Option (List ℕ)
  pub power : Option ℤ

unfoldable pub load_users : List UserConf → Option (List UserInfo)
load_users [] = some []
load_users (c ∷ cs) = do
  uname ← c.uname
  tk ← c.tk
  power ← c.power
  rest ← load_users cs
  some (record { uname = uname; tk = tk; power = power } ∷ rest)

-- `timeout_sec` and `timeout_usec` from the milliseconds of the configuration.
pub timeout_parts : ℕ → ℕ × ℕ
timeout_parts timeout = (timeout / 1000, (timeout % 1000) * 1000)
