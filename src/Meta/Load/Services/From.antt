-- ===== src/Meta/Load/Services/From.antt =====
-- What one service of a configuration becomes, by `_meta_load_conf` of meta.cpp.
use mathlib.Core.Option.{some_inj}
use mathlib.Core.Path.{subst}
use redis_agent.Base.{
  not, ℕ, ◌+◌, ◌≡◌, ◌≢◌, refl, Bool, true, false, ◌&&◌, Option, none, some, List, [], ◌∷◌, arith,
}
use redis_agent.Meta.Load.{
  same_name, when, with_rights, ◌>>=◌, Service, ServiceConf, Db, read_service,
}

-- The name of a building or a room that has to be the one of the server, when the flag says so.
abbrev pub passes : Bool → Option (List ℕ) → List ℕ → Bool
passes false name home = true
passes true none home = false
passes true (some name) home = same_name name home

-- The service `s` is what the configuration `c` says at position `id`; it may be read if the
-- configuration allows it and neither filter of the server takes the right away.
pub record IsFrom (db : Db) (id : ℕ) (c : ServiceConf) (s : Service) : Type 0 where
  pub id_ : s.id ≡ id
  pub service_name : c.service_name ≡ some s.service_name
  pub addr : c.addr ≡ some s.addr
  pub port : c.port ≡ some s.port
  pub partition : c.partition ≡ some s.partition
  pub can_write : c.can_write ≡ some s.can_write
  pub right : Bool
  pub can_read : c.can_read ≡ some right
  pub filtered : s.can_read ≡ (
      right
      && passes db.read_idc_only c.idc db.server_idc_name
      && passes db.read_room_only c.machine_room db.server_machine_room_name)

-- One service after the other, from position `id` on.
abbrev pub AllFrom : Db → ℕ → List ServiceConf → List Service → Type 0
AllFrom db id [] [] = Unit
AllFrom db id [] (s ∷ ss) = ⊥
AllFrom db id (c ∷ cs) [] = ⊥
AllFrom db id (c ∷ cs) (s ∷ ss) = IsFrom db id c s × AllFrom db (id + 1) cs ss

pub none-some : {A : Type 0} {a : A} → Option.none ≢ some a
none-some e = ground arith

-- A flag that is not set asks for no name; with one that is, the reader has it.
filter_passes :
    (flag : Bool) (o : Option (List ℕ)) (name home : List ℕ)
    → when flag o ≡ some name
    → not (flag && not (same_name name home)) ≡ passes flag o home
filter_passes false o name home e = refl
filter_passes true none name home e = absurd (ground arith)
filter_passes true (some n) name home e =
    let same : n ≡ name = some_inj.0 e in rw same (not_not (same_name name home))
  where
    not_not : (b : Bool) → not (not b) ≡ b
    not_not true = refl
    not_not false = refl

-- A service from the answers of the reader.
abbrev answered :
    Db
    → ℕ
    → Option (List ℕ)
    → Option (List ℕ)
    → Option ℕ
    → Option ℕ
    → Option Bool
    → Option Bool
    → Option (List ℕ)
    → Option (List ℕ)
    → Option Service
answered db id n a p q r w m i = do
  service_name ← n
  addr ← a
  port ← p
  partition ← q
  can_read ← r
  can_write ← w
  machine_room_name ← m
  idc_name ← i
  some (
      with_rights db (record {
        id = id;
        service_name = service_name;
        addr = addr;
        port = port;
        partition = partition;
        can_read = can_read;
        can_write = can_write;
        idc_name = idc_name;
        machine_room_name = machine_room_name;
      }))

pub read_service-IsFrom :
    (db : Db) (id : ℕ) (c : ServiceConf) (s : Service)
    → read_service db id c ≡ some s
    → IsFrom db id c s
unfolding read_service
read_service-IsFrom db id c s e =
    go c.service_name c.addr c.port c.partition c.can_read c.can_write
      (when db.read_room_only c.machine_room) (when db.read_idc_only c.idc) refl refl refl refl refl
      refl refl refl e
  where
    go :
        (n a : Option (List ℕ)) (p q : Option ℕ) (r w : Option Bool) (m i : Option (List ℕ))
        → c.service_name ≡ n
        → c.addr ≡ a
        → c.port ≡ p
        → c.partition ≡ q
        → c.can_read ≡ r
        → c.can_write ≡ w
        → when db.read_room_only c.machine_room ≡ m
        → when db.read_idc_only c.idc ≡ i
        → answered db id n a p q r w m i ≡ some s
        → IsFrom db id c s
    go none a p q r w m i e1 e2 e3 e4 e5 e6 e7 e8 e = absurd (none-some e)
    go (some n) none p q r w m i e1 e2 e3 e4 e5 e6 e7 e8 e = absurd (none-some e)
    go (some n) (some a) none q r w m i e1 e2 e3 e4 e5 e6 e7 e8 e = absurd (none-some e)
    go (some n) (some a) (some p) none r w m i e1 e2 e3 e4 e5 e6 e7 e8 e = absurd (none-some e)
    go (some n) (some a) (some p) (some q) none w m i e1 e2 e3 e4 e5 e6 e7 e8 e =
        absurd (none-some e)
    go (some n) (some a) (some p) (some q) (some r) none m i e1 e2 e3 e4 e5 e6 e7 e8 e =
        absurd (none-some e)
    go (some n) (some a) (some p) (some q) (some r) (some w) none i e1 e2 e3 e4 e5 e6 e7 e8 e =
        absurd (none-some e)
    go (some n) (some a) (some p) (some q) (some r) (some w) (some m) none e1 e2 e3 e4 e5 e6 e7 e8
          e =
        absurd (none-some e)
    go (some n) (some a) (some p) (some q) (some r) (some w) (some m) (some i) e1 e2 e3 e4 e5 e6 e7
          e8 e =
        let idc = filter_passes db.read_idc_only c.idc i db.server_idc_name e8 in
        let room =
          filter_passes db.read_room_only c.machine_room m db.server_machine_room_name e7 in
        subst (λ s. IsFrom db id c s) (some_inj.0 e)
          (record {
            id_ = refl;
            service_name = e1;
            addr = e2;
            port = e3;
            partition = e4;
            can_write = e6;
            right = r;
            can_read = e5;
            filtered = rw (idc, room) refl;
          })
