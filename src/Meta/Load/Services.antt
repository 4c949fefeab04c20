-- ===== src/Meta/Load/Services.antt =====
-- What the loop over the services of meta.cpp leaves in the tables of the partitions.
pub mod From
use redis_agent.Meta.Load.Services.From.{IsFrom, AllFrom, none-some, read_service-IsFrom}
use mathlib.Core.Option.{some_inj}
use mathlib.Core.Path.{subst}
use Prim.Native.Nat.{suc}
use redis_agent.Base.{
  not, ℕ, ◌+◌, ◌*◌, ◌<◌, ◌≡◌, ◌≢◌, refl, ap, sym, ◌∙◌, Bool, true, false, ◌&&◌, Option, none, some,
  List, [], ◌∷◌, ◌++◌, All, All-append, arith, ltb, leb, ◌==◌, if◌then◌else◌, length, append_nil,
  append_assoc, Bool-cases, inl, inr,
}
use redis_agent.Meta.Load.{
  same_name, when, with_rights, ◌>>=◌, Service, ServiceConf, Db, Loaded, failed, fault, loaded,
  max_copy_num, read_service, add_service, place_service, load_service, load_services,
  timeout_parts,
}

-- The services of a partition, by the right to read or to write.
abbrev pub select : (Service → Bool) → ℕ → List Service → List Service
select f p [] = []
select f p (s ∷ ss) = if f s && (s.partition == p) then s ∷ select f p ss else select f p ss

-- `new` are the services that were added, each in the tables of its partition.
pub record IsLoaded (db d : Db) (new : List Service) : Type 0 where
  pub services : d.services ≡ db.services ++ new
  pub reads :
      (p : ℕ) → d.partition_service_r p ≡ db.partition_service_r p ++ select (λ s. s.can_read) p new
  pub writes :
      (p : ℕ)
      → d.partition_service_w p ≡ db.partition_service_w p ++ select (λ s. s.can_write) p new
  pub inside : All (λ s. s.partition < db.partition_num) new
  pub same_num : d.partition_num ≡ db.partition_num
  pub same_idc : (d.read_idc_only ≡ db.read_idc_only) × (d.server_idc_name ≡ db.server_idc_name)
  pub same_room :
      (d.read_room_only ≡ db.read_room_only)
      × (d.server_machine_room_name ≡ db.server_machine_room_name)

add_service_lem :
    (f : Bool) (s : Service) (m n : ℕ → List Service) (p : ℕ)
    → add_service f s m ≡ some n
    → n p ≡ m p ++ (if f && (s.partition == p) then s ∷ [] else [])
unfolding add_service
add_service_lem false s m n p e =
    let same = some_inj.0 e in ap (λ g. g p) (sym same) ∙ sym (append_nil (m p))
add_service_lem true s m n p e = elim (Bool-cases (ltb (length (m s.partition)) max_copy_num)) [
  | inl b ↦
      (let added : add_service true s m
            ≡ some (λ p. if s.partition == p then m p ++ (s ∷ []) else m p) =
          rw b refl in
        let same = some_inj.0 (sym added ∙ e) in
        ap (λ g. g p) (sym same) ∙ elim (Bool-cases (s.partition == p)) [
          | inl q ↦ rw q refl
          | inr q ↦ rw q (sym (append_nil (m p)))
        ])
  | inr b ↦
      (let full : add_service true s m ≡ none = rw b refl in absurd (none-some (sym full ∙ e)))
]

abbrev db_of : Db → Loaded Db → Db
db_of db (loaded d) = d
db_of db failed = db
db_of db fault = db

place_service-IsLoaded :
    (s : Service) (db d : Db)
    → place_service s db ≡ loaded d
    → s.partition < db.partition_num
    → IsLoaded db d (s ∷ [])
unfolding place_service
place_service-IsLoaded s db d e h =
    go (add_service s.can_read s db.partition_service_r)
      (add_service s.can_write s db.partition_service_w) refl refl e
  where
    go :
        (r w : Option (ℕ → List Service))
        → add_service s.can_read s db.partition_service_r ≡ r
        → add_service s.can_write s db.partition_service_w ≡ w
        → (elim r [
          | none ↦ fault
          | some r ↦ elim w [
            | none ↦ fault
            | some w ↦ loaded (record (db) {
              services = db.services ++ (s ∷ []);
              partition_service_r = r;
              partition_service_w = w;
            })
          ]
        ])
          ≡ loaded d
        → IsLoaded db d (s ∷ [])
    go none w er ew e = absurd (ground arith)
    go (some r) none er ew e = absurd (ground arith)
    go (some r) (some w) er ew e =
        subst (λ d. IsLoaded db d (s ∷ [])) (ap (db_of db) e)
          (record {
            services = refl;
            reads = λ p. add_service_lem s.can_read s db.partition_service_r r p er;
            writes = λ p. add_service_lem s.can_write s db.partition_service_w w p ew;
            inside = (h, tt);
            same_num = refl;
            same_idc = (refl, refl);
            same_room = (refl, refl);
          })

select-append :
    (f : Service → Bool) (p : ℕ) (xs ys : List Service)
    → select f p (xs ++ ys) ≡ select f p xs ++ select f p ys
select-append f p [] ys = refl
select-append f p (x ∷ xs) ys = elim (Bool-cases (f x && (x.partition == p))) [
  | inl e ↦ rw (e, select-append f p xs ys) refl
  | inr e ↦ rw (e, select-append f p xs ys) refl
]

IsLoaded-trans :
    (a b c : Db) (xs ys : List Service)
    → IsLoaded a b xs
    → IsLoaded b c ys
    → IsLoaded a c (xs ++ ys)
IsLoaded-trans a b c xs ys f g = record {
  services = g.services ∙ rw (f.services) (append_assoc a.services xs ys);
  reads = λ p.
      g.reads p
      ∙ rw (f.reads p, select-append (λ s. s.can_read) p xs ys)
          (append_assoc (a.partition_service_r p) (select (λ s. s.can_read) p xs)
            (select (λ s. s.can_read) p ys));
  writes = λ p.
      g.writes p
      ∙ rw (f.writes p, select-append (λ s. s.can_write) p xs ys)
          (append_assoc (a.partition_service_w p) (select (λ s. s.can_write) p xs)
            (select (λ s. s.can_write) p ys));
  inside =
      All-append (λ s. s.partition < a.partition_num) xs ys f.inside
        (subst (λ n. All (λ s. s.partition < n) ys) f.same_num g.inside);
  same_num = g.same_num ∙ f.same_num;
  same_idc = (g.same_idc.0 ∙ f.same_idc.0, g.same_idc.1 ∙ f.same_idc.1);
  same_room = (g.same_room.0 ∙ f.same_room.0, g.same_room.1 ∙ f.same_room.1);
}

load_service-IsLoaded :
    (db d : Db) (id : ℕ) (c : ServiceConf)
    → load_service db id c ≡ loaded d
    → (s : Service) × IsFrom db id c s × IsLoaded db d (s ∷ [])
unfolding load_service
load_service-IsLoaded db d id c e = go (read_service db id c) refl e
  where
    go :
        (o : Option Service)
        → read_service db id c ≡ o
        → (elim o [
          | none ↦ failed
          | some s ↦ if leb db.partition_num s.partition then failed else place_service s db
        ])
          ≡ loaded d
        → (s : Service) × IsFrom db id c s × IsLoaded db d (s ∷ [])
    go none at e = absurd (ground arith)
    go (some s) at e = elim (Bool-cases (leb db.partition_num s.partition)) [
      | inl b ↦ (let no : Loaded.failed ≡ loaded d = rw b at e in absurd (ground arith))
      | inr b ↦ (
        s,
        read_service-IsFrom db id c s at,
        place_service-IsLoaded s db d (rw b at e) (ground arith),
      )
    ]

-- The filters of a `Db` that one service was added to are the same.
AllFrom-same :
    (db d : Db) (new : List Service) (id : ℕ) (cs : List ServiceConf) (ss : List Service)
    → IsLoaded db d new
    → AllFrom d id cs ss
    → AllFrom db id cs ss
AllFrom-same db d new id [] [] l a = tt
AllFrom-same db d new id [] (s ∷ ss) l a = a
AllFrom-same db d new id (c ∷ cs) [] l a = a
AllFrom-same db d new id (c ∷ cs) (s ∷ ss) l a =
    let f = a.0 in
    (
      record {
        id_ = f.id_;
        service_name = f.service_name;
        addr = f.addr;
        port = f.port;
        partition = f.partition;
        can_write = f.can_write;
        right = f.right;
        can_read = f.can_read;
        filtered =
            rw (sym (l.same_idc.0), sym (l.same_idc.1), sym (l.same_room.0), sym (l.same_room.1))
              (f.filtered);
      },
      AllFrom-same db d new (id + 1) cs ss l a.1,
    )

abbrev pub Configured : Db → Db → ℕ → List ServiceConf → Type 0
Configured db d id cs = (new : List Service) × AllFrom db id cs new × IsLoaded db d new

-- When the loop ends well, there is one service for each of the configuration, with its position,
-- texts, port and rights, where a filter for the building or the room of the server may have taken
-- the right to read; and every partition has got exactly those of them that name it and that may be
-- read, or written, in the order of the configuration, and each names a partition that there is.
pub load_services-IsLoaded :
    (db d : Db) (id : ℕ) (cs : List ServiceConf)
    → load_services db id cs ≡ loaded d
    → Configured db d id cs
unfolding load_services
load_services-IsLoaded db d id [] e =
    subst (λ d. Configured db d id []) (ap (db_of db) e)
      (
        [],
        tt,
        record {
          services = sym (append_nil db.services);
          reads = λ p. sym (append_nil (db.partition_service_r p));
          writes = λ p. sym (append_nil (db.partition_service_w p));
          inside = tt;
          same_num = refl;
          same_idc = (refl, refl);
          same_room = (refl, refl);
        },
      )
load_services-IsLoaded db d id (c ∷ cs) e =
    go (load_service db id c) refl e (λ d' e'. load_services-IsLoaded d' d (id + 1) cs e')
  where
    go :
        (r : Loaded Db)
        → load_service db id c ≡ r
        → (elim r as (λ _. Loaded Db) [
          | failed ↦ failed
          | fault ↦ fault
          | loaded d' ↦ load_services d' (id + 1) cs
        ])
          ≡ loaded d
        → ((d' : Db) → load_services d' (id + 1) cs ≡ loaded d → Configured d' d (id + 1) cs)
        → Configured db d id (c ∷ cs)
    go failed at e later = absurd (ground arith)
    go fault at e later = absurd (ground arith)
    go (loaded d') at e later =
        let (s, from, one) = load_service-IsLoaded db d' id c at in
        let (new, all, rest) = later d' e in
        (
          s ∷ new,
          (from, AllFrom-same db d' (s ∷ []) (id + 1) cs new one all),
          IsLoaded-trans db d' d (s ∷ []) new one rest,
        )

-- The timeout is split without loss into seconds and microseconds, of which there are less than a second.
pub timeout_parts_lem :
    (timeout : ℕ)
    → let r = timeout_parts timeout in (r.0 * 1000000 + r.1 ≡ timeout * 1000) × (r.1 < 1000000)
unfolding timeout_parts
timeout_parts_lem timeout = (omega arith, omega arith)
