-- ===== src/Pool/Server/Invariant.antt =====
-- What one server of pool.cpp keeps: its two lists of connections share no node, its counts are
-- their lengths, and its waiting queue is a list.
use mathlib.Core.Bool.{false≢true}
use redis_agent.Base.{
  ℕ, ◌≡◌, refl, sym, ◌∙◌, ap, inl, inr, List, [], ◌∷◌, ◌++◌, none, some, true, false, arith, length,
  length-append, Bool-cases, ◌==◌,
}
use redis_agent.Base.Int.{one_less, one_more, short_less, short_more, ℤ, pos, ◌+ℤ◌, ◌-ℤ◌}
use redis_agent.Pool.Links.{Nodes, Queue, blank}
use redis_agent.Pool.Links.Segment.{has, IsQueue, Linked-frame, has-append}
use redis_agent.Pool.Links.Laws.{SameOutside, get-nil, get-cons, put-append}
use redis_agent.Pool.Waiting.{Waiting}
use redis_agent.Pool.Waiting.Laws.{IsWaiting}
use redis_agent.Pool.Server.{Server, free_get, unconnect_get, free_put, unconnect_put}

-- `xs` are the free connections, `ys` those without a handle, `ws` the nodes of the waiting requests.
-- The count of the free connections is `k` short: see `on_connect_destroyed-drift`.
pub record Holds (k : ℕ) (m : Nodes) (f u : Queue) (w : Waiting) (xs ys ws : List ℕ) : Type 0 where
  pub free : IsQueue m f xs
  pub unconnect : IsQueue m u ys
  pub waiting : IsWaiting w ws
  pub apart : (c : ℕ) → has c xs ≡ true → has c ys ≡ false
  pub alone : (c : ℕ) → has c xs ≡ false → has c ys ≡ false → m c ≡ blank
  pub free_count : f.count +ℤ pos k ≡ pos (length xs)
  pub unconnect_count : u.count ≡ pos (length ys)
  pub waiting_count : w.queue.count ≡ pos (length ws)

abbrev pub IsServer : ℕ → Server → List ℕ → List ℕ → List ℕ → Type 0
IsServer k s xs ys ws = Holds k s.nodes s.free s.unconnect s.waiting xs ys ws

pub frame :
    (m w : Nodes) (q : Queue) (xs : List ℕ)
    → IsQueue m q xs
    → ((c : ℕ) → has c xs ≡ true → w c ≡ m c)
    → IsQueue w q xs
frame m w q xs is same = record {
  head = is.head;
  links = Linked-frame m w none xs q.tail is.links same;
  distinct = is.distinct;
}

pub flip_apart :
    (xs ys : List ℕ)
    → ((c : ℕ) → has c xs ≡ true → has c ys ≡ false)
    → (c : ℕ) → has c ys ≡ true
    → has c xs ≡ false
flip_apart xs ys apart c i = elim (Bool-cases (has c xs)) [
  | inl e ↦ absurd (false≢true (sym (apart c e) ∙ i))
  | inr e ↦ e
]

-- A node of `ys` is not the node `x`, which is outside.
outside :
    (x : ℕ) (xs ys : List ℕ)
    → has x ys ≡ false
    → ((c : ℕ) → has c ys ≡ true → has c xs ≡ false)
    → (c : ℕ) → has c ys ≡ true
    → has c (x ∷ xs) ≡ false
outside x xs ys out apart c i = elim (Bool-cases (x == c)) [
  | inl e ↦
      let at : x ≡ c = ground arith in absurd (false≢true (sym out ∙ ap (λ z. has z ys) at ∙ i))
  | inr e ↦ ground (arith, apart c i)
]

-- A node that is in no list is blank, after a removal of `x` and after an addition.
cut_off :
    {c : ℕ} (x : ℕ) (xs : List ℕ) (m w : Nodes)
    → w x ≡ blank
    → SameOutside (x ∷ xs) m w
    → (has c (x ∷ xs) ≡ false → m c ≡ blank)
    → has c xs ≡ false
    → w c ≡ blank
cut_off {c} x xs m w alone frame old out = elim (Bool-cases (x == c)) [
  | inl e ↦ let at : x ≡ c = ground arith in rw (← at) alone
  | inr e ↦ let both : has c (x ∷ xs) ≡ false = ground arith in frame c both ∙ old both
]

appended :
    (c x : ℕ) (xs : List ℕ) (m w : Nodes)
    → SameOutside (x ∷ xs) m w
    → (has c xs ≡ false → m c ≡ blank)
    → has c (xs ++ x ∷ []) ≡ false
    → w c ≡ blank
appended c x xs m w frame old out =
    let both : has c (x ∷ xs) ≡ false = ground (arith, has-append c xs (x ∷ [])) in
    frame c both ∙ old (ground arith)

module _ (k : ℕ) (s : Server) (x : ℕ) (xs ys ws : List ℕ) where
  pub free_get-cons :
      IsServer k s (x ∷ xs) ys ws → ((free_get s).0 ≡ some x) × IsServer k (free_get s).1 xs ys ws
  unfolding free_get
  free_get-cons is =
      let taken = get-cons s.nodes s.free x xs is.free in
      let back = flip_apart (x ∷ xs) ys is.apart in
      (
        taken.found,
        record {
          free = taken.rest;
          unconnect = frame s.nodes _ s.unconnect ys is.unconnect (λ c i. taken.frame c (back c i));
          waiting = is.waiting;
          apart = λ c i. is.apart c (ground arith);
          alone = λ c i o. cut_off x xs s.nodes _ taken.alone taken.frame (λ e. is.alone c e o) i;
          free_count =
              ap (λ n. n +ℤ pos k) taken.count
              ∙ short_less s.free.count k (length xs) is.free_count;
          unconnect_count = is.unconnect_count;
          waiting_count = is.waiting_count;
        },
      )

  pub unconnect_get-cons :
      IsServer k s ys (x ∷ xs) ws
      → ((unconnect_get s).0 ≡ some x) × IsServer k (unconnect_get s).1 ys xs ws
  unfolding unconnect_get
  unconnect_get-cons is =
      let taken = get-cons s.nodes s.unconnect x xs is.unconnect in
      (
        taken.found,
        record {
          free = frame s.nodes _ s.free ys is.free (λ c i. taken.frame c (is.apart c i));
          unconnect = taken.rest;
          waiting = is.waiting;
          apart = λ c i. let out = is.apart c i in ground arith;
          alone = λ c o i. cut_off x xs s.nodes _ taken.alone taken.frame (λ e. is.alone c o e) i;
          free_count = is.free_count;
          unconnect_count =
              taken.count ∙ ap (λ n. n -ℤ pos 1) is.unconnect_count ∙ one_less (length xs);
          waiting_count = is.waiting_count;
        },
      )

  grown : (q n : ℤ) → n ≡ q +ℤ pos 1 → q ≡ pos (length xs) → n ≡ pos (length (xs ++ x ∷ []))
  grown q n e f =
      e ∙ ap (λ k. k +ℤ pos 1) f ∙ one_more (length xs) ∙ ap pos (sym (length-append xs (x ∷ [])))

  pub free_put-append :
      IsServer k s xs ys ws
      → has x xs ≡ false
      → has x ys ≡ false
      → IsServer k (free_put x s) (xs ++ x ∷ []) ys ws
  unfolding free_put
  free_put-append is out out' =
      let put = put-append s.nodes s.free xs x is.free out in
      let back = outside x xs ys out' (flip_apart xs ys is.apart) in
      record {
        free = put.whole;
        unconnect = frame s.nodes _ s.unconnect ys is.unconnect (λ c i. put.frame c (back c i));
        waiting = is.waiting;
        apart =
            flip_apart ys (xs ++ x ∷ [])
              (λ c i. rw (has-append c xs (x ∷ [])) (let o = back c i in ground arith));
        alone = λ c i o. appended c x xs s.nodes _ put.frame (λ e. is.alone c e o) i;
        free_count =
            ap (λ n. n +ℤ pos k) put.count
            ∙ short_more s.free.count k (length xs) is.free_count
            ∙ ap pos (sym (length-append xs (x ∷ [])));
        unconnect_count = is.unconnect_count;
        waiting_count = is.waiting_count;
      }

  pub unconnect_put-append :
      IsServer k s ys xs ws
      → has x ys ≡ false
      → has x xs ≡ false
      → IsServer k (unconnect_put x s) ys (xs ++ x ∷ []) ws
  unfolding unconnect_put
  unconnect_put-append is out' out =
      let put = put-append s.nodes s.unconnect xs x is.unconnect out in
      let back = outside x xs ys out' is.apart in
      record {
        free = frame s.nodes _ s.free ys is.free (λ c i. put.frame c (back c i));
        unconnect = put.whole;
        waiting = is.waiting;
        apart = λ c i. rw (has-append c xs (x ∷ [])) (let o = back c i in ground arith);
        alone = λ c o i. appended c x xs s.nodes _ put.frame (λ e. is.alone c o e) i;
        free_count = is.free_count;
        unconnect_count = grown s.unconnect.count _ put.count is.unconnect_count;
        waiting_count = is.waiting_count;
      }

pub unconnect_get-nil :
    (k : ℕ) (s : Server) (xs ws : List ℕ) → IsServer k s xs [] ws → unconnect_get s ≡ (none, s)
unfolding unconnect_get
unconnect_get-nil k s xs ws is = rw (get-nil s.nodes s.unconnect is.unconnect) refl

pub free_get-nil :
    (k : ℕ) (s : Server) (ys ws : List ℕ) → IsServer k s [] ys ws → free_get s ≡ (none, s)
unfolding free_get
free_get-nil k s ys ws is = rw (get-nil s.nodes s.free is.free) refl

pub free_get-keeps :
    (s : Server)
    → ((free_get s).1.log ≡ s.log)
      × ((free_get s).1.server_count ≡ s.server_count)
      × ((free_get s).1.connect_count ≡ s.connect_count)
unfolding free_get
free_get-keeps s = (refl, refl, refl)

pub unconnect_get-keeps :
    (s : Server)
    → ((unconnect_get s).1.log ≡ s.log) × ((unconnect_get s).1.connect_count ≡ s.connect_count)
unfolding unconnect_get
unconnect_get-keeps s = (refl, refl)

pub free_put-keeps :
    (c : ℕ) (s : Server)
    → ((free_put c s).log ≡ s.log) × ((free_put c s).destroy_flag ≡ s.destroy_flag)
unfolding free_put
free_put-keeps c s = (refl, refl)
