-- ===== src/Pool/Server/Drop.antt =====
-- `_pool_connect_queue_rm` on a server of pool.cpp: of a free connection, and of one that is in no list.
use redis_agent.Base.{
  ℕ, suc, ◌≡◌, ap, ◌∙◌, inl, inr, true, false, List, ◌∷◌, ◌++◌, none, arith, ◌==◌, Bool-cases,
  length, length-append,
}
use redis_agent.Base.Int.{pos, ◌+ℤ◌, short_less, shorter}
use redis_agent.Pool.Links.Segment.{has, has-append, Linked-frame}
use redis_agent.Pool.Links.Remove.{rm-remove, rm_self, rm-blank}
use redis_agent.Pool.Server.{Server, free_rm}
use redis_agent.Pool.Server.Invariant.{IsServer, frame, flip_apart}

has_more : (d c : ℕ) (xs ys : List ℕ) → has d (xs ++ ys) ≡ true → has d (xs ++ c ∷ ys) ≡ true
has_more d c xs ys h = ground (arith, has-append d xs ys, has-append d xs (c ∷ ys))

has_less :
    (d c : ℕ) (xs ys : List ℕ)
    → has d (xs ++ ys) ≡ false
    → (c == d) ≡ false
    → has d (xs ++ c ∷ ys) ≡ false
has_less d c xs ys h e = ground (arith, has-append d xs ys, has-append d xs (c ∷ ys))

length_more : (c : ℕ) (xs ys : List ℕ) → length (xs ++ c ∷ ys) ≡ suc (length (xs ++ ys))
length_more c xs ys = omega (arith, length-append xs (c ∷ ys), length-append xs ys)

pub free_rm-remove :
    (k : ℕ) (s : Server) (c : ℕ) (xs ys us ws : List ℕ)
    → IsServer k s (xs ++ c ∷ ys) us ws
    → IsServer k (free_rm c s) (xs ++ ys) us ws
unfolding free_rm
free_rm-remove k s c xs ys us ws is =
    let gone = rm-remove s.nodes s.free xs c ys is.free in
    let back = flip_apart (xs ++ c ∷ ys) us is.apart in
    record {
      free = gone.rest;
      unconnect = frame s.nodes _ s.unconnect us is.unconnect (λ d i. gone.frame d (back d i));
      waiting = is.waiting;
      apart = λ d i. is.apart d (has_more d c xs ys i);
      alone = λ d i o. elim (Bool-cases (c == d)) [
        | inl e ↦ let at : c ≡ d = ground arith in rw (← at) (rm_self s.nodes s.free c)
        | inr e ↦ let out = has_less d c xs ys i e in gone.frame d out ∙ is.alone d out o
      ];
      free_count =
          ap (λ n. n +ℤ pos k) gone.count
          ∙ short_less s.free.count k (length (xs ++ ys))
              (is.free_count ∙ ap pos (length_more c xs ys));
      unconnect_count = is.unconnect_count;
      waiting_count = is.waiting_count;
    }

-- The count of the free connections is then one short more.
pub free_rm-drift :
    (k : ℕ) (s : Server) (c : ℕ) (xs us ws : List ℕ)
    → IsServer k s xs us ws
    → has c xs ≡ false
    → has c us ≡ false
    → IsServer (suc k) (free_rm c s) xs us ws
unfolding free_rm
free_rm-drift k s c xs us ws is out out' =
    let (q, same) = rm-blank s.nodes s.free xs c is.free (is.alone c out out') out in
    record {
      free = rw q (record {
        head = is.free.head;
        links = Linked-frame s.nodes _ none xs s.free.tail is.free.links (λ d i. same d);
        distinct = is.free.distinct;
      });
      unconnect = frame s.nodes _ s.unconnect us is.unconnect (λ d i. same d);
      waiting = is.waiting;
      apart = is.apart;
      alone = λ d i o. same d ∙ is.alone d i o;
      free_count =
          ap (λ r. r.count +ℤ pos (suc k)) q ∙ shorter s.free.count k (length xs) is.free_count;
      unconnect_count = is.unconnect_count;
      waiting_count = is.waiting_count;
    }
