-- ===== src/Server/Callbacks.antt =====
-- The registered query callbacks and the batch of pending queries (register_query_callback,
-- deregister_query_callback and pending_batch_queries in core/detail/QueryServer_impl.hpp).
use adq.Common.{
  ℕ, ℤ, pos, negsuc, ◌+◌, ◌-◌, ◌<◌, List, [], ◌∷◌, ◌++◌, Bool, true, false, ltb_ℤ, if◌then◌else◌,
  ◌==◌, length, length-append, ◌≡◌, refl, subst, inl, inr, arith, Bool-cases,
}
use mathlib.Core.List.{Permᴰ}
use mathlib.Core.List.Permᴰ
use adq.Messages.{QueryRequest}
use adq.Server.{
  Server, start_queries, start_next, start_query, pop_top, erase_callback, next_callback_id,
  register_query_callback, deregister_query_callback,
}

-- A std::map's entries: their keys ascend.
pub data Ascending {K : Type 0} : List (ℕ × K) → Type 0 where
  none_left : Ascending []
  one_left : {i : ℕ} {k : K} → Ascending ((i, k) ∷ [])
  more_left :
      {i j : ℕ} {k l : K} {m : List (ℕ × K)}
      → i < j
      → Ascending ((j, l) ∷ m)
      → Ascending ((i, k) ∷ (j, l) ∷ m)

module _ {K : Type 0} where
  -- The ID after a map's last is above its first.
  first_below :
      {i : ℕ} {k : K} {m : List (ℕ × K)}
      → Ascending ((i, k) ∷ m)
      → i < next_callback_id ((i, k) ∷ m)
  first_below one_left = omega arith
  first_below (more_left h a) = omega (arith, h, first_below a)

  erase-append :
      (m : List (ℕ × K)) (k : K)
      → Ascending m
      → erase_callback (next_callback_id m) (m ++ (next_callback_id m, k) ∷ []) ≡ m
  unfolding erase_callback
  erase-append [] k none_left = refl
  erase-append ((i, l) ∷ []) k a = ground (arith, first_below a)
  erase-append ((i, l) ∷ (j, l') ∷ m) k (more_left h a) =
      ground (arith, h, first_below a, erase-append ((j, l') ∷ m) k a)

  -- For callbacks with ascending IDs, as a std::map has them: removing the one that was registered
  -- last succeeds, and the server is as it was before.
  pub deregister-register :
      {R : Type 0} (s : Server R K) (callback : K)
      → Ascending s.query_callbacks
      → deregister_query_callback
          (register_query_callback callback s).0
          (register_query_callback callback s).1
        ≡ (true, s)
  unfolding deregister_query_callback register_query_callback
  deregister-register s callback a =
      let erased = erase-append s.query_callbacks callback a in
      let added =
        length-append s.query_callbacks ((next_callback_id s.query_callbacks, callback) ∷ []) in
      let one : (length s.query_callbacks + 1 - length s.query_callbacks == 1) ≡ true =
        ground arith in
      rw (erased, added, one) refl

not_below_trans : (top x y : ℤ) → ltb_ℤ x top ≡ false → ltb_ℤ y x ≡ false → ltb_ℤ y top ≡ false
not_below_trans (pos a) (pos b) (pos c) h k = ground arith
not_below_trans (pos a) (pos b) (negsuc c) h k = cc
not_below_trans (pos a) (negsuc b) y h k = cc
not_below_trans (negsuc a) x (pos c) h k = refl
not_below_trans (negsuc a) (pos b) (negsuc c) h k = cc
not_below_trans (negsuc a) (negsuc b) (negsuc c) h k = ground arith

-- Of two queries, the one that stays behind is not below the other.
not_below : (a b : ℤ) → ltb_ℤ (if ltb_ℤ a b then b else a) (if ltb_ℤ a b then a else b) ≡ false
not_below (pos a) (pos b) = ground arith
not_below (pos a) (negsuc b) = refl
not_below (negsuc a) (pos b) = refl
not_below (negsuc a) (negsuc b) = ground arith

-- The query numbers of a list are not below one number.
abbrev pub AllFrom : ℤ → List QueryRequest → Type 0
AllFrom number [] = Unit {0}
AllFrom number (q ∷ qs) = (ltb_ℤ q.query_number number ≡ false) × AllFrom number qs

not_below_refl : (a : ℤ) → ltb_ℤ a a ≡ false
not_below_refl (pos a) = ground arith
not_below_refl (negsuc a) = ground arith

-- The one of two queries that goes on, and the rest, bound both.
both-AllFrom :
    (lower : Bool) (q p : QueryRequest) (rest : List QueryRequest) (top : ℤ)
    → ltb_ℤ p.query_number q.query_number ≡ lower
    → AllFrom top ((if lower then p else q) ∷ rest)
    → AllFrom top (q ∷ (if lower then q else p) ∷ rest)
both-AllFrom true q p rest top e (p_from, all) =
    let behind =
      subst
        (λ b.
          ltb_ℤ (if b then q.query_number else p.query_number)
            (if b then p.query_number else q.query_number)
          ≡ false)
        e (not_below p.query_number q.query_number) in
    let q_from = not_below_trans top p.query_number q.query_number p_from behind in
    (q_from, (q_from, all))
both-AllFrom false q p rest top e (q_from, all) =
    (q_from, (not_below_trans top q.query_number p.query_number q_from e, all))

pop_top-AllFrom :
    (q : QueryRequest) (qs : List QueryRequest)
    → AllFrom (pop_top q qs).0.query_number (q ∷ (pop_top q qs).1)
unfolding pop_top
pop_top-AllFrom q [] = (not_below_refl q.query_number, tt)
pop_top-AllFrom q (p ∷ ps) =
    let lower = ltb_ℤ p.query_number q.query_number in
    let next = if lower then p else q in
    both-AllFrom lower q p (pop_top next ps).1 (pop_top next ps).0.query_number refl
      (pop_top-AllFrom next ps)

pop_top-Permᴰ :
    (q : QueryRequest) (qs : List QueryRequest)
    → Permᴰ (q ∷ qs) ((pop_top q qs).0 ∷ (pop_top q qs).1)
unfolding pop_top
pop_top-Permᴰ q [] = Permᴰ.refl (q ∷ [])
pop_top-Permᴰ q (p ∷ ps) = elim (Bool-cases (ltb_ℤ p.query_number q.query_number)) [
  | inl lower ↦ rw lower (Permᴰ.trans (Permᴰ.cons refl (pop_top-Permᴰ p ps)) (Permᴰ.swap refl refl))
  | inr higher ↦ rw higher (
      Permᴰ.trans (Permᴰ.swap refl refl)
        (Permᴰ.trans (Permᴰ.cons refl (pop_top-Permᴰ q ps)) (Permᴰ.swap refl refl)))
]

module _ {R K : Type 0} (failures_tolerated : ℕ) where
  start_next_in_order :
      (ps : List QueryRequest) (q : QueryRequest) (qs : List QueryRequest) (s : Server R K)
      → (top : QueryRequest) × ((start_next failures_tolerated (ps ++ q ∷ qs) s).0.query_num
          ≡ top.query_number)
        × Permᴰ
            (ps ++ q ∷ qs)
            (top ∷ (start_next failures_tolerated (ps ++ q ∷ qs) s).0.pending_batch_queries)
        × AllFrom top.query_number
            (start_next failures_tolerated (ps ++ q ∷ qs) s).0.pending_batch_queries
  unfolding start_next start_query
  start_next_in_order [] q qs s =
      ((pop_top q qs).0, refl, pop_top-Permᴰ q qs, (pop_top-AllFrom q qs).1)
  start_next_in_order (p ∷ ps) q qs s = (
    (pop_top p (ps ++ q ∷ qs)).0,
    refl,
    pop_top-Permᴰ p (ps ++ q ∷ qs),
    (pop_top-AllFrom p (ps ++ q ∷ qs)).1,
  )

  -- Starting a batch runs a query of the lowest number among those that were pending before and
  -- those of the batch, and leaves exactly the others pending.
  pub start_queries_in_order :
      (q : QueryRequest) (qs : List QueryRequest) (s : Server R K)
      → (top : QueryRequest) × ((start_queries failures_tolerated (q ∷ qs) s).0.query_num
          ≡ top.query_number)
        × Permᴰ
            (s.pending_batch_queries ++ q ∷ qs)
            (top ∷ (start_queries failures_tolerated (q ∷ qs) s).0.pending_batch_queries)
        × AllFrom top.query_number
            (start_queries failures_tolerated (q ∷ qs) s).0.pending_batch_queries
  unfolding start_queries
  start_queries_in_order q qs s =
      start_next_in_order s.pending_batch_queries q qs
        (record s { pending_batch_queries = s.pending_batch_queries ++ q ∷ qs })
