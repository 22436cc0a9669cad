-- ===== src/Overlay/Memo.antt =====
-- The memo tables of gossip_target and gossip_predecessor never change an answer.
use adq.Common.{ℕ, ◌≡◌, refl, inl, inr, arith, List, [], ◌∷◌, Option-cases, some, map}
use adq.Overlay.Defs.{
  gossip_target, gossip_predecessor, Memo, MemoKey, memo_find, gossip_target_memo,
  gossip_predecessor_memo,
}

-- Every entry of a table holds the value of `f` at its key.
abbrev pub IsCached : (ℕ → ℕ → ℕ → ℕ) → Memo → Type 0
IsCached f [] = Unit {0}
IsCached f ((k, v) ∷ m) = (v ≡ f k.node k.time k.size) × IsCached f m

find-cached :
    (f : ℕ → ℕ → ℕ → ℕ) (k : MemoKey) (m : Memo) (v : ℕ)
    → IsCached f m
    → memo_find k m ≡ some v
    → v ≡ f k.node k.time k.size
unfolding memo_find
find-cached f k [] v c e = cc
find-cached f k ((j, w) ∷ m) v c e = ground (arith, find-cached f k m v c.1)

-- A call of gossip_target: source, round and group size.
pub record GossipCall : Type 0 where
  pub node : ℕ
  pub round : ℕ
  pub size : ℕ

module _ (call : Memo → ℕ → ℕ → ℕ → ℕ × Memo) where
  -- The values of a history of calls, which share one table.
  pub answers : Memo → List GossipCall → List ℕ
  answers m [] = []
  answers m (c ∷ cs) = let (v, m') = call m c.node c.round c.size in v ∷ answers m' cs

module _ (f : ℕ → ℕ → ℕ → ℕ) (call : Memo → ℕ → ℕ → ℕ → ℕ × Memo)
    (keeps : (m : Memo) (i t n : ℕ)
      → IsCached f m
      → ((call m i t n).0 ≡ f i t n) × IsCached f (call m i t n).1) where
  answers-map :
      (m : Memo) (cs : List GossipCall)
      → IsCached f m
      → answers call m cs ≡ map (λ c. f c.node c.round c.size) cs
  unfolding answers
  answers-map m [] c = refl
  answers-map m (d ∷ cs) c =
      let kept = keeps m d.node d.round d.size c in
      rw (kept.0, answers-map (call m d.node d.round d.size).1 cs kept.1)

target_memo-IsCached :
    (m : Memo) (i t n : ℕ)
    → IsCached gossip_target m
    → ((gossip_target_memo m i t n).0 ≡ gossip_target i t n)
      × IsCached gossip_target (gossip_target_memo m i t n).1
unfolding gossip_target_memo
target_memo-IsCached m i t n c =
    let key : MemoKey = record { size = n; time = t; node = i } in
    elim (Option-cases (memo_find key m)) [
      | inl miss ↦ rw (miss, gossip_target_memo) (refl, (refl, c))
      | inr (v, hit) ↦ rw (hit, gossip_target_memo) (find-cached gossip_target key m v c hit, c)
    ]

-- However many calls share a memo table that starts empty, gossip_target returns what its formula
-- gives.
pub gossip_target_memo-transparent :
    (cs : List GossipCall)
    → answers gossip_target_memo [] cs ≡ map (λ c. gossip_target c.node c.round c.size) cs
gossip_target_memo-transparent cs =
    answers-map gossip_target gossip_target_memo target_memo-IsCached [] cs tt

predecessor_memo-IsCached :
    (m : Memo) (i t n : ℕ)
    → IsCached gossip_predecessor m
    → ((gossip_predecessor_memo m i t n).0 ≡ gossip_predecessor i t n)
      × IsCached gossip_predecessor (gossip_predecessor_memo m i t n).1
unfolding gossip_predecessor_memo
predecessor_memo-IsCached m i t n c =
    let key : MemoKey = record { size = n; time = t; node = i } in
    elim (Option-cases (memo_find key m)) [
      | inl miss ↦ rw (miss, gossip_predecessor_memo) (refl, (refl, c))
      | inr (v, hit) ↦
          rw (hit, gossip_predecessor_memo) (find-cached gossip_predecessor key m v c hit, c)
    ]

-- However many calls share a memo table that starts empty, gossip_predecessor returns what its
-- formula gives.
pub gossip_predecessor_memo-transparent :
    (cs : List GossipCall)
    → answers gossip_predecessor_memo [] cs ≡ map (λ c. gossip_predecessor c.node c.round c.size) cs
gossip_predecessor_memo-transparent cs =
    answers-map gossip_predecessor gossip_predecessor_memo predecessor_memo-IsCached [] cs tt
