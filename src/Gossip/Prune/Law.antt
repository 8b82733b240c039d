-- ===== src/Gossip/Prune/Law.antt =====
-- What `prune` closes.
use mathlib.Core.List.{
  foldr, eq-or-mem_of_mem-cons, not-mem-nil, Mem, Perm, mem-cons_self, mem-cons_of_mem,
}
use mathlib.Core.List.Perm
use mathlib.Core.Logic.Or
use Prim.Native.Nat.{max}
use mathlib.Core.Path.{subst, sym}
use peekd.Base.{
  ◌+◌, length, ◌∙◌, Option-cases, ℕ, suc, ◌-◌, ◌≡◌, refl, some, List, [], ◌∷◌, map, Text,
  Text-discrete, All, arith, Bool-cases, inl, inr,
}
use peekd.Base.Int.{pos_part, neg_part}
use peekd.Base.Maps.{keys, get, put, All-put}
use peekd.Host.{any_direction, peer_set, Conn, Host, total_peer_count, target_peer_count}
use peekd.Gossip.Prune.{
  is_lower, Scores, Snapshots, score_of, is_bad_peer, peer_scores, prune, IsSorted,
}
use peekd.Gossip.Prune.Sorted.{take, bad_count, IsCurrent, IsCurrentPair, prune_loop-start}

module _ {A : Type 0} (P : A → Type 0) where
  mem_of_All : (x : A) (xs : List A) → IsProp (P x) → Mem x xs → All P xs → P x
  mem_of_All x [] p m h = absurd (not-mem-nil m)
  mem_of_All x (y ∷ xs) p m h =
      Or.elim p (eq-or-mem_of_mem-cons m) (λ e. subst P (sym e) h.0)
        (λ later. mem_of_All x xs p later h.1)

  All-of_mem : (xs : List A) → ((x : A) → Mem x xs → P x) → All P xs
  All-of_mem [] h = tt
  All-of_mem (x ∷ xs) h = (h x mem-cons_self, All-of_mem xs (λ y m. h y (mem-cons_of_mem x m)))

module _ {K V W : Type 0} (dec : Discrete K) where
  length_of_keys : (m : List (K × V)) (n : List (K × W)) → keys m ≡ keys n → length m ≡ length n
  length_of_keys [] [] e = refl
  length_of_keys [] (y ∷ n) e = absurd (ground arith)
  length_of_keys (x ∷ m) [] e = absurd (ground arith)
  length_of_keys (x ∷ m) (y ∷ n) e = omega (arith, length_of_keys m n (ground arith))

  keys-put :
      (k : K) (v : V) (w : W) (m : List (K × V)) (n : List (K × W))
      → keys m ≡ keys n
      → keys (put dec k v m) ≡ keys (put dec k w n)
  unfolding put
  keys-put k v w [] [] e = refl
  keys-put k v w [] (y ∷ n) e = absurd (ground arith)
  keys-put k v w (x ∷ m) [] e = absurd (ground arith)
  keys-put k v w ((i, x) ∷ m) ((j, y) ∷ n) e = ground (arith, keys-put k v w m n)

  -- A key held on one side is held on the other, and its assignment adds no key.
  keys-put_held :
      (k : K) (v : V) (w : W) (m : List (K × V)) (n : List (K × W))
      → keys m ≡ keys n
      → get dec k m ≡ some v
      → keys n ≡ keys (put dec k w n)
  unfolding put get
  keys-put_held k v w [] n e g = absurd (ground arith)
  keys-put_held k v w (x ∷ m) [] e g = absurd (ground arith)
  keys-put_held k v w ((i, x) ∷ m) ((j, y) ∷ n) e g = ground (arith, keys-put_held k v w m n)

module _ (scores : Scores) (snapshots : Snapshots scores) where
  open scores use {Score}

  is_current_prop : (pair : Text × Score) → IsProp (IsCurrentPair scores snapshots pair)
  is_current_prop pair = hlevel

  -- Every pair that the loop keeps is low exactly if its peer is bad.
  peer_scores-IsCurrent :
      (conns : List Conn) (found : List (Text × Score))
      → IsCurrent scores snapshots found
      → IsCurrent scores snapshots (peer_scores scores snapshots conns found)
  unfolding peer_scores is_bad_peer
  peer_scores-IsCurrent [] found h = h
  peer_scores-IsCurrent (conn ∷ conns) found h =
      let pid = conn.remote_peer in
      let kept =
        All-put Text-discrete (IsCurrentPair scores snapshots) pid (score_of scores snapshots pid)
          found refl h in
      elim (Bool-cases
        (is_lower scores (get Text-discrete pid found) (score_of scores snapshots pid))) [
          | inl e ↦ rw e (peer_scores-IsCurrent conns _ kept)
          | inr e ↦ rw e (peer_scores-IsCurrent conns found h)
        ]

  -- The pairs have as many peers as the host counts.
  length-peer_scores :
      (conns : List Conn) (found : List (Text × Score)) (peers : List (Text × Unit {0}))
      → keys found ≡ keys peers
      → length (peer_scores scores snapshots conns found)
        ≡ length (peer_set any_direction conns peers)
  unfolding peer_scores peer_set
  length-peer_scores [] found peers e = length_of_keys Text-discrete found peers e
  length-peer_scores (conn ∷ conns) found peers e =
      let pid = conn.remote_peer in
      let score = score_of scores snapshots pid in
      let put_both = keys-put Text-discrete pid score tt found peers e in
      elim (Option-cases (get Text-discrete pid found)) [
        | inl none_held ↦ rw none_held (length-peer_scores conns _ _ put_both)
        | inr (prev, is_held) ↦
            let same = e ∙ keys-put_held Text-discrete pid prev tt found peers e is_held in
            elim (Bool-cases (is_lower scores (some prev) score)) [
              | inl low ↦ rw (is_held, low) (length-peer_scores conns _ _ put_both)
              | inr high ↦ rw (is_held, high) (length-peer_scores conns found _ same)
            ]
      ]

  ℕ_is_set : IsSet ℕ
  ℕ_is_set = hlevel

  abbrev count_one : Text × Score → ℕ → ℕ
  count_one _ n = suc n

  length-foldr : (xs : List (Text × Score)) → foldr count_one 0 xs ≡ length xs
  length-foldr [] = refl
  length-foldr (x ∷ xs) = omega (arith, length-foldr xs)

  length-Perm : (xs ys : List (Text × Score)) → Perm xs ys → length xs ≡ length ys
  length-Perm xs ys p =
      sym (length-foldr xs)
      ∙ (Perm.foldr-eq ℕ_is_set count_one (λ a b x. refl) p 0 ∙ length-foldr ys)

  -- The pairs of one round.
  abbrev pub pairs_of : (List (Text × Score) → List (Text × Score)) → Host → List (Text × Score)
  pairs_of sort h = sort (peer_scores scores snapshots h.conns [])

  -- With a sort that orders its input by ascending score, a round has one pair for each connected peer
  -- and closes the first of them: as many as exceed the target, and at least every peer whose score
  -- lies below the threshold.
  pub prune_lem :
      (sort : List (Text × Score) → List (Text × Score)) (h : Host)
      → ((xs : List (Text × Score)) → Perm (sort xs) xs)
      → ((xs : List (Text × Score)) → IsSorted scores (sort xs))
      → (length (pairs_of sort h) ≡ total_peer_count h)
        × (prune scores sort snapshots h
            ≡ map
                (λ pair. pair.0)
                (take
                  (max
                    (total_peer_count h
                      + neg_part (target_peer_count h)
                      - pos_part (target_peer_count h))
                    (bad_count scores snapshots (pairs_of sort h)))
                  (pairs_of sort h)))
  unfolding prune
  prune_lem sort h any sorted =
      let scored = peer_scores scores snapshots h.conns [] in
      let current = All-of_mem (IsCurrentPair scores snapshots) (sort scored) (λ pair m.
        mem_of_All (IsCurrentPair scores snapshots) pair scored (is_current_prop pair)
          ((Perm.mem_iff (any scored)).0 m) (peer_scores-IsCurrent h.conns [] tt)) in
      (
        length-Perm (sort scored) scored (any scored)
            ∙ unfold total_peer_count in length-peer_scores h.conns [] [] refl,
        prune_loop-start scores snapshots (total_peer_count h + neg_part (target_peer_count h))
            (pos_part (target_peer_count h)) (sort scored) (sorted scored) current,
      )
